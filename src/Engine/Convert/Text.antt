-- ===== src/Engine/Convert/Text.antt =====
-- Strings from the host into JavaScript and back.
use mquickjs_kmp.Prelude.{
  ℕ, zero, suc, ◌*◌, ◌-◌, ◌≤◌, ◌==◌, ltb, ◌≡◌, refl, ap, ◌∙◌, Bool, true, false, Bool-cases, inl,
  inr, some, List, [], ◌∷◌, if◌then◌else◌, arith, length,
}
use mquickjs_kmp.Buffer.{grow_cap, buf_append, buf_reset, publish, next_answer}
use mquickjs_kmp.Engine.Actions.{Dest, to_str, to_stack, to_fresh, replace_text, tagged}
use mquickjs_kmp.Engine.Convert.{
  text_or_empty, copy_js_string, text_to_out, value_to_out, from_host, value_from_host,
}
use mquickjs_kmp.Engine.{Bytes, Tag, Value, Doubles, Engine, pure, ◌>>=◌, case_of, ask, Vm}
use mquickjs_kmp.GcRefs.{GcRefs}

grow_cap_keeps : (fuel cap len n : ℕ) → cap ≤ grow_cap fuel cap len n
unfolding grow_cap
grow_cap_keeps zero cap len n = omega arith
grow_cap_keeps (suc fuel) cap len n = ground (arith, grow_cap_keeps fuel (cap * 2) len n)

no_text : (p : Bytes) → length p ≡ 0 → [] ≡ p
no_text [] h = refl
no_text (b ∷ p) h = absurd (omega (arith, h))

-- A text that is appended to an empty buffer is what publish then shows, also when the buffer is NULL.
publish_grown :
    (p : Bytes) (cap n : ℕ)
    → publish (record { bytes = p; cap = grow_cap 64 (if cap == 0 then 64 else cap) 0 n }) ≡ p
unfolding publish
publish_grown p cap n =
    let least = grow_cap_keeps 64 (if cap == 0 then 64 else cap) 0 n in
    let full : (grow_cap 64 (if cap == 0 then 64 else cap) 0 n == 0) ≡ false =
      ground (arith, least) in
    rw full refl

publish_kept :
    (p : Bytes) (cap : ℕ)
    → ltb cap (length p) ≡ false
    → publish (record { bytes = p; cap = cap }) ≡ p
unfolding publish
publish_kept p cap h = elim (Bool-cases (cap == 0)) [
  | inl k ↦ rw k (no_text p (ground (arith, h, k)))
  | inr k ↦ rw k refl
]

appended :
    (allocs : List Bool) (cap : ℕ) (p : Bytes)
    → next_answer allocs ≡ true
    → ((buf_append allocs (record { bytes = []; cap = cap }) p).ok ≡ true)
      × (publish (buf_append allocs (record { bytes = []; cap = cap }) p).buffer ≡ p)
unfolding buf_append
appended allocs cap p h = elim (Bool-cases (ltb (cap - 0) (length p))) [
  | inl k ↦ rw (k, h) (refl, publish_grown p cap (length p))
  | inr k ↦ rw k (refl, publish_kept p cap (ground (arith, k)))
]

module _ {g : GcRefs} where
  replace_text_lem :
      (dest : Dest) (p : Bytes) (e : Engine g)
      → next_answer e.table.allocs ≡ true
      → ((replace_text g dest p e).0.0 ≡ true) × ((replace_text g dest p e).0.1 ≡ p)
  unfolding replace_text buf_reset
  replace_text_lem to_str p e h = appended e.table.allocs e.out_str.cap p h
  replace_text_lem to_stack p e h = appended e.table.allocs e.out_stack.cap p h
  replace_text_lem to_fresh p e h = appended e.table.allocs 0 p h

module _ {g : GcRefs} {d : Doubles} (vm : Vm g d) where
  -- A value of JavaScript that is a string of the text p, in an engine. JS_ToCStringLen of it works in
  -- the engine's own memory.
  pub record IsText (p : Bytes) (w : g.Val) (e : Engine g) : Type 0 where
    pub not_undefined : vm.is_undefined w ≡ false
    pub not_null : vm.is_null w ≡ false
    pub not_bool : vm.is_bool w ≡ false
    pub not_number : vm.is_number e w ≡ false
    pub string : vm.is_string e w ≡ true
    pub text : (vm.to_c_string w e).0 ≡ some p
    pub allocs : (vm.to_c_string w e).1.table.allocs ≡ e.table.allocs

  -- What is assumed of JS_NewStringLen: a string made without an exception from a text that the engine takes
  -- for UTF-8 is read back.
  pub record TextLaws : Type 0 where
    pub utf8 : Bytes → Bool
    pub new_string :
        (p : Bytes) (e : Engine g)
        → utf8 p ≡ true
        → vm.is_exception (vm.new_string_len p e).0 ≡ false
        → IsText p (vm.new_string_len p e).0 (vm.new_string_len p e).1

  copy_js_string_lem :
      (w : g.Val) (dest : Dest) (p : Bytes) (e : Engine g)
      → IsText p w e
      → next_answer e.table.allocs ≡ true
      → (copy_js_string vm w dest e).0 ≡ some p
  unfolding copy_js_string case_of pure ◌>>=◌
  copy_js_string_lem w dest p e t h =
      let (ok, same) =
        replace_text_lem dest p (vm.to_c_string w e).1 (ap next_answer t.allocs ∙ h) in
      rw t.text (rw ok (ap some same))

  text_to_out_lem :
      (w : g.Val) (dest : Dest) (p : Bytes) (e : Engine g)
      → IsText p w e
      → next_answer e.table.allocs ≡ true
      → (text_to_out vm Tag.string w dest e).0
        ≡ (true, record (tagged d Tag.string) { str = some p })
  unfolding text_to_out case_of pure ◌>>=◌
  text_to_out_lem w dest p e t h = rw (copy_js_string_lem w dest p e t h) refl

  text_out :
      (w : g.Val) (dest : Dest) (flags : ℕ) (p : Bytes) (e : Engine g)
      → IsText p w e
      → next_answer e.table.allocs ≡ true
      → (value_to_out vm w dest flags e).0 ≡ (true, record (tagged d Tag.string) { str = some p })
  unfolding value_to_out ask
  text_out w dest flags p e t h =
      rw (t.not_undefined, t.not_null, t.not_bool, t.not_number, t.string)
        (text_to_out_lem w dest p e t h)

  string_trip :
      (laws : TextLaws) (dest : Dest) (flags : ℕ) (tag : Tag) (v : Value d.Num) (e : Engine g)
      → tag ≡ Tag.string
      → laws.utf8 (text_or_empty v.str) ≡ true
      → vm.is_exception (from_host vm tag v e).0 ≡ false
      → next_answer (from_host vm tag v e).1.table.allocs ≡ true
      → (value_to_out vm (from_host vm tag v e).0 dest flags (from_host vm tag v e).1).0
        ≡ (true, record (tagged d Tag.string) { str = some (text_or_empty v.str) })
  unfolding from_host
  string_trip laws dest flags tag v e is_string valid = rw is_string (λ made memory.
      text_out _ dest flags (text_or_empty v.str) _
        (laws.new_string (text_or_empty v.str) e valid made) memory)

  -- Where the engine reads back the strings that it has made from UTF-8, a string from the host, whose
  -- conversion by value_from_host throws no exception, comes back from value_to_out with its bytes, zero
  -- bytes included, if the allocator grants the one request that there may be; a missing text is an empty
  -- one, whatever the flags and the buffer.
  pub string_value_to_out-value_from_host :
      (laws : TextLaws) (dest : Dest) (flags : ℕ) (v : Value d.Num) (e : Engine g)
      → v.tag ≡ Tag.string
      → laws.utf8 (text_or_empty v.str) ≡ true
      → vm.is_exception (value_from_host vm v e).0 ≡ false
      → next_answer (value_from_host vm v e).1.table.allocs ≡ true
      → (value_to_out vm (value_from_host vm v e).0 dest flags (value_from_host vm v e).1).0
        ≡ (true, record (tagged d Tag.string) { str = some (text_or_empty v.str) })
  unfolding value_from_host
  string_value_to_out-value_from_host laws dest flags v e = string_trip laws dest flags v.tag v e
