-- ===== src/Lifecycle/Ledger.antt =====
-- The host's own books of the handles that it was given, kept from the calls that it makes of the
-- functions of native/shim/mquickjs_kmp.h and from what they leave in *out.
pub mod Bounds
use mquickjs_kmp.Prelude.{
  ◌≤◌, ◌^◌, length, ℕ, ◌+◌, ◌-◌, ◌≡◌, refl, ◌<◌, ◌∙◌, false, some, List, [], ◌∷◌, arith, ◌==◌,
  if◌then◌else◌,
}
use mquickjs_kmp.Engine.Books.Calls.{ref_call-Books}
use mquickjs_kmp.Engine.Books.Host.{define_function-Books}
use mquickjs_kmp.Engine.Books.Laws.{VmBooks}
use mquickjs_kmp.Engine.Books.Refs.{
  eval-Books, ref_get-Books, ref_get_index-Books, ref_set-Books, ref_to_json-Books,
  run_program-Books,
}
use mquickjs_kmp.Engine.Books.{Books, lent_by, lent_with}
use mquickjs_kmp.Engine.Entries.{Entry}
use mquickjs_kmp.Engine.Errors.{RefCall, Refused, call_ref, dead_handle-Refused}
use mquickjs_kmp.Bytecode.{Build}
use mquickjs_kmp.Bytecode.Load.Books.{load_bytecode-Books}
use mquickjs_kmp.Lifecycle.Books.{dump_memory-Books}
use mquickjs_kmp.Lifecycle.Commands.{Command, obey, obey_all, reply, replies}
use mquickjs_kmp.Engine.{Value, Doubles, Engine, Vm}
use mquickjs_kmp.GcRefs.{GcRefs, GcRefsLaws}
use mquickjs_kmp.Slots.Held.{held, one, ref_retain-held, ref_release-held, held-live, held-none}
use mquickjs_kmp.Slots.Preserve.{Valid, ref_retain-Valid, ref_release-Valid}
use mquickjs_kmp.Slots.{Slot, slot_get, is_not_positive}

-- The page for the handle `x`: the references that the host holds once it has made the call and has
-- seen `out`. A reference comes with a ref in *out and with a retain of a handle that it still
-- holds, and goes with a release.
abbrev pub book : {Num : Type 0} → ℕ → Command Num → Value Num → ℕ → ℕ
book x (Command.entry (Entry.retain ref)) out n = if n == 0 then 0 else n + one x ref
book x (Command.entry (Entry.release ref)) out n = n - one x ref
book x _ out n = n + lent_with x out

abbrev pub book_all : {Num : Type 0} → ℕ → List (Command Num) → List (Value Num) → ℕ → ℕ
book_all x [] outs n = n
book_all x (c ∷ cs) [] n = n
book_all x (c ∷ cs) (out ∷ outs) n = book_all x cs outs (book x c out n)

module _ {g : GcRefs} (laws : GcRefsLaws g) (x : ℕ) (positive : is_not_positive x ≡ false)
    {d : Doubles} (vm : Vm g d) (k : VmBooks x vm) (b : Build) where
  -- A valid table, with as many references for `x` as the page says.
  record IsBooked (n : ℕ) (e : Engine g) : Type 0 where
    valid : Valid g e.table
    count : held g e.table x ≡ n

  lends_once :
      {A : Type 0} {lent : A → ℕ} {m : Engine g → A × Engine g}
      → Books x 0 lent m
      → (e : Engine g) {n : ℕ} → IsBooked n e
      → IsBooked (n + lent (m e).0) (m e).1
  lends_once b e h = record {
    valid = b.valid e h.valid;
    count = omega (arith, h.count, b.even e h.valid (omega arith));
  }

  obey-IsBooked :
      (c : Command d.Num) (e : Engine g) {n : ℕ}
      → IsBooked n e
      → IsBooked (book x c (reply vm b c e) n) (obey vm b c e)
  obey-IsBooked (Command.entry (Entry.evaluate code filename flags)) e h =
      lends_once (eval-Books laws positive vm k code filename flags) e h
  obey-IsBooked (Command.entry (Entry.define name fn_id flags)) e h =
      lends_once (define_function-Books laws positive vm k name fn_id flags) e h
  obey-IsBooked (Command.entry (Entry.get ref name flags)) e h =
      lends_once (ref_get-Books laws positive vm k ref name flags) e h
  obey-IsBooked (Command.entry (Entry.get_index ref index flags)) e h =
      lends_once (ref_get_index-Books laws positive vm k ref index flags) e h
  obey-IsBooked (Command.entry (Entry.set ref name value)) e h =
      lends_once (ref_set-Books laws positive vm k ref name value) e h
  obey-IsBooked (Command.entry (Entry.call ref this_ref args flags)) e h =
      lends_once (ref_call-Books laws positive vm k ref this_ref args flags) e h
  obey-IsBooked (Command.entry (Entry.to_json ref)) e h =
      lends_once (ref_to_json-Books laws positive vm k ref) e h
  obey-IsBooked (Command.entry (Entry.run ref flags)) e h =
      lends_once (run_program-Books laws positive vm k ref flags) e h
  obey-IsBooked (Command.entry (Entry.retain ref)) e h = record {
    valid = ref_retain-Valid g laws e.table ref h.valid;
    count = rw h.count at (ref_retain-held g e.table ref x positive);
  }
  obey-IsBooked (Command.entry (Entry.release ref)) e h = record {
    valid = ref_release-Valid g laws e.table ref h.valid;
    count = rw h.count at (ref_release-held g e.table ref x positive);
  }
  obey-IsBooked (Command.load buf) e h =
      lends_once (load_bytecode-Books laws positive vm k b buf) e h
  obey-IsBooked Command.dump e h = lends_once (dump_memory-Books vm k) e h
  obey-IsBooked Command.interrupt_run e h = record {
    valid = h.valid;
    count = omega (arith, h.count);
  }

  obey_all-IsBooked :
      (cs : List (Command d.Num)) (e : Engine g) {n : ℕ}
      → IsBooked n e
      → IsBooked (book_all x cs (replies vm b cs e) n) (obey_all vm b cs e)
  obey_all-IsBooked [] e h = h
  obey_all-IsBooked (c ∷ cs) e h = obey_all-IsBooked cs (obey vm b c e) (obey-IsBooked c e h)

  -- After any sequence of host calls from an engine with a valid table, the number of references
  -- that the table keeps for the positive handle `x` is the one that the host works out for itself
  -- from the number at the start, its own calls and what they left in *out.
  -- This is for JavaScript engines whose calls, callbacks included, keep no reference of `x`.
  pub held-book_all :
      (cs : List (Command d.Num)) (e : Engine g)
      → Valid g e.table
      → held g (obey_all vm b cs e).table x ≡ book_all x cs (replies vm b cs e) (held g e.table x)
  held-book_all cs e v = (obey_all-IsBooked cs e (record { valid = v; count = refl })).count

  -- After any sequence of host calls from a valid table, as long as the host holds a reference of
  -- the positive handle `x` by its own books, slot_get finds a slot for it, with that many
  -- references.
  -- This is for JavaScript engines whose calls, callbacks included, keep no reference of `x`.
  pub kept_until_released :
      (cs : List (Command d.Num)) (e : Engine g)
      → Valid g e.table
      → 0 < book_all x cs (replies vm b cs e) (held g e.table x)
      → (s : Slot g.Val) × (slot_get g (obey_all vm b cs e).table x ≡ some s)
        × (s.refcount ≡ book_all x cs (replies vm b cs e) (held g e.table x))
  kept_until_released cs e v h =
      let same = held-book_all cs e v in
      let (s, found, count) = held-live g (obey_all vm b cs e).table x (omega (arith, same)) in
      (s, found, count ∙ same)

  -- After any sequence of host calls from a valid table, once the host has released by its own books
  -- every reference of the positive handle `x`, each call with that handle returns -1 with an
  -- exception in *out, and changes nothing of the engine but the text buffer of that message and
  -- what the allocator has still to answer.
  -- This is for JavaScript engines whose calls, callbacks included, keep no reference of `x`.
  pub released_handle-Refused :
      (cs : List (Command d.Num)) (e : Engine g)
      → Valid g e.table
      → book_all x cs (replies vm b cs e) (held g e.table x) ≡ 0
      → (c : RefCall d.Num) → Refused d (obey_all vm b cs e) (call_ref vm c x (obey_all vm b cs e))
  released_handle-Refused cs e v none_left c =
      dead_handle-Refused vm c x _ (held-none g _ x (held-book_all cs e v ∙ none_left))
