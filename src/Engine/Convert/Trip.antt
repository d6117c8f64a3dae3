-- ===== src/Engine/Convert/Trip.antt =====
-- Plain values from the host into JavaScript and back.
use mquickjs_kmp.Prelude.{
  ℕ, ◌≡◌, refl, ap, ◌∙◌, Bool, true, false, Bool-cases, inl, inr, not, ◌&&◌, some, if◌then◌else◌,
  arith,
}
use mquickjs_kmp.Engine.Actions.{Dest, tagged}
use mquickjs_kmp.Engine.Convert.{
  number_to_out, value_to_out, number_from_host, from_host, value_from_host,
}
use mquickjs_kmp.Engine.{Tag, Value, Doubles, Engine, pure, ◌>>=◌, case_of, ask, Vm}
use mquickjs_kmp.GcRefs.{GcRefs}

-- What is assumed of the doubles: an int32_t that compares equal to a double is that double, unless it is
-- -0, since the conversion of an int32_t never gives -0.
pub record DoublesLaws (d : Doubles) : Type 0 where
  pub exact :
      (i : ℕ) (x : d.Num)
      → d.eq (d.of_int32 i) x ≡ true
      → (d.is_zero x && d.signbit x) ≡ false
      → d.of_int32 i ≡ x

module _ {g : GcRefs} {d : Doubles} (vm : Vm g d) where
  -- A value of JavaScript that is the number x, in an engine.
  pub record IsNumber (x : d.Num) (w : g.Val) (e : Engine g) : Type 0 where
    pub not_undefined : vm.is_undefined w ≡ false
    pub not_null : vm.is_null w ≡ false
    pub not_bool : vm.is_bool w ≡ false
    pub number : vm.is_number e w ≡ true
    pub value : (vm.to_number w e).0 ≡ some x

  -- What is assumed of the calls on plain values: the engine tells them apart, and a number that was made
  -- without an exception is read back.
  pub record PlainLaws : Type 0 where
    pub undefined : vm.is_undefined g.undefined ≡ true
    pub null_not_undefined : vm.is_undefined vm.null_value ≡ false
    pub null : vm.is_null vm.null_value ≡ true
    pub bool_not_undefined : (b : Bool) → vm.is_undefined (vm.new_bool b) ≡ false
    pub bool_not_null : (b : Bool) → vm.is_null (vm.new_bool b) ≡ false
    pub bool : (b : Bool) → vm.is_bool (vm.new_bool b) ≡ true
    pub truth : (b : Bool) → vm.is_true (vm.new_bool b) ≡ b
    pub int32 :
        (i : ℕ) (e : Engine g)
        → vm.is_exception (vm.new_int32 i e).0 ≡ false
        → IsNumber (d.of_int32 i) (vm.new_int32 i e).0 (vm.new_int32 i e).1
    pub float64 :
        (x : d.Num) (e : Engine g)
        → vm.is_exception (vm.new_float64 x e).0 ≡ false
        → IsNumber x (vm.new_float64 x e).0 (vm.new_float64 x e).1

-- The tags of plain values, and the value that stands for one: a Boolean is 0 or 1.
abbrev pub is_plain : Tag → Bool
is_plain Tag.undefined = true
is_plain Tag.null = true
is_plain Tag.bool = true
is_plain Tag.number = true
is_plain _ = false

abbrev pub plain : (d : Doubles) → Tag → d.Num → Value d.Num
plain d Tag.bool x = record (tagged d Tag.bool) {
  num = d.of_ℕ (if not (d.is_zero x) then 1 else 0);
}
plain d Tag.number x = record (tagged d Tag.number) { num = x }
plain d tag x = tagged d tag

module _ {g : GcRefs} {d : Doubles} (vm : Vm g d) (dest : Dest) (flags : ℕ) where
  undefined_out :
      (w : g.Val) (e : Engine g)
      → vm.is_undefined w ≡ true
      → (value_to_out vm w dest flags e).0 ≡ (true, tagged d Tag.undefined)
  unfolding value_to_out pure
  undefined_out w e h = rw h refl

  null_out :
      (w : g.Val) (e : Engine g)
      → vm.is_undefined w ≡ false
      → vm.is_null w ≡ true
      → (value_to_out vm w dest flags e).0 ≡ (true, tagged d Tag.null)
  unfolding value_to_out pure
  null_out w e h k = rw (h, k) refl

  bool_out :
      (w : g.Val) (e : Engine g) (b : Bool)
      → vm.is_undefined w ≡ false
      → vm.is_null w ≡ false
      → vm.is_bool w ≡ true
      → vm.is_true w ≡ b
      → (value_to_out vm w dest flags e).0
        ≡ (true, record (tagged d Tag.bool) { num = d.of_ℕ (if b then 1 else 0) })
  unfolding value_to_out pure
  bool_out w e b h k l m = rw (h, k, l, m) refl

  number_to_out_lem :
      (w : g.Val) (e : Engine g) (x : d.Num)
      → (vm.to_number w e).0 ≡ some x
      → (number_to_out vm w e).0 ≡ (true, record (tagged d Tag.number) { num = x })
  unfolding number_to_out case_of pure ◌>>=◌
  number_to_out_lem w e x h = rw h refl

  number_out :
      (w : g.Val) (e : Engine g) (x : d.Num)
      → IsNumber vm x w e
      → (value_to_out vm w dest flags e).0 ≡ (true, record (tagged d Tag.number) { num = x })
  unfolding value_to_out ask
  number_out w e x n =
      rw (n.not_undefined, n.not_null, n.not_bool, n.number) (number_to_out_lem w e x n.value)

  module _ (dl : DoublesLaws d) (laws : PlainLaws vm) where
    -- The number that number_from_host makes, by the branch that it takes.
    int32_out :
        (x : d.Num) (e : Engine g)
        → d.eq (d.of_int32 (d.to_int32 x)) x ≡ true
        → (d.is_zero x && d.signbit x) ≡ false
        → vm.is_exception (vm.new_int32 (d.to_int32 x) e).0 ≡ false
        → (value_to_out vm
            (vm.new_int32 (d.to_int32 x) e).0
            dest
            flags
            (vm.new_int32 (d.to_int32 x) e).1).0
          ≡ (true, record (tagged d Tag.number) { num = x })
    int32_out x e same plus made =
        number_out _ _ (d.of_int32 (d.to_int32 x)) (laws.int32 (d.to_int32 x) e made)
        ∙ ap (λ y. (true, record (tagged d Tag.number) { num = y }))
            (dl.exact (d.to_int32 x) x same plus)

    number_trip :
        (x : d.Num) (e : Engine g)
        → vm.is_exception (number_from_host vm x e).0 ≡ false
        → (value_to_out vm (number_from_host vm x e).0 dest flags (number_from_host vm x e).1).0
          ≡ (true, record (tagged d Tag.number) { num = x })
    unfolding number_from_host
    number_trip x e = elim (Bool-cases (d.eq (d.of_int32 (d.to_int32 x)) x)) [
      | inr h ↦ rw h (λ made. number_out _ _ x (laws.float64 x e made))
      | inl h ↦ elim (Bool-cases (d.is_zero x && d.signbit x)) [
        | inl k ↦ rw (h, k) (λ made. number_out _ _ x (laws.float64 x e made))
        | inr k ↦ rw (h, k) (int32_out x e h k)
      ]
    ]

    plain_trip :
        (tag : Tag) (v : Value d.Num) (e : Engine g)
        → is_plain tag ≡ true
        → vm.is_exception (from_host vm tag v e).0 ≡ false
        → (value_to_out vm (from_host vm tag v e).0 dest flags (from_host vm tag v e).1).0
          ≡ (true, plain d tag v.num)
    unfolding from_host pure
    plain_trip Tag.undefined v e p made = undefined_out _ e laws.undefined
    plain_trip Tag.null v e p made = null_out _ e laws.null_not_undefined laws.null
    plain_trip Tag.bool v e p made =
        bool_out _ e (not (d.is_zero v.num)) (laws.bool_not_undefined _) (laws.bool_not_null _)
          (laws.bool _) (laws.truth _)
    plain_trip Tag.number v e p made = number_trip v.num e made
    plain_trip Tag.string v e p made = absurd (ground (arith, p))
    plain_trip Tag.object v e p made = absurd (ground (arith, p))
    plain_trip Tag.exception v e p made = absurd (ground (arith, p))
    plain_trip Tag.ref v e p made = absurd (ground (arith, p))
    plain_trip (Tag.other n) v e p made = absurd (ground (arith, p))

    -- Where the engine tells plain values apart and reads back the numbers it has made, undefined, null, a
    -- Boolean or a number that value_from_host has made without an exception comes back from
    -- value_to_out with its tag, whatever the flags: a number is the double that it was, -0 and numbers
    -- that are no int32_t included, and a Boolean is 1 for every number but zero, and 0 for zero.
    pub value_to_out-value_from_host :
        (v : Value d.Num) (e : Engine g)
        → is_plain v.tag ≡ true
        → vm.is_exception (value_from_host vm v e).0 ≡ false
        → (value_to_out vm (value_from_host vm v e).0 dest flags (value_from_host vm v e).1).0
          ≡ (true, plain d v.tag v.num)
    unfolding value_from_host
    value_to_out-value_from_host v e = plain_trip v.tag v e
