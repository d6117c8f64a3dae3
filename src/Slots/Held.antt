-- ===== src/Slots/Held.antt =====
-- The number of references that the ref table keeps for a handle, and what each operation on the
-- table makes of it.
use mquickjs_kmp.Prelude.{
  ℕ, Bool, Option, set, ◌+◌, ◌-◌, ◌^◌, ◌<◌, ◌≡◌, refl, inl, inr, true, false, none, some, arith,
  if◌then◌else◌, Option-cases, ◌==◌, ltb, Bool-cases, length, ap, get_or-set, length-set,
}
use mquickjs_kmp.GcRefs.{GcRefs}
use mquickjs_kmp.Slots.Growth.{same, Grows-slot_get}
use mquickjs_kmp.Slots.Handles.{
  slot_get-at, slot_get-Found, slot_index-slot_handle, slot_gen-slot_handle, slot_handle-word,
  handle-injective, ref_retain-dead, ref_release-dead,
}
use mquickjs_kmp.Slots.Lookup.{slot_get-not_positive, slot_get-negative, slot_get-beyond}
use mquickjs_kmp.Slots.Placing.{
  Placed, refused, placed, slot_new-Placed, Placed-Handed, Handed, Reserved, no_slot, reserved,
  slot_reserve-Reserved,
}
use mquickjs_kmp.Slots.Preserve.{Valid}
use mquickjs_kmp.Slots.Refs.{lookup, lookup-ref_retain, lookup-ref_release}
use mquickjs_kmp.Slots.{
  Slot, Table, slot_get, slot_new, slot_reserve, slot_index, slot_handle, slot_at, blank, Index,
  negative, at, int32_max, is_not_positive, ref_retain, ref_release,
}

-- One for the handle in question, nothing for any other.
abbrev pub one : ℕ → ℕ → ℕ
one x r = if r == x then 1 else 0

abbrev count : {V : Type 0} → Option (V × ℕ) → ℕ
count none = 0
count (some (v, n)) = n

module _ (g : GcRefs) where
  unfoldable pub held : Table g → ℕ → ℕ
  held t x = count (lookup g t x)

  held-found : (t t' : Table g) (x : ℕ) → slot_get g t' x ≡ slot_get g t x → held t' x ≡ held t x
  unfolding held lookup
  held-found t t' x e = rw (held, lookup, e)

  -- A table whose slots are those of another one keeps the same.
  pub held-same : (t t' : Table g) → t'.slots ≡ t.slots → (x : ℕ) → held t' x ≡ held t x
  held-same t t' e x = held-found t t' x (Grows-slot_get t t' (same e) x)

  positive-word : (x : ℕ) → is_not_positive x ≡ false → x < 2 ^ 64
  unfolding is_not_positive
  positive-word x p = ground arith

  not_same : (x r : ℕ) → is_not_positive x ≡ false → is_not_positive r ≡ true → one x r ≡ 0
  not_same x r p q = ground (arith, ap is_not_positive)

  -- The handle 0, which stands for no handle, is not a positive one.
  pub one_zero : (x r : ℕ) → is_not_positive x ≡ false → (r == 0) ≡ true → one x r ≡ 0
  unfolding is_not_positive
  one_zero x r p z = ground arith

  Handed-held :
      {t t' : Table g} {v : g.Val} {r : ℕ}
      → Handed g t v r t'
      → (x : ℕ) → is_not_positive x ≡ false
      → held t' x ≡ held t x + one x r
  unfolding held
  Handed-held h x p = ground (arith, h.fresh, h.others x (positive-word x p))

  -- A slot whose handle is not positive is not found.
  hidden-held :
      (t₁ t' : Table g) (idx : ℕ) (s : Slot g.Val)
      → idx < length t₁.slots
      → idx < int32_max
      → (slot_at g t₁ idx).refcount ≡ 0
      → (slot_at g t₁ idx).gen < 2 ^ 32
      → t'.slots ≡ set t₁.slots idx s
      → s.gen ≡ (slot_at g t₁ idx).gen
      → is_not_positive (slot_handle idx (slot_at g t₁ idx).gen) ≡ true
      → (x : ℕ) → is_not_positive x ≡ false
      → slot_get g t' x ≡ slot_get g t₁ x
  hidden-held t₁ t' idx s h small z gen e same_gen q x p = go (slot_index x) refl
    where
      go : (i : Index) → slot_index x ≡ i → slot_get g t' x ≡ slot_get g t₁ x
      go negative i = ground (arith, i, slot_get-negative t₁ x i, slot_get-negative t' x i)
      go (at j) i = elim (Bool-cases (ltb j (length t₁.slots))) [
        | inl k ↦ ground (
          arith,
          i,
          slot_get-at t₁ x j p i (ground arith),
          slot_get-at t' x j p i (ground (arith, ap length e, length-set t₁.slots idx s)),
          e,
          get_or-set t₁.slots idx j s (blank g) h,
          slot_index-slot_handle idx (slot_at g t₁ idx).gen (omega arith),
          slot_gen-slot_handle idx (slot_at g t₁ idx).gen gen,
          handle-injective x (slot_handle idx (slot_at g t₁ idx).gen) idx (positive-word x p)
              (slot_handle-word idx (slot_at g t₁ idx).gen),
          ap is_not_positive,
        )
        | inr k ↦ ground (
          arith,
          slot_get-beyond t₁ x j i (ground arith),
          slot_get-beyond t' x j i (ground (arith, ap length e, length-set t₁.slots idx s)),
        )
      ]

  Placed-held :
      {t : Table g} {v : g.Val} {r : ℕ × Table g}
      → Placed g t v r
      → (x : ℕ) → is_not_positive x ≡ false
      → held r.1 x ≡ held t x + one x r.0
  unfolding is_not_positive
  Placed-held {t} (refused t' e) x p = rw (held-same t t' e x) (ground arith)
  Placed-held {t} {v} {r} (placed t₁ t' idx gr h small z gen e) x p =
      elim (Bool-cases (is_not_positive (slot_handle idx (slot_at g t₁ idx).gen))) [
        | inr q ↦ Handed-held (Placed-Handed g (placed t₁ t' idx gr h small z gen e) q) x p
        | inl q ↦ omega (
          arith,
          held-found t₁ t' x (hidden-held t₁ t' idx _ h small z gen e refl q x p),
          held-found t t₁ x (Grows-slot_get t t₁ gr x),
          not_same x (slot_handle idx (slot_at g t₁ idx).gen) p q,
        )
      ]

  -- A new handle is given one reference, and every other one keeps its own.
  pub slot_new-held :
      (t : Table g) (v : g.Val)
      → Valid g t
      → (x : ℕ) → is_not_positive x ≡ false
      → held (slot_new g t v).1 x ≡ held t x + one x (slot_new g t v).0
  slot_new-held t v ok = Placed-held (slot_new-Placed g t v ok)

  held-dead : (t : Table g) (x : ℕ) → slot_get g t x ≡ none → held t x ≡ 0
  unfolding held lookup
  held-dead t x e = rw (held, lookup, e)

  -- A retain counts only for a handle with a reference.
  pub ref_retain-held :
      (t : Table g) (r x : ℕ)
      → is_not_positive x ≡ false
      → held (ref_retain g t r) x ≡ (if held t x == 0 then 0 else held t x + one x r)
  unfolding held lookup
  ref_retain-held t r x p = elim (Option-cases (slot_get g t r)) [
    | inl e ↦ ground (arith, ref_retain-dead t r e, held-dead t r e, ap (held t))
    | inr (s, e) ↦
        (let (idx, f) = slot_get-Found t r e in
          ground (
            arith,
            e,
            f.live,
            lookup-ref_retain g t r x (positive-word r f.positive) (positive-word x p),
          ))
  ]

  -- A release takes one reference of its handle, if there is one.
  pub ref_release-held :
      (t : Table g) (r x : ℕ)
      → is_not_positive x ≡ false
      → held (ref_release g t r) x ≡ held t x - one x r
  unfolding held
  ref_release-held t r x p = elim (Bool-cases (is_not_positive r)) [
    | inl q ↦ ground (arith, ref_release-dead t r (slot_get-not_positive t r q), not_same x r p q)
    | inr q ↦ ground (arith, lookup-ref_release g t r x (positive-word r q) (positive-word x p))
  ]

  -- A handle with references is live.
  pub held-live :
      (t : Table g) (x : ℕ)
      → 0 < held t x
      → (s : Slot g.Val) × (slot_get g t x ≡ some s) × (s.refcount ≡ held t x)
  unfolding held lookup
  held-live t x h = elim (Option-cases (slot_get g t x)) [
    | inl e ↦ absurd (omega (arith, held-dead t x e))
    | inr (s, e) ↦ (s, e, rw (held, lookup, e) refl)
  ]

  -- A reserved slot changes no count.
  pub slot_reserve-held :
      (t : Table g) → Valid g t → (x : ℕ) → held (slot_reserve g t).1 x ≡ held t x
  slot_reserve-held t ok = go (slot_reserve-Reserved g t ok)
    where
      go : {r : Bool × Table g} → Reserved g t r → (x : ℕ) → held r.1 x ≡ held t x
      go (no_slot t' e) = held-same t t' e
      go (reserved t' i e gr) = λ x. held-found t t' x (Grows-slot_get t t' gr x)

  -- One without references is not.
  pub held-none : (t : Table g) (x : ℕ) → held t x ≡ 0 → slot_get g t x ≡ none
  unfolding held lookup
  held-none t x h = elim (Option-cases (slot_get g t x)) [
    | inl e ↦ e
    | inr (s, e) ↦
        (let (idx, f) = slot_get-Found t x e in
          let same : held t x ≡ s.refcount = rw (held, lookup, e) refl in
          absurd (omega (arith, h, same, f.live)))
  ]
