-- ===== src/Slots/Refs.antt =====
-- The ref table and its abstract view, a finite map from handles to values with a count.

use mquickjs_kmp.Prelude.{
  ℕ, ◌+◌, ◌-◌, ◌%◌, ◌^◌, ◌<◌, ◌≡◌, refl, ap, ◌∙◌, inl, inr, Option, none, some, arith,
  if◌then◌else◌, Option-cases, set, ◌==◌, Bool-cases,
}
use mquickjs_kmp.GcRefs.{GcRefs}
use mquickjs_kmp.Slots.Handles.{
  Found, slot_get-Found, ref_retain-at, ref_retain-dead, ref_release-more, ref_release-last,
  ref_release-dead,
}
use mquickjs_kmp.Slots.Lookup.{Written, slot_get-Written}
use mquickjs_kmp.Slots.{Slot, Table, slot_get, ref_retain, ref_release, free_at}

-- The value behind a handle and the number of releases that it still takes.
abbrev pub entry : {V : Type 0} → Slot V → V × ℕ
entry s = (s.val, s.refcount)

unfoldable pub lookup : (g : GcRefs) → Table g → ℕ → Option (g.Val × ℕ)
lookup g t ref = elim (slot_get g t ref) [ none ↦ none | some s ↦ some (entry s) ]

abbrev pub one_more : {V : Type 0} → Option (V × ℕ) → Option (V × ℕ)
one_more none = none
one_more (some (v, n)) = some (v, n + 1)

-- The last reference goes with its entry.
abbrev pub one_less : {V : Type 0} → Option (V × ℕ) → Option (V × ℕ)
one_less none = none
one_less (some (v, n)) = if n - 1 == 0 then none else some (v, n - 1)

module _ (g : GcRefs) where
  -- A write to the slot of a live handle that leaves no other handle of the slot alive.
  Found-Written :
      {t : Table g} {r idx : ℕ} {s : Slot g.Val}
      → Found t r s idx
      → r < 2 ^ 64
      → (t' : Table g) (s' : Slot g.Val) → t'.slots ≡ set t.slots idx s'
      → (0 < s'.refcount → s'.gen ≡ s.gen)
      → Written t t' r idx s'
  Found-Written f hr t' s' e gen = record {
    within = f.within;
    slots = e;
    positive = f.positive;
    index = f.index;
    word = hr;
    after = λ z. gen z ∙ f.same_gen;
    before = λ _. ground (arith, f.is_slot, f.same_gen);
  }

  -- What a retain leaves in it.
  pub retain-Written :
      (t : Table g) (r : ℕ) {idx : ℕ} {s : Slot g.Val}
      → r < 2 ^ 64
      → slot_get g t r ≡ some s
      → Found t r s idx
      → Written t (ref_retain g t r) r idx (record s { refcount = s.refcount + 1 })
  retain-Written t r hr e f =
      Found-Written f hr (ref_retain g t r) _
        (ap (λ (u : Table g). u.slots) (ref_retain-at t r e f.index)) (λ _. refl)

  -- A retain adds one to the count of its handle and changes no other handle.
  pub lookup-ref_retain :
      (t : Table g) (r ref : ℕ)
      → r < 2 ^ 64
      → ref < 2 ^ 64
      → lookup g (ref_retain g t r) ref
        ≡ (if ref == r then one_more (lookup g t ref) else lookup g t ref)
  unfolding lookup
  lookup-ref_retain t r ref hr h = elim (Option-cases (slot_get g t r)) [
    | inl e ↦ ground (arith, e, ref_retain-dead t r e)
    | inr (s, e) ↦
        (let (idx, f) = slot_get-Found t r e in
          let w = retain-Written t r hr e f in ground (arith, e, slot_get-Written w ref h))
  ]

  -- What a release leaves in the slot of a live handle.
  pub release-Written :
      (t : Table g) (r : ℕ) {idx : ℕ} {s : Slot g.Val}
      → r < 2 ^ 64
      → slot_get g t r ≡ some s
      → Found t r s idx
      → (s' : Slot g.Val) × Written t (ref_release g t r) r idx s'
        × (s'.refcount ≡ s.refcount - 1)
        × (0 < s'.refcount → s'.val ≡ s.val)
        × (s'.gen ≡ (if s.refcount == 1 then (s.gen + 1) % 2 ^ 32 else s.gen))
  unfolding free_at
  release-Written t r {idx} {s} hr e f = elim (Bool-cases (s.refcount == 1)) [
    | inr more ↦
        (let s' = record s { refcount = s.refcount - 1 } in
          (
            s',
            Found-Written f hr (ref_release g t r) s'
                (ap (λ (u : Table g). u.slots)
                  (ref_release-more t r e f.index (ground (arith, f.live))))
                (λ _. refl),
            refl,
            (λ _. refl),
            ground arith,
          ))
    | inl last ↦ (
      _,
      Found-Written f hr (ref_release g t r) _
          (ap (λ (u : Table g). u.slots)
            (ref_release-last t r e f.index f.within f.is_slot (ground arith)))
          (λ z. absurd (omega arith)),
      ground arith,
      (λ z. absurd (omega arith)),
      ground (arith, f.is_slot),
    )
  ]

  -- A release takes one off, drops the entry with its last reference, and changes no other handle.
  pub lookup-ref_release :
      (t : Table g) (r ref : ℕ)
      → r < 2 ^ 64
      → ref < 2 ^ 64
      → lookup g (ref_release g t r) ref
        ≡ (if ref == r then one_less (lookup g t ref) else lookup g t ref)
  unfolding lookup
  lookup-ref_release t r ref hr h = elim (Option-cases (slot_get g t r)) [
    | inl e ↦ ground (arith, e, ref_release-dead t r e)
    | inr (s, e) ↦
        (let (idx, f) = slot_get-Found t r e in
          let (s', w, count, val, _) = release-Written t r hr e f in
          ground (arith, e, slot_get-Written w ref h, count, val))
  ]
