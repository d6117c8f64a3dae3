-- ===== src/Slots/Lookup.antt =====
-- The ref table as a map from handles to counted values: what each operation does to every handle.
use mquickjs_kmp.Prelude.{
  ℕ, ◌^◌, ◌≤◌, ◌<◌, ◌≡◌, refl, ap, ◌∙◌, inl, inr, true, false, none, some, arith, length,
  if◌then◌else◌, set, get_or-set, length-set, ◌==◌, ltb, Bool-cases,
}
use mquickjs_kmp.GcRefs.{GcRefs}
use mquickjs_kmp.Slots.Handles.{slot_get-at, handle-injective}
use mquickjs_kmp.Slots.{
  Slot, Table, Index, negative, at, blank, slot_at, slot_get, slot_index, slot_gen, is_not_positive,
}

module _ {g : GcRefs} (t : Table g) where
  -- Handles that are not positive, or lead to no slot, find nothing.
  pub slot_get-not_positive : (ref : ℕ) → is_not_positive ref ≡ true → slot_get g t ref ≡ none
  unfolding slot_get
  slot_get-not_positive ref p = rw p

  pub slot_get-negative : (ref : ℕ) → slot_index ref ≡ negative → slot_get g t ref ≡ none
  unfolding slot_get
  slot_get-negative ref i = ground (arith, i)

  pub slot_get-beyond :
      (ref idx : ℕ) → slot_index ref ≡ at idx → length t.slots ≤ idx → slot_get g t ref ≡ none
  unfolding slot_get
  slot_get-beyond ref idx i h = ground (arith, i)

-- One slot is written, and `r` is the only handle of that slot that is live before or after.
pub record Written {g : GcRefs} (t t' : Table g) (r idx : ℕ) (s : Slot g.Val) : Type 0 where
  pub within : idx < length t.slots
  pub slots : t'.slots ≡ set t.slots idx s
  pub positive : is_not_positive r ≡ false
  pub index : slot_index r ≡ at idx
  pub word : r < 2 ^ 64
  pub after : 0 < s.refcount → s.gen ≡ slot_gen r
  pub before : 0 < (slot_at g t idx).refcount → (slot_at g t idx).gen ≡ slot_gen r

module _ {g : GcRefs} {t t' : Table g} {r idx : ℕ} {s : Slot g.Val} (w : Written t t' r idx s) where
  same_length : length t'.slots ≡ length t.slots
  same_length = ap length w.slots ∙ length-set t.slots idx s

  written_at : (j : ℕ) → slot_at g t' j ≡ (if idx == j then s else slot_at g t j)
  written_at j = rw w.slots (get_or-set t.slots idx j s (blank g) w.within)

  -- Then every other handle finds what it found, and `r` finds the slot if it holds a reference.
  pub slot_get-Written :
      (ref : ℕ)
      → ref < 2 ^ 64
      → slot_get g t' ref
        ≡ (if ref == r then (if ltb 0 s.refcount then some s else none) else slot_get g t ref)
  slot_get-Written ref h = elim (Bool-cases (is_not_positive ref)) [
    | inl p ↦
        ground (arith, p, slot_get-not_positive t ref p, slot_get-not_positive t' ref p, w.positive)
    | inr p ↦ go (slot_index ref) refl p
  ]
    where
      inside :
          (j : ℕ)
          → slot_index ref ≡ at j
          → is_not_positive ref ≡ false
          → j < length t.slots
          → slot_get g t' ref
            ≡ (if ref == r then (if ltb 0 s.refcount then some s else none) else slot_get g t ref)
      inside j i p k = ground (
        arith,
        i,
        w.index,
        w.after,
        w.before,
        slot_get-at t ref j p i k,
        slot_get-at t' ref j p i (omega (arith, same_length)),
        written_at j,
        handle-injective ref r idx h w.word,
      )

      go :
          (x : Index)
          → slot_index ref ≡ x
          → is_not_positive ref ≡ false
          → slot_get g t' ref
            ≡ (if ref == r then (if ltb 0 s.refcount then some s else none) else slot_get g t ref)
      go negative i p =
          ground (arith, i, slot_get-negative t ref i, slot_get-negative t' ref i, w.index)
      go (at j) i p = elim (Bool-cases (ltb j (length t.slots))) [
        | inl k ↦ inside j i p (ground arith)
        | inr k ↦ ground (
          arith,
          i,
          w.index,
          w.within,
          slot_get-beyond t ref j i,
          slot_get-beyond t' ref j i,
          same_length,
        )
      ]
