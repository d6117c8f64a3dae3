-- ===== src/Slots/Growth.antt =====
-- Growing the slot array by a slot that holds no reference, seen from outside.
use mquickjs_kmp.Prelude.{
  ℕ, ◌+◌, ◌≤◌, ◌<◌, ◌≡◌, refl, List, [], ◌∷◌, ◌++◌, arith, length, length-append, get_or,
  get_or-append_one, ap,
}
use mquickjs_kmp.GcRefs.{GcRefs}
use mquickjs_kmp.Slots.{
  Slot, Table, Index, negative, at, blank, slot_get, slot_index, sum_refcounts,
}

-- The array is the same, or has one more slot, with no reference.
pub data Grows {V : Type 0} (ss ss' : List (Slot V)) : Type 0 where
  same : ss' ≡ ss → Grows ss ss'
  more : (s : Slot V) → s.refcount ≡ 0 → ss' ≡ ss ++ s ∷ [] → Grows ss ss'

sum-append :
    {V : Type 0} (ss : List (Slot V)) (s : Slot V)
    → sum_refcounts (ss ++ s ∷ []) ≡ sum_refcounts ss + s.refcount
unfolding sum_refcounts
sum-append [] s = omega arith
sum-append (x ∷ xs) s = omega (arith, sum-append xs s)

module _ {V : Type 0} {ss ss' : List (Slot V)} where
  pub Grows-length : Grows ss ss' → length ss ≤ length ss'
  Grows-length (same e) = omega (arith, ap length e)
  Grows-length (more s z e) = omega (arith, ap length e, length-append ss (s ∷ []))

  pub Grows-get_or :
      Grows ss ss' → (d : Slot V) (j : ℕ) → j < length ss → get_or ss' j d ≡ get_or ss j d
  Grows-get_or (same e) d j h = rw e
  Grows-get_or (more s z e) d j h = rw e (ground (arith, get_or-append_one ss s d j))

  pub Grows-sum : Grows ss ss' → sum_refcounts ss' ≡ sum_refcounts ss
  Grows-sum (same e) = rw e
  Grows-sum (more s z e) = rw e (omega (arith, sum-append ss s, z))

module _ {g : GcRefs} (t t₁ : Table g) where
  -- No handle finds anything else in it.
  pub Grows-slot_get : Grows t.slots t₁.slots → (ref : ℕ) → slot_get g t₁ ref ≡ slot_get g t ref
  unfolding slot_get
  Grows-slot_get gr ref = go gr (slot_index ref) refl
    where
      go :
          Grows t.slots t₁.slots
          → (x : Index) → slot_index ref ≡ x
          → slot_get g t₁ ref ≡ slot_get g t ref
      go _ negative i = rw i
      go (same e) (at j) i = rw (i, e)
      go (more s z e) (at j) i =
          rw (i, e)
            (ground
              (arith, z, length-append t.slots (s ∷ []), get_or-append_one t.slots s (blank g) j))
