-- ===== src/Slots/FreeList.antt =====
-- The free list of the ref table: the chain of `next_free` indices from `free_head`.
use mquickjs_kmp.Prelude.{
  ℕ, ◌<◌, ◌≡◌, refl, Bool, true, false, ◌||◌, Option, none, some, List, [], ◌∷◌, ◌++◌, arith, ◌==◌,
  length, length-set, length-append, get_or, set, get_or-set, get_or-append_one,
}
use mquickjs_kmp.Slots.{Slot}

abbrev pub contains : ℕ → List ℕ → Bool
contains i [] = false
contains i (j ∷ js) = (i == j) || contains i js

abbrev pub Distinct : List ℕ → Type 0
Distinct [] = Unit {0}
Distinct (i ∷ is) = (contains i is ≡ false) × Distinct is

-- From `head` the chain visits exactly these indices, each of an allocated slot with no reference.
abbrev pub FreePath : {V : Type 0} → Slot V → List (Slot V) → Option ℕ → List ℕ → Type 0
FreePath d ss head [] = head ≡ none
FreePath d ss head (i ∷ is) =
    (head ≡ some i)
    × (i < length ss)
    × ((get_or ss i d).refcount ≡ 0)
    × FreePath d ss (get_or ss i d).next_free is

module _ {V : Type 0} (d : Slot V) (ss : List (Slot V)) where
  -- A write to a slot that is not on the chain leaves the chain as it is.
  pub FreePath-set :
      (idx : ℕ) (s : Slot V)
      → idx < length ss
      → (head : Option ℕ) (free : List ℕ) → contains idx free ≡ false
      → FreePath d ss head free
      → FreePath d (set ss idx s) head free
  FreePath-set idx s h head [] out p = p
  FreePath-set idx s h head (i ∷ is) out p =
      let same : get_or (set ss idx s) i d ≡ get_or ss i d =
        ground (arith, get_or-set ss idx i s d) in
      rw (same, length-set)
        (p.0, p.1, p.2, FreePath-set idx s h (get_or ss i d).next_free is (ground arith) p.3)

  -- So does one more slot at the end of the array.
  pub FreePath-append :
      (s : Slot V) (head : Option ℕ) (free : List ℕ)
      → FreePath d ss head free
      → FreePath d (ss ++ s ∷ []) head free
  FreePath-append s head [] p = p
  FreePath-append s head (i ∷ is) p =
      let same : get_or (ss ++ s ∷ []) i d ≡ get_or ss i d =
        ground (arith, get_or-append_one ss s d i) in
      rw (same, length-append)
        (p.0, omega arith, p.2, FreePath-append s (get_or ss i d).next_free is p.3)

  -- Every index on the chain is that of a slot with no reference.
  pub FreePath-contains :
      (head : Option ℕ) (free : List ℕ) (i : ℕ)
      → FreePath d ss head free
      → contains i free ≡ true
      → (i < length ss) × ((get_or ss i d).refcount ≡ 0)
  FreePath-contains head [] i p m = cc
  FreePath-contains head (j ∷ js) i p m =
      ground (arith, FreePath-contains (get_or ss j d).next_free js i p.3)

  -- A list with no head is empty, one with a head starts with it.
  pub FreePath-none : (free : List ℕ) → FreePath d ss none free → free ≡ []
  FreePath-none [] p = refl
  FreePath-none (i ∷ is) p = cc (p.0)

  pub FreePath-some :
      (i : ℕ) (free : List ℕ)
      → FreePath d ss (some i) free
      → (rest : List ℕ) × (free ≡ i ∷ rest)
        × (i < length ss)
        × ((get_or ss i d).refcount ≡ 0)
        × FreePath d ss (get_or ss i d).next_free rest
  FreePath-some i [] p = cc
  FreePath-some i (j ∷ js) p = let e : i ≡ j = cc (p.0) in rw e (js, refl, p.1, p.2, p.3)
