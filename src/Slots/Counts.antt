-- ===== src/Slots/Counts.antt =====
-- kmpjs_get_stats: the live references.
use mquickjs_kmp.Prelude.{ℕ, zero, suc, ◌+◌, ◌<◌, ◌≡◌, List, [], ◌∷◌, arith, length, get_or, set}
use mquickjs_kmp.Slots.{Slot, sum_refcounts}

module _ {V : Type 0} where
  pub sum_refcounts-set :
      (ss : List (Slot V)) (i : ℕ) (s d : Slot V)
      → i < length ss
      → sum_refcounts (set ss i s) + (get_or ss i d).refcount ≡ sum_refcounts ss + s.refcount
  unfolding sum_refcounts set get_or
  sum_refcounts-set [] i s d h = elim h [ ]
  sum_refcounts-set (x ∷ xs) zero s d h = omega arith
  sum_refcounts-set (x ∷ xs) (suc i) s d h = omega (arith, sum_refcounts-set xs i s d (omega arith))
