-- ===== src/Slots/History.antt =====
-- Histories of the ref table: any sequence of the shim's calls, from any valid table.
use mquickjs_kmp.Prelude.{
  ℕ, ◌+◌, ◌^◌, ◌<◌, ◌≡◌, refl, inl, inr, Bool, true, false, none, some, List, [], ◌∷◌, arith,
  if◌then◌else◌, Option-cases, ◌==◌,
}
use mquickjs_kmp.GcRefs.{GcRefs, GcRefsLaws}
use mquickjs_kmp.Slots.Counts.{sum_refcounts-set}
use mquickjs_kmp.Slots.Growth.{Grows-sum}
use mquickjs_kmp.Slots.Handles.{slot_get-Found, ref_retain-dead, ref_release-dead}
use mquickjs_kmp.Slots.Lookup.{Written}
use mquickjs_kmp.Slots.Placing.{
  Placed, refused, placed, slot_new-Placed, Reserved, no_slot, reserved, slot_reserve-Reserved,
}
use mquickjs_kmp.Slots.Preserve.{
  Valid, slot_new-Valid, slot_reserve-Valid, ref_retain-Valid, ref_release-Valid,
}
use mquickjs_kmp.Slots.Refs.{retain-Written, release-Written}
use mquickjs_kmp.Slots.{
  Slot, Table, blank, slot_at, slot_get, slot_new, slot_reserve, ref_retain, ref_release, get_stats,
  slot_handle,
}

pub data Call (V : Type 0) : Type 0 where
  make : V → Call V
  reserve : Call V
  retain release : ℕ → Call V

module _ (g : GcRefs) where
  unfoldable pub step : Table g → Call g.Val → Table g
  step t (make v) = (slot_new g t v).1
  step t reserve = (slot_reserve g t).1
  step t (retain r) = ref_retain g t r
  step t (release r) = ref_release g t r

  unfoldable pub run : Table g → List (Call g.Val) → Table g
  run t [] = t
  run t (c ∷ cs) = run (step t c) cs

  -- Whether a handle is live.
  pub is_live : Table g → ℕ → Bool
  is_live t r = elim (slot_get g t r) [ none ↦ false | some _ ↦ true ]

  -- The releases that a call adds to those owed, and those that it settles.
  pub taken : Table g → Call g.Val → ℕ
  taken t (make v) = if (slot_new g t v).0 == 0 then 0 else 1
  taken t reserve = 0
  taken t (retain r) = if is_live t r then 1 else 0
  taken t (release r) = 0

  pub settled : Table g → Call g.Val → ℕ
  settled t (release r) = if is_live t r then 1 else 0
  settled t _ = 0

  pub all_taken : Table g → List (Call g.Val) → ℕ
  all_taken t [] = 0
  all_taken t (c ∷ cs) = taken t c + all_taken (step t c) cs

  pub all_settled : Table g → List (Call g.Val) → ℕ
  all_settled t [] = 0
  all_settled t (c ∷ cs) = settled t c + all_settled (step t c) cs

-- A handle in a call is an int64_t.
abbrev pub IsWord : {V : Type 0} → Call V → Type 0
IsWord (make v) = Unit {0}
IsWord reserve = Unit {0}
IsWord (retain r) = r < 2 ^ 64
IsWord (release r) = r < 2 ^ 64

abbrev pub AllWords : {V : Type 0} → List (Call V) → Type 0
AllWords [] = Unit {0}
AllWords (c ∷ cs) = IsWord c × AllWords cs

module _ (g : GcRefs) (laws : GcRefsLaws g) where
  pub step-Valid : (t : Table g) (c : Call g.Val) → Valid g t → Valid g (step g t c)
  unfolding step
  step-Valid t (make v) ok = slot_new-Valid g laws t v ok
  step-Valid t reserve ok = slot_reserve-Valid g laws t ok
  step-Valid t (retain r) ok = ref_retain-Valid g laws t r ok
  step-Valid t (release r) ok = ref_release-Valid g laws t r ok

  -- Every history keeps the invariant.
  pub run-Valid : (t : Table g) (cs : List (Call g.Val)) → Valid g t → Valid g (run g t cs)
  unfolding run
  run-Valid t [] ok = ok
  run-Valid t (c ∷ cs) ok = run-Valid (step g t c) cs (step-Valid t c ok)

  abbrev live_refs : Table g → ℕ
  live_refs t = (get_stats g t).live_refs

  make_owed :
      (t : Table g) (v : g.Val) (r : ℕ × Table g)
      → Placed g t v r
      → live_refs r.1 ≡ live_refs t + (if r.0 == 0 then 0 else 1)
  unfolding get_stats slot_handle
  make_owed t v r (refused t' e) = rw e (omega arith)
  make_owed t v r (placed t₁ t' idx gr h small z gen e) =
      let s = record (slot_at g t₁ idx) { val = v; refcount = 1; next_free = none } in
      rw e (ground (arith, sum_refcounts-set t₁.slots idx s (blank g) h, Grows-sum gr, z))

  reserve_owed : (t : Table g) (r : Bool × Table g) → Reserved g t r → live_refs r.1 ≡ live_refs t
  unfolding get_stats
  reserve_owed t r (no_slot t' e) = rw e
  reserve_owed t r (reserved t' i e gr) = Grows-sum gr

  Written-sum :
      {t t' : Table g} {r idx : ℕ} {s : Slot g.Val}
      → Written t t' r idx s
      → live_refs t' + (slot_at g t idx).refcount ≡ live_refs t + s.refcount
  unfolding get_stats
  Written-sum {t} {t'} {r} {idx} {s} w =
      rw w.slots (sum_refcounts-set t.slots idx s (blank g) w.within)

  step_owed :
      (t : Table g) (c : Call g.Val)
      → Valid g t
      → IsWord c
      → live_refs (step g t c) + settled g t c ≡ live_refs t + taken g t c
  unfolding step settled taken is_live
  step_owed t (make v) ok h = omega (arith, make_owed t v _ (slot_new-Placed g t v ok))
  step_owed t reserve ok h = omega (arith, reserve_owed t _ (slot_reserve-Reserved g t ok))
  step_owed t (retain r) ok h = elim (Option-cases (slot_get g t r)) [
    | inl e ↦ ground (arith, e, ref_retain-dead t r e)
    | inr (s, e) ↦
        (let (idx, f) = slot_get-Found t r e in
          ground (arith, e, f.is_slot, Written-sum (retain-Written g t r h e f)))
  ]
  step_owed t (release r) ok h = elim (Option-cases (slot_get g t r)) [
    | inl e ↦ ground (arith, e, ref_release-dead t r e)
    | inr (s, e) ↦
        (let (idx, f) = slot_get-Found t r e in
          let (s', w, count, _, _) = release-Written g t r h e f in
          ground (arith, e, f.is_slot, f.live, count, Written-sum w))
  ]

  -- kmpjs_get_stats counts the releases that are still owed: after any history, what was live and
  -- what was taken is what is live and what was settled.
  pub run_owed :
      (t : Table g) (cs : List (Call g.Val))
      → Valid g t
      → AllWords cs
      → (get_stats g (run g t cs)).live_refs + all_settled g t cs
        ≡ (get_stats g t).live_refs + all_taken g t cs
  unfolding run all_settled all_taken
  run_owed t [] ok h = refl
  run_owed t (c ∷ cs) ok h =
      omega (arith, step_owed t c ok h.0, run_owed (step g t c) cs (step-Valid t c ok) h.1)
