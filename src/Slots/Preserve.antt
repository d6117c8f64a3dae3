-- ===== src/Slots/Preserve.antt =====
-- The operations of the ref table and its invariant.
use mquickjs_kmp.Prelude.{
  ℕ, ◌+◌, ◌-◌, ◌<◌, refl, ◌≢◌, inl, inr, Bool, true, false, none, some, List, [], ◌∷◌, arith,
  length, if◌then◌else◌, Option-cases, ◌==◌, Bool-cases,
}
use mathlib.Core.Path.{subst}
use mquickjs_kmp.GcRefs.{GcRefs, GcRefsLaws}
use mquickjs_kmp.Slots.Extend.{resized, Extends, failed, grown, extend_slots-Extends}
use mquickjs_kmp.Slots.FreeList.{FreePath-none, FreePath-some}
use mquickjs_kmp.Slots.Handles.{
  slot_get-Found, ref_retain-at, ref_retain-dead, ref_release-more, ref_release-last,
  ref_release-dead,
}
use mquickjs_kmp.Slots.Valid.{
  IsValid, write-IsValid, claim-IsValid, appended-IsValid, fresh-IsValid, free_at-IsValid,
}
use mquickjs_kmp.Slots.{
  Slot, Table, blank, slot_at, slot_new, slot_reserve, extend_slots, occupy, slot_get, ref_retain,
  ref_release,
}

-- The table is valid with some order of its free slots.
abbrev pub Valid : (g : GcRefs) → Table g → Type 0
Valid g t = (free : List ℕ) × IsValid g t free

module _ (g : GcRefs) (laws : GcRefsLaws g) where
  resized-IsValid :
      {t : Table g} {free : List ℕ}
      → IsValid g t free
      → (s : Slot g.Val) (c : ℕ) (a : List Bool) → length t.slots < 1 + c
      → IsValid g (resized t s c a) free
  resized-IsValid v s c a h = record {
    path = v.path;
    distinct = v.distinct;
    complete = v.complete;
    gens = v.gens;
    rooted = v.rooted;
    room = omega arith;
    few = v.few;
  }

  -- Handing out a value: on the free-list path, on the growing path, and when memory runs out.
  pub slot_new-Valid : (t : Table g) (v : g.Val) → Valid g t → Valid g (slot_new g t v).1
  unfolding slot_new
  slot_new-Valid t v (free, ok) = elim (Option-cases t.free_head) [
    | inr (i, e) ↦
        (let (rest, q, _, _, _) = FreePath-some (blank g) t.slots i free (rw e at ok.path) in
          rw (e, slot_new) (rest, claim-IsValid g laws (subst (λ fs. IsValid g t fs) q ok) v))
    | inl e ↦
        (let q = FreePath-none (blank g) t.slots free (rw e at ok.path) in
          rw (e, slot_new)
            (
              [],
              grow (extend_slots g t (blank g)) (extend_slots-Extends t (blank g) ok.room ok.few)
                  (subst (λ fs. IsValid g t fs) q ok),
            ))
  ]
    where
      grow :
          (r : Bool × Table g)
          → Extends t (blank g) r
          → IsValid g t []
          → IsValid g
              (if◌then◌else◌ {A = ℕ × Table g} r.0 (occupy g r.1 (length t.slots) v) (0, r.1)).1
              []
      grow r (failed c a h) none_free = resized-IsValid none_free (blank g) c a (omega arith)
      grow r (grown c a h k) none_free = fresh-IsValid g laws none_free c a v h k

  pub slot_reserve-Valid : (t : Table g) → Valid g t → Valid g (slot_reserve g t).1
  unfolding slot_reserve
  slot_reserve-Valid t (free, ok) = elim (Option-cases t.free_head) [
    | inr (i, e) ↦ rw (e, slot_reserve) (free, ok)
    | inl e ↦
        (let q = FreePath-none (blank g) t.slots free (rw e at ok.path) in
          rw (e, slot_reserve)
            (grow _ (extend_slots-Extends t (record (blank g) { next_free = none }) ok.room ok.few)
              (subst (λ fs. IsValid g t fs) q ok)))
  ]
    where
      grow :
          (r : Bool × Table g)
          → Extends t (record (blank g) { next_free = none }) r
          → IsValid g t []
          → Valid g
              (if◌then◌else◌ {A = Bool × Table g} r.0
                (true, record r.1 { free_head = some (length t.slots) })
                (false, r.1)).1
      grow r (failed c a h) ok' = ([], resized-IsValid ok' (blank g) c a (omega arith))
      grow r (grown c a h k) ok' =
          (length t.slots ∷ [], appended-IsValid g laws ok' c a none refl h k)

  pub ref_retain-Valid : (t : Table g) (ref : ℕ) → Valid g t → Valid g (ref_retain g t ref)
  ref_retain-Valid t ref (free, ok) = elim (Option-cases (slot_get g t ref)) [
    | inl e ↦ rw (ref_retain-dead t ref e) (free, ok)
    | inr (s, e) ↦
        (let (idx, f) = slot_get-Found t ref e in
          rw (ref_retain-at t ref e f.index) (
            free,
            write-IsValid g ok idx (record s { refcount = s.refcount + 1 }) f.within
                (ground (arith, f.is_slot, f.live)) (omega arith)
                (ground (arith, f.is_slot, ok.gens idx)),
          ))
  ]

  pub ref_release-Valid : (t : Table g) (ref : ℕ) → Valid g t → Valid g (ref_release g t ref)
  ref_release-Valid t ref (free, ok) = elim (Option-cases (slot_get g t ref)) [
    | inl e ↦ rw (ref_release-dead t ref e) (free, ok)
    | inr (s, e) ↦
        (let (idx, f) = slot_get-Found t ref e in
          let live : (slot_at g t idx).refcount ≢ 0 = ground (arith, f.is_slot, f.live) in
          elim (Bool-cases (s.refcount == 1)) [
            | inl last ↦
                rw (ref_release-last t ref e f.index f.within f.is_slot (ground arith))
                  (idx ∷ free, free_at-IsValid g laws ok idx f.within live)
            | inr more ↦ rw (ref_release-more t ref e f.index (ground (arith, f.live))) (
              free,
              write-IsValid g ok idx (record s { refcount = s.refcount - 1 }) f.within live
                  (ground (arith, f.live)) (ground (arith, f.is_slot, ok.gens idx)),
            )
          ])
  ]
