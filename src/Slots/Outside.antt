-- ===== src/Slots/Outside.antt =====
-- What the ref table leaves alone in the context: everything but the roots.
use mquickjs_kmp.Prelude.{
  ap, sym, ℕ, ◌≡◌, Bool, true, false, Bool-cases, Option, none, some, Option-cases, inl, inr, ◌==◌,
  arith, if◌then◌else◌, length, ◌∙◌,
}
use mathlib.Core.Path.{subst}
use mquickjs_kmp.GcRefs.{GcRefs, GcRefsLaws}
use mquickjs_kmp.Slots.Handles.{
  slot_get-Found, ref_retain-at, ref_release-more, ref_release-last, ref_release-dead,
  ref_retain-dead,
}
use mquickjs_kmp.Slots.Preserve.{Valid}
use mquickjs_kmp.Slots.{
  Slot, Table, blank, slot_get, slot_new, slot_reserve, ensure_room, append_slot, extend_slots,
  occupy, ref_retain, free_at, ref_release,
}

module _ (g : GcRefs) (laws : GcRefsLaws g) where
  extend_slots-ctx : (t : Table g) (s : Slot g.Val) → (extend_slots g t s).1.ctx ≡ t.ctx
  unfolding extend_slots ensure_room append_slot
  extend_slots-ctx t s = ground arith

  Same-eq : (c c' : g.Ctx) → c' ≡ c → g.Same c c'
  Same-eq c c' e = subst (λ x. g.Same x c') e (g.same_refl c')

  placed :
      (c : g.Ctx) (r : Bool × Table g) (i : ℕ) (v : g.Val)
      → r.1.ctx ≡ c
      → g.Same c (if◌then◌else◌ {A = ℕ × Table g} r.0 (occupy g r.1 i v) (0, r.1)).1.ctx
  unfolding occupy
  placed c (true, t) i v e = subst (λ x. g.Same x (g.add_gc_ref i t.ctx)) e (laws.Same-add i t.ctx)
  placed c (false, t) i v e = Same-eq c t.ctx e

  new_at :
      (free : Option ℕ) (t : Table g) (v : g.Val)
      → g.Same t.ctx (slot_new g (record t { free_head = free }) v).1.ctx
  unfolding slot_new occupy
  new_at (some i) t v = laws.Same-add i t.ctx
  new_at none t v =
      placed t.ctx (extend_slots g (record t { free_head = none }) (blank g)) (length t.slots) v
        (extend_slots-ctx (record t { free_head = none }) (blank g))

  pub slot_new-Same : (t : Table g) (v : g.Val) → g.Same t.ctx (slot_new g t v).1.ctx
  slot_new-Same t v = new_at t.free_head t v

  reserved :
      (c : g.Ctx) (r : Bool × Table g) (i : ℕ)
      → r.1.ctx ≡ c
      → g.Same c
          (if◌then◌else◌ {A = Bool × Table g} r.0
            (true, record r.1 { free_head = some i })
            (false, r.1)).1.ctx
  reserved c (true, t) i e = Same-eq c t.ctx e
  reserved c (false, t) i e = Same-eq c t.ctx e

  reserve_at :
      (free : Option ℕ) (t : Table g)
      → g.Same t.ctx (slot_reserve g (record t { free_head = free })).1.ctx
  unfolding slot_reserve
  reserve_at (some i) t = g.same_refl t.ctx
  reserve_at none t =
      let u : Table g = record t { free_head = none } in
      let s : Slot g.Val = record (blank g) { next_free = none } in
      reserved t.ctx (extend_slots g u s) (length t.slots) (extend_slots-ctx u s)

  pub slot_reserve-Same : (t : Table g) → g.Same t.ctx (slot_reserve g t).1.ctx
  slot_reserve-Same t = reserve_at t.free_head t

  pub ref_retain-Same : (t : Table g) (ref : ℕ) → Valid g t → g.Same t.ctx (ref_retain g t ref).ctx
  ref_retain-Same t ref (free, ok) = elim (Option-cases (slot_get g t ref)) [
    | inl e ↦ Same-eq _ _ (ap (λ (u : Table g). u.ctx) (ref_retain-dead t ref e))
    | inr (s, e) ↦
        (let (idx, f) = slot_get-Found t ref e in
          Same-eq _ _ (ap (λ (u : Table g). u.ctx) (ref_retain-at t ref e f.index)))
  ]

  pub ref_release-Same :
      (t : Table g) (ref : ℕ) → Valid g t → g.Same t.ctx (ref_release g t ref).ctx
  unfolding free_at
  ref_release-Same t ref (free, ok) = elim (Option-cases (slot_get g t ref)) [
    | inl e ↦ Same-eq _ _ (ap (λ (u : Table g). u.ctx) (ref_release-dead t ref e))
    | inr (s, e) ↦
        (let (idx, f) = slot_get-Found t ref e in
          elim (Bool-cases (s.refcount == 1)) [
            | inl last ↦
                (let ctx =
                    ap (λ (u : Table g). u.ctx)
                      (ref_release-last t ref e f.index f.within f.is_slot (ground arith)) in
                  subst (g.Same t.ctx) (sym ctx) (
                    laws.Same-delete idx t.ctx (ok.rooted idx ∙ ground (arith, f.is_slot, f.live))))
            | inr more ↦ Same-eq _ _ (
                ap (λ (u : Table g). u.ctx)
                  (ref_release-more t ref e f.index (ground (arith, f.live))))
          ])
  ]
