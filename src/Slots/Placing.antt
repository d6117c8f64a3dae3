-- ===== src/Slots/Placing.antt =====
-- Handing out a new handle, with or without a reserved slot.
use mathlib.Core.Path.{subst}
use mquickjs_kmp.Prelude.{
  ℕ, ◌^◌, ◌<◌, ◌≡◌, refl, sym, ◌≢◌, inl, inr, Bool, true, false, none, some, [], ◌∷◌, arith, length,
  length-append, if◌then◌else◌, Option-cases, set, get_or-append_one, ◌==◌,
}
use mquickjs_kmp.GcRefs.{GcRefs, GcRefsLaws}
use mquickjs_kmp.Slots.Extend.{resized, extended, Extends, failed, grown, extend_slots-Extends}
use mquickjs_kmp.Slots.FreeList.{FreePath-some}
use mquickjs_kmp.Slots.Handles.{
  slot_get-at, slot_index-slot_handle, slot_gen-slot_handle, slot_handle-word,
}
use mquickjs_kmp.Slots.Lookup.{Written, slot_get-Written}
use mquickjs_kmp.Slots.Preserve.{Valid, slot_reserve-Valid}
use mquickjs_kmp.Slots.Growth.{Grows, same, more, Grows-slot_get}
use mquickjs_kmp.Slots.Refs.{lookup}
use mquickjs_kmp.Slots.{
  Slot, Table, at, blank, slot_at, slot_get, slot_index, is_not_positive, slot_new, slot_reserve,
  occupy, slot_handle, extend_slots, int32_max,
}

module _ (g : GcRefs) where
  -- Where slot_new puts a value: nowhere, or in a slot without references of a table that answers
  -- every handle as before.
  pub data Placed (t : Table g) (v : g.Val) : ℕ × Table g → Type 0 where
    refused : (t' : Table g) → t'.slots ≡ t.slots → Placed t v (0, t')
    placed :
        (t₁ t' : Table g) (idx : ℕ)
        → Grows t.slots t₁.slots
        → idx < length t₁.slots
        → idx < int32_max
        → (slot_at g t₁ idx).refcount ≡ 0
        → (slot_at g t₁ idx).gen < 2 ^ 32
        → t'.slots
          ≡ set t₁.slots idx (record (slot_at g t₁ idx) { val = v; refcount = 1; next_free = none })
        → Placed t v (slot_handle idx (slot_at g t₁ idx).gen, t')

  place_grown :
      (t : Table g) (v : g.Val) (s : Slot g.Val)
      → s.refcount ≡ 0
      → s.gen < 2 ^ 32
      → (r : Bool × Table g) → Extends t s r
      → Placed t v (if◌then◌else◌ {A = ℕ × Table g} r.0 (occupy g r.1 (length t.slots) v) (0, r.1))
  unfolding occupy
  place_grown t v s z k r (failed c a h) = refused (resized t s c a) refl
  place_grown t v s z k r (grown c a h few) =
      placed (extended t s c a) _ (length t.slots) (more s z refl)
        (omega (arith, length-append t.slots (s ∷ []))) (omega arith)
        (ground (arith, get_or-append_one t.slots s (blank g) (length t.slots)))
        (ground (arith, get_or-append_one t.slots s (blank g) (length t.slots))) refl

  slot_new-none :
      (t : Table g) (v : g.Val)
      → t.free_head ≡ none
      → slot_new g t v ≡ (
          let r = extend_slots g t (blank g) in
          if r.0 then occupy g r.1 (length t.slots) v else (0, r.1))
  unfolding slot_new
  slot_new-none t v e = simp (e, slot_new)

  pub slot_new-some :
      (t : Table g) (v : g.Val) (i : ℕ)
      → t.free_head ≡ some i
      → slot_new g t v ≡ occupy g (record t { free_head = (slot_at g t i).next_free }) i v
  unfolding slot_new
  slot_new-some t v i e = simp (e, slot_new)

  pub slot_new-Placed : (t : Table g) (v : g.Val) → Valid g t → Placed t v (slot_new g t v)
  unfolding slot_new occupy
  slot_new-Placed t v (free, ok) = elim (Option-cases t.free_head) [
    | inr (i, e) ↦
        (let (_, _, h, z, _) = FreePath-some (blank g) t.slots i free (rw e at ok.path) in
          subst (Placed t v) (sym (slot_new-some t v i e))
            (placed t _ i (same refl) h (omega (arith, ok.few)) z (ok.gens i) refl))
    | inl e ↦ subst (Placed t v) (sym (slot_new-none t v e)) (
        place_grown t v (blank g) refl (omega arith) _
          (extend_slots-Extends t (blank g) ok.room ok.few))
  ]

  -- What a caller of slot_new is promised about the handle and the new table.
  pub record Handed (t : Table g) (v : g.Val) (r : ℕ) (t' : Table g) : Type 0 where
    pub word : r < 2 ^ 64
    pub fresh : lookup g t r ≡ none
    pub others :
        (ref : ℕ)
        → ref < 2 ^ 64
        → lookup g t' ref ≡ (if ref == r then some (v, 1) else lookup g t ref)

  pub Placed-Handed :
      {t : Table g} {v : g.Val} {r : ℕ × Table g}
      → Placed t v r
      → is_not_positive r.0 ≡ false
      → Handed t v r.0 r.1
  unfolding lookup is_not_positive
  Placed-Handed (refused t' e) p = cc p
  Placed-Handed {t} {v} (placed t₁ t' idx gr h small z gen e) p =
      let r = slot_handle idx (slot_at g t₁ idx).gen in
      let word : r < 2 ^ 64 = slot_handle-word idx (slot_at g t₁ idx).gen in
      let i : slot_index r ≡ at idx =
        slot_index-slot_handle idx (slot_at g t₁ idx).gen (omega arith) in
      let w : Written t₁ t' r idx _ = record {
        within = h;
        slots = e;
        positive = p;
        index = i;
        word = word;
        after = λ _. sym (slot_gen-slot_handle idx (slot_at g t₁ idx).gen gen);
        before = λ y. absurd (omega arith);
      } in
      record {
        word = word;
        fresh = ground (arith, Grows-slot_get t t₁ gr r, slot_get-at t₁ r idx p i h, z);
        others = λ ref k. ground (arith, Grows-slot_get t t₁ gr ref, slot_get-Written w ref k);
      }

  -- slot_new hands out a handle that was not live, and which then leads to the value with one
  -- reference; every other handle leads to what it led to. The handle is read as an int64_t, so it
  -- has to be positive.
  pub slot_new-Handed :
      (t : Table g) (v : g.Val)
      → Valid g t
      → is_not_positive (slot_new g t v).0 ≡ false
      → Handed t v (slot_new g t v).0 (slot_new g t v).1
  slot_new-Handed t v ok = Placed-Handed (slot_new-Placed t v ok)

  Placed-zero :
      {t : Table g} {v : g.Val} {r : ℕ × Table g} → Placed t v r → r.0 ≡ 0 → r.1.slots ≡ t.slots
  unfolding slot_handle
  Placed-zero (refused t' e) z = e
  Placed-zero (placed t₁ t' idx gr h small y gen e) z = absurd (omega arith)

  -- When it returns 0, no slot has changed.
  pub slot_new-refused :
      (t : Table g) (v : g.Val)
      → Valid g t
      → (slot_new g t v).0 ≡ 0
      → (slot_new g t v).1.slots ≡ t.slots
  slot_new-refused t v ok = Placed-zero (slot_new-Placed t v ok)

  -- A table with a free slot: slot_new asks the allocator for nothing and cannot fail.
  pub slot_new-reserved :
      (t : Table g) (v : g.Val) (i : ℕ)
      → Valid g t
      → t.free_head ≡ some i
      → ((slot_new g t v).0 ≢ 0) × ((slot_new g t v).1.allocs ≡ t.allocs)
  unfolding occupy slot_handle
  slot_new-reserved t v i (free, ok) e =
      let (_, _, h, _, _) = FreePath-some (blank g) t.slots i free (rw e at ok.path) in
      rw (slot_new-some t v i e) ((λ z. omega (arith, ok.few)), refl)

  -- What slot_reserve leaves: on success a free slot, always the same answer for every handle.
  pub data Reserved (t : Table g) : Bool × Table g → Type 0 where
    no_slot : (t' : Table g) → t'.slots ≡ t.slots → Reserved t (false, t')
    reserved :
        (t' : Table g) (i : ℕ)
        → t'.free_head ≡ some i
        → Grows t.slots t'.slots
        → Reserved t (true, t')

  slot_reserve-none :
      (t : Table g)
      → t.free_head ≡ none
      → slot_reserve g t ≡ (
          let r = extend_slots g t (record (blank g) { next_free = none }) in
          if r.0 then (true, record r.1 { free_head = some (length t.slots) }) else (false, r.1))
  unfolding slot_reserve
  slot_reserve-none t e = simp (e, slot_reserve)

  slot_reserve-some : (t : Table g) (i : ℕ) → t.free_head ≡ some i → slot_reserve g t ≡ (true, t)
  unfolding slot_reserve
  slot_reserve-some t i e = simp (e, slot_reserve)

  reserve_grown :
      (t : Table g) (s : Slot g.Val)
      → s.refcount ≡ 0
      → (r : Bool × Table g) → Extends t s r
      → Reserved t (
          if◌then◌else◌ {A = Bool × Table g} r.0
            (true, record r.1 { free_head = some (length t.slots) })
            (false, r.1))
  reserve_grown t s z r (failed c a h) = no_slot (resized t s c a) refl
  reserve_grown t s z r (grown c a h few) = reserved _ (length t.slots) refl (more s z refl)

  pub slot_reserve-Reserved : (t : Table g) → Valid g t → Reserved t (slot_reserve g t)
  slot_reserve-Reserved t (free, ok) = elim (Option-cases t.free_head) [
    | inr (i, e) ↦ subst (Reserved t) (sym (slot_reserve-some t i e)) (reserved t i e (same refl))
    | inl e ↦ subst (Reserved t) (sym (slot_reserve-none t e)) (
        reserve_grown t (record (blank g) { next_free = none }) refl _
          (extend_slots-Extends t (record (blank g) { next_free = none }) ok.room ok.few))
  ]

  pub Reserved-true :
      {t : Table g} {r : Bool × Table g}
      → Reserved t r
      → r.0 ≡ true
      → (i : ℕ) × (r.1.free_head ≡ some i) × ((ref : ℕ) → slot_get g r.1 ref ≡ slot_get g t ref)
  Reserved-true (no_slot t' e) z = cc z
  Reserved-true {t} (reserved t' i e gr) z = (i, e, Grows-slot_get t t' gr)

module _ (g : GcRefs) (laws : GcRefsLaws g) where
  -- After a slot_reserve that succeeds, slot_new cannot fail and asks the allocator for nothing,
  -- and until then every handle finds what it found before.
  pub reserve_then_new :
      (t : Table g) (v : g.Val)
      → Valid g t
      → (slot_reserve g t).0 ≡ true
      → let t' = (slot_reserve g t).1 in
        ((slot_new g t' v).0 ≢ 0)
        × ((slot_new g t' v).1.allocs ≡ t'.allocs)
        × ((ref : ℕ) → slot_get g t' ref ≡ slot_get g t ref)
  reserve_then_new t v ok e =
      let (i, free, kept) = Reserved-true g (slot_reserve-Reserved g t ok) e in
      let (sure, quiet) = slot_new-reserved g _ v i (slot_reserve-Valid g laws t ok) free in
      (sure, quiet, kept)
