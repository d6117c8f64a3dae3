-- ===== src/Slots/Stale.antt =====
-- Handles whose last reference was released.
use mquickjs_kmp.Prelude.{
  ℕ, suc, ◌+◌, ◌-◌, ◌%◌, ◌^◌, ◌<◌, ◌≤◌, ◌≡◌, ◌∙◌, ◌⊎◌, inl, inr, Bool, false, none, some, List, [],
  ◌∷◌, arith, length, length-set, Option-cases, get_or-set, ◌==◌, ap,
}
use mquickjs_kmp.GcRefs.{GcRefs, GcRefsLaws}
use mquickjs_kmp.Slots.Growth.{Grows-length, Grows-get_or}
use mquickjs_kmp.Slots.Handles.{slot_get-Found, slot_get-at, ref_retain-dead, ref_release-dead}
use mquickjs_kmp.Slots.History.{
  Call, make, reserve, retain, release, step, run, IsWord, AllWords, step-Valid,
}
use mquickjs_kmp.Slots.Lookup.{Written}
use mquickjs_kmp.Slots.Placing.{
  Placed, refused, placed, slot_new-Placed, Reserved, no_slot, reserved, slot_reserve-Reserved,
}
use mquickjs_kmp.Slots.Preserve.{Valid, ref_release-Valid}
use mquickjs_kmp.Slots.Refs.{retain-Written, release-Written, lookup}
use mquickjs_kmp.Slots.{
  Slot, Table, blank, slot_at, slot_get, ref_release, slot_index, slot_gen, is_not_positive, at,
}

module _ (g : GcRefs) where
  -- The slot is there and its generation has moved on by one to `k` steps from `gen`.
  pub record Aged (t : Table g) (idx gen k : ℕ) : Type 0 where
    pub within : idx < length t.slots
    pub steps : ℕ
    pub moved : 1 ≤ steps
    pub bounded : steps ≤ k
    pub now : (slot_at g t idx).gen ≡ (gen + steps) % 2 ^ 32

  -- One call loses no slot, and moves the generation of a slot by one step at most.
  pub record Ages (t t' : Table g) : Type 0 where
    pub longer : length t.slots ≤ length t'.slots
    pub ages :
        (i : ℕ)
        → i < length t.slots
        → ((slot_at g t' i).gen ≡ (slot_at g t i).gen)
          ⊎ ((slot_at g t' i).gen ≡ ((slot_at g t i).gen + 1) % 2 ^ 32)

  same-Ages : (t t' : Table g) → t'.slots ≡ t.slots → Ages t t'
  same-Ages t t' e = record { longer = rw e (omega arith); ages = λ i h. inl (rw e) }

  Written-Ages :
      {t t' : Table g} {r idx : ℕ} {s : Slot g.Val}
      → Written t t' r idx s
      → (s.gen ≡ (slot_at g t idx).gen) ⊎ (s.gen ≡ ((slot_at g t idx).gen + 1) % 2 ^ 32)
      → Ages t t'
  Written-Ages {t} {t'} {r} {idx} {s} w e = record {
    longer = rw w.slots (omega (arith, length-set t.slots idx s));
    ages = λ i h. rw w.slots (ground (arith, e, get_or-set t.slots idx i s (blank g) w.within));
  }

  make-Ages : (t : Table g) (v : g.Val) (r : ℕ × Table g) → Placed g t v r → Ages t r.1
  make-Ages t v r (refused t' e) = same-Ages t t' e
  make-Ages t v r (placed t₁ t' idx gr h small z gen e) =
      let s = record (slot_at g t₁ idx) { val = v; refcount = 1; next_free = none } in
      record {
        longer = rw e (omega (arith, length-set t₁.slots idx s, Grows-length gr));
        ages = λ i k. rw e (
            ground (arith, get_or-set t₁.slots idx i s (blank g) h, Grows-get_or gr (blank g) i k));
      }

  reserve-Ages : (t : Table g) (r : Bool × Table g) → Reserved g t r → Ages t r.1
  reserve-Ages t r (no_slot t' e) = same-Ages t t' e
  reserve-Ages t r (reserved t' i e gr) = record {
    longer = Grows-length gr;
    ages = λ i k. inl (ap (λ (s : Slot g.Val). s.gen) (Grows-get_or gr (blank g) i k));
  }

  pub step-Ages : (t : Table g) (c : Call g.Val) → Valid g t → IsWord c → Ages t (step g t c)
  unfolding step
  step-Ages t (make v) ok h = make-Ages t v _ (slot_new-Placed g t v ok)
  step-Ages t reserve ok h = reserve-Ages t _ (slot_reserve-Reserved g t ok)
  step-Ages t (retain r) ok h = elim (Option-cases (slot_get g t r)) [
    | inl e ↦ same-Ages t _ (rw (ref_retain-dead t r e))
    | inr (s, e) ↦
        (let (idx, f) = slot_get-Found t r e in
          Written-Ages (retain-Written g t r h e f) (inl (ground (arith, f.is_slot))))
  ]
  step-Ages t (release r) ok h = elim (Option-cases (slot_get g t r)) [
    | inl e ↦ same-Ages t _ (rw (ref_release-dead t r e))
    | inr (s, e) ↦
        (let (idx, f) = slot_get-Found t r e in
          let (s', w, _, _, gen) = release-Written g t r h e f in
          Written-Ages w (ground (arith, f.is_slot, gen)))
  ]

  Aged-Ages :
      {t t' : Table g} {idx gen k : ℕ} → Aged t idx gen k → Ages t t' → Aged t' idx gen (suc k)
  Aged-Ages {t} {t'} {idx} {gen} a s = elim (s.ages idx a.within) [
    | inl e ↦ record {
      within = omega (arith, s.longer, a.within);
      steps = a.steps;
      moved = a.moved;
      bounded = omega (arith, a.bounded);
      now = e ∙ a.now;
    }
    | inr e ↦ record {
      within = omega (arith, s.longer, a.within);
      steps = suc a.steps;
      moved = omega arith;
      bounded = omega (arith, a.bounded);
      now = omega (arith, e, a.now);
    }
  ]

  -- An aged slot refuses the handles of the old generation.
  Aged-refuses :
      {t : Table g} {idx k : ℕ} (r : ℕ)
      → Aged t idx (slot_gen r) k
      → slot_index r ≡ at idx
      → is_not_positive r ≡ false
      → k < 2 ^ 32
      → slot_get g t r ≡ none
  unfolding slot_gen
  Aged-refuses {t} {idx} r a i p h =
      let other : ((slot_at g t idx).gen == slot_gen r) ≡ false =
        ground (arith, a.now, a.moved, a.bounded) in
      ground (arith, slot_get-at t r idx p i a.within, other)

  Aged-mono : {t : Table g} {idx gen k : ℕ} (n : ℕ) → k ≤ n → Aged t idx gen k → Aged t idx gen n
  Aged-mono n h a = record {
    within = a.within;
    steps = a.steps;
    moved = a.moved;
    bounded = omega (arith, a.bounded);
    now = a.now;
  }

module _ (g : GcRefs) (laws : GcRefsLaws g) where
  run-Aged :
      (t : Table g) (cs : List (Call g.Val)) {idx gen k : ℕ}
      → Valid g t
      → AllWords cs
      → Aged g t idx gen k
      → Aged g (run g t cs) idx gen (length cs + k)
  unfolding run
  run-Aged t [] {k = k} ok h a = Aged-mono g (0 + k) (omega arith) a
  run-Aged t (c ∷ cs) {k = k} ok h a = Aged-mono g (suc (length cs) + k) (omega arith) (
      run-Aged (step g t c) cs (step-Valid g laws t c ok) h.1
        (Aged-Ages g a (step-Ages g t c ok h.0)))

  -- A handle stays dead after its last release: fewer than 2^32 - 1 later calls of any kind cannot
  -- bring its slot back to the same generation, so none of them makes it lead to another value.
  pub released_stays_dead :
      (t : Table g) (r : ℕ) (v : g.Val) (cs : List (Call g.Val))
      → Valid g t
      → r < 2 ^ 64
      → lookup g t r ≡ some (v, 1)
      → AllWords cs
      → length cs < 2 ^ 32 - 1
      → slot_get g (run g (ref_release g t r) cs) r ≡ none
  unfolding lookup
  released_stays_dead t r v cs ok hr live h short = elim (Option-cases (slot_get g t r)) [
    | inl e ↦ ground (arith, e)
    | inr (s, e) ↦
        (let (idx, f) = slot_get-Found t r e in
          let (s', w, count, _, gen) = release-Written g t r hr e f in
          let one : s.refcount ≡ 1 = ground (arith, e, live) in
          let a : Aged g (ref_release g t r) idx (slot_gen r) 1 = record {
            within = rw w.slots (omega (arith, length-set t.slots idx s', f.within));
            steps = 1;
            moved = omega arith;
            bounded = omega arith;
            now = rw w.slots (
                ground
                  (arith, get_or-set t.slots idx idx s' (blank g) f.within, gen, one, f.same_gen));
          } in
          Aged-refuses g r (run-Aged _ cs (ref_release-Valid g laws t r ok) h a) f.index f.positive
            (omega arith))
  ]
