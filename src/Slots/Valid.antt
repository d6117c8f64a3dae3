-- ===== src/Slots/Valid.antt =====
-- The invariant of the ref table, with slots handed out and freed.
use mquickjs_kmp.Prelude.{
  ℕ, suc, ◌+◌, ◌%◌, ◌^◌, ◌≤◌, ◌<◌, ◌≡◌, refl, ◌≢◌, inl, inr, Bool, true, false, Option, none, some,
  List, [], ◌∷◌, ◌++◌, arith, ltb, length, length-set, length-append, get_or, set, get_or-set,
  get_or-append_one, get_or-above, Bool-cases,
}
use mquickjs_kmp.GcRefs.{GcRefs, GcRefsLaws}
use mquickjs_kmp.Slots.Extend.{extended}
use mquickjs_kmp.Slots.FreeList.{contains, Distinct, FreePath, FreePath-set, FreePath-contains}
use mquickjs_kmp.Slots.{Slot, Table, blank, slot_at, occupy, free_at, int32_max}

module _ (g : GcRefs) where
  -- `free` lists the slots without references in the order in which they are handed out.
  pub record IsValid (t : Table g) (free : List ℕ) : Type 0 where
    pub path : FreePath (blank g) t.slots t.free_head free
    pub distinct : Distinct free
    pub complete :
        (i : ℕ) → i < length t.slots → (slot_at g t i).refcount ≡ 0 → contains i free ≡ true
    pub gens : (i : ℕ) → (slot_at g t i).gen < 2 ^ 32
    pub rooted : (i : ℕ) → g.linked t.ctx i ≡ ltb 0 (slot_at g t i).refcount
    pub room : length t.slots ≤ t.slot_cap
    pub few : length t.slots ≤ int32_max

  -- A slot with a reference is not on the free list.
  pub live-not_free :
      {t : Table g} {free : List ℕ}
      → IsValid t free
      → (i : ℕ) → (slot_at g t i).refcount ≢ 0
      → contains i free ≡ false
  live-not_free {t} {free} v i live = elim (Bool-cases (contains i free)) [
    | inl m ↦ absurd (live (FreePath-contains (blank g) t.slots t.free_head free i v.path m).1)
    | inr m ↦ m
  ]

  -- An index beyond the slots is not on it either.
  pub beyond-not_free :
      {t : Table g} {free : List ℕ}
      → IsValid t free
      → (i : ℕ) → length t.slots ≤ i
      → contains i free ≡ false
  beyond-not_free {t} {free} v i h = elim (Bool-cases (contains i free)) [
    | inl m ↦
        absurd (omega (arith, (FreePath-contains (blank g) t.slots t.free_head free i v.path m).0))
    | inr m ↦ m
  ]

  -- A live slot may be written, as long as it stays live and in its generation's range.
  pub write-IsValid :
      {t : Table g} {free : List ℕ}
      → IsValid t free
      → (idx : ℕ) (s : Slot g.Val) → idx < length t.slots
      → (slot_at g t idx).refcount ≢ 0
      → 0 < s.refcount
      → s.gen < 2 ^ 32
      → IsValid (record t { slots = set t.slots idx s }) free
  write-IsValid {t} {free} v idx s h live pos small = record {
    path =
        FreePath-set (blank g) t.slots idx s h t.free_head free (live-not_free v idx live) v.path;
    distinct = v.distinct;
    complete = λ i hi r.
        ground
          (arith, get_or-set t.slots idx i s (blank g) h, length-set t.slots idx s, v.complete i);
    gens = λ i. ground (arith, get_or-set t.slots idx i s (blank g) h, v.gens i);
    rooted = λ i. ground (arith, get_or-set t.slots idx i s (blank g) h, v.rooted i, v.rooted idx);
    room = rw length-set v.room;
    few = rw length-set v.few;
  }

module _ (g : GcRefs) (laws : GcRefsLaws g) where
  open laws use {linked-add, linked-delete}

  -- The first free slot is taken.
  pub claim-IsValid :
      {t : Table g} {i : ℕ} {rest : List ℕ}
      → IsValid g t (i ∷ rest)
      → (v : g.Val)
      → IsValid g (occupy g (record t { free_head = (slot_at g t i).next_free }) i v).1 rest
  unfolding occupy
  claim-IsValid {t} {i} {rest} ok v =
      let s = record (slot_at g t i) { val = v; refcount = 1; next_free = none } in
      let h : i < length t.slots = ok.path.1 in
      record {
        path =
            FreePath-set (blank g) t.slots i s h (slot_at g t i).next_free rest ok.distinct.0
              ok.path.3;
        distinct = ok.distinct.1;
        complete = λ j hj r.
            ground
              (arith, get_or-set t.slots i j s (blank g) h, length-set t.slots i s, ok.complete j);
        gens = λ j. ground (arith, get_or-set t.slots i j s (blank g) h, ok.gens j, ok.gens i);
        rooted = λ j.
            ground (arith, get_or-set t.slots i j s (blank g) h, ok.rooted j, linked-add i j t.ctx);
        room = rw length-set ok.room;
        few = rw length-set ok.few;
      }

  -- One more slot, which is put on the empty free list, is a valid table again.
  pub appended-IsValid :
      {t : Table g}
      → IsValid g t []
      → (c : ℕ) (a : List Bool) (n : Option ℕ) → n ≡ none
      → suc (length t.slots) ≤ c
      → suc (length t.slots) ≤ int32_max
      → IsValid g
          (record (extended t (record (blank g) { next_free = n }) c a) {
            free_head = some (length t.slots);
          })
          (length t.slots ∷ [])
  appended-IsValid {t} ok c a n e room few =
      let s = record (blank g) { next_free = n } in
      record {
        path = ground (
          arith,
          get_or-append_one t.slots s (blank g) (length t.slots),
          length-append t.slots (s ∷ []),
        );
        distinct = (refl, tt);
        complete = λ j hj r. ground (
          arith,
          get_or-append_one t.slots s (blank g) j,
          length-append t.slots (s ∷ []),
          ok.complete j,
        );
        gens = λ j. ground (arith, get_or-append_one t.slots s (blank g) j, ok.gens j);
        rooted = λ j. ground (
          arith,
          get_or-append_one t.slots s (blank g) j,
          get_or-above t.slots j (blank g),
          ok.rooted j,
        );
        room = ground (arith, length-append t.slots (s ∷ []));
        few = ground (arith, length-append t.slots (s ∷ []));
      }

  -- One more slot, occupied at once.
  pub fresh-IsValid :
      {t : Table g}
      → IsValid g t []
      → (c : ℕ) (a : List Bool) (v : g.Val) → suc (length t.slots) ≤ c
      → suc (length t.slots) ≤ int32_max
      → IsValid g (occupy g (extended t (blank g) c a) (length t.slots) v).1 []
  unfolding occupy
  fresh-IsValid {t} ok c a v room few =
      let n = length t.slots in
      let ss = t.slots ++ blank g ∷ [] in
      let more : length ss ≡ suc n = omega (arith, length-append t.slots (blank g ∷ [])) in
      let h : n < length ss = omega arith in
      let s = record (get_or ss n (blank g)) { val = v; refcount = 1; next_free = none } in
      record {
        path = ok.path;
        distinct = tt;
        complete = λ j hj r. ground (
          arith,
          get_or-set ss n j s (blank g) h,
          get_or-append_one t.slots (blank g) (blank g) j,
          length-set ss n s,
          ok.complete j,
        );
        gens = λ j. ground (
          arith,
          get_or-set ss n j s (blank g) h,
          get_or-append_one t.slots (blank g) (blank g) j,
          get_or-append_one t.slots (blank g) (blank g) n,
          ok.gens j,
        );
        rooted = λ j. ground (
          arith,
          get_or-set ss n j s (blank g) h,
          get_or-append_one t.slots (blank g) (blank g) j,
          ok.rooted j,
          linked-add n j t.ctx,
        );
        room = ground (arith, length-set ss n s);
        few = ground (arith, length-set ss n s);
      }

  -- A slot with its last reference goes to the front of the free list.
  pub free_at-IsValid :
      {t : Table g} {free : List ℕ}
      → IsValid g t free
      → (i : ℕ) → i < length t.slots
      → (slot_at g t i).refcount ≢ 0
      → IsValid g (free_at g t i) (i ∷ free)
  unfolding free_at
  free_at-IsValid {t} {free} ok i h live =
      let s : Slot g.Val = record {
        val = g.undefined;
        refcount = 0;
        next_free = t.free_head;
        gen = ((slot_at g t i).gen + 1) % 2 ^ 32;
      } in
      let out = live-not_free g ok i live in
      let next : (get_or (set t.slots i s) i (blank g)).next_free ≡ t.free_head =
        ground (arith, get_or-set t.slots i i s (blank g) h) in
      record {
        path = (
          refl,
          omega (arith, length-set t.slots i s),
          ground (arith, get_or-set t.slots i i s (blank g) h),
          rw next (FreePath-set (blank g) t.slots i s h t.free_head free out ok.path),
        );
        distinct = (out, ok.distinct);
        complete = λ j hj r.
            ground
              (arith, get_or-set t.slots i j s (blank g) h, length-set t.slots i s, ok.complete j);
        gens = λ j. ground (arith, get_or-set t.slots i j s (blank g) h, ok.gens j);
        rooted = λ j. ground (
          arith,
          get_or-set t.slots i j s (blank g) h,
          ok.rooted j,
          ok.rooted i,
          linked-delete i j t.ctx,
        );
        room = rw length-set ok.room;
        few = rw length-set ok.few;
      }
