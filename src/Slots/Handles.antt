-- ===== src/Slots/Handles.antt =====
-- Handles: packing and unpacking, and what slot_get says about the table.
use mquickjs_kmp.Prelude.{
  ℕ, ◌+◌, ◌-◌, ◌^◌, ◌<◌, ◌≡◌, refl, true, false, ◌&&◌, none, some, arith, ◌==◌, ltb, leb,
  if◌then◌else◌, length, get_or, set, get_or-set, set-set,
}
use mquickjs_kmp.GcRefs.{GcRefs}
use mquickjs_kmp.Slots.{
  Slot, Index, negative, at, Table, blank, slot_at, slot_handle, slot_index, slot_gen,
  is_not_positive, slot_get, write_slot, free_at, slot_free, ref_retain, ref_release,
}

-- A handle unpacks to its index and generation, for every index of an int32_t.
pub slot_index-slot_handle :
    (idx gen : ℕ) → idx < 2 ^ 31 - 1 → slot_index (slot_handle idx gen) ≡ at idx
unfolding slot_index slot_handle
slot_index-slot_handle idx gen h = ground arith

pub slot_gen-slot_handle : (idx gen : ℕ) → gen < 2 ^ 32 → slot_gen (slot_handle idx gen) ≡ gen
unfolding slot_gen slot_handle
slot_gen-slot_handle idx gen h = omega arith

pub slot_handle-word : (idx gen : ℕ) → slot_handle idx gen < 2 ^ 64
unfolding slot_handle
slot_handle-word idx gen = omega arith

-- A handle is positive, as int64_t, exactly in the first half of the generations.
pub is_not_positive-slot_handle :
    (idx gen : ℕ)
    → idx < 2 ^ 31 - 1
    → gen < 2 ^ 32
    → is_not_positive (slot_handle idx gen) ≡ leb (2 ^ 31) gen
unfolding is_not_positive slot_handle
is_not_positive-slot_handle idx gen h k = ground arith

-- No two handles of 64 bits share their index and their generation.
pub handle-injective :
    (r r' idx : ℕ)
    → r < 2 ^ 64
    → r' < 2 ^ 64
    → slot_index r ≡ at idx
    → slot_index r' ≡ at idx
    → slot_gen r ≡ slot_gen r'
    → r ≡ r'
unfolding slot_index slot_gen
handle-injective r r' idx h h' i i' e = ground arith

module _ {g : GcRefs} (t : Table g) where
  -- What a successful slot_get has checked.
  pub record Found (ref : ℕ) (s : Slot g.Val) (idx : ℕ) : Type 0 where
    pub positive : is_not_positive ref ≡ false
    pub index : slot_index ref ≡ at idx
    pub within : idx < length t.slots
    pub is_slot : s ≡ slot_at g t idx
    pub live : 0 < s.refcount
    pub same_gen : s.gen ≡ slot_gen ref

  -- slot_get at a handle whose index is known.
  pub slot_get-at :
      (ref idx : ℕ)
      → is_not_positive ref ≡ false
      → slot_index ref ≡ at idx
      → idx < length t.slots
      → slot_get g t ref ≡ (
          if ltb 0 (slot_at g t idx).refcount && ((slot_at g t idx).gen == slot_gen ref)
          then some (slot_at g t idx)
          else none)
  unfolding slot_get
  slot_get-at ref idx p i h = ground arith

  pub slot_get-Found :
      (ref : ℕ) {s : Slot g.Val} → slot_get g t ref ≡ some s → (idx : ℕ) × Found ref s idx
  unfolding slot_get
  slot_get-Found ref {s} e = go (slot_index ref) refl
    where
      go : (x : Index) → slot_index ref ≡ x → (idx : ℕ) × Found ref s idx
      go negative i = ground arith
      go (at idx) i = (idx, ground arith)

  -- A retain of a live handle writes one more reference to its slot.
  pub ref_retain-at :
      (ref : ℕ) {idx : ℕ} {s : Slot g.Val}
      → slot_get g t ref ≡ some s
      → slot_index ref ≡ at idx
      → ref_retain g t ref
        ≡ record t { slots = set t.slots idx (record s { refcount = s.refcount + 1 }) }
  unfolding ref_retain write_slot
  ref_retain-at ref e i = rw (e, ref_retain) (rw (i, write_slot))

  -- A release that is not the last one writes one reference less.
  pub ref_release-more :
      (ref : ℕ) {idx : ℕ} {s : Slot g.Val}
      → slot_get g t ref ≡ some s
      → slot_index ref ≡ at idx
      → 1 < s.refcount
      → ref_release g t ref
        ≡ record t { slots = set t.slots idx (record s { refcount = s.refcount - 1 }) }
  unfolding ref_release write_slot
  ref_release-more ref {s = s} e i h =
      let more : (s.refcount - 1 == 0) ≡ false = ground arith in
      rw (e, ref_release) (rw (more, i, write_slot))

  -- The last release frees the slot.
  pub ref_release-last :
      (ref : ℕ) {idx : ℕ} {s : Slot g.Val}
      → slot_get g t ref ≡ some s
      → slot_index ref ≡ at idx
      → idx < length t.slots
      → s ≡ slot_at g t idx
      → s.refcount ≡ 1
      → ref_release g t ref ≡ free_at g t idx
  unfolding ref_release write_slot slot_free free_at
  ref_release-last ref {idx} {s} e i h q one =
      let last : (s.refcount - 1 == 0) ≡ true = ground arith in
      let gen : (get_or (set t.slots idx (record s { refcount = s.refcount - 1 })) idx
            (blank g)).gen
          ≡ (slot_at g t idx).gen =
        ground (
          arith,
          get_or-set t.slots idx idx (record s { refcount = s.refcount - 1 }) (blank g) h,
        ) in
      rw (e, ref_release) (rw (last, i, slot_free) (rw (i, write_slot) (rw (set-set, gen))))

  -- A retain or a release of a handle that is not live does nothing.
  pub ref_retain-dead : (ref : ℕ) → slot_get g t ref ≡ none → ref_retain g t ref ≡ t
  unfolding ref_retain
  ref_retain-dead ref e = rw (e, ref_retain)

  pub ref_release-dead : (ref : ℕ) → slot_get g t ref ≡ none → ref_release g t ref ≡ t
  unfolding ref_release
  ref_release-dead ref e = rw (e, ref_release)
