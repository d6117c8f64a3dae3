-- ===== src/Slots.antt =====
-- The ref table of native/shim/mquickjs_kmp.c: counted slots behind 64-bit handles.
-- A handle is the bit pattern of an int64_t, an index is what the C casts leave of its low word.
pub mod FreeList
pub mod Extend
pub mod Growth
pub mod Held
pub mod Handles
pub mod History
pub mod Lookup
pub mod Outside
pub mod Placing
pub mod Preserve
pub mod Refs
pub mod Counts
pub mod Stale
pub mod Tests
pub mod Valid
pub mod Wrap
use mquickjs_kmp.Prelude.{
  ℕ, ◌+◌, ◌-◌, ◌*◌, ◌/◌, ◌%◌, ◌^◌, Bool, true, false, ◌&&◌, ◌||◌, Option, none, some, List, [], ◌∷◌,
  ◌++◌, ◌==◌, ltb, leb, if◌then◌else◌, length, get_or, set,
}
use mquickjs_kmp.Buffer.{next_answer, later_answers}
use mquickjs_kmp.GcRefs.{GcRefs}

-- INT32_MAX.
abbrev pub int32_max : ℕ
int32_max = 2147483647

-- kmp_slot, with the JSGCRef reduced to its value. `next_free` is none for -1.
pub record Slot (V : Type 0) : Type 0 where
  pub val : V
  pub refcount : ℕ
  pub next_free : Option ℕ
  pub gen : ℕ

-- An index as `slot_index` returns it: a negative one, or a number.
pub data Index : Type 0 where
  negative : Index
  at : ℕ → Index

-- The handle of slot `idx` in generation `gen`.
unfoldable pub slot_handle : ℕ → ℕ → ℕ
slot_handle idx gen = gen % 2 ^ 32 * 2 ^ 32 + (idx + 1) % 2 ^ 32

-- (int32_t)(ref & 0xFFFFFFFF) - 1, read as an int32_t again. (At 0x80000000 the subtraction
-- overflows; the wrapped result INT32_MAX is taken, which is beyond every slot.)
pub slot_index : ℕ → Index
slot_index ref =
    let low = (ref % 2 ^ 32 + 2 ^ 32 - 1) % 2 ^ 32 in if ltb low (2 ^ 31) then at low else negative

-- The high word.
pub slot_gen : ℕ → ℕ
slot_gen ref = ref / 2 ^ 32 % 2 ^ 32

-- `ref <= 0` of an int64_t.
pub is_not_positive : ℕ → Bool
is_not_positive ref = (ref == 0) || leb (2 ^ 63) ref

module _ (g : GcRefs) where
  -- A slot as calloc leaves it.
  abbrev pub blank : Slot g.Val
  blank = record { val = g.undefined; refcount = 0; next_free = some 0; gen = 0 }

  -- The part of kmpjs_engine that the ref table uses: `slot_count` is the length of `slots`,
  -- `free_head` is none for -1, and `allocs` are the answers of malloc, calloc and realloc.
  pub record Table : Type 0 where
    pub ctx : g.Ctx
    pub slots : List (Slot g.Val)
    pub slot_cap : ℕ
    pub free_head : Option ℕ
    pub allocs : List Bool

  abbrev pub slot_at : Table → ℕ → Slot g.Val
  slot_at t idx = get_or t.slots idx blank

  -- The slot behind a live handle.
  pub slot_get : Table → ℕ → Option (Slot g.Val)
  slot_get t ref = if is_not_positive ref then none else elim (slot_index ref) [
    | negative ↦ none
    | at idx ↦
        if leb (length t.slots) idx
        then none
        else (let s = slot_at t idx in
            if ltb 0 s.refcount && (s.gen == slot_gen ref) then some s else none)
  ]

  -- realloc of the slot array when it is full: to 16 slots at first, then to twice as many.
  unfoldable pub ensure_room : Table → Bool × Table
  ensure_room t =
      if length t.slots == t.slot_cap
      then (if next_answer t.allocs
          then (
            true,
            record t {
              slot_cap = if t.slot_cap == 0 then 16 else t.slot_cap * 2;
              allocs = later_answers t.allocs;
            },
          )
          else (false, record t { allocs = later_answers t.allocs }))
      else (true, t)

  -- calloc of one slot, which is filled and put at the end of the array.
  unfoldable pub append_slot : Table → Slot g.Val → Bool × Table
  append_slot t s =
      let rest = record t { allocs = later_answers t.allocs } in
      if next_answer t.allocs
      then (true, record rest { slots = t.slots ++ s ∷ [] })
      else (false, rest)

  -- The path of slot_new and slot_reserve that finds no free slot: one more slot, or a failure.
  unfoldable pub extend_slots : Table → Slot g.Val → Bool × Table
  extend_slots t s =
      if length t.slots == int32_max
      then (false, t)
      else (let (ok, t') = ensure_room t in if ok then append_slot t' s else (false, t'))

  -- The last lines of slot_new: the slot holds `v`, rooted in the context, with one reference.
  unfoldable pub occupy : Table → ℕ → g.Val → ℕ × Table
  occupy t idx v =
      let s = record (slot_at t idx) { val = v; refcount = 1; next_free = none } in
      (slot_handle idx s.gen, record t { ctx = g.add_gc_ref idx t.ctx; slots = set t.slots idx s })

  -- A handle for `v`, or 0 when no slot is to be had.
  unfoldable pub slot_new : Table → g.Val → ℕ × Table
  slot_new t v = elim t.free_head [
    | some idx ↦ occupy (record t { free_head = (slot_at t idx).next_free }) idx v
    | none ↦
        (let (ok, t') = extend_slots t blank in
          if ok then occupy t' (length t.slots) v else (0, t'))
  ]

  -- Puts a slot on the free list ahead of time. True is the 0 of the C code.
  unfoldable pub slot_reserve : Table → Bool × Table
  slot_reserve t = elim t.free_head [
    | some _ ↦ (true, t)
    | none ↦
        (let (ok, t') = extend_slots t (record blank { next_free = none }) in
          if ok then (true, record t' { free_head = some (length t.slots) }) else (false, t'))
  ]

  -- Writes through the pointer that slot_get returned for `ref`.
  pub write_slot : Table → ℕ → Slot g.Val → Table
  write_slot t ref s = elim (slot_index ref) [
    | negative ↦ t
    | at idx ↦ record t { slots = set t.slots idx s }
  ]

  -- slot_free once the index is known: unroots the slot, moves it to its next generation and puts
  -- it in front of the free list.
  pub free_at : Table → ℕ → Table
  free_at t idx =
      let s = slot_at t idx in
      record t {
        ctx = g.delete_gc_ref idx t.ctx;
        slots = set t.slots idx (record {
          val = g.undefined;
          refcount = 0;
          next_free = t.free_head;
          gen = (s.gen + 1) % 2 ^ 32;
        });
        free_head = some idx;
      }

  pub slot_free : Table → ℕ → Table
  slot_free t ref = elim (slot_index ref) [ negative ↦ t | at idx ↦ free_at t idx ]

  -- kmpjs_ref_retain.
  pub ref_retain : Table → ℕ → Table
  ref_retain t ref = elim (slot_get t ref) [
    | none ↦ t
    | some s ↦ write_slot t ref (record s { refcount = s.refcount + 1 })
  ]

  -- kmpjs_ref_release.
  pub ref_release : Table → ℕ → Table
  ref_release t ref = elim (slot_get t ref) [
    | none ↦ t
    | some s ↦
        (let t' = write_slot t ref (record s { refcount = s.refcount - 1 }) in
          if s.refcount - 1 == 0 then slot_free t' ref else t')
  ]

-- The loop of kmpjs_get_stats.
pub sum_refcounts : {V : Type 0} → List (Slot V) → ℕ
sum_refcounts [] = 0
sum_refcounts (s ∷ ss) = s.refcount + sum_refcounts ss

-- kmpjs_stats.
pub record Stats : Type 0 where
  pub live_refs : ℕ
  pub ref_slots : ℕ

pub get_stats : (g : GcRefs) → Table g → Stats
get_stats g t = record { live_refs = sum_refcounts t.slots; ref_slots = length t.slots }
