-- ===== src/Slots/Tests.antt =====
-- Runs of the ref table over a small context of GC roots, and its theorems at concrete tables.
use mquickjs_kmp.Prelude.{
  ℕ, zero, suc, ◌+◌, ◌^◌, ◌≡◌, refl, ◌≢◌, Bool, true, false, none, some, List, [], ◌∷◌, ◌++◌, arith,
  ◌==◌, if◌then◌else◌, get_or, set,
}
use mquickjs_kmp.GcRefs.{GcRefs, GcRefsLaws}
use mquickjs_kmp.Slots.Held.{held}
use mquickjs_kmp.Slots.History.{
  Call, make, retain, release, run, step, all_taken, all_settled, run_owed, run-Valid,
}
use mquickjs_kmp.Slots.Placing.{Handed, slot_new-Handed}
use mquickjs_kmp.Slots.Preserve.{Valid}
use mquickjs_kmp.Slots.Refs.{lookup, one_less, lookup-ref_release}
use mquickjs_kmp.Slots.Stale.{released_stays_dead}
use mquickjs_kmp.Slots.Wrap.{late_generation_leaks}
use mquickjs_kmp.Slots.{
  Table, slot_at, slot_get, slot_new, slot_handle, slot_index, slot_gen, is_not_positive,
  ref_retain, ref_release, extend_slots, ensure_room, append_slot, occupy, write_slot, slot_free,
  free_at, get_stats,
}

-- The roots as the set of linked slots; values are numbers.
abbrev pub set_of_roots : GcRefs
set_of_roots = record {
  Val = ℕ;
  Ctx = ℕ → Bool;
  undefined = 0;
  add_gc_ref = λ i c j. if i == j then true else c j;
  delete_gc_ref = λ i c j. if i == j then false else c j;
  linked = λ c i. c i;
  Same = λ c c'. Unit {0};
  same_refl = λ c. tt;
  same_trans = λ c c₁ c₂ h k. tt;
}

pub roots_laws : GcRefsLaws set_of_roots
roots_laws = record {
  linked-add = λ i j c. refl;
  linked-delete = λ i j c h. refl;
  Same-add = λ i c. tt;
  Same-delete = λ i c h. tt;
}

-- A new engine's table, with an allocator that has four answers left.
abbrev pub fresh_table : Table set_of_roots
fresh_table = record {
  ctx = λ _. false;
  slots = [];
  slot_cap = 0;
  free_head = none;
  allocs = true ∷ true ∷ true ∷ true ∷ [];
}

pub fresh_table-Valid : Valid set_of_roots fresh_table
unfolding get_or
fresh_table-Valid = (
  [],
  record {
    path = refl;
    distinct = tt;
    complete = λ i h. absurd (omega arith);
    gens = λ i. omega arith;
    rooted = λ i. refl;
    room = omega arith;
    few = omega arith;
  },
)

pub fresh_table-holds_nothing : slot_get set_of_roots fresh_table (1 + 2 ^ 32) ≡ none
unfolding slot_get slot_index slot_gen is_not_positive
fresh_table-holds_nothing = refl

-- Two values in, one more reference to the first.
abbrev opening : List (Call ℕ)
opening = make 7 ∷ make 8 ∷ retain 1 ∷ []

two_values : lookup set_of_roots (run set_of_roots fresh_table opening) 1 ≡ some (7, 2)
unfolding lookup run step slot_new slot_get extend_slots ensure_room append_slot occupy ref_retain
    write_slot slot_handle slot_index slot_gen is_not_positive get_or set
two_values = refl

-- After the opening the first handle takes two releases, and the third call on it is refused.
abbrev closing : List (Call ℕ)
closing = release 1 ∷ release 1 ∷ make 9 ∷ []

slot_reused :
    (lookup set_of_roots (run set_of_roots fresh_table (opening ++ closing)) 1 ≡ none)
    × (lookup set_of_roots (run set_of_roots fresh_table (opening ++ closing)) (2 ^ 32 + 1)
        ≡ some (9, 1))
unfolding lookup run step slot_new slot_get extend_slots ensure_room append_slot occupy ref_retain
    ref_release write_slot slot_free free_at slot_handle slot_index slot_gen is_not_positive get_or
    set
slot_reused = (refl, refl)

run-Valid_example : Valid set_of_roots (run set_of_roots fresh_table opening)
run-Valid_example = run-Valid set_of_roots roots_laws fresh_table opening fresh_table-Valid

run_owed_example :
    (get_stats set_of_roots (run set_of_roots fresh_table (opening ++ closing))).live_refs
      + all_settled set_of_roots fresh_table (opening ++ closing)
    ≡ (get_stats set_of_roots fresh_table).live_refs
      + all_taken set_of_roots fresh_table (opening ++ closing)
run_owed_example =
    run_owed set_of_roots roots_laws fresh_table (opening ++ closing) fresh_table-Valid
      (omega arith)

slot_new-Handed_example :
    Handed set_of_roots fresh_table 7
      (slot_new set_of_roots fresh_table 7).0
      (slot_new set_of_roots fresh_table 7).1
unfolding slot_new extend_slots ensure_room append_slot occupy slot_handle is_not_positive get_or
    set
slot_new-Handed_example = slot_new-Handed set_of_roots fresh_table 7 fresh_table-Valid refl

-- The same table when the allocator fails at once.
abbrev starved : Table set_of_roots
starved = record fresh_table { allocs = [] }

starved-Valid : Valid set_of_roots starved
unfolding get_or
starved-Valid = (
  [],
  record {
    path = refl;
    distinct = tt;
    complete = λ i h. absurd (omega arith);
    gens = λ i. omega arith;
    rooted = λ i. refl;
    room = omega arith;
    few = omega arith;
  },
)

lookup-ref_release_example :
    lookup set_of_roots (ref_release set_of_roots (run set_of_roots fresh_table opening) 2) 2
    ≡ one_less (lookup set_of_roots (run set_of_roots fresh_table opening) 2)
lookup-ref_release_example =
    lookup-ref_release set_of_roots (run set_of_roots fresh_table opening) 2 2 (omega arith)
      (omega arith)

released_stays_dead_example :
    slot_get set_of_roots
      (run set_of_roots (ref_release set_of_roots (run set_of_roots fresh_table opening) 2) closing)
      2
    ≡ none
unfolding lookup run step slot_new slot_get extend_slots ensure_room append_slot occupy ref_retain
    write_slot slot_handle slot_index slot_gen is_not_positive get_or set
released_stays_dead_example =
    released_stays_dead set_of_roots roots_laws (run set_of_roots fresh_table opening) 2 8 closing
      (run-Valid set_of_roots roots_laws fresh_table opening fresh_table-Valid) (omega arith) refl
      (omega arith) (omega arith)

-- One free slot that was released 2^31 times.
abbrev worn : Table set_of_roots
worn = record fresh_table {
  slots = record { val = 0; refcount = 0; next_free = none; gen = 2147483648 } ∷ [];
  slot_cap = 16;
  free_head = some 0;
}

worn-Valid : Valid set_of_roots worn
unfolding get_or
worn-Valid = (
  0 ∷ [],
  record {
    path = (refl, omega arith, refl, refl);
    distinct = (refl, tt);
    complete = λ i h r. ground arith;
    gens = elim [ zero ↦ omega arith | suc i ↦ omega arith ];
    rooted = elim [ zero ↦ refl | suc i ↦ refl ];
    room = omega arith;
    few = omega arith;
  },
)

late_generation_leaks_example :
    let r = (slot_new set_of_roots worn 7).0 in
    let t' = (slot_new set_of_roots worn 7).1 in
    (r ≢ 0)
    × (slot_get set_of_roots t' r ≡ none)
    × (ref_release set_of_roots t' r ≡ t')
    × ((slot_at set_of_roots t' 0).refcount ≡ 1)
unfolding get_or
late_generation_leaks_example =
    late_generation_leaks set_of_roots worn 7 0 worn-Valid refl (omega arith)

pub handle_one : is_not_positive 1 ≡ false
unfolding is_not_positive
handle_one = refl

pub fresh_table-held : held set_of_roots fresh_table 1 ≡ 0
unfolding held lookup slot_get slot_index is_not_positive
fresh_table-held = refl
