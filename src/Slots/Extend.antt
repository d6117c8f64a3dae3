-- ===== src/Slots/Extend.antt =====
-- Growing the slot array: what becomes of its slots and of the room in it.
use mquickjs_kmp.Prelude.{
  ℕ, suc, ◌≤◌, inl, inr, Bool, true, false, List, [], ◌∷◌, ◌++◌, arith, ◌==◌, length, Bool-cases,
}
use mquickjs_kmp.Buffer.{next_answer, later_answers}
use mquickjs_kmp.GcRefs.{GcRefs}
use mquickjs_kmp.Slots.{Slot, Table, ensure_room, append_slot, extend_slots, int32_max}

module _ {g : GcRefs} (t : Table g) (s : Slot g.Val) where
  -- The table with another capacity and later answers, and with one more slot.
  abbrev pub resized : ℕ → List Bool → Table g
  resized c a = record t { slot_cap = c; allocs = a }

  abbrev pub extended : ℕ → List Bool → Table g
  extended c a = record t { slots = t.slots ++ s ∷ []; slot_cap = c; allocs = a }

  -- A failure keeps every slot, a success appends one within the new capacity and INT32_MAX.
  pub data Extends : Bool × Table g → Type 0 where
    failed : (c : ℕ) (a : List Bool) → length t.slots ≤ c → Extends (false, resized c a)
    grown :
        (c : ℕ) (a : List Bool)
        → suc (length t.slots) ≤ c
        → suc (length t.slots) ≤ int32_max
        → Extends (true, extended c a)

  -- The append after the capacity is settled.
  append_slot-Extends :
      (c : ℕ) (a : List Bool)
      → suc (length t.slots) ≤ c
      → suc (length t.slots) ≤ int32_max
      → Extends (append_slot g (resized c a) s)
  unfolding append_slot
  append_slot-Extends c a room few = elim (Bool-cases (next_answer a)) [
    | inl ok ↦ rw ok (grown c (later_answers a) room few)
    | inr out ↦ rw out (failed c (later_answers a) (omega arith))
  ]

  pub extend_slots-Extends :
      length t.slots ≤ t.slot_cap → length t.slots ≤ int32_max → Extends (extend_slots g t s)
  unfolding extend_slots ensure_room
  extend_slots-Extends room few = elim (Bool-cases (length t.slots == int32_max)) [
    | inl full ↦ rw full (failed t.slot_cap t.allocs room)
    | inr more ↦ rw more (elim (Bool-cases (length t.slots == t.slot_cap)) [
      | inl exact ↦ rw exact (elim (Bool-cases (next_answer t.allocs)) [
        | inl ok ↦
            rw ok (append_slot-Extends _ (later_answers t.allocs) (ground arith) (ground arith))
        | inr out ↦ rw out (failed t.slot_cap (later_answers t.allocs) room)
      ])
      | inr space ↦ rw space (append_slot-Extends t.slot_cap t.allocs (ground arith) (ground arith))
    ])
  ]
