-- ===== src/Engine/Errors.antt =====
-- What the kmpjs_ref_* functions and kmpjs_run_program do with a handle that is not live.
use mquickjs_kmp.Prelude.{ℕ, ◌≡◌, refl, false, none, List}
use mquickjs_kmp.Engine.Actions.{find_slot, fail_message, replace_text}
use mquickjs_kmp.Engine.Calls.{ref_call}
use mquickjs_kmp.Engine.Refs.{Reply, ref_get, ref_get_index, ref_set, ref_to_json, run_program}
use mquickjs_kmp.Engine.{Bytes, Tag, Value, Doubles, Engine, Act, Vm, ◌>>=◌, pure, case_of}
use mquickjs_kmp.GcRefs.{GcRefs}
use mquickjs_kmp.Slots.{Slot, slot_get}

module _ {g : GcRefs} where
  -- A call that failed without an effect: it returns -1 with an exception in *out, and of the
  -- engine only the text buffer and what malloc has still to answer may have changed.
  pub record Refused (d : Doubles) (e : Engine g) (r : Reply d × Engine g) : Type 0 where
    pub failed : r.0.0 ≡ false
    pub tag : r.0.1.tag ≡ Tag.exception
    pub untouched :
        r.1
        ≡ record e { table = record (e.table) { allocs = r.1.table.allocs }; out_str = r.1.out_str }

  pub fail_message-Refused :
      {d : Doubles} (msg : Bytes) (e : Engine g) → Refused d e (fail_message g d msg e)
  unfolding fail_message replace_text ◌>>=◌ pure
  fail_message-Refused msg e = record { failed = refl; tag = refl; untouched = refl }

-- The calls that take a handle, and their common shape in C: a result and *out.
pub data RefCall (Num : Type 0) : Type 0 where
  get : Bytes → ℕ → RefCall Num
  get_index : ℕ → ℕ → RefCall Num
  set : Bytes → Value Num → RefCall Num
  call : ℕ → List (Value Num) → ℕ → RefCall Num
  to_json : RefCall Num
  run : ℕ → RefCall Num

module _ {g : GcRefs} {d : Doubles} (vm : Vm g d) where
  abbrev pub call_ref : RefCall d.Num → ℕ → Act g (Reply d)
  call_ref (RefCall.get name flags) ref = ref_get vm ref name flags
  call_ref (RefCall.get_index index flags) ref = ref_get_index vm ref index flags
  call_ref (RefCall.set name value) ref = ref_set vm ref name value
  call_ref (RefCall.call this_ref args flags) ref = ref_call vm ref this_ref args flags
  call_ref RefCall.to_json ref = ref_to_json vm ref
  call_ref (RefCall.run flags) ref = run_program vm ref flags

  -- The first lines of each of them, where there is no slot.
  no_slot-Refused :
      (ref : ℕ) (msg : Bytes) (f : Slot g.Val → Act g (Reply d)) (e : Engine g)
      → slot_get g e.table ref ≡ none
      → Refused d e ((find_slot g ref >>= λ s. case_of s (fail_message g d msg) f) e)
  unfolding find_slot ◌>>=◌ case_of
  no_slot-Refused ref msg f e dead = rw dead (fail_message-Refused msg e)

  -- With a handle that slot_get refuses, each of the functions returns -1 with an exception in *out,
  -- starts no run, and changes nothing of the engine but the text buffer of that message.
  pub dead_handle-Refused :
      (c : RefCall d.Num) (ref : ℕ) (e : Engine g)
      → slot_get g e.table ref ≡ none
      → Refused d e (call_ref c ref e)
  unfolding ref_get ref_get_index ref_set ref_call ref_to_json run_program
  dead_handle-Refused (RefCall.get name flags) ref e dead = no_slot-Refused ref _ _ e dead
  dead_handle-Refused (RefCall.get_index index flags) ref e dead = no_slot-Refused ref _ _ e dead
  dead_handle-Refused (RefCall.set name value) ref e dead = no_slot-Refused ref _ _ e dead
  dead_handle-Refused (RefCall.call this_ref args flags) ref e dead = no_slot-Refused ref _ _ e dead
  dead_handle-Refused RefCall.to_json ref e dead = no_slot-Refused ref _ _ e dead
  dead_handle-Refused (RefCall.run flags) ref e dead = no_slot-Refused ref _ _ e dead
