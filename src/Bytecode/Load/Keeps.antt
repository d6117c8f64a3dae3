-- ===== src/Bytecode/Load/Keeps.antt =====
-- What kmpjs_load_bytecode does to the roots, the run state and the ref table.
use mquickjs_kmp.Prelude.{◌≡◌, false, none, some, codes, arith}
use mquickjs_kmp.Bytecode.Load.{
  reserve_slot, keep_block, explain, load_failed, load_body, relocate_body, load_checked,
  load_bytecode,
}
use mquickjs_kmp.Bytecode.{Build, check_bytecode, out_has, drop, header_size}
use mquickjs_kmp.Engine.Convert.Keeps.{
  alloc_answer-Meets, exception_to_out-Meets, fail_message-Meets, new_slot-Meets,
}
use mquickjs_kmp.Engine.Entries.{Restored, restored}
use mquickjs_kmp.Engine.Errors.{Refused, fail_message-Refused}
use mquickjs_kmp.Engine.Keeps.{Meets, Steady-refl, bind, branch, cased, done, next}
use mquickjs_kmp.Engine.Laws.{VmKeeps}
use mquickjs_kmp.Engine.{Bytes, Value, Doubles, Engine, Vm, case_of}
use mquickjs_kmp.GcRefs.{GcRefs, GcRefsLaws}
use mquickjs_kmp.Slots.Outside.{slot_reserve-Same}
use mquickjs_kmp.Slots.Preserve.{Valid, slot_reserve-Valid}

module _ {g : GcRefs} (laws : GcRefsLaws g) where
  reserve_slot-Meets : Meets 0 none (reserve_slot g)
  unfolding reserve_slot
  reserve_slot-Meets = record {
    from = λ e. record {
      roots = λ _. omega arith;
      state = Steady-refl e.state;
      table = slot_reserve-Valid g laws e.table;
      rest = λ _. slot_reserve-Same g laws e.table;
    };
  }

  keep_block-Meets : (body : Bytes) → Meets 0 none (keep_block g body)
  unfolding keep_block
  keep_block-Meets body = record {
    from = λ e. record {
      roots = λ _. omega arith;
      state = Steady-refl e.state;
      table = λ v. v;
      rest = λ _. g.same_refl e.table.ctx;
    };
  }

module _ {g : GcRefs} (laws : GcRefsLaws g) {d : Doubles} (vm : Vm g d) (k : VmKeeps vm) where
  explain-Meets : (out : Value d.Num) → Meets 0 none (explain vm out)
  unfolding explain
  explain-Meets out =
      branch (out_has out.str (codes "no atom must be defined in RAM"))
        (fail_message-Meets d (
          codes
            "bytecode must be loaded before any script is evaluated or host function registered"))
        (branch (out_has out.str (codes "too many rom atom tables"))
          (fail_message-Meets d
            (codes "this engine already holds its bytecode program; one program per engine"))
          (done (false, out)))

  load_failed-Meets : Meets 0 none (load_failed vm)
  unfolding load_failed
  load_failed-Meets = bind (exception_to_out-Meets vm k) explain-Meets

  load_body-Meets : (body : Bytes) → Meets 0 none (load_body vm body)
  unfolding load_body
  load_body-Meets body = bind (k.load_bytecode body) (λ val.
      branch _ load_failed-Meets
        (next (keep_block-Meets laws body) (bind (new_slot-Meets laws val) (λ ref. done _))))

  relocate_body-Meets : (body : Bytes) → Meets 0 none (relocate_body vm body)
  unfolding relocate_body
  relocate_body-Meets body = bind alloc_answer-Meets (λ ok.
      branch ok
        (bind (k.relocate_bytecode body)
          (λ relocated. cased relocated (fail_message-Meets d _) load_body-Meets))
        (fail_message-Meets d _))

  load_checked-Meets : (body : Bytes) → Meets 0 none (load_checked vm body)
  unfolding load_checked
  load_checked-Meets body =
      bind (reserve_slot-Meets laws)
        (λ reserved. branch reserved (relocate_body-Meets body) (fail_message-Meets d _))

  pub load_bytecode-Meets : (b : Build) (buf : Bytes) → Meets 0 none (load_bytecode vm b buf)
  unfolding load_bytecode
  load_bytecode-Meets b buf =
      cased (check_bytecode b vm.is_bytecode buf) (load_checked-Meets (drop header_size buf))
        (fail_message-Meets d)

  -- If the calls of the JavaScript engine leave the engine in order, then kmpjs_load_bytecode keeps
  -- the ref table valid, the roots balanced and the run state as in `Restored`, whatever fails.
  pub load_bytecode-Restored :
      (b : Build) (buf : Bytes) (e : Engine g)
      → Valid g e.table
      → Restored e (load_bytecode vm b buf e).1
  load_bytecode-Restored b buf e v = restored e _ v ((load_bytecode-Meets b buf).from e)

module _ {g : GcRefs} {d : Doubles} (vm : Vm g d) where
  -- A file that fails a check is refused: kmpjs_load_bytecode returns -1 with an exception, without
  -- a call of JS_RelocateBytecode or JS_LoadBytecode, and changes nothing of the engine but the text
  -- buffer of the message.
  pub load_bytecode-Refused :
      (b : Build) (buf msg : Bytes) (e : Engine g)
      → check_bytecode b vm.is_bytecode buf ≡ some msg
      → Refused d e (load_bytecode vm b buf e)
  unfolding load_bytecode case_of
  load_bytecode-Refused b buf msg e h = rw h (fail_message-Refused msg e)
