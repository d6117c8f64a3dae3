-- ===== src/Lifecycle/Texts.antt =====
-- The texts that the calls of the host leave in *out: "String payloads in *out stay valid until the
-- next kmpjs_* call on the same engine".
use mquickjs_kmp.Prelude.{refl, false, codes}
use mquickjs_kmp.Bytecode.Load.{
  explain, load_failed, load_body, relocate_body, load_checked, load_bytecode,
}
use mquickjs_kmp.Bytecode.{Build, check_bytecode, out_has, drop, header_size}
use mquickjs_kmp.Engine.Actions.{replace_text}
use mquickjs_kmp.Engine.Entries.{Entry}
use mquickjs_kmp.Engine.Texts.Calls.{define_function-Shows, ref_call-Shows}
use mquickjs_kmp.Engine.Texts.Convert.{fail_message-Shows}
use mquickjs_kmp.Engine.Texts.Errors.{VmSpares, exception_to_out-Shows}
use mquickjs_kmp.Engine.Texts.Refs.{
  eval-Shows, ref_get-Shows, ref_get_index-Shows, ref_set-Shows, ref_to_json-Shows,
  run_program-Shows,
}
use mquickjs_kmp.Engine.Texts.{
  Shown, Shows, Carries, reply_value, branch, carried_branch, plain, carries, same_value, cased,
  behind, after, showing,
}
use mquickjs_kmp.Engine.{Bytes, Value, Doubles, Engine, Vm, ◌>>=◌, ◌>>◌, pure, ask}
use mquickjs_kmp.GcRefs.{GcRefs}
use mquickjs_kmp.Lifecycle.Commands.{Command, obey, reply}
use mquickjs_kmp.Lifecycle.{dump_memory}

module _ {g : GcRefs} {d : Doubles} (vm : Vm g d) (k : VmSpares vm) where
  explain-Carries : (out : Value d.Num) → Carries out reply_value (explain vm out)
  unfolding explain
  explain-Carries out =
      carried_branch (out_has out.str (codes "no atom must be defined in RAM"))
        (carries (
          fail_message-Shows d (
            codes
              "bytecode must be loaded before any script is evaluated or host function registered")))
        (carried_branch (out_has out.str (codes "too many rom atom tables"))
          (carries (
            fail_message-Shows d
              (codes "this engine already holds its bytecode program; one program per engine")))
          (same_value (false, out) refl))

  load_failed-Shows : Shows reply_value (load_failed vm)
  unfolding load_failed
  load_failed-Shows = showing (exception_to_out-Shows vm k) explain-Carries

  load_body-Shows : (body : Bytes) → Shows reply_value (load_body vm body)
  unfolding load_body
  load_body-Shows body =
      behind _ (λ val. branch _ load_failed-Shows (after _ (behind _ (λ ref. plain _ refl refl))))

  relocate_body-Shows : (body : Bytes) → Shows reply_value (relocate_body vm body)
  unfolding relocate_body
  relocate_body-Shows body = behind _ (λ ok.
      branch ok (behind _ (λ relocated. cased relocated (fail_message-Shows d _) load_body-Shows))
        (fail_message-Shows d _))

  load_checked-Shows : (body : Bytes) → Shows reply_value (load_checked vm body)
  unfolding load_checked
  load_checked-Shows body =
      behind _ (λ reserved. branch reserved (relocate_body-Shows body) (fail_message-Shows d _))

  load_bytecode-Shows : (b : Build) (buf : Bytes) → Shows reply_value (load_bytecode vm b buf)
  unfolding load_bytecode
  load_bytecode-Shows b buf =
      cased (check_bytecode b vm.is_bytecode buf) (load_checked-Shows (drop header_size buf))
        (fail_message-Shows d)

  dump_memory-Shows : Shows (λ (v : Value d.Num). v) (dump_memory vm)
  unfolding dump_memory replace_text ◌>>=◌ ◌>>◌ pure ask
  dump_memory-Shows = record { from = λ e. record { str = refl; stack = tt } }

  -- When a call of the host comes back, the texts in *out are what its pointers lead to: the
  -- content of out_str and out_stack at that moment. This is for JavaScript engines that run no
  -- script which comes back to the shim while an Error's `stack` is read, a string is read or an
  -- exception is taken.
  pub reply-Shown :
      (b : Build) (c : Command d.Num) (e : Engine g) → Shown (obey vm b c e) (reply vm b c e)
  reply-Shown b (Command.entry (Entry.evaluate code filename flags)) e =
      (eval-Shows vm k code filename flags).from e
  reply-Shown b (Command.entry (Entry.define name fn_id flags)) e =
      (define_function-Shows vm k name fn_id flags).from e
  reply-Shown b (Command.entry (Entry.get ref name flags)) e =
      (ref_get-Shows vm k ref name flags).from e
  reply-Shown b (Command.entry (Entry.get_index ref index flags)) e =
      (ref_get_index-Shows vm k ref index flags).from e
  reply-Shown b (Command.entry (Entry.set ref name value)) e =
      (ref_set-Shows vm k ref name value).from e
  reply-Shown b (Command.entry (Entry.call ref this_ref args flags)) e =
      (ref_call-Shows vm k ref this_ref args flags).from e
  reply-Shown b (Command.entry (Entry.to_json ref)) e = (ref_to_json-Shows vm k ref).from e
  reply-Shown b (Command.entry (Entry.run ref flags)) e = (run_program-Shows vm k ref flags).from e
  reply-Shown b (Command.entry (Entry.retain ref)) e = record { str = tt; stack = tt }
  reply-Shown b (Command.entry (Entry.release ref)) e = record { str = tt; stack = tt }
  reply-Shown b (Command.load buf) e = (load_bytecode-Shows b buf).from e
  reply-Shown b Command.dump e = dump_memory-Shows.from e
  reply-Shown b Command.interrupt_run e = record { str = tt; stack = tt }
