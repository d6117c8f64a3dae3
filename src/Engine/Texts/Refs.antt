-- ===== src/Engine/Texts/Refs.antt =====
-- The texts that kmpjs_eval, the kmpjs_ref_* functions and kmpjs_run_program leave in *out.
use mquickjs_kmp.Prelude.{ℕ, Bool, true, false, refl, if◌then◌else◌}
use mquickjs_kmp.Engine.Actions.{begin_run}
use mquickjs_kmp.Engine.Refs.{
  Reply, report_exception, deliver, eval, finish, ref_get, ref_get_index, end_failed, set_rooted,
  ref_set, json_reply, object_to_json, ref_to_json, run_program,
}
use mquickjs_kmp.Engine.Texts.Convert.{fail_message-Shows, copied-Shows, value_to_out-Shows}
use mquickjs_kmp.Engine.Texts.Errors.{VmSpares, exception_to_out-Shows}
use mquickjs_kmp.Engine.Texts.{
  Shows, reply_value, Carries, branch, plain, carries, same_value, past_end, cased, asked, behind,
  after, showing,
}
use mquickjs_kmp.Engine.{Bytes, Tag, Value, Doubles, Vm, pure}
use mquickjs_kmp.GcRefs.{GcRefs}

module _ {g : GcRefs} {d : Doubles} (vm : Vm g d) (k : VmSpares vm) where
  pub report_exception-Shows : Shows reply_value (report_exception vm)
  unfolding report_exception
  report_exception-Shows = showing (exception_to_out-Shows vm k) (λ out. same_value _ refl)

  delivered :
      (r : Reply d)
      → Carries r.1 reply_value (if r.0 then pure g (true, r.1) else report_exception vm)
  delivered (true, out) = same_value (true, out) refl
  delivered (false, out) = carries report_exception-Shows

  pub deliver-Shows : (v : g.Val) (flags : ℕ) → Shows reply_value (deliver vm v flags)
  unfolding deliver
  deliver-Shows v flags =
      branch _ report_exception-Shows (showing (value_to_out-Shows vm v flags) (λ r. delivered r))

  finish-Shows :
      (outermost : Bool) (v : g.Val) (flags : ℕ) → Shows reply_value (finish vm outermost v flags)
  unfolding finish
  finish-Shows outermost v flags =
      showing (deliver-Shows v flags) (λ reply. past_end outermost (same_value reply refl))

  pub eval-Shows :
      (code filename : Bytes) (flags : ℕ)
      → Shows (λ (v : Value d.Num). v) (eval vm code filename flags)
  unfolding eval
  eval-Shows code filename flags = behind (begin_run g) (λ outermost. behind _ (λ r.
      showing (deliver-Shows r flags) (λ reply. past_end outermost (same_value reply.1 refl))))

  pub ref_get-Shows :
      (ref : ℕ) (name : Bytes) (flags : ℕ) → Shows reply_value (ref_get vm ref name flags)
  unfolding ref_get
  ref_get-Shows ref name flags = behind _ (λ s.
      cased s (fail_message-Shows d _) (λ slot.
        behind (begin_run g) (λ outermost. behind _ (λ v. finish-Shows outermost v flags))))

  pub ref_get_index-Shows :
      (ref index flags : ℕ) → Shows reply_value (ref_get_index vm ref index flags)
  unfolding ref_get_index
  ref_get_index-Shows ref index flags = behind _ (λ s. cased s (fail_message-Shows d _) (λ slot.
      branch _ (fail_message-Shows d _)
        (behind (begin_run g) (λ outermost. behind _ (λ v. finish-Shows outermost v flags)))))

  end_failed-Shows : (outermost : Bool) → Shows reply_value (end_failed vm outermost)
  unfolding end_failed
  end_failed-Shows outermost =
      showing report_exception-Shows (λ reply. past_end outermost (same_value reply refl))

  set_rooted-Shows :
      (ref : ℕ) (name : Bytes) (outermost : Bool)
      → Shows reply_value (set_rooted vm ref name outermost)
  unfolding set_rooted
  set_rooted-Shows ref name outermost =
      behind _ (λ r. after _ (branch _ (end_failed-Shows outermost) (after _ (plain _ refl refl))))

  pub ref_set-Shows :
      (ref : ℕ) (name : Bytes) (value : Value d.Num) → Shows reply_value (ref_set vm ref name value)
  unfolding ref_set
  ref_set-Shows ref name value = behind _ (λ s. cased s (fail_message-Shows d _) (λ slot.
      behind (begin_run g) (λ outermost. after _ (
        behind _ (λ v. after _ (
          branch _ (after _ (end_failed-Shows outermost))
            (set_rooted-Shows ref name outermost)))))))

  json_reply-Shows : (json : g.Val) → Shows reply_value (json_reply vm json)
  unfolding json_reply
  json_reply-Shows json = branch (vm.is_exception json) report_exception-Shows (
      branch (vm.is_undefined json) (plain _ refl refl)
        (copied-Shows vm Tag.object report_exception-Shows json))

  object_to_json-Shows : (ref : ℕ) → Shows reply_value (object_to_json vm ref)
  unfolding object_to_json
  object_to_json-Shows ref = behind (begin_run g) (λ outermost. behind _ (λ json.
      showing (json_reply-Shows json) (λ reply. past_end outermost (same_value reply refl))))

  pub ref_to_json-Shows : (ref : ℕ) → Shows reply_value (ref_to_json vm ref)
  unfolding ref_to_json
  ref_to_json-Shows ref = behind _ (λ s. cased s (fail_message-Shows d _) (λ slot.
      asked _ (λ function. branch function (plain _ refl refl) (object_to_json-Shows ref))))

  pub run_program-Shows : (ref flags : ℕ) → Shows reply_value (run_program vm ref flags)
  unfolding run_program
  run_program-Shows ref flags = behind _ (λ s.
      cased s (fail_message-Shows d _) (λ slot.
        behind (begin_run g) (λ outermost. behind _ (λ v. finish-Shows outermost v flags))))
