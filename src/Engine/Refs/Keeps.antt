-- ===== src/Engine/Refs/Keeps.antt =====
-- What kmpjs_eval, the kmpjs_ref_* functions and kmpjs_run_program do to the roots, the run state and
-- the ref table.
use mquickjs_kmp.Prelude.{ℕ, Bool, true, none, some}
use mquickjs_kmp.Engine.Actions.{to_str}
use mquickjs_kmp.Engine.Convert.Keeps.{
  copy_js_string-Meets, exception_to_out-Meets, fail_message-Meets, find_slot-Meets,
  json_stringify-Meets, parse_terminated-Meets, value_from_host-Meets, value_to_out-Meets,
}
use mquickjs_kmp.Engine.Keeps.{
  Meets, begin_then, bind, branch, cased, asked, done, end_last, next, pop_then, push_then,
  wrote-Meets,
}
use mquickjs_kmp.Engine.Laws.{VmKeeps}
use mquickjs_kmp.Engine.Refs.{
  report_exception, deliver, eval, finish, ref_get, ref_get_index, end_failed, set_rooted, ref_set,
  json_reply, object_to_json, ref_to_json, run_program,
}
use mquickjs_kmp.Engine.{Bytes, Value, Doubles, Vm}
use mquickjs_kmp.GcRefs.{GcRefs, GcRefsLaws}

module _ {g : GcRefs} (laws : GcRefsLaws g) {d : Doubles} (vm : Vm g d) (k : VmKeeps vm) where
  pub report_exception-Meets : Meets 0 none (report_exception vm)
  unfolding report_exception
  report_exception-Meets = bind (exception_to_out-Meets vm k) (λ out. done _)

  pub deliver-Meets : (v : g.Val) (flags : ℕ) → Meets 0 none (deliver vm v flags)
  unfolding deliver
  deliver-Meets v flags = branch _ report_exception-Meets (
      bind (value_to_out-Meets laws vm k v to_str flags)
        (λ r. branch r.0 (done _) report_exception-Meets))

  finish-Meets :
      (outermost : Bool) (v : g.Val) (flags : ℕ)
      → Meets 0 (some outermost) (finish vm outermost v flags)
  unfolding finish
  finish-Meets outermost v flags = bind (deliver-Meets v flags) (λ reply. end_last outermost reply)

  pub eval-Meets : (code filename : Bytes) (flags : ℕ) → Meets 0 none (eval vm code filename flags)
  unfolding eval
  eval-Meets code filename flags = begin_then (λ outermost.
      bind (parse_terminated-Meets vm k code filename _ true)
        (λ r. bind (deliver-Meets r flags) (λ reply. end_last outermost reply.1)))

  pub ref_get-Meets :
      (ref : ℕ) (name : Bytes) (flags : ℕ) → Meets 0 none (ref_get vm ref name flags)
  unfolding ref_get
  ref_get-Meets ref name flags = bind (find_slot-Meets ref) (λ s.
      cased s (fail_message-Meets d _) (λ slot. begin_then (λ outermost.
        bind (k.get_property_str slot.val name) (λ v. finish-Meets outermost v flags))))

  pub ref_get_index-Meets : (ref index flags : ℕ) → Meets 0 none (ref_get_index vm ref index flags)
  unfolding ref_get_index
  ref_get_index-Meets ref index flags = bind (find_slot-Meets ref) (λ s.
      cased s (fail_message-Meets d _) (λ slot. branch _ (fail_message-Meets d _) (
        begin_then (λ outermost.
          bind (k.get_property_uint32 slot.val index) (λ v. finish-Meets outermost v flags)))))

  end_failed-Meets : (outermost : Bool) → Meets 0 (some outermost) (end_failed vm outermost)
  unfolding end_failed
  end_failed-Meets outermost = bind report_exception-Meets (λ reply. end_last outermost reply)

  set_rooted-Meets :
      (ref : ℕ) (name : Bytes) (outermost : Bool)
      → Meets 1 (some outermost) (set_rooted vm ref name outermost)
  unfolding set_rooted
  set_rooted-Meets ref name outermost =
      bind (asked _ (λ target. asked _ (λ v. k.set_property_str target name v)))
        (λ r. pop_then (branch _ (end_failed-Meets outermost) (end_last outermost _)))

  pub ref_set-Meets :
      (ref : ℕ) (name : Bytes) (value : Value d.Num) → Meets 0 none (ref_set vm ref name value)
  unfolding ref_set
  ref_set-Meets ref name value = bind (find_slot-Meets ref) (λ s.
      cased s (fail_message-Meets d _) (λ slot. begin_then (λ outermost. push_then (
        bind (value_from_host-Meets vm k value) (λ v. next (wrote-Meets v) (
          branch _ (pop_then (end_failed-Meets outermost))
            (set_rooted-Meets ref name outermost)))))))

  json_reply-Meets : (json : g.Val) → Meets 0 none (json_reply vm json)
  unfolding json_reply
  json_reply-Meets json = branch (vm.is_exception json) report_exception-Meets (
      branch (vm.is_undefined json) (done _) (
        bind (copy_js_string-Meets vm k json to_str)
          (λ text. cased text report_exception-Meets (λ p. done _))))

  object_to_json-Meets : (ref : ℕ) → Meets 0 none (object_to_json vm ref)
  unfolding object_to_json
  object_to_json-Meets ref = begin_then (λ outermost.
      bind (json_stringify-Meets vm k _)
        (λ json. bind (json_reply-Meets json) (λ reply. end_last outermost reply)))

  pub ref_to_json-Meets : (ref : ℕ) → Meets 0 none (ref_to_json vm ref)
  unfolding ref_to_json
  ref_to_json-Meets ref = bind (find_slot-Meets ref) (λ s.
      cased s (fail_message-Meets d _)
        (λ slot. asked _ (λ function. branch function (done _) (object_to_json-Meets ref))))

  pub run_program-Meets : (ref flags : ℕ) → Meets 0 none (run_program vm ref flags)
  unfolding run_program
  run_program-Meets ref flags = bind (find_slot-Meets ref) (λ s.
      cased s (fail_message-Meets d _) (λ slot.
        begin_then (λ outermost. bind (k.run slot.val) (λ v. finish-Meets outermost v flags))))
