-- ===== src/Engine/Books/Refs.antt =====
-- The references that kmpjs_eval, the kmpjs_ref_* functions and kmpjs_run_program hand out.
use mquickjs_kmp.Prelude.{ℕ, refl, ◌≡◌, if◌then◌else◌, false, Bool, true}
use mquickjs_kmp.Engine.Actions.{to_str}
use mquickjs_kmp.Engine.Books.Convert.{
  copy_js_string-Level, exception_to_out-Books, fail_message-Books, json_stringify-Level,
  parse_terminated-Level, value_from_host-Level, value_to_out-Books,
}
use mquickjs_kmp.Engine.Books.{
  Books, lent_out, lent_with, lent_reply, begin-Level, end-Level, push-Level, pop-Level,
  find_slot-Level, lends, bind, branch, cased, asked, done, next, write-Level,
}
use mquickjs_kmp.Engine.Books.Laws.{VmBooks}
use mquickjs_kmp.Engine.Refs.{
  Reply, report_exception, deliver, eval, finish, ref_get, ref_get_index, end_failed, set_rooted,
  ref_set, json_reply, object_to_json, ref_to_json, run_program,
}
use mquickjs_kmp.Engine.{Bytes, Value, Doubles, Vm, pure}
use mquickjs_kmp.GcRefs.{GcRefs, GcRefsLaws}
use mquickjs_kmp.Slots.{is_not_positive}

module _ {g : GcRefs} (laws : GcRefsLaws g) {x : ℕ} (positive : is_not_positive x ≡ false)
    {d : Doubles} (vm : Vm g d) (k : VmBooks x vm) where
  pub report_exception-Books : Books x 0 (lent_reply x) (report_exception vm)
  unfolding report_exception
  report_exception-Books = lends (exception_to_out-Books vm k) (λ out. done _ refl)

  delivered :
      (r : Reply d)
      → Books x
          (lent_out x r)
          (lent_reply x)
          (if r.0 then pure g (true, r.1) else report_exception vm)
  delivered (true, out) = done (true, out) refl
  delivered (false, out) = report_exception-Books

  pub deliver-Books : (v : g.Val) (flags : ℕ) → Books x 0 (lent_reply x) (deliver vm v flags)
  unfolding deliver
  deliver-Books v flags =
      branch _ report_exception-Books
        (lends (value_to_out-Books laws positive vm k v to_str flags) (λ r. delivered r))

  finish-Books :
      (outermost : Bool) (v : g.Val) (flags : ℕ)
      → Books x 0 (lent_reply x) (finish vm outermost v flags)
  unfolding finish
  finish-Books outermost v flags =
      lends (deliver-Books v flags) (λ reply. next (end-Level outermost) (done reply refl))

  pub eval-Books :
      (code filename : Bytes) (flags : ℕ) → Books x 0 (lent_with x) (eval vm code filename flags)
  unfolding eval
  eval-Books code filename flags = bind begin-Level (λ outermost.
      bind (parse_terminated-Level vm k code filename _ true) (λ r.
        lends (deliver-Books r flags) (λ reply. next (end-Level outermost) (done reply.1 refl))))

  pub ref_get-Books :
      (ref : ℕ) (name : Bytes) (flags : ℕ) → Books x 0 (lent_reply x) (ref_get vm ref name flags)
  unfolding ref_get
  ref_get-Books ref name flags = bind (find_slot-Level ref) (λ s.
      cased s (fail_message-Books d _) (λ slot. bind begin-Level (λ outermost.
        bind (k.get_property_str slot.val name) (λ v. finish-Books outermost v flags))))

  pub ref_get_index-Books :
      (ref index flags : ℕ) → Books x 0 (lent_reply x) (ref_get_index vm ref index flags)
  unfolding ref_get_index
  ref_get_index-Books ref index flags = bind (find_slot-Level ref) (λ s.
      cased s (fail_message-Books d _) (λ slot. branch _ (fail_message-Books d _) (
        bind begin-Level (λ outermost.
          bind (k.get_property_uint32 slot.val index) (λ v. finish-Books outermost v flags)))))

  end_failed-Books : (outermost : Bool) → Books x 0 (lent_reply x) (end_failed vm outermost)
  unfolding end_failed
  end_failed-Books outermost =
      lends report_exception-Books (λ reply. next (end-Level outermost) (done reply refl))

  set_rooted-Books :
      (ref : ℕ) (name : Bytes) (outermost : Bool)
      → Books x 0 (lent_reply x) (set_rooted vm ref name outermost)
  unfolding set_rooted
  set_rooted-Books ref name outermost =
      bind (asked _ (λ target. asked _ (λ v. k.set_property_str target name v))) (λ r.
        next pop-Level
          (branch _ (end_failed-Books outermost) (next (end-Level outermost) (done _ refl))))

  pub ref_set-Books :
      (ref : ℕ) (name : Bytes) (value : Value d.Num)
      → Books x 0 (lent_reply x) (ref_set vm ref name value)
  unfolding ref_set
  ref_set-Books ref name value = bind (find_slot-Level ref) (λ s.
      cased s (fail_message-Books d _) (λ slot. bind begin-Level (λ outermost. next push-Level (
        bind (value_from_host-Level vm k value) (λ v. next (write-Level v) (
          branch _ (next pop-Level (end_failed-Books outermost))
            (set_rooted-Books ref name outermost)))))))

  json_reply-Books : (json : g.Val) → Books x 0 (lent_reply x) (json_reply vm json)
  unfolding json_reply
  json_reply-Books json = branch (vm.is_exception json) report_exception-Books (
      branch (vm.is_undefined json) (done _ refl) (
        bind (copy_js_string-Level vm k json to_str)
          (λ text. cased text report_exception-Books (λ p. done _ refl))))

  object_to_json-Books : (ref : ℕ) → Books x 0 (lent_reply x) (object_to_json vm ref)
  unfolding object_to_json
  object_to_json-Books ref = bind begin-Level (λ outermost.
      bind (json_stringify-Level vm k _) (λ json.
        lends (json_reply-Books json) (λ reply. next (end-Level outermost) (done reply refl))))

  pub ref_to_json-Books : (ref : ℕ) → Books x 0 (lent_reply x) (ref_to_json vm ref)
  unfolding ref_to_json
  ref_to_json-Books ref = bind (find_slot-Level ref) (λ s.
      cased s (fail_message-Books d _)
        (λ slot. asked _ (λ function. branch function (done _ refl) (object_to_json-Books ref))))

  pub run_program-Books : (ref flags : ℕ) → Books x 0 (lent_reply x) (run_program vm ref flags)
  unfolding run_program
  run_program-Books ref flags = bind (find_slot-Level ref) (λ s.
      cased s (fail_message-Books d _) (λ slot.
        bind begin-Level
          (λ outermost. bind (k.run slot.val) (λ v. finish-Books outermost v flags))))
