-- ===== src/Engine/Texts/Calls.antt =====
-- The texts that kmpjs_ref_call and kmpjs_define_function leave in *out.
use mquickjs_kmp.Prelude.{ℕ, zero, suc, refl, List}
use mquickjs_kmp.Engine.Actions.{begin_run}
use mquickjs_kmp.Engine.Calls.{
  pop_roots, call_rooted, call_with_roots, call_running, start_call, check_this, ref_call,
}
use mquickjs_kmp.Engine.Host.{define_function}
use mquickjs_kmp.Engine.Texts.Convert.{fail_message-Shows}
use mquickjs_kmp.Engine.Texts.Errors.{VmSpares}
use mquickjs_kmp.Engine.Texts.Refs.{report_exception-Shows, deliver-Shows}
use mquickjs_kmp.Engine.Texts.{
  Shows, reply_value, Carries, branch, plain, same_value, past_end, past_pop, cased, asked, behind,
  after, showing,
}
use mquickjs_kmp.Engine.{Bytes, Value, Doubles, Act, Vm, pure, ◌>>◌}
use mquickjs_kmp.GcRefs.{GcRefs}

module _ {g : GcRefs} {d : Doubles} (vm : Vm g d) where
  -- The loop that pops the roots writes to no buffer.
  past_roots :
      {B : Type 0} {u : Value d.Num} {v : B → Value d.Num} (n : ℕ) {m : Act g B}
      → Carries u v m
      → Carries u v (pop_roots vm n >> m)
  unfolding pop_roots ◌>>◌ pure
  past_roots zero h = record { from = h.from }
  past_roots (suc n) h = let rest = past_pop (past_roots n h) in record { from = rest.from }

module _ {g : GcRefs} {d : Doubles} (vm : Vm g d) (k : VmSpares vm) where
  pub define_function-Shows :
      (name : Bytes) (fn_id flags : ℕ) → Shows reply_value (define_function vm name fn_id flags)
  unfolding define_function
  define_function-Shows name fn_id flags = after _ (
      behind _ (λ params. behind _ (λ f. after _ (
        branch _ (after _ (report_exception-Shows vm k))
          (behind _ (λ r. after _ (branch _ (report_exception-Shows vm k) (plain _ refl refl))))))))

  call_rooted-Shows :
      (ref this_ref argc flags : ℕ) → Shows reply_value (call_rooted vm ref this_ref argc flags)
  unfolding call_rooted
  call_rooted-Shows ref this_ref argc flags = behind _ (λ short.
      branch short (report_exception-Shows vm k)
        (after _ (after _ (after _ (behind _ (λ r. deliver-Shows vm k r flags))))))

  call_with_roots-Shows :
      (ref this_ref : ℕ) (args : List (Value d.Num)) (flags : ℕ)
      → Shows reply_value (call_with_roots vm ref this_ref args flags)
  unfolding call_with_roots
  call_with_roots-Shows ref this_ref args flags = behind _ (λ r.
      showing (branch r.0 (call_rooted-Shows ref this_ref _ flags) (report_exception-Shows vm k))
        (λ reply. past_roots vm r.1 (same_value reply refl)))

  call_running-Shows :
      (ref this_ref : ℕ) (args : List (Value d.Num)) (flags : ℕ)
      → Shows reply_value (call_running vm ref this_ref args flags)
  unfolding call_running
  call_running-Shows ref this_ref args flags =
      behind _
        (λ ok. branch ok (call_with_roots-Shows ref this_ref args flags) (fail_message-Shows d _))

  start_call-Shows :
      (ref this_ref : ℕ) (args : List (Value d.Num)) (flags : ℕ)
      → Shows reply_value (start_call vm ref this_ref args flags)
  unfolding start_call
  start_call-Shows ref this_ref args flags = behind (begin_run g) (λ outermost.
      showing (call_running-Shows ref this_ref args flags)
        (λ reply. past_end outermost (same_value reply refl)))

  check_this-Shows :
      (ref this_ref : ℕ) (args : List (Value d.Num)) (flags : ℕ)
      → Shows reply_value (check_this vm ref this_ref args flags)
  unfolding check_this
  check_this-Shows ref this_ref args flags = branch _ (start_call-Shows ref this_ref args flags) (
      behind _ (λ this.
        cased this (fail_message-Shows d _) (λ slot. start_call-Shows ref this_ref args flags)))

  pub ref_call-Shows :
      (ref this_ref : ℕ) (args : List (Value d.Num)) (flags : ℕ)
      → Shows reply_value (ref_call vm ref this_ref args flags)
  unfolding ref_call
  ref_call-Shows ref this_ref args flags = behind _ (λ s. cased s (fail_message-Shows d _) (λ slot.
      asked _ (λ function.
        branch function (check_this-Shows ref this_ref args flags) (fail_message-Shows d _))))
