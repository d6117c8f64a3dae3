-- ===== src/Engine/Books/Calls.antt =====
-- The references that kmpjs_ref_call hands out.
use mquickjs_kmp.Prelude.{ℕ, zero, suc, ◌≡◌, refl, false, List, [], ◌∷◌}
use mquickjs_kmp.Engine.Calls.{
  root_args, push_args, pop_roots, call_rooted, call_with_roots, call_running, start_call,
  check_this, ref_call,
}
use mquickjs_kmp.Engine.Books.Convert.{fail_message-Books, value_from_host-Level}
use mquickjs_kmp.Engine.Books.{
  Books, Level, lent_reply, begin-Level, end-Level, push-Level, pop-Level, find_slot-Level,
  alloc_answer-Level, lends, bind, branch, cased, asked, done, next, write-Level,
}
use mquickjs_kmp.Engine.Books.Laws.{VmBooks}
use mquickjs_kmp.Engine.Books.Refs.{report_exception-Books, deliver-Books}
use mquickjs_kmp.Engine.{Value, Doubles, Vm}
use mquickjs_kmp.GcRefs.{GcRefs, GcRefsLaws}
use mquickjs_kmp.Slots.{is_not_positive}

module _ {g : GcRefs} (laws : GcRefsLaws g) {x : ℕ} (positive : is_not_positive x ≡ false)
    {d : Doubles} (vm : Vm g d) (k : VmBooks x vm) where
  pop_roots-Level : (n : ℕ) → Level x (pop_roots vm n)
  unfolding pop_roots
  pop_roots-Level zero = done tt refl
  pop_roots-Level (suc n) = next pop-Level (pop_roots-Level n)

  root_args-Level : (args : List (Value d.Num)) (n : ℕ) → Level x (root_args vm args n)
  unfolding root_args
  root_args-Level [] n = done _ refl
  root_args-Level (v ∷ vs) n = next push-Level (
      bind (value_from_host-Level vm k v)
        (λ val. next (write-Level val) (branch _ (done _ refl) (root_args-Level vs (suc n)))))

  push_args-Level : (n depth : ℕ) → Level x (push_args vm n depth)
  unfolding push_args
  push_args-Level zero depth = done tt refl
  push_args-Level (suc n) depth = next (asked _ k.push_arg) (push_args-Level n (suc depth))

  call_rooted-Books :
      (ref this_ref argc flags : ℕ)
      → Books x 0 (lent_reply x) (call_rooted vm ref this_ref argc flags)
  unfolding call_rooted
  call_rooted-Books ref this_ref argc flags = bind (k.stack_check _) (λ short.
      branch short (report_exception-Books laws positive vm k) (
        next (push_args-Level argc 0) (
          next (asked _ k.push_arg) (
            next (asked _ k.push_arg)
              (bind (k.call argc) (λ r. deliver-Books laws positive vm k r flags))))))

  call_with_roots-Books :
      (ref this_ref : ℕ) (args : List (Value d.Num)) (flags : ℕ)
      → Books x 0 (lent_reply x) (call_with_roots vm ref this_ref args flags)
  unfolding call_with_roots
  call_with_roots-Books ref this_ref args flags = bind (root_args-Level args 0) (λ r.
      lends
        (branch r.0 (call_rooted-Books ref this_ref _ flags)
          (report_exception-Books laws positive vm k))
        (λ reply. next (pop_roots-Level r.1) (done reply refl)))

  call_running-Books :
      (ref this_ref : ℕ) (args : List (Value d.Num)) (flags : ℕ)
      → Books x 0 (lent_reply x) (call_running vm ref this_ref args flags)
  unfolding call_running
  call_running-Books ref this_ref args flags =
      bind (branch _ (done _ refl) alloc_answer-Level)
        (λ ok. branch ok (call_with_roots-Books ref this_ref args flags) (fail_message-Books d _))

  start_call-Books :
      (ref this_ref : ℕ) (args : List (Value d.Num)) (flags : ℕ)
      → Books x 0 (lent_reply x) (start_call vm ref this_ref args flags)
  unfolding start_call
  start_call-Books ref this_ref args flags = bind begin-Level (λ outermost.
      lends (call_running-Books ref this_ref args flags)
        (λ reply. next (end-Level outermost) (done reply refl)))

  check_this-Books :
      (ref this_ref : ℕ) (args : List (Value d.Num)) (flags : ℕ)
      → Books x 0 (lent_reply x) (check_this vm ref this_ref args flags)
  unfolding check_this
  check_this-Books ref this_ref args flags = branch _ (start_call-Books ref this_ref args flags) (
      bind (find_slot-Level this_ref) (λ this.
        cased this (fail_message-Books d _) (λ slot. start_call-Books ref this_ref args flags)))

  pub ref_call-Books :
      (ref this_ref : ℕ) (args : List (Value d.Num)) (flags : ℕ)
      → Books x 0 (lent_reply x) (ref_call vm ref this_ref args flags)
  unfolding ref_call
  ref_call-Books ref this_ref args flags = bind (find_slot-Level ref) (λ s.
      cased s (fail_message-Books d _) (λ slot. asked _ (λ function.
        branch function (check_this-Books ref this_ref args flags) (fail_message-Books d _))))
