-- ===== src/Engine/Calls/Keeps.antt =====
-- What kmpjs_ref_call does to the roots, the run state and the ref table.
use mquickjs_kmp.Prelude.{
  ℕ, zero, suc, Bool, true, false, Option, none, List, [], ◌∷◌, if◌then◌else◌,
}
use mquickjs_kmp.Engine.Calls.{
  root_args, push_args, pop_roots, call_rooted, call_with_roots, call_running, start_call,
  check_this, ref_call,
}
use mquickjs_kmp.Engine.Convert.Keeps.{
  alloc_answer-Meets, fail_message-Meets, find_slot-Meets, value_from_host-Meets,
}
use mquickjs_kmp.Engine.Keeps.{
  Meets, begin_then, bind, branch, cased, asked, done, end_last, next, pop_then, push_then,
  wrote-Meets,
}
use mquickjs_kmp.Engine.Laws.{VmKeeps}
use mquickjs_kmp.Engine.Refs.Keeps.{report_exception-Meets, deliver-Meets}
use mquickjs_kmp.Engine.{Value, Doubles, Act, Vm, ◌>>=◌, ◌>>◌, pure}
use mquickjs_kmp.GcRefs.{GcRefs, GcRefsLaws}

module _ {g : GcRefs} where
  pop_roots-Meets : {d : Doubles} (vm : Vm g d) (n : ℕ) → Meets n none (pop_roots vm n)
  unfolding pop_roots
  pop_roots-Meets vm zero = done tt
  pop_roots-Meets vm (suc n) = pop_then (pop_roots-Meets vm n)

  returns :
      {A B : Type 0} {pops : ℕ} {o : Option Bool} {m : Act g A}
      → Meets pops o m
      → (b : B) → Meets pops o (m >> pure g b)
  unfolding ◌>>◌ pure
  returns h b = record { from = h.from }

module _ {g : GcRefs} {A B : Type 0} {pops : ℕ} {o : Option Bool} where
  branch_then :
      (b : Bool) (m n : Act g A) (f : A → Act g B)
      → Meets pops o (m >>= f)
      → Meets pops o (n >>= f)
      → Meets pops o ((if b then m else n) >>= f)
  branch_then true m n f h k = h
  branch_then false m n f h k = k

  pure_then : (a : A) (f : A → Act g B) → Meets pops o (f a) → Meets pops o (pure g a >>= f)
  unfolding ◌>>=◌ pure
  pure_then a f h = record { from = h.from }

module _ {g : GcRefs} {d : Doubles} (laws : GcRefsLaws g) (vm : Vm g d) (k : VmKeeps vm) where
  -- What comes after the loop pays for the roots that the loop says it has pushed.
  root_args_then :
      {B : Type 0} {o : Option Bool} (f : Bool × ℕ → Act g B)
      → ((b : Bool) (n : ℕ) → Meets n o (f (b, n)))
      → (args : List (Value d.Num)) (n : ℕ) → Meets n o (root_args vm args n >>= f)
  unfolding root_args ◌>>=◌ ◌>>◌
  root_args_then f h [] n = pure_then (true, n) f (h true n)
  root_args_then {o = o} f h (v ∷ vs) n =
      let failed : Act g (Bool × ℕ) = pure g (false, suc n) in
      let stopped : Meets (suc n) o (failed >>= f) = pure_then (false, suc n) f (h false (suc n)) in
      let rooted : (x : g.Val)
          → Meets (suc n) o
              ((if vm.is_exception x then failed else root_args vm vs (suc n)) >>= f) =
        λ x. branch_then _ failed _ f stopped (root_args_then f h vs (suc n)) in
      let whole =
        push_then (bind (value_from_host-Meets vm k v) (λ x. next (wrote-Meets x) (rooted x))) in
      record { from = whole.from }

  push_args-Meets : (n depth : ℕ) → Meets 0 none (push_args vm n depth)
  unfolding push_args
  push_args-Meets zero depth = done tt
  push_args-Meets (suc n) depth = next (asked _ k.push_arg) (push_args-Meets n (suc depth))

  call_rooted-Meets :
      (ref this_ref argc flags : ℕ) → Meets 0 none (call_rooted vm ref this_ref argc flags)
  unfolding call_rooted
  call_rooted-Meets ref this_ref argc flags = bind (k.stack_check _) (λ short.
      branch short (report_exception-Meets laws vm k) (
        next (push_args-Meets argc 0) (
          next (asked _ k.push_arg) (
            next (asked _ k.push_arg)
              (bind (k.call argc) (λ r. deliver-Meets laws vm k r flags))))))

  call_with_roots-Meets :
      (ref this_ref : ℕ) (args : List (Value d.Num)) (flags : ℕ)
      → Meets 0 none (call_with_roots vm ref this_ref args flags)
  unfolding call_with_roots
  call_with_roots-Meets ref this_ref args flags =
      root_args_then _
        (λ converted pushed.
          bind
            (branch converted (call_rooted-Meets ref this_ref _ flags)
              (report_exception-Meets laws vm k))
            (λ reply. returns (pop_roots-Meets vm pushed) reply))
        args 0

  call_running-Meets :
      (ref this_ref : ℕ) (args : List (Value d.Num)) (flags : ℕ)
      → Meets 0 none (call_running vm ref this_ref args flags)
  unfolding call_running
  call_running-Meets ref this_ref args flags =
      bind (branch _ (done _) alloc_answer-Meets)
        (λ ok. branch ok (call_with_roots-Meets ref this_ref args flags) (fail_message-Meets d _))

  start_call-Meets :
      (ref this_ref : ℕ) (args : List (Value d.Num)) (flags : ℕ)
      → Meets 0 none (start_call vm ref this_ref args flags)
  unfolding start_call
  start_call-Meets ref this_ref args flags = begin_then (λ outermost.
      bind (call_running-Meets ref this_ref args flags) (λ reply. end_last outermost reply))

  check_this-Meets :
      (ref this_ref : ℕ) (args : List (Value d.Num)) (flags : ℕ)
      → Meets 0 none (check_this vm ref this_ref args flags)
  unfolding check_this
  check_this-Meets ref this_ref args flags = branch _ (start_call-Meets ref this_ref args flags) (
      bind (find_slot-Meets this_ref) (λ this.
        cased this (fail_message-Meets d _) (λ slot. start_call-Meets ref this_ref args flags)))

  pub ref_call-Meets :
      (ref this_ref : ℕ) (args : List (Value d.Num)) (flags : ℕ)
      → Meets 0 none (ref_call vm ref this_ref args flags)
  unfolding ref_call
  ref_call-Meets ref this_ref args flags = bind (find_slot-Meets ref) (λ s.
      cased s (fail_message-Meets d _) (λ slot. asked _ (λ function.
        branch function (check_this-Meets ref this_ref args flags) (fail_message-Meets d _))))
