-- ===== src/Engine/Calls.antt =====
-- kmpjs_ref_call: from the host into JavaScript.
pub mod Keeps
use mquickjs_kmp.Prelude.{
  ℕ, zero, suc, ◌+◌, ◌==◌, Bool, true, false, Option, none, some, List, [], ◌∷◌, if◌then◌else◌,
  length, get_or, codes,
}
use mquickjs_kmp.Engine.Actions.{
  begin_run, end_run, push_gc_ref, write_root, pop_gc_ref, alloc_answer, find_slot, slot_val,
  fail_message,
}
use mquickjs_kmp.Engine.Convert.{value_from_host}
use mquickjs_kmp.Engine.Refs.{Reply, report_exception, deliver}
use mquickjs_kmp.Engine.{Bytes, Value, Doubles, Engine, Act, pure, ◌>>=◌, ◌>>◌, case_of, ask, Vm}
use mquickjs_kmp.GcRefs.{GcRefs}

module _ {g : GcRefs} {d : Doubles} (vm : Vm g d) where
  open vm use {is_exception}

  -- The loop that roots every converted argument: whether all were converted, and how many roots
  -- it has pushed.
  unfoldable pub root_args : List (Value d.Num) → ℕ → Act g (Bool × ℕ)
  root_args [] pushed = pure g (true, pushed)
  root_args (v ∷ vs) pushed = do
    push_gc_ref g
    x ← value_from_host vm v
    write_root g x
    let rest = root_args vs (suc pushed)
    if is_exception x then pure g (false, suc pushed) else rest

  -- The loop that pushes the arguments on the VM stack, the last one first: refs[argc - 1] is the
  -- root that was pushed last. `depth` counts the roots above the next one.
  unfoldable pub push_args : ℕ → ℕ → Act g (Unit {0})
  push_args zero depth = pure g tt
  push_args (suc n) depth = do
    ask (λ e. get_or e.roots depth g.undefined) vm.push_arg
    push_args n (suc depth)

  -- The loop at `done` that pops them.
  unfoldable pub pop_roots : ℕ → Act g (Unit {0})
  pop_roots zero = pure g tt
  pop_roots (suc n) = do pop_gc_ref g; pop_roots n

  -- The call proper, once every argument is rooted. A `this_ref` of 0 stands for undefined.
  unfoldable pub call_rooted : ℕ → ℕ → ℕ → ℕ → Act g (Reply d)
  call_rooted ref this_ref argc flags = do
    short ← vm.stack_check (argc + 2)
    if short then report_exception vm else do
      push_args argc 0
      ask (slot_val g ref) vm.push_arg
      ask (λ e. if this_ref == 0 then g.undefined else slot_val g this_ref e) vm.push_arg
      r ← vm.call argc
      deliver vm r flags

  -- What runs between run_begin and run_end: the arguments are rooted, the call is made unless one
  -- of them failed, and the roots are popped; or there was no memory for the roots.
  unfoldable pub call_with_roots : ℕ → ℕ → List (Value d.Num) → ℕ → Act g (Reply d)
  call_with_roots ref this_ref args flags = do
    (converted, pushed) ← root_args args 0
    reply ← if converted then call_rooted ref this_ref (length args) flags else report_exception vm
    pop_roots pushed
    pure g reply

  unfoldable pub call_running : ℕ → ℕ → List (Value d.Num) → ℕ → Act g (Reply d)
  call_running ref this_ref args flags = do
    ok ← if length args == 0 then pure g true else alloc_answer g
    if ok then call_with_roots ref this_ref args flags else fail_message g d (codes "out of memory")

  unfoldable pub start_call : ℕ → ℕ → List (Value d.Num) → ℕ → Act g (Reply d)
  start_call ref this_ref args flags = do
    outermost ← begin_run g
    reply ← call_running ref this_ref args flags
    end_run g outermost
    pure g reply

  -- The check of `this_ref`, where 0 asks for undefined.
  unfoldable pub check_this : ℕ → ℕ → List (Value d.Num) → ℕ → Act g (Reply d)
  check_this ref this_ref args flags =
      if this_ref == 0 then start_call ref this_ref args flags else do
        this ← find_slot g this_ref
        case_of this (fail_message g d (codes "invalid or released this ref"))
            (λ _. start_call ref this_ref args flags)

  -- kmpjs_ref_call.
  unfoldable pub ref_call : ℕ → ℕ → List (Value d.Num) → ℕ → Act g (Reply d)
  ref_call ref this_ref args flags = do
    s ← find_slot g ref
    case_of s (fail_message g d (codes "invalid or released ref")) λ slot.
        ask (λ e. vm.is_function e slot.val)
          (λ function.
            if function
            then check_this ref this_ref args flags
            else fail_message g d (codes "ref is not a function"))
