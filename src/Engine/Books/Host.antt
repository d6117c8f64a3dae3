-- ===== src/Engine/Books/Host.antt =====
-- The references that kmpjs_define_function hands out, and those of the arguments of js_kmp_host.
pub mod Kept
use mquickjs_kmp.Prelude.{
  ℕ, arith, zero, ◌+◌, Bool, true, false, if◌then◌else◌, ◌≡◌, refl, suc, none, some, List, [], ◌∷◌,
}
use mquickjs_kmp.Engine.Actions.{to_fresh}
use mquickjs_kmp.Engine.Books.Convert.{
  throw_message-Level, value_from_host-Level, value_to_out-Books,
}
use mquickjs_kmp.Engine.Host.{
  HostFn, define_function, args_to_host, release_arg, release_args, call_host, host_converted,
  host_running, kmp_host,
}
use mquickjs_kmp.Engine.Books.{
  Books, Level, lent_reply, lent_by, lent_with, lent_out, lends, pays, framed, owing, bind, branch,
  asked, done, next, push-Level, pop-Level, write-Level, alloc_answer-Level, release_slot-Books,
}
use mquickjs_kmp.Engine.Books.Laws.{VmBooks}
use mquickjs_kmp.Engine.Books.Refs.{report_exception-Books}
use mquickjs_kmp.Engine.{Bytes, Tag, Value, Doubles, Engine, Act, Vm, pure, ◌>>=◌}
use mquickjs_kmp.GcRefs.{GcRefs, GcRefsLaws}
use mquickjs_kmp.Slots.Held.{held}
use mquickjs_kmp.Slots.Preserve.{Valid}
use mquickjs_kmp.Slots.{is_not_positive}

-- The refs among the arguments of a callback.
abbrev pub lent_all : {Num : Type 0} → ℕ → List (Value Num) → ℕ
lent_all x [] = 0
lent_all x (v ∷ vs) = lent_all x vs + lent_with x v

abbrev pub lent_args : {Num : Type 0} → ℕ → Bool × List (Value Num) → ℕ
lent_args x (all, vs) = lent_all x vs

module _ {g : GcRefs} (laws : GcRefsLaws g) {x : ℕ} (positive : is_not_positive x ≡ false)
    {d : Doubles} (vm : Vm g d) (k : VmBooks x vm) where
  pub define_function-Books :
      (name : Bytes) (fn_id flags : ℕ)
      → Books x 0 (lent_reply x) (define_function vm name fn_id flags)
  unfolding define_function
  define_function-Books name fn_id flags = next push-Level (
      bind (k.new_int32 _) (λ params. bind (k.new_c_function_params params) (λ f.
        next (write-Level f) (
          branch _ (next pop-Level (report_exception-Books laws positive vm k)) (
            bind (asked _ (λ global. asked _ (λ v. k.set_property_str global name v))) (λ r.
              next pop-Level
                (branch _ (report_exception-Books laws positive vm k) (done _ refl))))))))

  -- What the loop lends and what the loop behind `done` releases: the refs among the arguments.
  one_arg-Books :
      (r : Bool × Value d.Num) {m : Act g (Bool × List (Value d.Num))}
      → Books x 0 (lent_args x) m
      → Books x
          (lent_out x r)
          (lent_args x)
          (if r.0 then (m >>= λ later. pure g (later.0, r.1 ∷ later.1)) else pure g (false, []))
  one_arg-Books (true, out) h =
      lends (owing (omega arith) (framed (lent_with x out) h))
        (λ later. done (later.0, out ∷ later.1) refl)
  one_arg-Books (false, out) h = done _ refl

  pub args_to_host-Books :
      (argv : ℕ → Engine g → g.Val) (n i flags : ℕ)
      → Books x 0 (lent_args x) (args_to_host vm argv n i flags)
  unfolding args_to_host
  args_to_host-Books argv zero i flags = done _ refl
  args_to_host-Books argv (suc n) i flags =
      lends (asked _ (λ v. value_to_out-Books laws positive vm k v to_fresh flags))
        (λ r. one_arg-Books r (args_to_host-Books argv n (suc i) flags))

  release_arg-Books :
      (tag : Tag) (r : ℕ) → Books x (lent_by x tag r) (λ _. 0) (release_arg vm tag r)
  unfolding release_arg
  release_arg-Books Tag.undefined r = done _ refl
  release_arg-Books Tag.null r = done _ refl
  release_arg-Books Tag.bool r = done _ refl
  release_arg-Books Tag.number r = done _ refl
  release_arg-Books Tag.string r = done _ refl
  release_arg-Books Tag.object r = done _ refl
  release_arg-Books Tag.exception r = done _ refl
  release_arg-Books Tag.ref r = release_slot-Books laws x positive r
  release_arg-Books (Tag.other n) r = done _ refl

  pub release_args-Books :
      (vs : List (Value d.Num)) → Books x (lent_all x vs) (λ _. 0) (release_args vm vs)
  unfolding release_args
  release_args-Books [] = done _ refl
  release_args-Books (v ∷ vs) = pays (release_arg-Books v.tag v.ref) (release_args-Books vs)
