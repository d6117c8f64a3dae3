-- ===== src/Engine/Host/Keeps.antt =====
-- What kmpjs_define_function and the trampoline js_kmp_host do to the roots, the run state and the ref
-- table.
use mquickjs_kmp.Prelude.{ℕ, zero, suc, none, some, List, [], ◌∷◌}
use mquickjs_kmp.Engine.Actions.{to_fresh}
use mquickjs_kmp.Engine.Convert.Keeps.{
  alloc_answer-Meets, release_slot-Meets, throw_message-Meets, value_from_host-Meets,
  value_to_out-Meets,
}
use mquickjs_kmp.Engine.Host.{
  HostFn, define_function, args_to_host, release_arg, release_args, call_host, host_converted,
  host_running, kmp_host,
}
use mquickjs_kmp.Engine.Keeps.{
  Meets, bind, branch, asked, done, next, pop_then, push_then, wrote-Meets,
}
use mquickjs_kmp.Engine.Laws.{VmKeeps}
use mquickjs_kmp.Engine.Refs.Keeps.{report_exception-Meets}
use mquickjs_kmp.Engine.{Bytes, Tag, Value, Doubles, Engine, Act, Vm}
use mquickjs_kmp.GcRefs.{GcRefs, GcRefsLaws}

-- What the shim relies on in the host's callback: it may call the shim as often as it likes, and
-- comes back with the engine in order.
abbrev pub HostKeeps : (g : GcRefs) (d : Doubles) → HostFn g d → Type 0
HostKeeps g d none = Unit {0}
HostKeeps g d (some host) = (id : ℕ) (args : List (Value d.Num)) → Meets 0 none (host id args)

module _ {g : GcRefs} (laws : GcRefsLaws g) {d : Doubles} (vm : Vm g d) (k : VmKeeps vm) where
  pub define_function-Meets :
      (name : Bytes) (fn_id flags : ℕ) → Meets 0 none (define_function vm name fn_id flags)
  unfolding define_function
  define_function-Meets name fn_id flags = push_then (
      bind (k.new_int32 _) (λ params. bind (k.new_c_function_params params) (λ f.
        next (wrote-Meets f) (
          branch _ (pop_then (report_exception-Meets laws vm k)) (
            bind (asked _ (λ global. asked _ (λ v. k.set_property_str global name v)))
              (λ r. pop_then (branch _ (report_exception-Meets laws vm k) (done _))))))))

  args_to_host-Meets :
      (argv : ℕ → Engine g → g.Val) (n i flags : ℕ) → Meets 0 none (args_to_host vm argv n i flags)
  unfolding args_to_host
  args_to_host-Meets argv zero i flags = done _
  args_to_host-Meets argv (suc n) i flags =
      bind (asked _ (λ v. value_to_out-Meets laws vm k v to_fresh flags)) (λ r.
        branch r.0 (bind (args_to_host-Meets argv n (suc i) flags) (λ later. done _)) (done _))

  release_arg-Meets : (tag : Tag) (r : ℕ) → Meets 0 none (release_arg vm tag r)
  unfolding release_arg
  release_arg-Meets Tag.undefined r = done _
  release_arg-Meets Tag.null r = done _
  release_arg-Meets Tag.bool r = done _
  release_arg-Meets Tag.number r = done _
  release_arg-Meets Tag.string r = done _
  release_arg-Meets Tag.object r = done _
  release_arg-Meets Tag.exception r = done _
  release_arg-Meets Tag.ref r = release_slot-Meets laws r
  release_arg-Meets (Tag.other n) r = done _

  release_args-Meets : (vs : List (Value d.Num)) → Meets 0 none (release_args vm vs)
  unfolding release_args
  release_args-Meets [] = done _
  release_args-Meets (v ∷ vs) = next (release_arg-Meets v.tag v.ref) (release_args-Meets vs)

  module _ (host : ℕ → List (Value d.Num) → Act g (ℕ × Value d.Num))
      (h : (id : ℕ) (args : List (Value d.Num)) → Meets 0 none (host id args)) where
    call_host-Meets :
        (id : ℕ) (args : List (Value d.Num)) → Meets 0 none (call_host vm host id args)
    unfolding call_host
    call_host-Meets id args =
        bind (h id args)
          (λ r. branch _ (value_from_host-Meets vm k r.1) (throw_message-Meets vm k _))

    host_converted-Meets :
        (argc : ℕ) (argv : ℕ → Engine g → g.Val) (packed : ℕ)
        → Meets 0 none (host_converted vm host argc argv packed)
    unfolding host_converted
    host_converted-Meets argc argv packed = bind (args_to_host-Meets argv argc 0 _) (λ r.
        bind (branch r.0 (call_host-Meets _ r.1) (done _))
          (λ ret. next (release_args-Meets r.1) (done ret)))

    host_running-Meets :
        (argc : ℕ) (argv : ℕ → Engine g → g.Val) (packed : ℕ)
        → Meets 0 none (host_running vm host argc argv packed)
    unfolding host_running
    host_running-Meets argc argv packed = bind (branch _ (done _) alloc_answer-Meets) (λ args_ok.
        bind (branch _ (done _) alloc_answer-Meets)
          (λ bufs_ok. branch _ (host_converted-Meets argc argv packed) k.throw_out_of_memory))

  pub kmp_host-Meets :
      (host : HostFn g d)
      → HostKeeps g d host
      → (argc : ℕ) (argv : ℕ → Engine g → g.Val) (params : g.Val)
      → Meets 0 none (kmp_host vm host argc argv params)
  unfolding kmp_host
  kmp_host-Meets none h argc argv params = k.throw_internal_error _
  kmp_host-Meets (some host) h argc argv params = host_running-Meets host h argc argv _
