-- ===== src/Engine/Host.antt =====
-- From JavaScript into the host: kmpjs_define_function and the trampoline js_kmp_host.
pub mod Keeps
pub mod Params
use mquickjs_kmp.Prelude.{
  ℕ, zero, suc, ◌+◌, ◌*◌, ◌/◌, ◌%◌, ◌^◌, ◌==◌, leb, Bool, true, false, ◌&&◌, Option, none, some,
  List, [], ◌∷◌, ◌++◌, if◌then◌else◌, length, codes,
}
use mquickjs_kmp.Engine.Actions.{
  push_gc_ref, write_root, pop_gc_ref, top_root, alloc_answer, release_slot, to_fresh, tagged,
}
use mquickjs_kmp.Engine.Convert.{value_to_out, value_from_host, throw_message, text_or_empty}
use mquickjs_kmp.Engine.Refs.{Reply, report_exception}
use mquickjs_kmp.Engine.{
  Bytes, Tag, Value, Doubles, Engine, Act, pure, ◌>>=◌, ◌>>◌, case_of, ask, Vm,
}
use mquickjs_kmp.GcRefs.{GcRefs}

-- (fn_id << 1) | (flags & KMPJS_FLAG_REF_OBJECTS), as an int32_t: the number that JS_NewInt32 is given
-- and that JS_VALUE_GET_INT reads.
unfoldable pub pack_params : ℕ → ℕ → ℕ
pack_params fn_id flags = fn_id * 2 % 2 ^ 32 + flags % 2

-- packed >> 1, which keeps the sign, and packed & KMPJS_FLAG_REF_OBJECTS.
unfoldable pub unpack_fn_id : ℕ → ℕ
unpack_fn_id packed = if leb (2 ^ 31) packed then packed / 2 + 2 ^ 31 else packed / 2

unfoldable pub unpack_flags : ℕ → ℕ
unpack_flags packed = packed % 2

-- kmpjs_host_fn with its user data; none when the engine was created without one. The number is
-- the C result, 0 for success.
abbrev pub HostFn : GcRefs → Doubles → Type 0
HostFn g d = Option (ℕ → List (Value d.Num) → Act g (ℕ × Value d.Num))

module _ {g : GcRefs} {d : Doubles} (vm : Vm g d) where
  open vm use {is_exception}

  -- kmpjs_define_function.
  unfoldable pub define_function : Bytes → ℕ → ℕ → Act g (Reply d)
  define_function name fn_id flags = do
    push_gc_ref g
    params ← vm.new_int32 (pack_params fn_id flags)
    f ← vm.new_c_function_params params
    write_root g f
    if is_exception f then (do pop_gc_ref g; report_exception vm) else do
      r ← ask vm.global_object (λ global. ask (top_root g) (λ v. vm.set_property_str global name v))
      pop_gc_ref g
      if is_exception r then report_exception vm else pure g (true, tagged d Tag.undefined)

  -- The loop that converts the arguments, each read from the VM stack when its turn comes: whether
  -- all were converted, and those that were.
  unfoldable pub args_to_host :
      (ℕ → Engine g → g.Val) → ℕ → ℕ → ℕ → Act g (Bool × List (Value d.Num))
  args_to_host argv zero i flags = pure g (true, [])
  args_to_host argv (suc n) i flags = do
    (ok, out) ← ask (argv i) (λ v. value_to_out vm v to_fresh flags)
    let later = args_to_host argv n (suc i) flags
    if ok then (do (all, outs) ← later; pure g (all, out ∷ outs)) else pure g (false, [])

  -- The loop at `done` that releases the refs handed out for this call.
  unfoldable pub release_arg : Tag → ℕ → Act g (Unit {0})
  release_arg Tag.ref r = release_slot g r
  release_arg _ r = pure g tt

  unfoldable pub release_args : List (Value d.Num) → Act g (Unit {0})
  release_args [] = pure g tt
  release_args (v ∷ vs) = do release_arg v.tag v.ref; release_args vs

  -- The call of the host and the conversion of its result.
  unfoldable pub call_host :
      (ℕ → List (Value d.Num) → Act g (ℕ × Value d.Num)) → ℕ → List (Value d.Num) → Act g g.Val
  call_host host fn_id args = do
    (rc, result) ← host fn_id args
    if rc == 0 then value_from_host vm result else throw_message vm (text_or_empty result.str)

  -- js_kmp_host behind its allocations: the conversions, the call unless one of them failed, and
  -- the releases.
  unfoldable pub host_converted :
      (ℕ → List (Value d.Num) → Act g (ℕ × Value d.Num))
      → ℕ
      → (ℕ → Engine g → g.Val)
      → ℕ
      → Act g g.Val
  host_converted host argc argv packed = do
    (all, args) ← args_to_host argv argc 0 (unpack_flags packed)
    ret ← if all then call_host host (unpack_fn_id packed) args else pure g vm.exception_value
    release_args args
    pure g ret

  -- Both arrays are allocated before either is looked at, and none when there is no argument.
  unfoldable pub host_running :
      (ℕ → List (Value d.Num) → Act g (ℕ × Value d.Num))
      → ℕ
      → (ℕ → Engine g → g.Val)
      → ℕ
      → Act g g.Val
  host_running host argc argv packed = do
    args_ok ← if argc == 0 then pure g true else alloc_answer g
    bufs_ok ← if argc == 0 then pure g true else alloc_answer g
    if args_ok && bufs_ok then host_converted host argc argv packed else vm.throw_out_of_memory

  -- js_kmp_host.
  unfoldable pub kmp_host : HostFn g d → ℕ → (ℕ → Engine g → g.Val) → g.Val → Act g g.Val
  kmp_host none argc argv params = vm.throw_internal_error (codes "no host function handler")
  kmp_host (some host) argc argv params = host_running host argc argv (vm.get_int params)
