-- ===== src/Jni/Natives/Entries.antt =====
-- The native methods that take an engine, one by one and in sequences.
use mquickjs_kmp.Prelude.{ℕ, refl, Option, List, [], ◌∷◌}
use mquickjs_kmp.Bytecode.Compile.{Compiler}
use mquickjs_kmp.Bytecode.{Build}
use mquickjs_kmp.Engine.Entries.{Restored, Restored-trans, restored}
use mquickjs_kmp.Engine.Host.Keeps.{define_function-Meets}
use mquickjs_kmp.Engine.Keeps.{Steady-refl}
use mquickjs_kmp.Engine.Laws.{VmKeeps}
use mquickjs_kmp.Engine.Refs.Keeps.{
  ref_get-Meets, ref_get_index-Meets, ref_to_json-Meets, run_program-Meets,
}
use mquickjs_kmp.Engine.{Bytes, Doubles, Engine, Vm}
use mquickjs_kmp.GcRefs.{GcRefs, GcRefsLaws}
use mquickjs_kmp.Jni.Keeps.{JavaLaws}
use mquickjs_kmp.Jni.Natives.Compile.{native_compile-Meets}
use mquickjs_kmp.Jni.Natives.Keeps.{
  in_native-Meets, with_name-Takes, reply_value-Takes, eval_method-Takes, set_method-Takes,
  call_method-Takes, stats_method-Takes, dump_method-Takes, load_method-Takes,
}
use mquickjs_kmp.Jni.Natives.{
  native_eval, native_define_function, native_interrupt, native_ref_retain, native_ref_release,
  native_ref_get, native_ref_get_index, native_ref_set, native_ref_call, native_ref_to_json,
  native_stats, native_dump_memory, native_load_bytecode, native_run_program,
}
use mquickjs_kmp.Jni.Natives.Compiling.{native_compile}
use mquickjs_kmp.Jni.Values.Host.{Bridged, bridged}
use mquickjs_kmp.Jni.{NativeValue, Java}
use mquickjs_kmp.Lifecycle.Commands.{Steady-interrupt}
use mquickjs_kmp.Slots.Outside.{ref_retain-Same, ref_release-Same}
use mquickjs_kmp.Slots.Preserve.{Valid, ref_retain-Valid, ref_release-Valid}

-- A call of a native method on an engine, with its arguments.
pub data Native (Num : Type 0) : Type 0 where
  evaluate : Bytes → Bytes → ℕ → Native Num
  define : Bytes → ℕ → ℕ → Native Num
  interrupt_run : Native Num
  retain release : ℕ → Native Num
  get : ℕ → Bytes → ℕ → Native Num
  get_index : ℕ → ℕ → ℕ → Native Num
  set : ℕ → Bytes → Option (NativeValue Num) → Native Num
  call : ℕ → ℕ → List (Option (NativeValue Num)) → ℕ → Native Num
  to_json : ℕ → Native Num
  stats dump : Native Num
  compile : Bytes → Bytes → ℕ → ℕ → Native Num
  load : Bytes → Native Num
  run : ℕ → ℕ → Native Num

module _ {g : GcRefs} {d : Doubles} (vm : Vm g d) (java : Java g d) (b : Build) (c : Compiler) where
  -- The engine after the call.
  abbrev pub perform : Native d.Num → Engine g → Engine g
  perform (Native.evaluate code filename flags) e = (native_eval vm java code filename flags e).1
  perform (Native.define name id flags) e = (native_define_function vm java name id flags e).1
  perform Native.interrupt_run e = (native_interrupt vm java e).1
  perform (Native.retain ref) e = (native_ref_retain vm java ref e).1
  perform (Native.release ref) e = (native_ref_release vm java ref e).1
  perform (Native.get ref name flags) e = (native_ref_get vm java ref name flags e).1
  perform (Native.get_index ref index flags) e = (native_ref_get_index vm java ref index flags e).1
  perform (Native.set ref name value) e = (native_ref_set vm java ref name value e).1
  perform (Native.call ref this_ref os flags) e =
      (native_ref_call vm java ref this_ref os flags e).1
  perform (Native.to_json ref) e = (native_ref_to_json vm java ref e).1
  perform Native.stats e = (native_stats vm java e).1
  perform Native.dump e = (native_dump_memory vm java e).1
  perform (Native.compile code filename w flags) e =
      (native_compile vm java b c code filename w flags e).1
  perform (Native.load bytes) e = (native_load_bytecode vm java b bytes e).1
  perform (Native.run ref flags) e = (native_run_program vm java ref flags e).1

  abbrev pub perform_all : List (Native d.Num) → Engine g → Engine g
  perform_all [] e = e
  perform_all (x ∷ xs) e = perform_all xs (perform x e)

module _ {g : GcRefs} (laws : GcRefsLaws g) {d : Doubles} (vm : Vm g d) (k : VmKeeps vm)
    {java : Java g d} (jl : JavaLaws java) (b : Build) (c : Compiler) where
  perform-Restored :
      (x : Native d.Num) (e : Engine g) → Valid g e.table → Restored e (perform vm java b c x e)
  unfolding native_eval native_define_function native_interrupt native_ref_retain native_ref_release
      native_ref_get native_ref_get_index native_ref_set native_ref_call native_ref_to_json
      native_stats native_dump_memory native_load_bytecode native_run_program
  perform-Restored (Native.evaluate code filename flags) e v =
      restored e _ v
        ((in_native-Meets jl (eval_method-Takes laws vm k jl code filename flags)).from e)
  perform-Restored (Native.define name id flags) e v = restored e _ v (
      (in_native-Meets jl (
          with_name-Takes jl name _
            (λ p. reply_value-Takes jl (define_function-Meets laws vm k p id flags)))).from
        e)
  perform-Restored Native.interrupt_run e v = record {
    roots = refl;
    state = Steady-interrupt e.state;
    table = v;
    rest = g.same_refl e.table.ctx;
  }
  perform-Restored (Native.retain ref) e v = record {
    roots = refl;
    state = Steady-refl e.state;
    table = ref_retain-Valid g laws e.table ref v;
    rest = ref_retain-Same g laws e.table ref v;
  }
  perform-Restored (Native.release ref) e v = record {
    roots = refl;
    state = Steady-refl e.state;
    table = ref_release-Valid g laws e.table ref v;
    rest = ref_release-Same g laws e.table ref v;
  }
  perform-Restored (Native.get ref name flags) e v = restored e _ v (
      (in_native-Meets jl (
          with_name-Takes jl name _
            (λ p. reply_value-Takes jl (ref_get-Meets laws vm k ref p flags)))).from
        e)
  perform-Restored (Native.get_index ref index flags) e v = restored e _ v (
      (in_native-Meets jl
          (reply_value-Takes jl (ref_get_index-Meets laws vm k ref index flags))).from
        e)
  perform-Restored (Native.set ref name value) e v = restored e _ v (
      (in_native-Meets jl
          (with_name-Takes jl name _ (set_method-Takes laws vm k jl ref value))).from
        e)
  perform-Restored (Native.call ref this_ref os flags) e v =
      restored e _ v
        ((in_native-Meets jl (call_method-Takes laws vm k jl ref this_ref os flags)).from e)
  perform-Restored (Native.to_json ref) e v =
      restored e _ v
        ((in_native-Meets jl (reply_value-Takes jl (ref_to_json-Meets laws vm k ref))).from e)
  perform-Restored Native.stats e v =
      restored e _ v ((in_native-Meets jl (stats_method-Takes laws vm k jl)).from e)
  perform-Restored Native.dump e v =
      restored e _ v ((in_native-Meets jl (dump_method-Takes laws vm k jl)).from e)
  perform-Restored (Native.compile code filename w flags) e v =
      restored e _ v ((native_compile-Meets vm jl b c code filename w flags).from e)
  perform-Restored (Native.load bytes) e v =
      restored e _ v ((in_native-Meets jl (load_method-Takes laws vm k jl b bytes)).from e)
  perform-Restored (Native.run ref flags) e v =
      restored e _ v
        ((in_native-Meets jl (reply_value-Takes jl (run_program-Meets laws vm k ref flags))).from e)

  perform_all-Restored :
      (xs : List (Native d.Num)) (e : Engine g)
      → Valid g e.table
      → Restored e (perform_all vm java b c xs e)
  perform_all-Restored [] e v = record {
    roots = refl;
    state = Steady-refl e.state;
    table = v;
    rest = g.same_refl e.table.ctx;
  }
  perform_all-Restored (x ∷ xs) e v =
      Restored-trans (perform-Restored x e v)
        (perform_all-Restored xs _ (perform-Restored x e v).table)

  -- Where the calls of the JavaScript engine come back with the engine in order, any sequence of
  -- calls of native methods, failing or not, on a valid ref table leaves the table valid, the roots
  -- balanced, an idle engine idle and an interrupted one interrupted; each frame of local references
  -- is as it was, and the bridge has freed every C block and global reference that it took.
  pub perform_all-Bridged :
      (xs : List (Native d.Num)) (e : Engine g)
      → Valid g e.table
      → Bridged java e (perform_all vm java b c xs e)
  perform_all-Bridged xs e v = bridged jl e _ (perform_all-Restored xs e v)
