-- ===== src/Jni/Natives.antt =====
-- The native methods of wang.harlon.mquickjs.NativeBridge that work on an engine, of
-- native/jni/mquickjs_jni.c. A NativeValue or a byte[] is its content, and none is null.
pub mod Compile
pub mod Compiled
pub mod Compiling
pub mod Entries
pub mod Keeps
use mquickjs_kmp.Prelude.{
  ℕ, zero, suc, ◌+◌, ◌==◌, Bool, true, false, ◌&&◌, Option, none, some, List, [], ◌∷◌,
  if◌then◌else◌, length,
}
use mquickjs_kmp.Bytecode.Compile.{Compiler, Owned, compile}
use mquickjs_kmp.Bytecode.Load.{load_bytecode}
use mquickjs_kmp.Bytecode.{Build}
use mquickjs_kmp.Engine.Calls.{ref_call}
use mquickjs_kmp.Engine.Convert.{until_zero}
use mquickjs_kmp.Engine.Host.{define_function}
use mquickjs_kmp.Engine.Refs.{
  Reply, eval, ref_get, ref_get_index, ref_set, ref_to_json, run_program,
}
use mquickjs_kmp.Engine.{
  Bytes, Tag, Value, Doubles, Engine, Act, pure, ◌>>=◌, ◌>>◌, case_of, ask, Vm,
}
use mquickjs_kmp.GcRefs.{GcRefs}
use mquickjs_kmp.Jni.Values.{has_text, new_bytes, new_value, read_value, free_value}
use mquickjs_kmp.Jni.{
  JniState, calling, more_local, delete_local_ref, new_local, push_local_frame, pop_local_frame,
  NativeValue, Java, jni_state, jni, run_jni, take_block, free_block,
}
use mquickjs_kmp.Lifecycle.{dump_memory}
use mquickjs_kmp.RunState.{interrupt}
use mquickjs_kmp.Slots.{Stats, get_stats, ref_retain, ref_release}

-- The references that JNI promises to a native method.
abbrev pub native_capacity : ℕ
native_capacity = 16

-- The frame of a native method: the VM makes it before the call and drops it afterwards, with all
-- local references but the result.
unfoldable pub open_frame : JniState → JniState
open_frame s = record s { frames = record { capacity = native_capacity; used = 0 } ∷ s.frames }

module _ {g : GcRefs} {d : Doubles} (java : Java g d) where
  -- A native method in its frame.
  unfoldable pub in_native : {A : Type 0} → Act g A → Act g A
  in_native m = do run_jni java open_frame; a ← m; run_jni java pop_local_frame; pure g a

  -- dup_cstring, as the text that a C function reads of its copy.
  unfoldable pub dup_cstring : Bytes → Act g (Option Bytes)
  dup_cstring arr = do
    run_jni java calling
    ok ← take_block java
    pure g (if ok then some (until_zero arr) else none)

  -- The end of most methods: a NativeValue from *out.
  unfoldable pub reply_value : Act g (Reply d) → Act g (Option (NativeValue d.Num))
  reply_value m = do reply ← m; new_value java reply.1

  -- A method that copies a name, and frees the copy at its end.
  unfoldable pub with_name :
      Bytes → (Bytes → Act g (Option (NativeValue d.Num))) → Act g (Option (NativeValue d.Num))
  with_name name f = do
    buf ← dup_cstring name
    case_of buf (pure g none) (λ p. do res ← f p; free_block java true; pure g res)

module _ {g : GcRefs} {d : Doubles} (vm : Vm g d) (java : Java g d) where
  -- nativeEval, once both copies are made.
  unfoldable pub eval_copied : Bytes → Bytes → ℕ → Act g (Option (NativeValue d.Num))
  eval_copied code filename flags = do
    out ← eval vm code (until_zero filename) flags
    res ← new_value java out
    free_block java true
    free_block java true
    pure g res

  -- Both copies are asked for before either is looked at.
  unfoldable pub eval_method : Bytes → Bytes → ℕ → Act g (Option (NativeValue d.Num))
  eval_method code filename flags = do
    run_jni java calling
    code_ok ← take_block java
    name_ok ← take_block java
    if code_ok && name_ok
        then eval_copied code filename flags
        else do free_block java code_ok; free_block java name_ok; pure g none

  unfoldable pub native_eval : Bytes → Bytes → ℕ → Act g (Option (NativeValue d.Num))
  native_eval code filename flags = in_native java (eval_method code filename flags)

  -- nativeDefineFunction.
  unfoldable pub native_define_function : Bytes → ℕ → ℕ → Act g (Option (NativeValue d.Num))
  native_define_function name fn_id flags =
      in_native java
        (with_name java name (λ p. reply_value java (define_function vm p fn_id flags)))

  -- nativeInterrupt.
  unfoldable pub native_interrupt : Act g (Unit {0})
  native_interrupt e = (tt, record e { state = interrupt e.state })

  -- nativeRefRetain and nativeRefRelease.
  unfoldable pub native_ref_retain : ℕ → Act g (Unit {0})
  native_ref_retain ref e = (tt, record e { table = ref_retain g e.table ref })

  unfoldable pub native_ref_release : ℕ → Act g (Unit {0})
  native_ref_release ref e = (tt, record e { table = ref_release g e.table ref })

  -- nativeRefGet.
  unfoldable pub native_ref_get : ℕ → Bytes → ℕ → Act g (Option (NativeValue d.Num))
  native_ref_get ref name flags =
      in_native java (with_name java name (λ p. reply_value java (ref_get vm ref p flags)))

  -- nativeRefGetIndex.
  unfoldable pub native_ref_get_index : ℕ → ℕ → ℕ → Act g (Option (NativeValue d.Num))
  native_ref_get_index ref index flags =
      in_native java (reply_value java (ref_get_index vm ref index flags))

  -- nativeRefSet.
  unfoldable pub set_method :
      ℕ → Option (NativeValue d.Num) → Bytes → Act g (Option (NativeValue d.Num))
  set_method ref value name = do
    v ← read_value java value
    reply ← ref_set vm ref name v
    res ← new_value java reply.1
    free_value java v
    pure g res

  unfoldable pub native_ref_set :
      ℕ → Bytes → Option (NativeValue d.Num) → Act g (Option (NativeValue d.Num))
  native_ref_set ref name value = in_native java (with_name java name (set_method ref value))

  -- The loop of nativeRefCall that reads the arguments, each through a local reference of its own.
  unfoldable pub read_args : List (Option (NativeValue d.Num)) → Act g (List (Value d.Num))
  read_args [] = pure g []
  read_args (o ∷ os) = do
    run_jni java calling
    case_of o (pure g tt) (λ _. run_jni java more_local)
    v ← read_value java o
    case_of o (pure g tt) (λ _. run_jni java delete_local_ref)
    vs ← read_args os
    pure g (v ∷ vs)

  -- And the one that frees them.
  unfoldable pub free_args : List (Value d.Num) → Act g (Unit {0})
  free_args [] = pure g tt
  free_args (v ∷ vs) = do free_value java v; free_args vs

  -- nativeRefCall, once there is memory for the arguments. A null array is an empty one.
  unfoldable pub call_read :
      ℕ → ℕ → List (Option (NativeValue d.Num)) → ℕ → Bool → Act g (Option (NativeValue d.Num))
  call_read ref this_ref os flags held = do
    values ← read_args os
    reply ← ref_call vm ref this_ref values flags
    res ← new_value java reply.1
    free_args values
    free_block java held
    pure g res

  unfoldable pub call_method :
      ℕ → ℕ → List (Option (NativeValue d.Num)) → ℕ → Act g (Option (NativeValue d.Num))
  call_method ref this_ref os flags =
      if length os == 0
      then call_read ref this_ref os flags false
      else do ok ← take_block java; if ok then call_read ref this_ref os flags true else pure g none

  unfoldable pub native_ref_call :
      ℕ → ℕ → List (Option (NativeValue d.Num)) → ℕ → Act g (Option (NativeValue d.Num))
  native_ref_call ref this_ref os flags = in_native java (call_method ref this_ref os flags)

  -- nativeRefToJson.
  unfoldable pub native_ref_to_json : ℕ → Act g (Option (NativeValue d.Num))
  native_ref_to_json ref = in_native java (reply_value java (ref_to_json vm ref))

  -- nativeStats: the two numbers of the int[].
  unfoldable pub stats_method : Act g (Option (ℕ × ℕ))
  stats_method = do
    ok ← jni java new_local
    if ok
        then (do
          run_jni java calling
          ask (λ e. get_stats g e.table) (λ st. pure g (some (st.live_refs, st.ref_slots))))
        else pure g none

  unfoldable pub native_stats : Act g (Option (ℕ × ℕ))
  native_stats = in_native java stats_method

  -- nativeDumpMemory.
  unfoldable pub dump_method : Act g (Option (NativeValue d.Num))
  dump_method = do out ← dump_memory vm; new_value java out

  unfoldable pub native_dump_memory : Act g (Option (NativeValue d.Num))
  native_dump_memory = in_native java dump_method

  -- nativeLoadBytecode.
  unfoldable pub load_method : Build → Bytes → Act g (Option (NativeValue d.Num))
  load_method b bytes = do
    run_jni java calling
    ok ← take_block java
    if ok
        then (do
          res ← reply_value java (load_bytecode vm b bytes)
          free_block java true
          pure g res)
        else pure g none

  unfoldable pub native_load_bytecode : Build → Bytes → Act g (Option (NativeValue d.Num))
  native_load_bytecode b bytes = in_native java (load_method b bytes)

  -- nativeRunProgram.
  unfoldable pub native_run_program : ℕ → ℕ → Act g (Option (NativeValue d.Num))
  native_run_program ref flags = in_native java (reply_value java (run_program vm ref flags))
