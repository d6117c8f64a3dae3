-- ===== src/Jni/Natives/Compiling.antt =====
-- nativeCompile of native/jni/mquickjs_jni.c.
use mquickjs_kmp.Prelude.{ℕ, true, ◌&&◌, Option, none, some, if◌then◌else◌}
use mquickjs_kmp.Bytecode.Compile.{Compiler, Owned, compile}
use mquickjs_kmp.Bytecode.{Build}
use mquickjs_kmp.Engine.{Bytes, Doubles, Act, pure, ◌>>=◌, ◌>>◌, case_of, Vm}
use mquickjs_kmp.GcRefs.{GcRefs}
use mquickjs_kmp.Jni.Values.{has_text, new_bytes, new_value}
use mquickjs_kmp.Jni.{calling, count_block, NativeValue, Java, run_jni, take_block, free_block}
use mquickjs_kmp.Jni.Natives.{in_native, dup_cstring}

-- What nativeCompile returns: a byte[] or a NativeValue, either of which may be null, or nothing
-- when kmpjs_compile reads where it must not.
pub data CompileResult (Num : Type 0) : Type 0 where
  crashed : CompileResult Num
  bytecode : Option Bytes → CompileResult Num
  failure : Option (NativeValue Num) → CompileResult Num

module _ {g : GcRefs} {d : Doubles} (vm : Vm g d) (java : Java g d) where
  -- The call of kmpjs_compile, with the allocations that it makes.
  unfoldable pub run_compile : Build → Compiler → Bytes → Bytes → ℕ → ℕ → Act g (Option (Owned d))
  run_compile b c code filename word_size flags e =
      let r = compile d b c e.table.allocs code filename word_size flags in
      elim r [
        | none ↦ (none, e)
        | some owned ↦ (some owned, record e { table = record (e.table) { allocs = owned.allocs } })
      ]

  -- A text of *out, which kmpjs_compile leaves to its caller, is a block of the bridge.
  unfoldable pub own_text : Option Bytes → Act g (Unit {0})
  own_text text = run_jni java (count_block (has_text text))

  unfoldable pub compiled_value : Owned d → Act g (CompileResult d.Num)
  compiled_value r =
      if r.ok
      then (do bytes ← new_bytes java r.out.str; pure g (bytecode bytes))
      else (do value ← new_value java r.out; pure g (failure value))

  -- From the result of kmpjs_compile to the two calls of kmpjs_free.
  unfoldable pub use_compiled : Owned d → Act g (CompileResult d.Num)
  use_compiled r = do
    own_text r.out.str
    own_text r.out.stack
    res ← compiled_value r
    free_block java (has_text r.out.str)
    free_block java (has_text r.out.stack)
    pure g res

  unfoldable pub compile_copied :
      Build → Compiler → Bytes → Bytes → ℕ → ℕ → Act g (CompileResult d.Num)
  compile_copied b c code filename word_size flags = do
    owned ← run_compile b c code filename word_size flags
    res ← case_of owned (pure g crashed) use_compiled
    free_block java true
    free_block java true
    pure g res

  unfoldable pub compile_method :
      Build → Compiler → Bytes → Bytes → ℕ → ℕ → Act g (CompileResult d.Num)
  compile_method b c code filename word_size flags = do
    run_jni java calling
    code_ok ← take_block java
    name ← dup_cstring java filename
    if code_ok && has_text name
        then case_of name (pure g crashed) (λ p. compile_copied b c code p word_size flags)
        else do free_block java code_ok; free_block java (has_text name); pure g (failure none)

  unfoldable pub native_compile :
      Build → Compiler → Bytes → Bytes → ℕ → ℕ → Act g (CompileResult d.Num)
  native_compile b c code filename word_size flags =
      in_native java (compile_method b c code filename word_size flags)
