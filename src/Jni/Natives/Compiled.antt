-- ===== src/Jni/Natives/Compiled.antt =====
-- What nativeCompile hands to Java.
use mquickjs_kmp.Prelude.{
  ℕ, ◌≡◌, refl, ◌∙◌, ap, Bool, true, false, Option, some, List, ◌∷◌, if◌then◌else◌,
}
use mquickjs_kmp.Bytecode.Compile.{Compiler, Owned, compile}
use mquickjs_kmp.Bytecode.{Build}
use mquickjs_kmp.Engine.Convert.{until_zero}
use mquickjs_kmp.Engine.{Bytes, Value, Doubles, Engine, Vm, pure, ◌>>=◌, case_of}
use mquickjs_kmp.GcRefs.{GcRefs}
use mquickjs_kmp.Jni.Keeps.{JavaLaws}
use mquickjs_kmp.Jni.Natives.Compiling.{
  CompileResult, bytecode, failure, run_compile, own_text, compiled_value, use_compiled,
  compile_copied, compile_method, native_compile,
}
use mquickjs_kmp.Jni.Natives.{in_native, open_frame, dup_cstring}
use mquickjs_kmp.Jni.Values.Trip.{
  AtEase, Gives, for_text, object_of, pure-Gives, Gives-then, Gives-next, plain_call-Gives,
  calling-Gives, take_block-Gives, new_bytes-Gives, new_value-Gives,
}
use mquickjs_kmp.Jni.Values.{has_text, new_bytes, new_value}
use mquickjs_kmp.Jni.{Java, jni_state, pop_local_frame, count_block, uncount_block, free_block}

module _ {g : GcRefs} {d : Doubles} (vm : Vm g d) {java : Java g d} (jl : JavaLaws java) (b : Build)
    (c : Compiler) where
  -- The byte[] or the NativeValue for a result of kmpjs_compile, and the answers of the Java VM that
  -- make it.
  abbrev pub java_result : Bool → Value d.Num → CompileResult d.Num
  java_result true out = bytecode out.str
  java_result false out = failure (some (object_of jl out))

  abbrev pub java_answers : Bool → Value d.Num → List Bool → List Bool
  java_answers true out js = for_text out.str js
  java_answers false out js = for_text out.str (for_text out.stack (true ∷ js))

  run_compile-Gives :
      (code name : Bytes) (w flags : ℕ) (r : Owned d) (js bs : List Bool)
      → compile d b c bs code name w flags ≡ some r
      → Gives java (run_compile vm java b c code name w flags) (some r) js js bs r.allocs
  unfolding run_compile
  run_compile-Gives code name w flags r js bs made = record {
    from = λ e h k.
        let same : compile d b c e.table.allocs code name w flags ≡ some r =
          ap (λ answers. compile d b c answers code name w flags) k ∙ made in
        rw (run_compile, same) (refl, h, refl);
  }

  own_text-Gives :
      (text : Option Bytes) (js bs : List Bool) → Gives java (own_text vm java text) tt js js bs bs
  unfolding own_text count_block
  own_text-Gives text js bs =
      plain_call-Gives jl (count_block (has_text text)) js bs (λ s. refl) (λ s. refl) (λ s. refl)

  free_block-Gives :
      (held : Bool) (js bs : List Bool) → Gives java (free_block java held) tt js js bs bs
  unfolding free_block uncount_block
  free_block-Gives held js bs =
      plain_call-Gives jl (uncount_block held) js bs (λ s. refl) (λ s. refl) (λ s. refl)

  value-Gives :
      (ok : Bool) (out : Value d.Num) (js bs : List Bool)
      → Gives java
          (if ok
            then (new_bytes java out.str >>= (λ bytes. pure g (bytecode bytes)))
            else (new_value java out >>= (λ value. pure g (failure value))))
          (java_result ok out)
          (java_answers ok out js)
          js
          bs
          bs
  value-Gives true out js bs = Gives-then _ (new_bytes-Gives jl out.str js bs) (pure-Gives _ js bs)
  value-Gives false out js bs = Gives-then _ (new_value-Gives jl out js bs) (pure-Gives _ js bs)

  use_compiled-Gives :
      (r : Owned d) (js bs : List Bool)
      → Gives java
          (use_compiled vm java r)
          (java_result r.ok r.out)
          (java_answers r.ok r.out js)
          js
          bs
          bs
  unfolding use_compiled compiled_value
  use_compiled-Gives r js bs = Gives-next (own_text-Gives r.out.str _ bs) (
      Gives-next (own_text-Gives r.out.stack _ bs) (
        Gives-then _ (value-Gives r.ok r.out js bs) (
          Gives-next (free_block-Gives _ js bs)
            (Gives-next (free_block-Gives _ js bs) (pure-Gives _ js bs)))))

  compile_copied-Gives :
      (code name : Bytes) (w flags : ℕ) (r : Owned d) (js bs : List Bool)
      → compile d b c bs code name w flags ≡ some r
      → Gives java
          (compile_copied vm java b c code name w flags)
          (java_result r.ok r.out)
          (java_answers r.ok r.out js)
          js
          bs
          r.allocs
  unfolding compile_copied case_of
  compile_copied-Gives code name w flags r js bs made =
      Gives-then _ (run_compile-Gives code name w flags r _ bs made) (
        Gives-then _ (use_compiled-Gives r js r.allocs) (
          Gives-next (free_block-Gives true js r.allocs)
            (Gives-next (free_block-Gives true js r.allocs) (pure-Gives _ js r.allocs))))

  dup_cstring-Gives :
      (arr : Bytes) (js bs : List Bool)
      → Gives java (dup_cstring java arr) (some (until_zero arr)) js js (true ∷ bs) bs
  unfolding dup_cstring
  dup_cstring-Gives arr js bs =
      Gives-next (calling-Gives jl js _)
        (Gives-then _ (take_block-Gives jl js bs) (pure-Gives _ js bs))

  compile_method-Gives :
      (code filename : Bytes) (w flags : ℕ) (r : Owned d) (js bs : List Bool)
      → compile d b c bs code (until_zero filename) w flags ≡ some r
      → Gives java
          (compile_method vm java b c code filename w flags)
          (java_result r.ok r.out)
          (java_answers r.ok r.out js)
          js
          (true ∷ true ∷ bs)
          r.allocs
  unfolding compile_method case_of
  compile_method-Gives code filename w flags r js bs made = Gives-next (calling-Gives jl _ _) (
      Gives-then _ (take_block-Gives jl _ (true ∷ bs)) (
        Gives-then _ (dup_cstring-Gives filename _ bs)
          (compile_copied-Gives code (until_zero filename) w flags r js bs made)))

  -- When the allocator grants the two copies that nativeCompile makes, and kmpjs_compile, for the whole
  -- code, the file name up to its first zero byte and the answers left of the allocator, gives a
  -- result, and while no exception is pending and the Java VM has memory for what it is to make:
  -- nativeCompile returns a byte[] with the whole file if kmpjs_compile succeeds, and otherwise a
  -- NativeValue with the tag, the message and the stack that it leaves in *out; no exception is
  -- pending afterwards, and no call is made that JNI forbids.
  pub compiled_to_java :
      (code filename : Bytes) (w flags : ℕ) (r : Owned d) (js bs : List Bool) (e : Engine g)
      → compile d b c bs code (until_zero filename) w flags ≡ some r
      → AtEase (java_answers r.ok r.out js) (jni_state java e)
      → e.table.allocs ≡ true ∷ true ∷ bs
      → ((native_compile vm java b c code filename w flags e).0 ≡ java_result r.ok r.out)
        × AtEase js (jni_state java (native_compile vm java b c code filename w flags e).1)
  unfolding native_compile in_native open_frame pop_local_frame
  compiled_to_java code filename w flags r js bs e made h k =
      let (value, at_ease, left) =
        (Gives-next (plain_call-Gives jl open_frame _ _ (λ s. refl) (λ s. refl) (λ s. refl)) (
            Gives-then _ (compile_method-Gives code filename w flags r js bs made) (
              Gives-next
                (plain_call-Gives jl pop_local_frame js r.allocs (λ s. refl) (λ s. refl)
                  (λ s. refl))
                (pure-Gives _ js r.allocs)))).from
          e h k in
      (value, at_ease)
