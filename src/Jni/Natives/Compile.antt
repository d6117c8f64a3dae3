-- ===== src/Jni/Natives/Compile.antt =====
-- What nativeCompile does to frames and blocks.
use mathlib.Core.Path.{subst}
use mquickjs_kmp.Prelude.{ℕ, suc, ◌&&◌, Bool, true, false, Option, none, some, if◌then◌else◌, arith}
use mquickjs_kmp.Bytecode.Compile.{Compiler, Owned, compile}
use mquickjs_kmp.Bytecode.{Build}
use mquickjs_kmp.Engine.Convert.Keeps.{allocs-Valid}
use mquickjs_kmp.Engine.Keeps.{Meets, Steady-refl, keep}
use mquickjs_kmp.Engine.{Bytes, Doubles, Engine, pure, ◌>>◌, case_of, Vm}
use mquickjs_kmp.GcRefs.{GcRefs}
use mquickjs_kmp.Jni.Keeps.Rules.{a_call}
use mquickjs_kmp.Jni.Keeps.Blocks.{owning, owning_comm, count_step, free_then, take_then}
use mquickjs_kmp.Jni.Keeps.{JavaLaws, Takes, after, follow, either, of_cases, called, returns}
use mquickjs_kmp.Jni.Natives.Keeps.{in_native-Meets, dup_cstring_then}
use mquickjs_kmp.Jni.Natives.Compiling.{
  CompileResult, crashed, failure, run_compile, own_text, use_compiled, compiled_value,
  compile_copied, compile_method, native_compile,
}
use mquickjs_kmp.Jni.Values.Keeps.{new_bytes-Takes, new_value-Takes}
use mquickjs_kmp.Jni.Values.{has_text}
use mquickjs_kmp.Jni.{Java, free_block}

module _ {g : GcRefs} {d : Doubles} (vm : Vm g d) {java : Java g d} (jl : JavaLaws java) (b : Build)
    (c : Compiler) where
  ran :
      (r : Option (Owned d))
      → Meets {A = Option (Owned d)} 0 none (λ (e : Engine g). elim r [
        | none ↦ (none, e)
        | some owned ↦ (some owned, record e { table = record (e.table) { allocs = owned.allocs } })
      ])
  ran none = record { from = λ e. keep e }
  ran (some owned) = record {
    from = λ e. record {
      roots = λ _. omega arith;
      state = Steady-refl e.state;
      table = allocs-Valid e.table owned.allocs;
      rest = λ _. g.same_refl e.table.ctx;
    };
  }

  run_compile-Meets :
      (code filename : Bytes) (w flags : ℕ)
      → Meets 0 none (run_compile vm java b c code filename w flags)
  unfolding run_compile
  run_compile-Meets code filename w flags = record {
    from = λ e. (ran (compile d b c e.table.allocs code filename w flags)).from e;
  }

  compiled_value-Takes :
      {n : ℕ} (r : Owned d) → Takes java 0 (suc n) (suc n) (compiled_value vm java r)
  unfolding compiled_value
  compiled_value-Takes r =
      either r.ok (after (new_bytes-Takes jl r.out.str) (λ bytes. returns _))
        (after (new_value-Takes jl r.out) (λ value. returns _))

  freed_texts :
      {n : ℕ} (text stack : Bool) (res : CompileResult d.Num)
      → Takes java
          (owning stack (owning text 0))
          n
          n
          (free_block java text >> (free_block java stack >> pure g res))
  freed_texts {n} text stack res =
      subst
        (λ held.
          Takes java held n n (free_block java text >> (free_block java stack >> pure g res)))
        (owning_comm text stack 0) (free_then jl text (free_then jl stack (returns res)))

  use_compiled-Takes : {n : ℕ} (r : Owned d) → Takes java 0 (suc n) (suc n) (use_compiled vm java r)
  unfolding use_compiled own_text
  use_compiled-Takes {n} r =
      let text = has_text r.out.str in
      let stack = has_text r.out.stack in
      count_step jl text (
        count_step jl stack (
          after {x = compiled_value vm java r} (compiled_value-Takes r)
            (λ res. freed_texts text stack res)))

  compile_copied-Takes :
      (code filename : Bytes) (w flags : ℕ)
      → Takes java 2 1 1 (compile_copied vm java b c code filename w flags)
  unfolding compile_copied
  compile_copied-Takes code filename w flags =
      after (called jl (run_compile-Meets code filename w flags)) (λ owned.
        after (of_cases owned (returns crashed) use_compiled-Takes)
          (λ res. free_then jl true (free_then jl true (returns res))))

  copied_both :
      (code : Bytes) (w flags : ℕ) (ok : Bool) (name : Option Bytes)
      → Takes java (owning (has_text name) (owning ok 0)) 1 1 (
          if ok && has_text name
          then case_of name (pure g crashed) (λ p. compile_copied vm java b c code p w flags)
          else (free_block java ok >> (free_block java (has_text name) >> pure g (failure none))))
  unfolding case_of
  copied_both code w flags true (some p) = compile_copied-Takes code p w flags
  copied_both code w flags true none = free_then jl true (free_then jl false (returns _))
  copied_both code w flags false (some p) = free_then jl false (free_then jl true (returns _))
  copied_both code w flags false none = free_then jl false (free_then jl false (returns _))

  compile_method-Takes :
      (code filename : Bytes) (w flags : ℕ)
      → Takes java 0 1 1 (compile_method vm java b c code filename w flags)
  unfolding compile_method
  compile_method-Takes code filename w flags = follow (a_call jl) (
      take_then jl
        (λ ok. dup_cstring_then jl filename _ (λ name. copied_both code w flags ok name)))

  pub native_compile-Meets :
      (code filename : Bytes) (w flags : ℕ)
      → Meets 0 none (native_compile vm java b c code filename w flags)
  unfolding native_compile
  native_compile-Meets code filename w flags =
      in_native-Meets jl (compile_method-Takes code filename w flags)
