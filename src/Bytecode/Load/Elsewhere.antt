-- ===== src/Bytecode/Load/Elsewhere.antt =====
-- Files that one build has compiled, given to kmpjs_load_bytecode of another.
use mathlib.Core.Option.{some-injective}
use mathlib.Core.Path.{subst}
use mquickjs_kmp.Prelude.{
  ℕ, ◌≤◌, ◌≡◌, ◌≢◌, sym, ◌∙◌, Bool, true, none, some, Option-cases, List, ◌⊎◌, inl, inr, length,
}
use mquickjs_kmp.Bytecode.Compile.Files.{compile_then_check, compiled_word_size}
use mquickjs_kmp.Bytecode.Compile.{Compiler, Owned, compile}
use mquickjs_kmp.Bytecode.Load.Keeps.{load_bytecode-Refused}
use mquickjs_kmp.Bytecode.Load.{load_bytecode}
use mquickjs_kmp.Bytecode.{Build, take, check_bytecode}
use mquickjs_kmp.Engine.Errors.{Refused}
use mquickjs_kmp.Engine.{Bytes, Doubles, Engine, Vm}
use mquickjs_kmp.GcRefs.{GcRefs}

module _ {g : GcRefs} {d : Doubles} (vm : Vm g d) (b : Build) (c : Compiler) where
  checked_file-Refused :
      (loader : Build) (text : Bytes) (e : Engine g)
      → check_bytecode loader vm.is_bytecode text ≢ none
      → Refused d e (load_bytecode vm loader text e)
  checked_file-Refused loader text e h =
      elim (Option-cases (check_bytecode loader vm.is_bytecode text)) [
        | inl k ↦ absurd (h k)
        | inr (msg, k) ↦ load_bytecode-Refused vm loader text msg e k
      ]

  -- A file that kmpjs_compile of a build gives for a word size, successfully, is refused by
  -- kmpjs_load_bytecode of a build of another word size, and by that of a build with another commit,
  -- both commits having at least 40 bytes and differing in the first 40: it returns -1 with an
  -- exception, and changes nothing of the engine but the text buffer of the message and what the
  -- allocator has still to answer.
  pub foreign_file-Refused :
      (loader : Build)
      → 40 ≤ length b.commit
      → 40 ≤ length loader.commit
      → (allocs : List Bool) (code filename : Bytes) (w flags : ℕ) (r : Owned d)
      → compile d b c allocs code filename w flags ≡ some r
      → r.ok ≡ true
      → (w ≢ loader.word_size) ⊎ (take 40 b.commit ≢ take 40 loader.commit)
      → (text : Bytes) → r.out.str ≡ some text
      → (e : Engine g) → Refused d e (load_bytecode vm loader text e)
  foreign_file-Refused loader long long' allocs code filename w flags r made ok foreign text shown
        e =
      let (body, whole, checks) =
        compile_then_check d b c loader long long' vm.is_bytecode allocs code filename w flags
          (compiled_word_size d b c allocs code filename w flags r made ok) r made ok in
      let same = some-injective _ _ (sym whole ∙ shown) in
      checked_file-Refused loader text e (λ h.
        let (size, commit, rest) =
          checks.0 (subst (λ t. check_bytecode loader vm.is_bytecode t ≡ none) (sym same) h) in
        elim foreign [ inl other ↦ other size | inr other ↦ other commit ])
