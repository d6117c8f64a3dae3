-- ===== src/Bytecode/Load/Home.antt =====
-- Files that a build has compiled, in an engine of the same build.
use mathlib.Core.Option.{some-injective}
use mathlib.Core.Path.{subst}
use mathlib.Core.Sum.{inr-injective}
use mquickjs_kmp.Prelude.{
  ℕ, ◌≤◌, ◌≡◌, refl, sym, ◌∙◌, ap, Bool, true, none, some, List, [], ◌∷◌, ◌++◌, inr, length,
}
use mquickjs_kmp.Bytecode.Compile.Files.{image_of, compile-File, compiled_word_size}
use mquickjs_kmp.Bytecode.Compile.{Compiler, Owned, parse_flags, compile}
use mquickjs_kmp.Bytecode.Format.{accepts_compiled, drop-compiled}
use mquickjs_kmp.Bytecode.Load.{load_checked, load_bytecode}
use mquickjs_kmp.Bytecode.{
  Build, check_bytecode, check_body, drop, header_size, header_bytes, compiled_header,
}
use mquickjs_kmp.Engine.{Bytes, Doubles, Engine, Vm, case_of}
use mquickjs_kmp.GcRefs.{GcRefs}

module _ {g : GcRefs} {d : Doubles} (vm : Vm g d) (b : Build) (c : Compiler) where
  passed_checks :
      (text body : Bytes) (e : Engine g)
      → check_bytecode b vm.is_bytecode text ≡ none
      → drop header_size text ≡ body
      → load_bytecode vm b text e ≡ load_checked vm body e
  unfolding load_bytecode case_of
  passed_checks text body e h rest = rw (h, rest) refl

  -- If kmpjs_compile of a build with a commit of at least 40 bytes makes a file for its own word size,
  -- JS_Parse makes a program of that source, and what the engine gives for that program, header and
  -- data, is bytecode by its length and by JS_IsBytecode, then kmpjs_load_bytecode of the same build
  -- lets that file pass and goes on, on whatever engine, to reserve a slot, relocate and load
  -- exactly that header and data.
  pub own_file_loads :
      40 ≤ length b.commit
      → (allocs : List Bool) (code filename : Bytes) (flags : ℕ) (r : Owned d)
      → compile d b c allocs code filename b.word_size flags ≡ some r
      → r.ok ≡ true
      → (text : Bytes) → r.out.str ≡ some text
      → (program : c.Program)
      → c.parse (code ++ (0 ∷ [])) (length code) filename (parse_flags flags) ≡ inr program
      → (parts : Bytes × Bytes) → image_of d b c b.word_size program ≡ some parts
      → check_body b vm.is_bytecode (parts.0 ++ parts.1) ≡ none
      → (e : Engine g) → load_bytecode vm b text e ≡ load_checked vm (parts.0 ++ parts.1) e
  own_file_loads long allocs code filename flags r made ok text shown program parses parts image
        sound e =
      let w = b.word_size in
      let file = compile-File d b c code filename w flags allocs r made ok in
      let same_program : file.program ≡ program = inr-injective _ _ (sym file.parses ∙ parses) in
      let same_parts : file.parts ≡ parts =
        some-injective _ _ (sym file.image ∙ ap (image_of d b c w) same_program ∙ image) in
      let body = parts.0 ++ parts.1 in
      let whole : header_bytes (compiled_header b w) ++ body ≡ text = some-injective _ _ (
        ap (λ p. some (header_bytes (compiled_header b w) ++ (p.0 ++ p.1))) (sym same_parts)
        ∙ sym file.whole
        ∙ shown) in
      let small = compiled_word_size d b c allocs code filename w flags r made ok in
      let passes =
        (accepts_compiled b b w long long vm.is_bytecode body small).1 (refl, refl, sound) in
      passed_checks text body e (subst (λ t. check_bytecode b vm.is_bytecode t ≡ none) whole passes)
        (subst (λ t. drop header_size t ≡ body) whole (drop-compiled b w long body))
