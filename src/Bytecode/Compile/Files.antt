-- ===== src/Bytecode/Compile/Files.antt =====
-- The files that kmpjs_compile gives, before the checks of kmpjs_load_bytecode.
use mathlib.Core.Option.{some-injective}
use mathlib.Core.Path.{subst}
use mquickjs_kmp.Prelude.{
  ℕ, ◌^◌, ◌<◌, ◌≤◌, ◌≡◌, ◌↔◌, ◌∙◌, ap, refl, ◌==◌, ltb, not, ◌&&◌, Bool, true, false, Bool-cases,
  Option, none, some, Option-cases, List, [], ◌∷◌, ◌++◌, ◌⊎◌, inl, inr, if◌then◌else◌, arith,
  length,
}
use mquickjs_kmp.Buffer.{Appended, next_answer, later_answers}
use mquickjs_kmp.Bytecode.Compile.{
  Compiler, Owned, owned_message, with_stack, owned_exception, report, has_zero, first_line,
  other_lines, write_file, prepare, parsed, parse_source, parse_flags, compile_in_context, compile,
}
use mquickjs_kmp.Bytecode.Format.{accepts_compiled}
use mquickjs_kmp.Bytecode.{Build, header_bytes, compiled_header, check_bytecode, check_body, take}
use mquickjs_kmp.Engine.Convert.{until_zero}
use mquickjs_kmp.Engine.{Bytes, Doubles}

module _ (d : Doubles) (b : Build) (c : Compiler) where
  -- What the engine makes of a program for a word size: a 64-bit build converts it for a 32-bit
  -- engine, which may fail, and in any other case it is relocated.
  abbrev pub image_of : ℕ → c.Program → Option (Bytes × Bytes)
  image_of w program =
      if (b.word_size == 64) && (w == 32) then c.to_32 program else some (c.relocated program)

  image_32 :
      (w : ℕ) (program : c.Program)
      → ((b.word_size == 64) && (w == 32)) ≡ true
      → image_of w program ≡ c.to_32 program
  image_32 w program h = rw h refl

  image_relocated :
      (w : ℕ) (program : c.Program)
      → ((b.word_size == 64) && (w == 32)) ≡ false
      → image_of w program ≡ some (c.relocated program)
  image_relocated w program h = rw h refl

  -- The result is a file: the header of this build for the word size, then the JSBytecodeHeader and the
  -- data of the program that JS_Parse has made of the source.
  pub record File (code filename : Bytes) (word_size flags : ℕ) (text : Option Bytes) : Type 0 where
    pub program : c.Program
    pub parts : Bytes × Bytes
    pub parses : c.parse (code ++ (0 ∷ [])) (length code) filename (parse_flags flags) ≡ inr program
    pub image : image_of word_size program ≡ some parts
    pub whole : text ≡ some (header_bytes (compiled_header b word_size) ++ (parts.0 ++ parts.1))

  module _ (code filename : Bytes) (w flags : ℕ) where
    abbrev Sound : Option (Owned d) → Type 0
    Sound none = Unit {0}
    Sound (some r) = r.ok ≡ true → File code filename w flags r.out.str

    either_Sound :
        (t : Bool) (x y : Option (Owned d)) → Sound x → Sound y → Sound (if t then x else y)
    either_Sound true x y h k = h
    either_Sound false x y h k = k

    message-Sound : (allocs : List Bool) (msg : Bytes) → Sound (some (owned_message d allocs msg))
    unfolding owned_message
    message-Sound allocs msg h = absurd (ground (arith, h))

    with_stack_fails :
        (r : Owned d) (rest : Bytes) → r.ok ≡ false → (with_stack d r rest).ok ≡ false
    unfolding with_stack
    with_stack_fails r [] h = h
    with_stack_fails r (x ∷ xs) h = h

    message_fails :
        (allocs : List Bool) (msg rest : Bytes)
        → Sound (some (with_stack d (owned_message d allocs msg) rest))
    unfolding owned_message
    message_fails allocs msg rest h =
        absurd (ground (arith, h, with_stack_fails (owned_message d allocs msg) rest refl))

    module _ (p : c.Program)
        (parses : c.parse (code ++ (0 ∷ [])) (length code) filename (parse_flags flags)
          ≡ inr p) where
      write_file-Sound :
          (allocs : List Bool) (parts : Bytes × Bytes)
          → image_of w p ≡ some parts
          → Sound (some (write_file d b c allocs w parts))
      unfolding write_file
      write_file-Sound allocs parts image = elim (Bool-cases (next_answer allocs)) [
        | inl h ↦ rw h (λ _. record {
          program = p;
          parts = parts;
          parses = parses;
          image = image;
          whole = refl;
        })
        | inr h ↦ rw h (message-Sound _ _)
      ]

      prepare-Sound : (allocs : List Bool) → Sound (some (prepare d b c allocs w p))
      unfolding prepare
      prepare-Sound allocs = elim (Bool-cases ((b.word_size == 64) && (w == 32))) [
        | inr h ↦ rw h (write_file-Sound allocs _ (image_relocated w p h))
        | inl h ↦ rw h (elim (Option-cases (c.to_32 p)) [
          | inl k ↦ rw k (message-Sound allocs _)
          | inr (parts, k) ↦ rw k (write_file-Sound allocs parts (image_32 w p h ∙ k))
        ])
      ]

    report-Sound : (r : Appended) → Sound (report d r)
    unfolding report
    report-Sound r =
        let text = until_zero r.buffer.bytes in
        either_Sound (has_zero r.buffer.bytes)
          (some (with_stack d (owned_message d r.allocs (first_line text)) (other_lines text))) none
          (message_fails r.allocs (first_line text) (other_lines text)) tt

    owned_exception-Sound :
        (allocs : List Bool) (pieces : List Bytes) → Sound (owned_exception d allocs pieces)
    unfolding owned_exception
    owned_exception-Sound allocs pieces = report-Sound _

    parsed-Sound :
        (allocs : List Bool) (x : List Bytes ⊎ c.Program)
        → ((p : c.Program)
            → x ≡ inr p
            → c.parse (code ++ (0 ∷ [])) (length code) filename (parse_flags flags) ≡ inr p)
        → Sound (parsed d b c allocs w x)
    unfolding parsed
    parsed-Sound allocs (inl pieces) h = owned_exception-Sound allocs pieces
    parsed-Sound allocs (inr p) h = prepare-Sound p (h p refl) allocs

    parse_source-parse :
        (allocs : List Bool) (p : c.Program)
        → parse_source d b c allocs code filename flags ≡ inr p
        → c.parse (code ++ (0 ∷ [])) (length code) filename (parse_flags flags) ≡ inr p
    unfolding parse_source
    parse_source-parse allocs p = elim (Bool-cases (next_answer allocs)) [
      | inl h ↦ rw h (λ made. made)
      | inr h ↦ rw h (λ made. absurd (ground (arith, made)))
    ]

    compile_in_context-Sound :
        (allocs : List Bool) → Sound (compile_in_context d b c allocs code filename w flags)
    unfolding compile_in_context
    compile_in_context-Sound allocs =
        either_Sound (next_answer allocs) _ _
          (either_Sound c.new_context _ _
            (parsed-Sound _ _ (parse_source-parse (later_answers allocs))) (message-Sound _ _))
          (message-Sound _ _)

    compile-Sound : (allocs : List Bool) → Sound (compile d b c allocs code filename w flags)
    unfolding compile
    compile-Sound allocs =
        either_Sound (not (w == 32) && not (w == 64)) _ _ (message-Sound _ _) (
          either_Sound (ltb b.word_size w) _ _ (message-Sound _ _)
            (compile_in_context-Sound allocs))

    pub compile-File :
        (allocs : List Bool) (r : Owned d)
        → compile d b c allocs code filename w flags ≡ some r
        → r.ok ≡ true
        → File code filename w flags r.out.str
    compile-File allocs r made = subst Sound made (compile-Sound allocs)

  -- kmpjs_compile succeeds for these two word sizes only.
  pub compiled_word_size :
      (allocs : List Bool) (code name : Bytes) (w flags : ℕ) (r : Owned d)
      → compile d b c allocs code name w flags ≡ some r
      → r.ok ≡ true
      → w < 2 ^ 16
  unfolding compile owned_message
  compiled_word_size allocs code name w flags r made ok =
      elim (Bool-cases (not (w == 32) && not (w == 64))) [
        | inr h ↦ ground (arith, h)
        | inl h ↦ absurd (ground (arith, ok, ap Owned.ok (some-injective _ _ (rw h at made))))
      ]

  -- A file that kmpjs_compile of a build gives for a word size, successfully, is accepted by
  -- kmpjs_load_bytecode of a build, both with a commit of at least 40 bytes, exactly when that is
  -- the word size of the loading build, the first 40 bytes of the commits agree, and the body that
  -- the compiler wrote is accepted.
  pub compile_then_check :
      (loader : Build)
      → 40 ≤ length b.commit
      → 40 ≤ length loader.commit
      → (is_bytecode : Bytes → Bool) (allocs : List Bool) (code filename : Bytes) (w flags : ℕ)
      → w < 2 ^ 16
      → (r : Owned d) → compile d b c allocs code filename w flags ≡ some r
      → r.ok ≡ true
      → (body : Bytes) × (r.out.str ≡ some (header_bytes (compiled_header b w) ++ body))
        × ((check_bytecode loader is_bytecode (header_bytes (compiled_header b w) ++ body) ≡ none)
            ↔ ((w ≡ loader.word_size)
                × (take 40 b.commit ≡ take 40 loader.commit)
                × (check_body loader is_bytecode body ≡ none)))
  compile_then_check loader long long' is_bytecode allocs code filename w flags small r made ok =
      let file = compile-File code filename w flags allocs r made ok in
      let body = file.parts.0 ++ file.parts.1 in
      (body, file.whole, accepts_compiled b loader w long long' is_bytecode body small)
