-- ===== src/Kmpjsc/Runs.antt =====
-- Runs of kmpjsc, from the arguments to the output file.
use mquickjs_kmp.Prelude.{
  ◌≤◌, ◌≡◌, ◌≢◌, refl, ◌∙◌, ap, ◌↔◌, Bool, true, Bool-cases, inl, inr, Option, none, some, List, [],
  ◌∷◌, ◌++◌, length, arith,
}
use mquickjs_kmp.Buffer.{next_answer, later_answers}
use mquickjs_kmp.Bytecode.Compile.Files.{image_of, compile-File, compiled_word_size}
use mquickjs_kmp.Bytecode.Compile.{Compiler, Owned, parse_flags, compile}
use mquickjs_kmp.Bytecode.Format.{accepts_compiled}
use mquickjs_kmp.Bytecode.{Build, take, header_bytes, compiled_header, check_bytecode, check_body}
use mquickjs_kmp.Engine.{Bytes, Doubles}
use mquickjs_kmp.Kmpjsc.{
  Options, parse_args, SourceFile, Files, Outcome, usage, no_file, could_not_read, not_compiled,
  crashed, written, exit_code, read_source, write_out, text_of, finish, compile_code, compile_file,
  with_paths, with_options, no_options, main,
}

-- The two ways in which main may end.
data Ends {D : Type 0} (start : D) (Done : D → Type 0) (r : Outcome × D) : Type 0 where
  failed : r.0 ≢ written → r.1 ≡ start → Ends start Done r
  done : r.0 ≡ written → Done r.1 → Ends start Done r

code_0 : (o : Outcome) → exit_code o ≡ some 0 → o ≡ written
code_0 written h = refl
code_0 crashed h = absurd (ground (arith, h))
code_0 usage h = absurd (ground (arith, h))
code_0 (no_file x) h = absurd (ground (arith, h))
code_0 (could_not_read x) h = absurd (ground (arith, h))
code_0 (not_compiled x y z) h = absurd (ground (arith, h))

module _ (f : Files) (d : Doubles) (b : Build) (c : Compiler) where
  -- That a run has read a source, compiled it, and written the result.
  pub record Wrote (allocs : List Bool) (args : List Bytes) (disk disk' : f.Disk) : Type 0 where
    pub options : Options
    pub in_path : Bytes
    pub out_path : Bytes
    pub source : SourceFile
    pub code : Bytes
    pub result : Owned d
    pub opened : f.Disk
    pub parsed : parse_args args (no_options f d b c) ≡ some options
    pub in_is : options.in_path ≡ some in_path
    pub out_is : options.out_path ≡ some out_path
    pub source_is : f.open_source in_path disk ≡ some source
    pub code_is : read_source (next_answer allocs) source ≡ some code
    pub compiled :
        compile d b c (later_answers allocs) code in_path options.word_size options.flags
        ≡ some result
    pub accepted : result.ok ≡ true
    pub opened_is : f.open_out out_path disk ≡ some opened
    pub contents : disk' ≡ f.fwrite out_path (text_of f result.out.str) opened

  module _ (allocs : List Bool) (args : List Bytes) (disk : f.Disk) where
    abbrev Runs : Outcome × f.Disk → Type 0
    Runs = Ends disk (Wrote allocs args disk)

    -- Each step, with what the steps before it have found.
    module _ (o : Options) (parsed : parse_args args (no_options f d b c) ≡ some o) (i t : Bytes)
        (ins : o.in_path ≡ some i) (outs : o.out_path ≡ some t) where
      module _ (s : SourceFile) (opens : f.open_source i disk ≡ some s) (code : Bytes)
          (reads : read_source (next_answer allocs) s ≡ some code) where
        wrote :
            (r : Owned d)
            → compile d b c (later_answers allocs) code i o.word_size o.flags ≡ some r
            → r.ok ≡ true
            → (target : Option f.Disk) → f.open_out t disk ≡ target
            → Runs (write_out f t (text_of f r.out.str) disk target)
        unfolding write_out
        wrote r compiles ok none e = failed (λ h. absurd (ground (arith, h))) refl
        wrote r compiles ok (some opened) e = done refl (record {
          options = o;
          in_path = i;
          out_path = t;
          source = s;
          code = code;
          result = r;
          opened = opened;
          parsed = parsed;
          in_is = ins;
          out_is = outs;
          source_is = opens;
          code_is = reads;
          compiled = compiles;
          accepted = ok;
          opened_is = e;
          contents = refl;
        })

        finished :
            (r : Option (Owned d))
            → compile d b c (later_answers allocs) code i o.word_size o.flags ≡ r
            → Runs (finish f d i t disk r)
        unfolding finish
        finished none e = failed (λ h. absurd (ground (arith, h))) refl
        finished (some r) e = elim (Bool-cases r.ok) [
          | inl ok ↦ rw ok (wrote r e ok (f.open_out t disk) refl)
          | inr not_ok ↦ rw not_ok (failed (λ h. absurd (ground (arith, h))) refl)
        ]

      compiled_code :
          (s : SourceFile)
          → f.open_source i disk ≡ some s
          → (code : Option Bytes) → read_source (next_answer allocs) s ≡ code
          → Runs (compile_code f d b c (later_answers allocs) i t o disk code)
      unfolding compile_code
      compiled_code s opens none e = failed (λ h. absurd (ground (arith, h))) refl
      compiled_code s opens (some code) e = finished s opens code e _ refl

      compiled_file :
          (s : Option SourceFile)
          → f.open_source i disk ≡ s
          → Runs (compile_file f d b c allocs i t o disk s)
      unfolding compile_file
      compiled_file none e = failed (λ h. absurd (ground (arith, h))) refl
      compiled_file (some s) e = compiled_code s e _ refl

    on_paths :
        (o : Options)
        → parse_args args (no_options f d b c) ≡ some o
        → (t i : Option Bytes) → o.out_path ≡ t
        → o.in_path ≡ i
        → Runs (with_paths f d b c allocs o disk t i)
    unfolding with_paths
    on_paths o p none i outs ins = failed (λ h. absurd (ground (arith, h))) refl
    on_paths o p (some t) none outs ins = failed (λ h. absurd (ground (arith, h))) refl
    on_paths o p (some t) (some i) outs ins = compiled_file o p i t ins outs _ refl

    on_options :
        (o : Option Options)
        → parse_args args (no_options f d b c) ≡ o
        → Runs (with_options f d b c allocs disk o)
    unfolding with_options
    on_options none p = failed (λ h. absurd (ground (arith, h))) refl
    on_options (some o) p = on_paths o p _ _ refl refl

    main-Ends : Runs (main f d b c allocs args disk)
    unfolding main
    main-Ends = on_options _ refl

  -- A run of kmpjsc that does not end with exit code 0, be it for its arguments, a file that cannot be
  -- opened or read, lack of memory or an error in the script, leaves the disk as it was: in particular an
  -- output file from before is not touched.
  pub main-unchanged :
      (allocs : List Bool) (args : List Bytes) (disk : f.Disk)
      → exit_code (main f d b c allocs args disk).0 ≢ some 0
      → (main f d b c allocs args disk).1 ≡ disk
  main-unchanged allocs args disk h = elim (main-Ends allocs args disk) [
    | failed n same ↦ same
    | done w wrote ↦ absurd (h (ap exit_code w))
  ]

  main-Wrote :
      (allocs : List Bool) (args : List Bytes) (disk : f.Disk)
      → exit_code (main f d b c allocs args disk).0 ≡ some 0
      → Wrote allocs args disk (main f d b c allocs args disk).1
  main-Wrote allocs args disk h = elim (main-Ends allocs args disk) [
    | failed n same ↦ absurd (n (code_0 _ h))
    | done w wrote ↦ wrote
  ]

  -- The output file of a run, from the source file that it was made of, and when the checks of a loading
  -- build let it pass.
  pub record Output (loader : Build) (is_bytecode : Bytes → Bool) (allocs : List Bool)
      (args : List Bytes) (disk disk' : f.Disk) : Type 0 where
    pub options : Options
    pub in_path : Bytes
    pub out_path : Bytes
    pub source : SourceFile
    pub code : Bytes
    pub program : c.Program
    pub parts : Bytes × Bytes
    pub opened : f.Disk
    pub parsed : parse_args args (no_options f d b c) ≡ some options
    pub in_is : options.in_path ≡ some in_path
    pub out_is : options.out_path ≡ some out_path
    pub source_is : f.open_source in_path disk ≡ some source
    pub code_is : read_source (next_answer allocs) source ≡ some code
    pub parses :
        c.parse (code ++ (0 ∷ [])) (length code) in_path (parse_flags options.flags) ≡ inr program
    pub image : image_of d b c options.word_size program ≡ some parts
    pub opened_is : f.open_out out_path disk ≡ some opened
    pub contents :
        disk'
        ≡ f.fwrite out_path
            (header_bytes (compiled_header b options.word_size) ++ (parts.0 ++ parts.1))
            opened
    pub loads :
        (check_bytecode loader is_bytecode
            (header_bytes (compiled_header b options.word_size) ++ (parts.0 ++ parts.1))
          ≡ none)
        ↔ ((options.word_size ≡ loader.word_size)
            × (take 40 b.commit ≡ take 40 loader.commit)
            × (check_body loader is_bytecode (parts.0 ++ parts.1) ≡ none))

  -- A run of kmpjsc that ends with exit code 0 has opened the path behind -o and given fwrite, as the
  -- whole content: the header of its build for the word size of the options, then the bytecode header
  -- and the data that the engine gives for the program that JS_Parse made of the source file,
  -- converted to 32 bits on a 64-bit build with -m32 and relocated otherwise. With commits of at least
  -- 40 bytes, the checks that kmpjs_load_bytecode of a build makes of a file let that content pass
  -- exactly when the build has that word size, the first 40 bytes of the commits agree, and they
  -- let those two parts pass as the body.
  pub main-Output :
      (loader : Build)
      → 40 ≤ length b.commit
      → 40 ≤ length loader.commit
      → (is_bytecode : Bytes → Bool) (allocs : List Bool) (args : List Bytes) (disk : f.Disk)
      → exit_code (main f d b c allocs args disk).0 ≡ some 0
      → Output loader is_bytecode allocs args disk (main f d b c allocs args disk).1
  main-Output loader long long' is_bytecode allocs args disk h =
      let w = main-Wrote allocs args disk h in
      let size = compiled_word_size d b c _ _ _ _ _ w.result w.compiled w.accepted in
      let file =
        compile-File d b c w.code w.in_path w.options.word_size w.options.flags _ w.result
          w.compiled w.accepted in
      record {
        options = w.options;
        in_path = w.in_path;
        out_path = w.out_path;
        source = w.source;
        code = w.code;
        program = file.program;
        parts = file.parts;
        opened = w.opened;
        parsed = w.parsed;
        in_is = w.in_is;
        out_is = w.out_is;
        source_is = w.source_is;
        code_is = w.code_is;
        parses = file.parses;
        image = file.image;
        opened_is = w.opened_is;
        contents = w.contents ∙ ap (λ x. f.fwrite w.out_path (text_of f x) w.opened) file.whole;
        loads =
            accepts_compiled b loader w.options.word_size long long' is_bytecode
              (file.parts.0 ++ file.parts.1) size;
      }
