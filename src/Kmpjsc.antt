-- ===== src/Kmpjsc.antt =====
-- The command line compiler native/tools/kmpjsc.c.
-- The file system is a parameter, and a process ends with an outcome that says its exit code and what
-- it has written to stderr. An argument is the bytes of its text, without the zero.
pub mod Arguments
pub mod Runs
pub mod Tests
use mquickjs_kmp.Prelude.{
  ℕ, ◌+◌, ◌-◌, ◌%◌, ◌==◌, leb, Bool, true, false, ◌&&◌, ◌||◌, Option, none, some, List, [], ◌∷◌,
  if◌then◌else◌, length, codes,
}
use mquickjs_kmp.Buffer.{next_answer, later_answers}
use mquickjs_kmp.Bytecode.Compile.{Compiler, Owned, compile}
use mquickjs_kmp.Bytecode.{Build, take}
use mquickjs_kmp.Engine.{Bytes, Value, Doubles}

-- The variables of main that the arguments set; none is NULL.
pub record Options : Type 0 where
  pub out_path : Option Bytes
  pub in_path : Option Bytes
  pub word_size : ℕ
  pub flags : ℕ

-- strcmp(a, b) == 0.
unfoldable pub same_text : Bytes → Bytes → Bool
same_text [] [] = true
same_text [] (b ∷ ys) = false
same_text (a ∷ xs) [] = false
same_text (a ∷ xs) (b ∷ ys) = (a == b) && same_text xs ys

-- argv[i][0] == '-'.
unfoldable pub has_dash : Bytes → Bool
has_dash [] = false
has_dash (b ∷ bs) = b == 45

-- The branches of the loop.
pub data Branch : Type 0 where
  word_32 strip output dashed source_name : Branch

unfoldable pub branch : Bytes → Branch
branch arg =
    if same_text arg (codes "-m32")
    then word_32
    else if same_text arg (codes "--no-column")
    then strip
    else if same_text arg (codes "-o")
    then output
    else if has_dash arg
    then dashed
    else source_name

-- KMPJS_COMPILE_STRIP_COLUMNS, or'ed into the flags.
abbrev pub with_strip : ℕ → ℕ
with_strip flags = flags + (1 - flags % 2)

-- The loop over argv from 1 on; none is a call of usage. An -o at the end falls through to the test for
-- a dash.
unfoldable pub parse_args : List Bytes → Options → Option Options
parse_args [] o = some o
parse_args (arg ∷ []) o = elim (branch arg) [
  | word_32 ↦ some (record o { word_size = 32 })
  | strip ↦ some (record o { flags = with_strip o.flags })
  | output ↦ none
  | dashed ↦ none
  | source_name ↦ some (record o { in_path = some arg })
]
parse_args (arg ∷ next ∷ args) o = elim (branch arg) [
  | word_32 ↦ parse_args (next ∷ args) (record o { word_size = 32 })
  | strip ↦ parse_args (next ∷ args) (record o { flags = with_strip o.flags })
  | output ↦ parse_args args (record o { out_path = some next })
  | dashed ↦ none
  | source_name ↦ parse_args (next ∷ args) (record o { in_path = some arg })
]

-- What ftell says of an open file, none for -1, and the bytes that fread can give.
pub record SourceFile : Type 0 where
  pub tell : Option ℕ
  pub bytes : Bytes

-- fopen for reading, and fopen for writing followed by fwrite and fclose, neither of which main looks at.
pub record Files : Type 1 where
  pub Disk : Type 0
  pub open_source : Bytes → Disk → Option SourceFile
  pub open_out : Bytes → Disk → Option Disk
  pub fwrite : Bytes → Bytes → Disk → Disk

-- How main ends.
pub data Outcome : Type 0 where
  usage : Outcome
  no_file could_not_read : Bytes → Outcome
  not_compiled : Bytes → Option Bytes → Option Bytes → Outcome
  -- kmpjs_compile reads where it must not.
  crashed : Outcome
  written : Outcome

abbrev pub exit_code : Outcome → Option ℕ
exit_code usage = some 2
exit_code (no_file path) = some 1
exit_code (could_not_read path) = some 1
exit_code (not_compiled path str stack) = some 1
exit_code crashed = none
exit_code written = some 0

-- fseek, ftell, malloc and fread.
unfoldable pub read_source : Bool → SourceFile → Option Bytes
read_source ok f = elim (f.tell) [
  | none ↦ none
  | some len ↦ if ok && leb len (length f.bytes) then some (take len f.bytes) else none
]

module _ (f : Files) where
  -- What main does with a file it has compiled, and with the result of kmpjs_compile.
  unfoldable pub write_out : Bytes → Bytes → f.Disk → Option f.Disk → Outcome × f.Disk
  write_out out_path text disk none = (no_file out_path, disk)
  write_out out_path text disk (some opened) = (written, f.fwrite out_path text opened)

  -- What fwrite gets from a NULL pointer and length 0.
  abbrev pub text_of : Option Bytes → Bytes
  text_of none = []
  text_of (some text) = text

  module _ (d : Doubles) where
    unfoldable pub finish : Bytes → Bytes → f.Disk → Option (Owned d) → Outcome × f.Disk
    finish in_path out_path disk none = (crashed, disk)
    finish in_path out_path disk (some r) =
        if r.ok
        then write_out out_path (text_of r.out.str) disk (f.open_out out_path disk)
        else (not_compiled in_path r.out.str r.out.stack, disk)

    module _ (b : Build) (c : Compiler) where
      -- After the source is read; the answers are those of malloc from then on.
      unfoldable pub compile_code :
          List Bool → Bytes → Bytes → Options → f.Disk → Option Bytes → Outcome × f.Disk
      compile_code allocs in_path out_path o disk none = (could_not_read in_path, disk)
      compile_code allocs in_path out_path o disk (some code) =
          finish in_path out_path disk (compile d b c allocs code in_path o.word_size o.flags)

      unfoldable pub compile_file :
          List Bool → Bytes → Bytes → Options → f.Disk → Option SourceFile → Outcome × f.Disk
      compile_file allocs in_path out_path o disk none = (no_file in_path, disk)
      compile_file allocs in_path out_path o disk (some source) =
          compile_code (later_answers allocs) in_path out_path o disk
            (read_source (next_answer allocs) source)

      unfoldable pub with_paths :
          List Bool → Options → f.Disk → Option Bytes → Option Bytes → Outcome × f.Disk
      with_paths allocs o disk none in_path = (usage, disk)
      with_paths allocs o disk (some out_path) none = (usage, disk)
      with_paths allocs o disk (some out_path) (some in_path) =
          compile_file allocs in_path out_path o disk (f.open_source in_path disk)

      unfoldable pub with_options : List Bool → f.Disk → Option Options → Outcome × f.Disk
      with_options allocs disk none = (usage, disk)
      with_options allocs disk (some o) = with_paths allocs o disk o.out_path o.in_path

      -- main, with the arguments after the program's name.
      abbrev pub no_options : Options
      no_options = record { out_path = none; in_path = none; word_size = b.word_size; flags = 0 }

      unfoldable pub main : List Bool → List Bytes → f.Disk → Outcome × f.Disk
      main allocs args disk = with_options allocs disk (parse_args args no_options)
