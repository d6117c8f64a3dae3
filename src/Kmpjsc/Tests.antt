-- ===== src/Kmpjsc/Tests.antt =====
-- Runs of kmpjsc over a disk that holds one output file.
use mquickjs_kmp.Prelude.{
  ◌≡◌, ◌↔◌, refl, Bool, true, none, some, List, [], ◌∷◌, codes, arith, if◌then◌else◌,
}
use mquickjs_kmp.Bytecode.Compile.{
  compile, compile_in_context, parsed, parse_source, prepare, write_file,
}
use mquickjs_kmp.Bytecode.Tests.{this_build, echo}
use mquickjs_kmp.Engine.Tests.{whole}
use mquickjs_kmp.Engine.{Bytes}
use mquickjs_kmp.Kmpjsc.Arguments.{Understood, parse_args-Understood}
use mquickjs_kmp.Kmpjsc.Runs.{main-unchanged, Output, main-Output}
use mquickjs_kmp.Kmpjsc.{
  same_text, has_dash, branch, parse_args, Files, exit_code, read_source, write_out, finish,
  compile_code, compile_file, with_paths, with_options, no_options, main,
}

-- Every file that is read has two bytes; the disk is what was written last, with its path.
abbrev two_files : Files
two_files = record {
  Disk = Bytes × Bytes;
  open_source = λ path disk.
      if same_text path (codes "a.js")
      then some (record { tell = some 2; bytes = 7 ∷ 8 ∷ [] })
      else none;
  open_out = λ path disk. some (path, []);
  fwrite = λ path text disk. (path, text);
}

abbrev old_disk : Bytes × Bytes
old_disk = (codes "a.bin", 1 ∷ [])

abbrev six_answers : List Bool
six_answers = true ∷ true ∷ true ∷ true ∷ true ∷ true ∷ []

abbrev arguments : List Bytes
arguments = codes "a.js" ∷ codes "--no-column" ∷ codes "-o" ∷ codes "-a.bin" ∷ []

parse_args-Understood_example :
    (parse_args arguments (no_options two_files whole this_build echo)
      ≡ some (record {
        out_path = some (codes "-a.bin");
        in_path = some (codes "a.js");
        word_size = 64;
        flags = 1;
      }))
    ↔ Understood arguments (no_options two_files whole this_build echo) (record {
      out_path = some (codes "-a.bin");
      in_path = some (codes "a.js");
      word_size = 64;
      flags = 1;
    })
parse_args-Understood_example =
    parse_args-Understood arguments (no_options two_files whole this_build echo) (record {
      out_path = some (codes "-a.bin");
      in_path = some (codes "a.js");
      word_size = 64;
      flags = 1;
    })

runs : exit_code (main two_files whole this_build echo six_answers arguments old_disk).0 ≡ some 0
unfolding main with_options with_paths compile_file compile_code finish write_out read_source
    parse_args branch same_text has_dash compile compile_in_context parsed parse_source prepare
    write_file
runs = refl

main-Output_example :
    Output two_files whole this_build echo this_build
      (λ body. true)
      six_answers
      arguments
      old_disk
      (main two_files whole this_build echo six_answers arguments old_disk).1
main-Output_example =
    main-Output two_files whole this_build echo this_build (omega arith) (omega arith)
      (λ body. true) six_answers arguments old_disk runs

-- An -o at the end is refused.
abbrev no_target : List Bytes
no_target = codes "a.js" ∷ codes "-o" ∷ []

refused : exit_code (main two_files whole this_build echo six_answers no_target old_disk).0 ≡ some 2
unfolding main with_options parse_args branch same_text has_dash
refused = refl

main-unchanged_example :
    (main two_files whole this_build echo six_answers no_target old_disk).1 ≡ old_disk
main-unchanged_example =
    main-unchanged two_files whole this_build echo six_answers no_target old_disk
      (λ h. absurd (ground (arith, refused, h)))
