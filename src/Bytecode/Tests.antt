-- ===== src/Bytecode/Tests.antt =====
-- Files of bytecode, and the theorems at them.
use mquickjs_kmp.Prelude.{
  ℕ, ◌==◌, Bool, false, inl, inr, List, if◌then◌else◌, ◌≡◌, ◌≢◌, ◌↔◌, refl, true, none, some, [],
  ◌∷◌, ◌++◌, codes, arith,
}
use mquickjs_kmp.Buffer.{buf_append, grow_cap}
use mquickjs_kmp.Bytecode.Compile.Files.{compile_then_check}
use mquickjs_kmp.Bytecode.Compile.{
  Compiler, Owned, compile, compile_in_context, parsed, parse_source, prepare, write_file,
  owned_message, owned_exception, report, capture, with_stack, first_line, other_lines, has_zero,
}
use mquickjs_kmp.Engine.Convert.{until_zero}
use mquickjs_kmp.Bytecode.Format.{read-header_bytes}
use mquickjs_kmp.Bytecode.Load.{
  load_bytecode, load_checked, reserve_slot, relocate_body, load_body, keep_block,
}
use mquickjs_kmp.Slots.{slot_reserve, extend_slots, ensure_room, append_slot}
use mquickjs_kmp.Engine.Actions.{tagged, alloc_answer, new_slot}
use mquickjs_kmp.Bytecode.Load.Home.{own_file_loads}
use mquickjs_kmp.Bytecode.Load.Elsewhere.{foreign_file-Refused}
use mquickjs_kmp.Bytecode.Load.Sure.{RunsNoScript, loaded_has_ref}
use mquickjs_kmp.Bytecode.{
  Build, Header, header_bytes, read_header, compiled_header, check_bytecode, check_header,
  check_body, take, starts_with, header_size, to_le, from_le,
}
use mquickjs_kmp.Engine.Errors.{Refused}
use mquickjs_kmp.Engine.Tests.{whole, small, fresh}
use mquickjs_kmp.Engine.{Tag, Bytes, pure, case_of, ◌>>=◌, ◌>>◌}
use mquickjs_kmp.Slots.Tests.{roots_laws, fresh_table-Valid}

-- A 64-bit build.
abbrev pub this_build : Build
this_build = record {
  word_size = 64;
  body_header = 2;
  commit = codes "0123456789012345678901234567890123456789";
  decimal = λ n. codes "64";
}

abbrev file_header : Header
file_header = record {
  magic = codes "MQKB";
  header_len = header_size;
  word_size = 64;
  flags = 0;
  upstream = codes "0123456789012345678901234567890123456789";
}

abbrev program : Bytes
program = 7 ∷ 8 ∷ 9 ∷ []

abbrev program_file : Bytes
program_file = header_bytes (compiled_header this_build 64) ++ program

read-header_bytes_example : read_header (header_bytes file_header ++ program) ≡ file_header
read-header_bytes_example =
    read-header_bytes file_header program refl refl (omega arith) (omega arith) (omega arith)

short_file_refused :
    check_bytecode this_build (λ body. true) program
    ≡ some (codes "not MQuickJS bytecode produced by this SDK")
unfolding check_bytecode
short_file_refused = refl

small-RunsNoScript : RunsNoScript small
unfolding pure
small-RunsNoScript = record { relocate = λ p e. refl; load = λ p e. refl }

program_loads : (load_bytecode small this_build program_file fresh).0.0 ≡ true
unfolding load_bytecode case_of check_bytecode check_header check_body header_bytes compiled_header
    to_le from_le starts_with read_header load_checked ◌>>=◌ ◌>>◌ reserve_slot slot_reserve
    extend_slots ensure_room append_slot relocate_body alloc_answer load_body keep_block new_slot
    pure
program_loads = refl

loaded_has_ref_example : (load_bytecode small this_build program_file fresh).0.1.ref ≢ 0
loaded_has_ref_example =
    loaded_has_ref roots_laws small small-RunsNoScript this_build program_file fresh
      fresh_table-Valid program_loads

-- A compiler whose programs are their sources, and whose messages have two lines.
abbrev pub echo : Compiler
echo = record {
  Program = Bytes;
  new_context = true;
  parse = λ code n filename flags.
      if n == 0 then inl (codes "SyntaxError" ∷ (10 ∷ []) ∷ codes "at 1" ∷ []) else inr code;
  out_of_memory = codes "InternalError" ∷ [];
  to_32 = λ p. none;
  relocated = λ p. (1 ∷ 2 ∷ [], p);
}

abbrev enough : List Bool
enough = true ∷ true ∷ true ∷ true ∷ true ∷ []

abbrev compiled_size : ℕ
compiled_size = 64

abbrev compiled : Owned whole
compiled = record {
  ok = true;
  out = record (tagged whole Tag.string) {
    str = some (header_bytes (compiled_header this_build 64) ++ (1 ∷ 2 ∷ 7 ∷ 8 ∷ 0 ∷ []));
  };
  allocs = true ∷ true ∷ [];
}

compiles : compile whole this_build echo enough (7 ∷ 8 ∷ []) (codes "a.js") 64 0 ≡ some compiled
unfolding compile compile_in_context parsed parse_source prepare write_file
compiles = refl

no_32_bits :
    compile whole this_build echo enough (7 ∷ 8 ∷ []) (codes "a.js") 16 0
    ≡ some (owned_message whole enough (codes "word size must be 32 or 64"))
unfolding compile
no_32_bits = refl

syntax_error :
    compile whole this_build echo enough [] (codes "a.js") 64 0
    ≡ some (record {
      ok = false;
      out = record (tagged whole Tag.exception) {
        str = some (codes "SyntaxError");
        stack = some (codes "at 1");
      };
      allocs = [];
    })
unfolding compile compile_in_context parsed parse_source owned_exception report capture buf_append
    grow_cap owned_message with_stack first_line other_lines has_zero until_zero
syntax_error = refl

compile_then_check_example :
    (body : Bytes) × (compiled.out.str
      ≡ some (header_bytes (compiled_header this_build 64) ++ body))
    × ((check_bytecode this_build (λ p. true) (header_bytes (compiled_header this_build 64) ++ body)
          ≡ none)
        ↔ ((compiled_size ≡ this_build.word_size)
            × (take 40 this_build.commit ≡ take 40 this_build.commit)
            × (check_body this_build (λ p. true) body ≡ none)))
compile_then_check_example =
    compile_then_check whole this_build echo this_build (omega arith) (omega arith) (λ p. true)
      enough (7 ∷ 8 ∷ []) (codes "a.js") 64 0 (omega arith) compiled compiles refl

-- A 64-bit build of another commit.
abbrev other_build : Build
other_build = record this_build { commit = codes "9876543210987654321098765432109876543210" }

abbrev compiled_text : Bytes
compiled_text = header_bytes (compiled_header this_build 64) ++ (1 ∷ 2 ∷ 7 ∷ 8 ∷ 0 ∷ [])

foreign_file-Refused_example :
    Refused whole fresh (load_bytecode small other_build compiled_text fresh)
foreign_file-Refused_example =
    foreign_file-Refused small this_build echo other_build (omega arith) (omega arith) enough
      (7 ∷ 8 ∷ []) (codes "a.js") 64 0 compiled compiles refl
      (inr (λ h. absurd (ground (arith, h)))) compiled_text refl fresh

is_body : check_body this_build small.is_bytecode (1 ∷ 2 ∷ 7 ∷ 8 ∷ 0 ∷ []) ≡ none
unfolding check_body
is_body = refl

own_file_loads_example :
    load_bytecode small this_build compiled_text fresh
    ≡ load_checked small (1 ∷ 2 ∷ 7 ∷ 8 ∷ 0 ∷ []) fresh
own_file_loads_example =
    own_file_loads small this_build echo (omega arith) enough (7 ∷ 8 ∷ []) (codes "a.js") 0 compiled
      compiles refl compiled_text refl (7 ∷ 8 ∷ 0 ∷ []) refl (1 ∷ 2 ∷ [], 7 ∷ 8 ∷ 0 ∷ []) refl
      is_body fresh
