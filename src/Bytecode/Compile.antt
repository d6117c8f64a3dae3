-- ===== src/Bytecode/Compile.antt =====
-- kmpjs_compile of native/shim/mquickjs_kmp.c, which works in a context of its own.

pub mod Files
use mquickjs_kmp.Prelude.{
  ℕ, zero, suc, ◌+◌, ◌*◌, ◌/◌, ◌%◌, ◌==◌, ltb, not, Bool, true, false, ◌&&◌, ◌||◌, Option, none,
  some, List, [], ◌∷◌, ◌++◌, ◌⊎◌, inl, inr, if◌then◌else◌, length, codes,
}
use mquickjs_kmp.Buffer.{Buffer, Appended, empty_buffer, buf_append, next_answer, later_answers}
use mquickjs_kmp.Bytecode.{Build, header_bytes, compiled_header}
use mquickjs_kmp.Engine.Actions.{tagged}
use mquickjs_kmp.Engine.Convert.{eval_retval, until_zero}
use mquickjs_kmp.Engine.{Bytes, Tag, Value, Doubles}

-- What kmpjs_compile calls of the JavaScript engine: whether JS_NewContext2 succeeds; JS_Parse, which
-- gives a program or the pieces of text that JS_PrintValueF writes of its exception; those of an
-- exception for lack of memory; and the bytecode of a program, a JSBytecodeHeader and its data, as
-- converted to 32 bits, if that can be, or relocated to zero.
pub record Compiler : Type 1 where
  pub Program : Type 0
  pub new_context : Bool
  pub parse : Bytes → ℕ → Bytes → ℕ → List Bytes ⊎ Program
  pub out_of_memory : List Bytes
  pub to_32 : Program → Option (Bytes × Bytes)
  pub relocated : Program → Bytes × Bytes

-- A result with *out, whose texts belong to the caller, and the answers left of the allocator.
pub record Owned (d : Doubles) : Type 0 where
  pub ok : Bool
  pub out : Value d.Num
  pub allocs : List Bool

abbrev pub strip_columns : ℕ → Bool
strip_columns flags = flags % 2 == 1

-- JS_EVAL_RETVAL, and JS_EVAL_STRIP_COL if asked for.
abbrev pub parse_flags : ℕ → ℕ
parse_flags flags = eval_retval + (if strip_columns flags then 4 else 0)

-- strchr(text, '\n') from the start of a line: what stands before, and what stands behind.
unfoldable pub first_line : Bytes → Bytes
first_line [] = []
first_line (b ∷ bs) = if b == 10 then [] else b ∷ first_line bs

unfoldable pub other_lines : Bytes → Bytes
other_lines [] = []
other_lines (b ∷ bs) = if b == 10 then bs else other_lines bs

unfoldable pub has_zero : Bytes → Bool
has_zero [] = false
has_zero (b ∷ bs) = (b == 0) || has_zero bs

-- The appends of capture_write_func, whose results are not looked at.
unfoldable pub capture : List Bool → Buffer → List Bytes → List Bool × Buffer
capture allocs text [] = (allocs, text)
capture allocs text (p ∷ ps) = let r = buf_append allocs text p in capture r.allocs r.buffer ps

module _ (d : Doubles) where
  -- owned_message, with a copy of the text if there is memory.
  unfoldable pub owned_message : List Bool → Bytes → Owned d
  owned_message allocs msg = record {
    ok = false;
    out = record (tagged d Tag.exception) { str = if next_answer allocs then some msg else none };
    allocs = later_answers allocs;
  }

  -- The stack of owned_exception, if there is a second line.
  unfoldable pub with_stack : Owned d → Bytes → Owned d
  with_stack r [] = r
  with_stack r (b ∷ bs) = record {
    ok = r.ok;
    out = record (r.out) { stack = if next_answer r.allocs then some (b ∷ bs) else none };
    allocs = later_answers r.allocs;
  }

  -- The end of owned_exception, after the last append. Without a zero byte in the text, which is so
  -- when there was no memory for it, the C code reads through NULL or behind the text; that is none.
  unfoldable pub report : Appended → Option (Owned d)
  report r =
      let text = until_zero r.buffer.bytes in
      if has_zero r.buffer.bytes
      then some (with_stack (owned_message r.allocs (first_line text)) (other_lines text))
      else none

  -- owned_exception.
  unfoldable pub owned_exception : List Bool → List Bytes → Option (Owned d)
  owned_exception allocs pieces =
      let captured = capture allocs empty_buffer pieces in
      report (buf_append captured.0 captured.1 (0 ∷ []))

  module _ (b : Build) (c : Compiler) where
    -- From the file header on.
    unfoldable pub write_file : List Bool → ℕ → Bytes × Bytes → Owned d
    write_file allocs word_size (header, body) =
        if next_answer allocs
        then record {
          ok = true;
          out = record (tagged d Tag.string) {
            str = some (header_bytes (compiled_header b word_size) ++ (header ++ body));
          };
          allocs = later_answers allocs;
        }
        else owned_message (later_answers allocs) (codes "out of memory")

    -- A 64-bit build converts for a 32-bit engine; any other case relocates.
    unfoldable pub prepare : List Bool → ℕ → c.Program → Owned d
    prepare allocs word_size program =
        if (b.word_size == 64) && (word_size == 32)
        then elim (c.to_32 program) [
          | none ↦ owned_message allocs (codes "could not convert the bytecode to 32 bits")
          | some body ↦ write_file allocs word_size body
        ]
        else write_file allocs word_size (c.relocated program)

    -- From parse_terminated on, in the new context.
    unfoldable pub parsed : List Bool → ℕ → List Bytes ⊎ c.Program → Option (Owned d)
    parsed allocs word_size (inl pieces) = owned_exception allocs pieces
    parsed allocs word_size (inr program) = some (prepare allocs word_size program)

    unfoldable pub parse_source : List Bool → Bytes → Bytes → ℕ → List Bytes ⊎ c.Program
    parse_source allocs code filename flags =
        if next_answer allocs
        then c.parse (code ++ (0 ∷ [])) (length code) filename (parse_flags flags)
        else inl c.out_of_memory

    unfoldable pub compile_in_context : List Bool → Bytes → Bytes → ℕ → ℕ → Option (Owned d)
    compile_in_context allocs code filename word_size flags =
        if next_answer allocs
        then (if c.new_context
            then parsed (later_answers (later_answers allocs)) word_size
                (parse_source (later_answers allocs) code filename flags)
            else some
                (owned_message (later_answers allocs) (codes "could not create compile context")))
        else some (owned_message (later_answers allocs) (codes "out of memory"))

    -- kmpjs_compile.
    unfoldable pub compile : List Bool → Bytes → Bytes → ℕ → ℕ → Option (Owned d)
    compile allocs code filename word_size flags =
        if not (word_size == 32) && not (word_size == 64)
        then some (owned_message allocs (codes "word size must be 32 or 64"))
        else if ltb b.word_size word_size
        then some (owned_message allocs (codes "a 32-bit engine cannot produce 64-bit bytecode"))
        else compile_in_context allocs code filename word_size flags
