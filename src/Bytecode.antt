-- ===== src/Bytecode.antt =====
-- The file header of precompiled bytecode and what kmpjs_load_bytecode checks of it, of
-- native/shim/mquickjs_kmp.c.

pub mod Compile
pub mod Format
pub mod Load
pub mod Tests
use mquickjs_kmp.Prelude.{
  ℕ, zero, suc, ◌+◌, ◌*◌, ◌-◌, ◌/◌, ◌%◌, ◌==◌, ltb, not, Bool, true, false, ◌&&◌, ◌||◌, Option,
  none, some, List, [], ◌∷◌, ◌++◌, if◌then◌else◌, length, codes,
}
use mquickjs_kmp.Engine.Convert.{until_zero}
use mquickjs_kmp.Engine.{Bytes}

-- What the build fixes: JSW * 8, sizeof(JSBytecodeHeader), and KMPJS_UPSTREAM_COMMIT, of which the
-- header holds 40 bytes. `decimal` is the "%d" of snprintf.
pub record Build : Type 0 where
  pub word_size : ℕ
  pub body_header : ℕ
  pub commit : Bytes
  pub decimal : ℕ → Bytes

-- KMPJS_BYTECODE_HEADER_SIZE.
abbrev pub header_size : ℕ
header_size = 52

-- kmpjs_bc_header.
pub record Header : Type 0 where
  pub magic : Bytes
  pub header_len : ℕ
  pub word_size : ℕ
  pub flags : ℕ
  pub upstream : Bytes

abbrev pub take : ℕ → Bytes → Bytes
take zero bs = []
take (suc n) [] = []
take (suc n) (b ∷ bs) = b ∷ take n bs

abbrev pub drop : ℕ → Bytes → Bytes
drop zero bs = bs
drop (suc n) [] = []
drop (suc n) (b ∷ bs) = drop n bs

-- An unsigned number in little endian order, in so many bytes.
unfoldable pub to_le : ℕ → ℕ → Bytes
to_le zero v = []
to_le (suc n) v = v % 256 ∷ to_le n (v / 256)

unfoldable pub from_le : Bytes → ℕ
from_le [] = 0
from_le (b ∷ bs) = b + 256 * from_le bs

-- memcmp of the first bytes, and out_has, which looks at every place that leaves enough room.
unfoldable pub starts_with : Bytes → Bytes → Bool
starts_with [] bs = true
starts_with (x ∷ xs) [] = false
starts_with (x ∷ xs) (b ∷ bs) = (x == b) && starts_with xs bs

unfoldable pub has_text : Bytes → Bytes → Bool
has_text needle [] = starts_with needle []
has_text needle (b ∷ bs) = starts_with needle (b ∷ bs) || has_text needle bs

unfoldable pub out_has : Option Bytes → Bytes → Bool
out_has none needle = false
out_has (some text) needle = has_text needle text

-- The copy of a header to and from the bytes of a file.
unfoldable pub header_bytes : Header → Bytes
header_bytes h =
    h.magic ++ to_le 4 h.header_len ++ to_le 2 h.word_size ++ to_le 2 h.flags ++ h.upstream

unfoldable pub read_header : Bytes → Header
read_header buf = record {
  magic = take 4 buf;
  header_len = from_le (take 4 (drop 4 buf));
  word_size = from_le (take 2 (drop 8 buf));
  flags = from_le (take 2 (drop 10 buf));
  upstream = take 40 (drop 12 buf);
}

-- The header that kmpjs_compile writes.
unfoldable pub compiled_header : Build → ℕ → Header
compiled_header b word_size = record {
  magic = codes "MQKB";
  header_len = header_size;
  word_size = word_size;
  flags = 0;
  upstream = take 40 b.commit;
}

-- The checks of kmpjs_load_bytecode, in their order: the message of the first that fails.
-- `is_bytecode` is JS_IsBytecode.
unfoldable pub wrong_word_size : Build → ℕ → Bytes
wrong_word_size b n =
    codes "bytecode built for a "
    ++ b.decimal n
    ++ codes "-bit engine, this engine is "
    ++ b.decimal b.word_size
    ++ codes "-bit"

unfoldable pub wrong_commit : Build → Bytes → Bytes
wrong_commit b upstream =
    codes "bytecode built for engine "
    ++ take 12 (until_zero upstream)
    ++ codes ", this SDK embeds engine "
    ++ take 12 (until_zero b.commit)

unfoldable pub check_body : Build → (Bytes → Bool) → Bytes → Option Bytes
check_body b is_bytecode body =
    if ltb (length body) b.body_header || not (is_bytecode body)
    then some (codes "bytecode body is corrupt")
    else none

unfoldable pub check_header : Build → Header → Option Bytes
check_header b h =
    if not (h.header_len == header_size)
    then some (codes "unsupported bytecode header")
    else if not (h.word_size == b.word_size)
    then some (wrong_word_size b h.word_size)
    else if not (starts_with (take 40 b.commit) h.upstream)
    then some (wrong_commit b h.upstream)
    else none

abbrev pub first_error : Option Bytes → Option Bytes → Option Bytes
first_error (some msg) later = some msg
first_error none later = later

unfoldable pub check_bytecode : Build → (Bytes → Bool) → Bytes → Option Bytes
check_bytecode b is_bytecode buf =
    if ltb (length buf) header_size || not (starts_with (codes "MQKB") buf)
    then some (codes "not MQuickJS bytecode produced by this SDK")
    else first_error (check_header b (read_header buf))
        (check_body b is_bytecode (drop header_size buf))
