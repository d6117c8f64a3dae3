-- ===== src/Buffer.antt =====
-- kmp_buf of native/shim/mquickjs_kmp.c: a growing byte buffer. The content is data[0..len); the
-- data pointer is NULL exactly while `cap` is 0. Sizes stay below 2^31, where the casts between
-- size_t and int32_t are exact; the theorems state the bound.
pub mod Append
pub mod Ending
pub mod Tests
use mquickjs_kmp.Prelude.{
  ℕ, zero, suc, ◌-◌, ◌*◌, ◌≤◌, ◌<◌, Bool, true, false, List, [], ◌∷◌, ◌++◌, ◌==◌, ltb,
  if◌then◌else◌, length,
}

-- What the C allocator answers to the next call; no answer left is a failure.
abbrev pub next_answer : List Bool → Bool
next_answer [] = false
next_answer (a ∷ _) = a

abbrev pub later_answers : List Bool → List Bool
later_answers [] = []
later_answers (_ ∷ rest) = rest

pub record Buffer : Type 0 where
  pub bytes : List ℕ
  pub cap : ℕ

abbrev pub empty_buffer : Buffer
empty_buffer = record { bytes = []; cap = 0 }

-- buf_reset.
unfoldable pub buf_reset : Buffer → Buffer
buf_reset b = record b { bytes = [] }

-- `while (cap - b->len < n) cap *= 2;` with as many rounds as a size_t has bits.
unfoldable pub grow_cap : ℕ → ℕ → ℕ → ℕ → ℕ
grow_cap zero cap len n = cap
grow_cap (suc fuel) cap len n =
    let rest = grow_cap fuel (cap * 2) len n in if ltb (cap - len) n then rest else cap

-- The loop itself, without a bound: `Loop len n cap rounds out` says that from the capacity `cap` it
-- leaves the capacity `out` after so many rounds.
pub data Loop (len n : ℕ) : ℕ → ℕ → ℕ → Type 0 where
  leave : (cap : ℕ) → n ≤ cap - len → Loop len n cap zero cap
  round :
      {cap rounds out : ℕ}
      → cap - len < n
      → Loop len n (cap * 2) rounds out
      → Loop len n cap (suc rounds) out

pub record Appended : Type 0 where
  pub ok : Bool
  pub buffer : Buffer
  pub allocs : List Bool

-- buf_append, with the answers that realloc still has to give. `ok` is the 0 of the C code.
unfoldable pub buf_append : List Bool → Buffer → List ℕ → Appended
buf_append allocs b p =
    if ltb (b.cap - length b.bytes) (length p)
    then (if next_answer allocs
        then record {
          ok = true;
          buffer = record {
            bytes = b.bytes ++ p;
            cap = grow_cap 64 (if b.cap == 0 then 64 else b.cap) (length b.bytes) (length p);
          };
          allocs = later_answers allocs;
        }
        else record { ok = false; buffer = b; allocs = later_answers allocs })
    else record { ok = true; buffer = record b { bytes = b.bytes ++ p }; allocs = allocs }

-- buf_free.
unfoldable pub buf_free : Buffer → Buffer
buf_free b = record { bytes = []; cap = 0 }

-- What publish makes visible: the empty text for a NULL pointer, the content otherwise.
unfoldable pub publish : Buffer → List ℕ
publish b = if b.cap == 0 then [] else b.bytes
