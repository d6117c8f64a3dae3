-- ===== src/Bytecode/Format.antt =====
-- Writing and reading the header of precompiled bytecode, and what the checks of
-- kmpjs_load_bytecode say of a header that kmpjs_compile writes.
use mquickjs_kmp.Prelude.{
  ℕ, zero, suc, ◌/◌, ◌^◌, ◌≡◌, ◌<◌, ◌≤◌, refl, ap, sym, ◌==◌, Bool, true, false, ltb, inl, inr,
  Bool-cases, ◌↔◌, Option, none, some, [], ◌∷◌, ◌++◌, arith, length, length-append, codes,
}
use mquickjs_kmp.Bytecode.{
  Build, Header, take, drop, to_le, from_le, starts_with, header_bytes, read_header, header_size,
  compiled_header, check_body, check_header, check_bytecode, first_error,
}
use mquickjs_kmp.Engine.{Bytes}

take-append : (n : ℕ) (xs ys : Bytes) → length xs ≡ n → take n (xs ++ ys) ≡ xs
take-append zero [] ys h = refl
take-append zero (x ∷ xs) ys h = absurd (omega (arith, h))
take-append (suc n) [] ys h = absurd (omega (arith, h))
take-append (suc n) (x ∷ xs) ys h = ap (λ l. x ∷ l) (take-append n xs ys (omega (arith, h)))

drop-append : (n : ℕ) (xs ys : Bytes) → length xs ≡ n → drop n (xs ++ ys) ≡ ys
drop-append zero [] ys h = refl
drop-append zero (x ∷ xs) ys h = absurd (omega (arith, h))
drop-append (suc n) [] ys h = absurd (omega (arith, h))
drop-append (suc n) (x ∷ xs) ys h = drop-append n xs ys (omega (arith, h))

from-to_le-2 : (v : ℕ) → v < 2 ^ 16 → from_le (to_le 2 v) ≡ v
unfolding from_le to_le
from-to_le-2 v h = omega arith

from-to_le-4 : (v : ℕ) → v < 2 ^ 32 → from_le (to_le 4 v) ≡ v
unfolding from_le to_le
from-to_le-4 v h = omega arith

length-to_le : (n v : ℕ) → length (to_le n v) ≡ n
unfolding to_le
length-to_le zero v = refl
length-to_le (suc n) v = ap suc (length-to_le n (v / 256))

-- Four bytes one by one, then the rest of a header.
read-four :
    (a b c d len word flags : ℕ) (upstream body : Bytes)
    → length upstream ≡ 40
    → len < 2 ^ 32
    → word < 2 ^ 16
    → flags < 2 ^ 16
    → let h : Header = record {
      magic = a ∷ b ∷ c ∷ d ∷ [];
      header_len = len;
      word_size = word;
      flags = flags;
      upstream = upstream;
    } in
      read_header (header_bytes h ++ body) ≡ h
unfolding read_header header_bytes to_le
read-four a b c d len word flags upstream body h l w f = rw (from-to_le-4 len l) (
    rw (from-to_le-2 word w) (rw (from-to_le-2 flags f) (rw (take-append 40 upstream body h) refl)))

read-magic :
    (m : Bytes) (len word flags : ℕ) (upstream body : Bytes)
    → length m ≡ 4
    → length upstream ≡ 40
    → len < 2 ^ 32
    → word < 2 ^ 16
    → flags < 2 ^ 16
    → let h : Header = record {
      magic = m;
      header_len = len;
      word_size = word;
      flags = flags;
      upstream = upstream;
    } in
      read_header (header_bytes h ++ body) ≡ h
read-magic [] len word flags upstream body four = absurd (omega (arith, four))
read-magic (_ ∷ []) len word flags upstream body four = absurd (omega (arith, four))
read-magic (_ ∷ _ ∷ []) len word flags upstream body four = absurd (omega (arith, four))
read-magic (_ ∷ _ ∷ _ ∷ []) len word flags upstream body four = absurd (omega (arith, four))
read-magic (a ∷ b ∷ c ∷ d ∷ []) len word flags upstream body four =
    read-four a b c d len word flags upstream body
read-magic (_ ∷ _ ∷ _ ∷ _ ∷ _ ∷ _) len word flags upstream body four = absurd (omega (arith, four))

-- A header whose fields fit their C types is read back from its bytes, whatever follows them.
pub read-header_bytes :
    (h : Header) (body : Bytes)
    → length h.magic ≡ 4
    → length h.upstream ≡ 40
    → h.header_len < 2 ^ 32
    → h.word_size < 2 ^ 16
    → h.flags < 2 ^ 16
    → read_header (header_bytes h ++ body) ≡ h
read-header_bytes h body = read-magic h.magic h.header_len h.word_size h.flags h.upstream body

length-take : (n : ℕ) (bs : Bytes) → n ≤ length bs → length (take n bs) ≡ n
length-take zero bs h = refl
length-take (suc n) [] h = absurd (omega (arith, h))
length-take (suc n) (b ∷ bs) h = ap suc (length-take n bs (omega (arith, h)))

module _ (a : Build) (w : ℕ) (long : 40 ≤ length a.commit) where
  length-compiled : length (header_bytes (compiled_header a w)) ≡ header_size
  unfolding header_bytes compiled_header to_le
  length-compiled = omega (arith, length-take 40 a.commit long)

  -- What stands behind the header of a compiled file.
  pub drop-compiled :
      (body : Bytes) → drop header_size (header_bytes (compiled_header a w) ++ body) ≡ body
  drop-compiled body =
      drop-append header_size (header_bytes (compiled_header a w)) body length-compiled

  starts_with-compiled :
      (body : Bytes)
      → starts_with (codes "MQKB") (header_bytes (compiled_header a w) ++ body) ≡ true
  unfolding header_bytes compiled_header starts_with
  starts_with-compiled body = refl

  read-compiled :
      (body : Bytes)
      → w < 2 ^ 16
      → read_header (header_bytes (compiled_header a w) ++ body) ≡ compiled_header a w
  unfolding compiled_header
  read-compiled body h =
      read-header_bytes (compiled_header a w) body refl (length-take 40 a.commit long) (omega arith)
        h (omega arith)

  check_bytecode-compiled :
      (b : Build) (is_bytecode : Bytes → Bool) (body : Bytes)
      → w < 2 ^ 16
      → check_bytecode b is_bytecode (header_bytes (compiled_header a w) ++ body)
        ≡ first_error (check_header b (compiled_header a w)) (check_body b is_bytecode body)
  unfolding check_bytecode
  check_bytecode-compiled b is_bytecode body h =
      let size : ltb (length (header_bytes (compiled_header a w) ++ body)) header_size ≡ false =
        ground (arith, length-append (header_bytes (compiled_header a w)) body, length-compiled) in
      rw size
        (rw (starts_with-compiled body) (rw (read-compiled body h) (rw (drop-compiled body) refl)))

starts_with-same : (xs : Bytes) → starts_with xs xs ≡ true
unfolding starts_with
starts_with-same [] = refl
starts_with-same (x ∷ xs) = ground (arith, starts_with-same xs)

same-starts_with : (xs ys : Bytes) → length xs ≡ length ys → starts_with xs ys ≡ true → xs ≡ ys
unfolding starts_with
same-starts_with [] [] h e = refl
same-starts_with [] (y ∷ ys) h e = absurd (omega (arith, h))
same-starts_with (x ∷ xs) [] h e = absurd (omega (arith, h))
same-starts_with (x ∷ xs) (y ∷ ys) h e =
    let tail = same-starts_with xs ys (omega (arith, h)) in ground (arith, tail, e)

module _ (a b : Build) (w : ℕ) (long : 40 ≤ length a.commit) (long' : 40 ≤ length b.commit) where
  check_header-compiled :
      (w ≡ b.word_size)
      → (take 40 a.commit ≡ take 40 b.commit)
      → check_header b (compiled_header a w) ≡ none
  unfolding check_header compiled_header
  check_header-compiled e f = rw f (ground (arith, e, starts_with-same (take 40 b.commit)))

  same_build :
      check_header b (compiled_header a w) ≡ none
      → (w ≡ b.word_size) × (take 40 a.commit ≡ take 40 b.commit)
  unfolding check_header compiled_header
  same_build h = elim (Bool-cases (w == b.word_size)) [
    | inr e ↦ absurd (ground (arith, h, e))
    | inl e ↦ elim (Bool-cases (starts_with (take 40 b.commit) (take 40 a.commit))) [
      | inr f ↦ absurd (ground (arith, h, e, f))
      | inl f ↦ (
        ground (arith, e),
        sym (
            same-starts_with (take 40 b.commit) (take 40 a.commit)
              (omega (arith, length-take 40 a.commit long, length-take 40 b.commit long')) f),
      )
    ]
  ]

  first_error-none : (x y : Option Bytes) → first_error x y ≡ none → (x ≡ none) × (y ≡ none)
  first_error-none none y h = (refl, h)
  first_error-none (some msg) y h = absurd (ground (arith, h))

  -- kmpjs_load_bytecode of a build accepts a file that kmpjs_compile of a build wrote, both with a
  -- commit of 40 bytes, exactly when the word sizes agree, the commits agree, and the body is
  -- accepted.
  pub accepts_compiled :
      (is_bytecode : Bytes → Bool) (body : Bytes)
      → w < 2 ^ 16
      → (check_bytecode b is_bytecode (header_bytes (compiled_header a w) ++ body) ≡ none) ↔ (
          (w ≡ b.word_size)
          × (take 40 a.commit ≡ take 40 b.commit)
          × (check_body b is_bytecode body ≡ none))
  accepts_compiled is_bytecode body h = rw (check_bytecode-compiled a w long b is_bytecode body h) (
    λ none.
        let (header, ok) = first_error-none _ _ none in
        let (word, commit) = same_build header in (word, commit, ok),
    λ (word, commit, ok). rw (check_header-compiled word commit) ok,
  )
