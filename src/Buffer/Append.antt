-- ===== src/Buffer/Append.antt =====
-- buf_append and its loop that doubles the capacity.
use mquickjs_kmp.Prelude.{
  ℕ, zero, suc, ◌+◌, ◌-◌, ◌*◌, ◌^◌, ◌≤◌, ◌<◌, ◌≡◌, refl, ◌⊎◌, inl, inr, Bool, true, false, List,
  ◌++◌, arith, ◌==◌, ltb, if◌then◌else◌, length, length-append, Bool-cases,
}
use mquickjs_kmp.Buffer.{Buffer, grow_cap, buf_append, Appended, next_answer}
use native.Mathlib.Nat.{pow-suc}

pub double_pow : (c k : ℕ) → c * 2 ^ suc k ≡ c * 2 * 2 ^ k
double_pow c k = rw pow-suc (grind arith)

-- With enough doublings left to reach the need, the loop ends at a capacity that holds it, and as
-- early as it can: at the first capacity, or below twice the need.
pub grow_cap-enough :
    (fuel c len n : ℕ)
    → len ≤ c
    → 0 < c
    → len + n ≤ c * 2 ^ fuel
    → (len + n ≤ grow_cap fuel c len n)
      × ((grow_cap fuel c len n ≡ c) ⊎ (grow_cap fuel c len n < 2 * (len + n)))
unfolding grow_cap
grow_cap-enough zero c len n fits pos h = (omega arith, inl refl)
grow_cap-enough (suc fuel) c len n fits pos h = elim (Bool-cases (ltb (c - len) n)) [
  | inl small ↦
      (let ih =
          grow_cap-enough fuel (c * 2) len n (omega arith) (omega arith)
            (omega (arith, double_pow c fuel)) in
        rw small (ground (arith, ih.0), grown (ground arith) (ih.1)))
  | inr big ↦ rw big (ground arith, inl refl)
]
  where
    grown :
        c < len + n
        → (grow_cap fuel (c * 2) len n ≡ c * 2) ⊎ (grow_cap fuel (c * 2) len n < 2 * (len + n))
        → (grow_cap fuel (c * 2) len n ≡ c) ⊎ (grow_cap fuel (c * 2) len n < 2 * (len + n))
    grown l (inl e) = inr (omega (arith, e))
    grown _ (inr l) = inr l

-- The content fits its capacity, and the capacity an int32_t.
pub record IsSized (b : Buffer) : Type 0 where
  pub fits : length b.bytes ≤ b.cap
  pub small : b.cap < 2 ^ 31

-- What an append of `p` may leave.
pub data Outcome (allocs : List Bool) (b : Buffer) (p : List ℕ) (r : Appended) : Type 0 where
  appended : r.ok ≡ true → r.buffer.bytes ≡ b.bytes ++ p → IsSized r.buffer → Outcome allocs b p r
  out_of_memory :
      r.ok ≡ false
      → r.buffer ≡ b
      → b.cap < length b.bytes + length p
      → next_answer allocs ≡ false
      → Outcome allocs b p r

grown_at :
    (c len n : ℕ)
    → len ≤ c
    → 0 < c
    → c < 2 ^ 31
    → len + n < 2 ^ 30
    → (len + n ≤ grow_cap 64 c len n) × (grow_cap 64 c len n < 2 ^ 31)
grown_at c len n fits pos small h =
    let r = grow_cap-enough 64 c len n fits pos (omega arith) in (r.0, omega (arith, r.1))

grown_size :
    (b : Buffer) (n : ℕ)
    → IsSized b
    → length b.bytes + n < 2 ^ 30
    → b.cap < length b.bytes + n
    → let c = grow_cap 64 (if b.cap == 0 then 64 else b.cap) (length b.bytes) n in
      (length b.bytes + n ≤ c) × (c < 2 ^ 31)
grown_size b n s h need = elim (Bool-cases (b.cap == 0)) [
  | inl e ↦
      rw e (grown_at 64 (length b.bytes) n (ground (arith, s.fits)) (omega arith) (omega arith) h)
  | inr e ↦ rw e (grown_at b.cap (length b.bytes) n s.fits (ground arith) s.small h)
]

-- As long as the content stays below 2^30 bytes, an append puts `p` behind the content in a
-- buffer that holds it and whose capacity is an int32_t; or realloc failed, was needed, and the
-- buffer is as it was.
pub buf_append-Outcome :
    (allocs : List Bool) (b : Buffer) (p : List ℕ)
    → IsSized b
    → length b.bytes + length p < 2 ^ 30
    → Outcome allocs b p (buf_append allocs b p)
unfolding buf_append
buf_append-Outcome allocs b p s h = elim (Bool-cases (ltb (b.cap - length b.bytes) (length p))) [
  | inr room ↦ rw room (
      appended refl refl
        (record { fits = ground (arith, length-append b.bytes p, s.fits); small = s.small }))
  | inl need ↦ rw need (elim (Bool-cases (next_answer allocs)) [
    | inl ok ↦
        (let (fits, small) = grown_size b (length p) s h (ground (arith, s.fits)) in
          rw ok (
            appended refl refl
              (record { fits = omega (arith, length-append b.bytes p, fits); small = small })))
    | inr out ↦ rw out (out_of_memory refl refl (ground (arith, s.fits)) out)
  ])
]
