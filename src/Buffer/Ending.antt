-- ===== src/Buffer/Ending.antt =====
-- The loop of buf_append comes to its end.
use mquickjs_kmp.Prelude.{
  ℕ, zero, suc, ◌+◌, ◌-◌, ◌*◌, ◌^◌, ◌≤◌, ◌<◌, ◌≡◌, refl, inl, inr, arith, false, ltb, Bool-cases,
}
use mquickjs_kmp.Buffer.Append.{double_pow}
use mquickjs_kmp.Buffer.{Loop, leave, round, grow_cap}

-- When `k` doublings reach the need, the loop ends within `k` rounds, and with any fuel of at least
-- `k` the function gives its result.
pub Loop-ends :
    (k fuel c len n : ℕ)
    → k ≤ fuel
    → len ≤ c
    → len + n ≤ c * 2 ^ k
    → (rounds : ℕ) × (rounds ≤ k) × Loop len n c rounds (grow_cap fuel c len n)
unfolding grow_cap
Loop-ends zero zero c len n more fits h = (0, omega arith, leave c (omega (arith, h)))
Loop-ends zero (suc fuel) c len n more fits h =
    let big : ltb (c - len) n ≡ false = ground (arith, h) in
    rw big (0, omega arith, leave c (omega (arith, h)))
Loop-ends (suc k) zero c len n more fits h = absurd (omega arith)
Loop-ends (suc k) (suc fuel) c len n more fits h = elim (Bool-cases (ltb (c - len) n)) [
  | inl small ↦
      (let (rounds, few, loop) =
          Loop-ends k fuel (c * 2) len n (omega arith) (omega arith)
            (omega (arith, double_pow c k)) in
        rw small (suc rounds, omega arith, round (ground arith) loop))
  | inr big ↦ rw big (0, omega arith, leave c (ground arith))
]

Loop-once : {len n c r r' out out' : ℕ} → Loop len n c r out → Loop len n c r' out' → out ≡ out'
Loop-once (leave c h) (leave _ h') = refl
Loop-once (leave c h) (round small b) = absurd (omega (arith, h, small))
Loop-once (round small a) (leave c h) = absurd (omega (arith, h, small))
Loop-once (round small a) (round _ b) = Loop-once a b

-- From a capacity of at least 64 bytes that holds the content, and for a content that stays below
-- 2^30 bytes, the loop of buf_append ends within 24 rounds, with one capacity alone: the one that
-- grow_cap gives at the fuel that buf_append gives it.
pub grow_cap-Loop :
    (c len n : ℕ)
    → 64 ≤ c
    → len ≤ c
    → len + n < 2 ^ 30
    → ((rounds : ℕ) × (rounds ≤ 24) × Loop len n c rounds (grow_cap 64 c len n))
      × ((rounds out : ℕ) → Loop len n c rounds out → out ≡ grow_cap 64 c len n)
grow_cap-Loop c len n large fits h =
    let (rounds, few, loop) = Loop-ends 24 64 c len n (omega arith) fits (omega arith) in
    ((rounds, few, loop), λ rounds' out run. Loop-once run loop)
