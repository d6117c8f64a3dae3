-- ===== src/Lifecycle/Print.antt =====
-- What the appends of print leave in the log line, when they get their memory.
pub mod Line
pub mod Tests
use mathlib.Core.List.{append_assoc, append-nil}
use mquickjs_kmp.Prelude.{
  ap, ℕ, zero, suc, ◌+◌, ◌*◌, ◌-◌, ◌==◌, ltb, ◌≡◌, refl, sym, ◌∙◌, inl, inr, Bool, true, false,
  Bool-cases, some, List, [], ◌∷◌, ◌++◌, if◌then◌else◌, arith, codes, length, length-append,
}
use mquickjs_kmp.Buffer.{
  Buffer, buf_append, buf_reset, grow_cap, next_answer, later_answers, publish,
}
use mquickjs_kmp.Engine.{Bytes, Doubles, Engine, Act, Vm, ◌>>=◌, ◌>>◌, pure, case_of, ask}
use mquickjs_kmp.GcRefs.{GcRefs}
use mquickjs_kmp.Lifecycle.{append_log, reset_log, call_log, print_args, js_print}

-- The line of some texts.
abbrev pub spaced_after : List Bytes → Bytes
spaced_after [] = []
spaced_after (p ∷ ps) = codes " " ++ (p ++ spaced_after ps)

abbrev pub spaced : List Bytes → Bytes
spaced [] = []
spaced (p ∷ ps) = p ++ spaced_after ps

-- The next so many answers of the allocator are a success.
abbrev pub Grants : ℕ → List Bool → Type 0
Grants zero allocs = Unit {0}
Grants (suc n) [] = ⊥
Grants (suc n) (a ∷ allocs) = (a ≡ true) × Grants n allocs

pub Grants-fewer : (n : ℕ) (allocs : List Bool) → Grants (suc n) allocs → Grants n allocs
Grants-fewer zero allocs h = tt
Grants-fewer (suc n) [] h = absurd h
Grants-fewer (suc n) (a ∷ allocs) h = (h.0, Grants-fewer n allocs h.1)

Grants-next :
    (n : ℕ) (allocs : List Bool)
    → Grants (suc n) allocs
    → (next_answer allocs ≡ true) × Grants n (later_answers allocs)
Grants-next n [] h = absurd h
Grants-next n (a ∷ allocs) h = h

-- A buffer without memory is empty.
abbrev pub IsBacked : Buffer → Type 0
IsBacked b = b.cap ≡ 0 → b.bytes ≡ []

grow_cap-positive : (fuel c len n : ℕ) → (c == 0) ≡ false → (grow_cap fuel c len n == 0) ≡ false
unfolding grow_cap
grow_cap-positive zero c len n h = h
grow_cap-positive (suc fuel) c len n h =
    let more : (grow_cap fuel (c * 2) len n == 0) ≡ false =
      grow_cap-positive fuel (c * 2) len n (ground (arith, h)) in
    ground (arith, more, h)

pub publish-IsBacked : (b : Buffer) → IsBacked b → publish b ≡ b.bytes
unfolding publish
publish-IsBacked b h = elim (Bool-cases (b.cap == 0)) [
  | inl e ↦ rw e (sym (h (ground (arith, e))))
  | inr e ↦ rw e refl
]

no_length : (p : Bytes) → length p ≡ 0 → p ≡ []
no_length [] h = refl
no_length (x ∷ p) h = absurd (omega (arith, h))

empty_append : (b : Buffer) (p : Bytes) → IsBacked b → b.cap ≡ 0 → length p ≡ 0 → b.bytes ++ p ≡ []
empty_append b p back z l = rw (back z) (no_length p l)

first_cap : (b : Buffer) → ((if b.cap == 0 then 64 else b.cap) == 0) ≡ false
first_cap b = ground arith

-- An append that gets its memory.
pub record Granted (n : ℕ) (b : Buffer) (p : Bytes) (b' : Buffer) (allocs : List Bool)
    : Type 0 where
  pub bytes : b'.bytes ≡ b.bytes ++ p
  pub backed : IsBacked b'
  pub more : Grants n allocs

buf_append-Granted :
    (n : ℕ) (allocs : List Bool) (b : Buffer) (p : Bytes)
    → IsBacked b
    → Grants (suc n) allocs
    → let r = buf_append allocs b p in Granted n b p r.buffer r.allocs
unfolding buf_append
buf_append-Granted n allocs b p back h =
    elim (Bool-cases (ltb (b.cap - length b.bytes) (length p))) [
      | inr room ↦ rw room (record {
        bytes = refl;
        backed = λ z. empty_append b p back z (ground (arith, room, z));
        more = Grants-fewer n allocs h;
      })
      | inl need ↦
          (let (granted, later) = Grants-next n allocs h in
            rw (need, granted)
              (record {
                bytes = refl;
                backed = λ z. absurd (
                    ground
                      (arith, z, grow_cap-positive 64 _ (length b.bytes) (length p) (first_cap b)));
                more = later;
              }))
    ]

module _ {g : GcRefs} where
  -- Only the log line and the answers of the allocator are others.
  pub record Logged (n : ℕ) (p : Bytes) (e e' : Engine g) : Type 0 where
    pub line : Granted n e.log_line p e'.log_line e'.table.allocs
    pub rest :
        e'
        ≡ record e { log_line = e'.log_line; table = record (e.table) { allocs = e'.table.allocs } }

  pub append_log-Logged :
      (n : ℕ) (p : Bytes) (e : Engine g)
      → IsBacked e.log_line
      → Grants (suc n) e.table.allocs
      → Logged n p e (append_log g p e).1
  unfolding append_log
  append_log-Logged n p e back h = record {
    line = buf_append-Granted n e.table.allocs e.log_line p back h;
    rest = refl;
  }

  pub Logged-trans :
      {n m : ℕ} {p q : Bytes} {e e₁ e₂ : Engine g}
      → Logged n p e e₁
      → Logged m q e₁ e₂
      → Logged m (p ++ q) e e₂
  Logged-trans {p = p} {q} {e} {e₂ = e₂} h k = record {
    line = record {
      bytes = k.line.bytes ∙ rw h.line.bytes (append_assoc e.log_line.bytes p q);
      backed = k.line.backed;
      more = k.line.more;
    };
    rest =
        k.rest
        ∙ ap
            (λ (x : Engine g). record x {
              log_line = e₂.log_line;
              table = record (x.table) { allocs = e₂.table.allocs };
            })
            h.rest;
  }
