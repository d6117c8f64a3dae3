-- ===== src/Buffer/Tests.antt =====
-- Runs of the byte buffer, and its theorem at a concrete append.
use mquickjs_kmp.Prelude.{ℕ, ◌≤◌, ◌≡◌, refl, true, [], ◌∷◌, arith}
use mquickjs_kmp.Buffer.{Loop, empty_buffer, grow_cap, buf_append, publish}
use mquickjs_kmp.Buffer.Ending.{grow_cap-Loop}
use mquickjs_kmp.Buffer.Append.{Outcome, buf_append-Outcome}

grows_to_64 : (buf_append (true ∷ []) empty_buffer (1 ∷ 2 ∷ [])).buffer.cap ≡ 64
unfolding buf_append grow_cap
grows_to_64 = refl

failed_append_publishes_nothing : publish (buf_append [] empty_buffer (1 ∷ [])).buffer ≡ []
unfolding buf_append publish
failed_append_publishes_nothing = refl

buf_append-Outcome_example :
    Outcome (true ∷ []) empty_buffer (1 ∷ 2 ∷ []) (buf_append (true ∷ []) empty_buffer (1 ∷ 2 ∷ []))
buf_append-Outcome_example =
    buf_append-Outcome (true ∷ []) empty_buffer (1 ∷ 2 ∷ []) (omega arith) (omega arith)

grow_cap-Loop_example :
    ((rounds : ℕ) × (rounds ≤ 24) × Loop 60 1000 64 rounds (grow_cap 64 64 60 1000))
    × ((rounds out : ℕ) → Loop 60 1000 64 rounds out → out ≡ grow_cap 64 64 60 1000)
grow_cap-Loop_example = grow_cap-Loop 64 60 1000 (omega arith) (omega arith) (omega arith)
