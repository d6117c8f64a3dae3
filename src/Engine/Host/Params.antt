-- ===== src/Engine/Host/Params.antt =====
-- The parameters that kmpjs_define_function packs into a JavaScript function and that js_kmp_host
-- takes apart again.
use mquickjs_kmp.Prelude.{ℕ, ◌+◌, ◌^◌, ◌<◌, ◌≤◌, ◌≡◌, ◌⊎◌}
use mquickjs_kmp.Engine.{Doubles, Engine, Vm}
use mquickjs_kmp.GcRefs.{GcRefs}

-- Numbers from -2^k on and below 2^k, as the bit patterns of int32_t.
abbrev pub Within : ℕ → ℕ → Type 0
Within bound n = (n < bound) ⊎ ((2 ^ 32 ≤ n + bound) × (n < 2 ^ 32))

-- What is relied on in the engine: an int32_t from JS_SHORTINT_MIN to JS_SHORTINT_MAX becomes a short
-- integer, of 31 bits, which JS_VALUE_GET_INT reads back. Any other one becomes a float64.
abbrev pub ShortInts : {g : GcRefs} {d : Doubles} → Vm g d → Type 0
ShortInts {g} vm = (n : ℕ) (e : Engine g) → Within (2 ^ 30) n → vm.get_int (vm.new_int32 n e).0 ≡ n
