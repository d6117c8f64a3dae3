-- ===== src/Engine/Convert/Tests.antt =====
-- The conversions over the small JavaScript engine.
use mquickjs_kmp.Prelude.{sym, refl, ap, Bool, ℕ, arith, ◌≡◌, ◌+◌, true, false, some, List, codes}
use mquickjs_kmp.Engine.Actions.{tagged, to_str}
use mquickjs_kmp.Engine.Convert.Trip.{
  DoublesLaws, IsNumber, PlainLaws, value_to_out-value_from_host,
}
use mquickjs_kmp.Engine.Convert.{value_to_out, value_from_host, from_host, number_from_host}
use mquickjs_kmp.Engine.{Tag, number, Value, Engine, pure}
use mquickjs_kmp.Slots.Tests.{set_of_roots}
use mquickjs_kmp.Engine.Tests.{whole, small, fresh}
use mquickjs_kmp.Engine.Convert.Text.{TextLaws, IsText, string_value_to_out-value_from_host}
use mquickjs_kmp.Stdlib.Unique.{eq_text, eq_text-same}

whole_laws : DoublesLaws whole
whole_laws = record { exact = λ i x h k. ground (arith, h) }

above_ten : (n : ℕ) (e : Engine set_of_roots) → IsNumber small n (10 + n) e
unfolding pure
above_ten n e = record {
  not_undefined = ground arith;
  not_null = ground arith;
  not_bool = ground arith;
  number = ground arith;
  value = ap some (omega arith);
}

new_bool_lem :
    (b : Bool) → (small.is_bool (small.new_bool b) ≡ true) × (small.is_true (small.new_bool b) ≡ b)
new_bool_lem true = (refl, refl)
new_bool_lem false = (refl, refl)

new_bool_apart :
    (b : Bool)
    → (small.is_undefined (small.new_bool b) ≡ false) × (small.is_null (small.new_bool b) ≡ false)
new_bool_apart true = (refl, refl)
new_bool_apart false = (refl, refl)

small_plain : PlainLaws small
unfolding pure
small_plain = record {
  undefined = refl;
  null_not_undefined = refl;
  null = refl;
  bool_not_undefined = λ b. (new_bool_apart b).0;
  bool_not_null = λ b. (new_bool_apart b).1;
  bool = λ b. (new_bool_lem b).0;
  truth = λ b. (new_bool_lem b).1;
  int32 = λ i e h. above_ten i e;
  float64 = λ x e h. above_ten x e;
}

abbrev seven : Value ℕ
seven = record (tagged whole number) { num = 7 }

value_to_out-value_from_host_example :
    (value_to_out small
      (value_from_host small seven fresh).0
      to_str
      0
      (value_from_host small seven fresh).1).0
    ≡ (true, seven)
unfolding value_from_host from_host number_from_host pure
value_to_out-value_from_host_example =
    value_to_out-value_from_host small to_str 0 whole_laws small_plain seven fresh refl refl

-- The one string of the small engine.
one_string-IsText :
    (p : List ℕ) (e : Engine set_of_roots)
    → eq_text p (codes "text") ≡ true
    → IsText small p (small.new_string_len p e).0 (small.new_string_len p e).1
unfolding pure
one_string-IsText p e h = record {
  not_undefined = refl;
  not_null = refl;
  not_bool = refl;
  not_number = refl;
  string = refl;
  text = ap some (sym (eq_text-same p (codes "text") h));
  allocs = refl;
}

abbrev one_string : TextLaws small
one_string = record {
  utf8 = λ p. eq_text p (codes "text");
  new_string = λ p e h made. one_string-IsText p e h;
}

one_string_text : one_string.utf8 (codes "text") ≡ true
one_string_text = refl

abbrev a_text : Value ℕ
a_text = record (tagged whole Tag.string) { str = some (codes "text") }

string_value_to_out-value_from_host_example :
    (value_to_out small
      (value_from_host small a_text fresh).0
      to_str
      1
      (value_from_host small a_text fresh).1).0
    ≡ (true, a_text)
unfolding value_from_host from_host pure
string_value_to_out-value_from_host_example =
    string_value_to_out-value_from_host small one_string to_str 1 a_text fresh refl one_string_text
      refl refl
