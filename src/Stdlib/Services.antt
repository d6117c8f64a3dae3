-- ===== src/Stdlib/Services.antt =====
-- The tables of Math, JSON, RegExp, Date, console and performance, of native/stdlib/kmp_stdlib.c.
use mquickjs_kmp.Prelude.{List, [], ◌∷◌}
use mquickjs_kmp.Stdlib.{
  PropDef, js_cfunc_def, js_cfunc_magic_def, js_cfunc_special_def, js_cgetset_def,
  js_prop_double_def,
}

abbrev pub js_math : List PropDef
js_math =
    js_cfunc_magic_def "min" 2 "js_math_min_max" "0"
    ∷ js_cfunc_magic_def "max" 2 "js_math_min_max" "1"
    ∷ js_cfunc_special_def "sign" 1 "f_f" "js_math_sign"
    ∷ js_cfunc_special_def "abs" 1 "f_f" "js_fabs"
    ∷ js_cfunc_special_def "floor" 1 "f_f" "js_floor"
    ∷ js_cfunc_special_def "ceil" 1 "f_f" "js_ceil"
    ∷ js_cfunc_special_def "round" 1 "f_f" "js_round_inf"
    ∷ js_cfunc_special_def "sqrt" 1 "f_f" "js_sqrt"
    ∷ js_prop_double_def "E" "2.718281828459045"
    ∷ js_prop_double_def "LN10" "2.302585092994046"
    ∷ js_prop_double_def "LN2" "0.6931471805599453"
    ∷ js_prop_double_def "LOG2E" "1.4426950408889634"
    ∷ js_prop_double_def "LOG10E" "0.4342944819032518"
    ∷ js_prop_double_def "PI" "3.141592653589793"
    ∷ js_prop_double_def "SQRT1_2" "0.7071067811865476"
    ∷ js_prop_double_def "SQRT2" "1.4142135623730951"
    ∷ js_cfunc_special_def "sin" 1 "f_f" "js_sin"
    ∷ js_cfunc_special_def "cos" 1 "f_f" "js_cos"
    ∷ js_cfunc_special_def "tan" 1 "f_f" "js_tan"
    ∷ js_cfunc_special_def "asin" 1 "f_f" "js_asin"
    ∷ js_cfunc_special_def "acos" 1 "f_f" "js_acos"
    ∷ js_cfunc_special_def "atan" 1 "f_f" "js_atan"
    ∷ js_cfunc_def "atan2" 2 "js_math_atan2"
    ∷ js_cfunc_special_def "exp" 1 "f_f" "js_exp"
    ∷ js_cfunc_special_def "log" 1 "f_f" "js_log"
    ∷ js_cfunc_def "pow" 2 "js_math_pow"
    ∷ js_cfunc_def "random" 0 "js_math_random"
    ∷ js_cfunc_def "imul" 2 "js_math_imul"
    ∷ js_cfunc_def "clz32" 1 "js_math_clz32"
    ∷ js_cfunc_special_def "fround" 1 "f_f" "js_math_fround"
    ∷ js_cfunc_special_def "trunc" 1 "f_f" "js_trunc"
    ∷ js_cfunc_special_def "log2" 1 "f_f" "js_log2"
    ∷ js_cfunc_special_def "log10" 1 "f_f" "js_log10"
    ∷ []

abbrev pub js_json : List PropDef
js_json =
    js_cfunc_def "parse" 2 "js_json_parse" ∷ js_cfunc_def "stringify" 3 "js_json_stringify" ∷ []

abbrev pub js_regexp_proto : List PropDef
js_regexp_proto =
    js_cgetset_def "lastIndex" "js_regexp_get_lastIndex" "js_regexp_set_lastIndex"
    ∷ js_cgetset_def "source" "js_regexp_get_source" "NULL"
    ∷ js_cgetset_def "flags" "js_regexp_get_flags" "NULL"
    ∷ js_cfunc_magic_def "exec" 1 "js_regexp_exec" "0"
    ∷ js_cfunc_magic_def "test" 1 "js_regexp_exec" "1"
    ∷ []

abbrev pub js_date : List PropDef
js_date = js_cfunc_def "now" 0 "js_date_now" ∷ []

abbrev pub js_date_proto : List PropDef
js_date_proto = js_cfunc_def "valueOf" 0 "js_date_valueOf" ∷ []

abbrev pub js_console : List PropDef
js_console = js_cfunc_def "log" 1 "js_print" ∷ []

abbrev pub js_performance : List PropDef
js_performance = js_cfunc_def "now" 0 "js_performance_now" ∷ []
