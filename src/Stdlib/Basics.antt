-- ===== src/Stdlib/Basics.antt =====
-- The tables of Object, Function, Number and String, of native/stdlib/kmp_stdlib.c.
use mquickjs_kmp.Prelude.{List, [], ◌∷◌}
use mquickjs_kmp.Stdlib.{
  PropDef, js_cfunc_def, js_cfunc_magic_def, js_cgetset_def, js_cgetset_magic_def,
  js_prop_double_def,
}

abbrev pub js_object_proto : List PropDef
js_object_proto =
    js_cfunc_def "hasOwnProperty" 1 "js_object_hasOwnProperty"
    ∷ js_cfunc_def "toString" 0 "js_object_toString"
    ∷ []

abbrev pub js_object : List PropDef
js_object =
    js_cfunc_def "defineProperty" 3 "js_object_defineProperty"
    ∷ js_cfunc_def "getPrototypeOf" 1 "js_object_getPrototypeOf"
    ∷ js_cfunc_def "setPrototypeOf" 2 "js_object_setPrototypeOf"
    ∷ js_cfunc_def "create" 2 "js_object_create"
    ∷ js_cfunc_def "keys" 1 "js_object_keys"
    ∷ []

abbrev pub js_function_proto : List PropDef
js_function_proto =
    js_cgetset_def "prototype" "js_function_get_prototype" "js_function_set_prototype"
    ∷ js_cfunc_def "call" 1 "js_function_call"
    ∷ js_cfunc_def "apply" 2 "js_function_apply"
    ∷ js_cfunc_def "bind" 1 "js_function_bind"
    ∷ js_cfunc_def "toString" 0 "js_function_toString"
    ∷ js_cgetset_magic_def "length" "js_function_get_length_name" "NULL" "0"
    ∷ js_cgetset_magic_def "name" "js_function_get_length_name" "NULL" "1"
    ∷ []

abbrev pub js_number_proto : List PropDef
js_number_proto =
    js_cfunc_def "toExponential" 1 "js_number_toExponential"
    ∷ js_cfunc_def "toFixed" 1 "js_number_toFixed"
    ∷ js_cfunc_def "toPrecision" 1 "js_number_toPrecision"
    ∷ js_cfunc_def "toString" 1 "js_number_toString"
    ∷ []

abbrev pub js_number : List PropDef
js_number =
    js_cfunc_def "parseInt" 2 "js_number_parseInt"
    ∷ js_cfunc_def "parseFloat" 1 "js_number_parseFloat"
    ∷ js_prop_double_def "MAX_VALUE" "1.7976931348623157e+308"
    ∷ js_prop_double_def "MIN_VALUE" "5e-324"
    ∷ js_prop_double_def "NaN" "NAN"
    ∷ js_prop_double_def "NEGATIVE_INFINITY" "-INFINITY"
    ∷ js_prop_double_def "POSITIVE_INFINITY" "INFINITY"
    ∷ js_prop_double_def "EPSILON" "2.220446049250313e-16"
    ∷ js_prop_double_def "MAX_SAFE_INTEGER" "9007199254740991.0"
    ∷ js_prop_double_def "MIN_SAFE_INTEGER" "-9007199254740991.0"
    ∷ []

abbrev pub js_string_proto : List PropDef
js_string_proto =
    js_cgetset_def "length" "js_string_get_length" "js_string_set_length"
    ∷ js_cfunc_magic_def "charAt" 1 "js_string_charAt" "magic_charAt"
    ∷ js_cfunc_magic_def "charCodeAt" 1 "js_string_charAt" "magic_charCodeAt"
    ∷ js_cfunc_magic_def "codePointAt" 1 "js_string_charAt" "magic_codePointAt"
    ∷ js_cfunc_def "slice" 2 "js_string_slice"
    ∷ js_cfunc_def "substring" 2 "js_string_substring"
    ∷ js_cfunc_def "concat" 1 "js_string_concat"
    ∷ js_cfunc_magic_def "indexOf" 1 "js_string_indexOf" "0"
    ∷ js_cfunc_magic_def "lastIndexOf" 1 "js_string_indexOf" "1"
    ∷ js_cfunc_def "match" 1 "js_string_match"
    ∷ js_cfunc_magic_def "replace" 2 "js_string_replace" "0"
    ∷ js_cfunc_magic_def "replaceAll" 2 "js_string_replace" "1"
    ∷ js_cfunc_def "search" 1 "js_string_search"
    ∷ js_cfunc_def "split" 2 "js_string_split"
    ∷ js_cfunc_magic_def "toLowerCase" 0 "js_string_toLowerCase" "1"
    ∷ js_cfunc_magic_def "toUpperCase" 0 "js_string_toLowerCase" "0"
    ∷ js_cfunc_magic_def "trim" 0 "js_string_trim" "3"
    ∷ js_cfunc_magic_def "trimEnd" 0 "js_string_trim" "2"
    ∷ js_cfunc_magic_def "trimStart" 0 "js_string_trim" "1"
    ∷ js_cfunc_def "toString" 0 "js_string_toString"
    ∷ js_cfunc_def "repeat" 1 "js_string_repeat"
    ∷ []

abbrev pub js_string : List PropDef
js_string =
    js_cfunc_magic_def "fromCharCode" 1 "js_string_fromCharCode" "0"
    ∷ js_cfunc_magic_def "fromCodePoint" 1 "js_string_fromCharCode" "1"
    ∷ []
