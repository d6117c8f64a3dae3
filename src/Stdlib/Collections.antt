-- ===== src/Stdlib/Collections.antt =====
-- The tables of arrays, typed arrays and errors, of native/stdlib/kmp_stdlib.c.
use mquickjs_kmp.Prelude.{List, [], ◌∷◌}
use mquickjs_kmp.Stdlib.{
  PropDef, js_cfunc_def, js_cfunc_magic_def, js_cgetset_def, js_cgetset_magic_def,
  js_prop_string_def,
}

abbrev pub js_array_proto : List PropDef
js_array_proto =
    js_cfunc_def "concat" 1 "js_array_concat"
    ∷ js_cgetset_def "length" "js_array_get_length" "js_array_set_length"
    ∷ js_cfunc_magic_def "push" 1 "js_array_push" "0"
    ∷ js_cfunc_def "pop" 0 "js_array_pop"
    ∷ js_cfunc_def "join" 1 "js_array_join"
    ∷ js_cfunc_def "toString" 0 "js_array_toString"
    ∷ js_cfunc_def "reverse" 0 "js_array_reverse"
    ∷ js_cfunc_def "shift" 0 "js_array_shift"
    ∷ js_cfunc_def "slice" 2 "js_array_slice"
    ∷ js_cfunc_def "splice" 2 "js_array_splice"
    ∷ js_cfunc_magic_def "unshift" 1 "js_array_push" "1"
    ∷ js_cfunc_magic_def "indexOf" 1 "js_array_indexOf" "0"
    ∷ js_cfunc_magic_def "lastIndexOf" 1 "js_array_indexOf" "1"
    ∷ js_cfunc_magic_def "every" 1 "js_array_every" "js_special_every"
    ∷ js_cfunc_magic_def "some" 1 "js_array_every" "js_special_some"
    ∷ js_cfunc_magic_def "forEach" 1 "js_array_every" "js_special_forEach"
    ∷ js_cfunc_magic_def "map" 1 "js_array_every" "js_special_map"
    ∷ js_cfunc_magic_def "filter" 1 "js_array_every" "js_special_filter"
    ∷ js_cfunc_magic_def "reduce" 1 "js_array_reduce" "js_special_reduce"
    ∷ js_cfunc_magic_def "reduceRight" 1 "js_array_reduce" "js_special_reduceRight"
    ∷ js_cfunc_magic_def "reduce" 1 "js_array_reduce" "js_special_reduce"
    ∷ js_cfunc_def "sort" 1 "js_array_sort"
    ∷ []

abbrev pub js_array : List PropDef
js_array = js_cfunc_def "isArray" 1 "js_array_isArray" ∷ []

abbrev pub js_error_proto : List PropDef
js_error_proto =
    js_cfunc_def "toString" 0 "js_error_toString"
    ∷ js_prop_string_def "name" "Error"
    ∷ js_cgetset_magic_def "message" "js_error_get_message" "NULL" "0"
    ∷ js_cgetset_magic_def "stack" "js_error_get_message" "NULL" "1"
    ∷ []

abbrev pub js_array_buffer_proto : List PropDef
js_array_buffer_proto = js_cgetset_def "byteLength" "js_array_buffer_get_byteLength" "NULL" ∷ []

abbrev pub js_typed_array_base_proto : List PropDef
js_typed_array_base_proto =
    js_cgetset_magic_def "length" "js_typed_array_get_length" "NULL" "0"
    ∷ js_cgetset_magic_def "byteLength" "js_typed_array_get_length" "NULL" "1"
    ∷ js_cgetset_magic_def "byteOffset" "js_typed_array_get_length" "NULL" "2"
    ∷ js_cgetset_magic_def "buffer" "js_typed_array_get_length" "NULL" "3"
    ∷ js_cfunc_def "join" 1 "js_array_join"
    ∷ js_cfunc_def "toString" 0 "js_array_toString"
    ∷ js_cfunc_def "subarray" 2 "js_typed_array_subarray"
    ∷ js_cfunc_def "set" 1 "js_typed_array_set"
    ∷ []
