-- ===== src/Stdlib/Global.antt =====
-- The global object and the C functions of native/stdlib/kmp_stdlib.c.
use mquickjs_kmp.Prelude.{List, [], ◌∷◌}
use mquickjs_kmp.Stdlib.{
  PropDef, js_object_class, js_function_class, js_number_class, js_boolean_class, js_string_class,
  js_array_class, js_error_class, js_eval_error_class, js_range_error_class,
  js_reference_error_class, js_syntax_error_class, js_type_error_class, js_uri_error_class,
  js_internal_error_class, js_math_obj, js_json_obj, js_array_buffer_class,
  js_uint8_clamped_array_class, js_int8_array_class, js_uint8_array_class, js_int16_array_class,
  js_uint16_array_class, js_int32_array_class, js_uint32_array_class, js_float32_array_class,
  js_float64_array_class, js_regexp_class, js_date_class, js_console_obj, js_performance_obj,
  js_cfunc_def, js_cfunc_special_def, js_prop_class_def, js_prop_double_def, js_prop_null_def,
  js_prop_undefined_def,
}

abbrev pub js_global_object : List PropDef
js_global_object =
    js_prop_class_def "Object" js_object_class
    ∷ js_prop_class_def "Function" js_function_class
    ∷ js_prop_class_def "Number" js_number_class
    ∷ js_prop_class_def "Boolean" js_boolean_class
    ∷ js_prop_class_def "String" js_string_class
    ∷ js_prop_class_def "Array" js_array_class
    ∷ js_prop_class_def "Math" js_math_obj
    ∷ js_prop_class_def "Date" js_date_class
    ∷ js_prop_class_def "JSON" js_json_obj
    ∷ js_prop_class_def "RegExp" js_regexp_class
    ∷ js_prop_class_def "Error" js_error_class
    ∷ js_prop_class_def "EvalError" js_eval_error_class
    ∷ js_prop_class_def "RangeError" js_range_error_class
    ∷ js_prop_class_def "ReferenceError" js_reference_error_class
    ∷ js_prop_class_def "SyntaxError" js_syntax_error_class
    ∷ js_prop_class_def "TypeError" js_type_error_class
    ∷ js_prop_class_def "URIError" js_uri_error_class
    ∷ js_prop_class_def "InternalError" js_internal_error_class
    ∷ js_prop_class_def "ArrayBuffer" js_array_buffer_class
    ∷ js_prop_class_def "Uint8ClampedArray" js_uint8_clamped_array_class
    ∷ js_prop_class_def "Int8Array" js_int8_array_class
    ∷ js_prop_class_def "Uint8Array" js_uint8_array_class
    ∷ js_prop_class_def "Int16Array" js_int16_array_class
    ∷ js_prop_class_def "Uint16Array" js_uint16_array_class
    ∷ js_prop_class_def "Int32Array" js_int32_array_class
    ∷ js_prop_class_def "Uint32Array" js_uint32_array_class
    ∷ js_prop_class_def "Float32Array" js_float32_array_class
    ∷ js_prop_class_def "Float64Array" js_float64_array_class
    ∷ js_cfunc_def "parseInt" 2 "js_number_parseInt"
    ∷ js_cfunc_def "parseFloat" 1 "js_number_parseFloat"
    ∷ js_cfunc_def "eval" 1 "js_global_eval"
    ∷ js_cfunc_def "isNaN" 1 "js_global_isNaN"
    ∷ js_cfunc_def "isFinite" 1 "js_global_isFinite"
    ∷ js_prop_double_def "Infinity" "1.0 / 0.0"
    ∷ js_prop_double_def "NaN" "NAN"
    ∷ js_prop_undefined_def "undefined"
    ∷ js_prop_null_def "globalThis"
    ∷ js_prop_class_def "console" js_console_obj
    ∷ js_prop_class_def "performance" js_performance_obj
    ∷ js_cfunc_def "print" 1 "js_print"
    ∷ []

abbrev pub js_c_function_decl : List PropDef
js_c_function_decl =
    js_cfunc_special_def "bound" 0 "generic_params" "js_function_bound"
    ∷ js_cfunc_special_def "kmp_host" 0 "generic_params" "js_kmp_host"
    ∷ []
