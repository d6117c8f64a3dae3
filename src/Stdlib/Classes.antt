-- ===== src/Stdlib/Classes.antt =====
-- The classes of native/stdlib/kmp_stdlib.c.
use Prim.Native.String.{String}
use mquickjs_kmp.Prelude.{none, some, [], ◌∷◌}
use mquickjs_kmp.Stdlib.Basics.{
  js_object_proto, js_object, js_function_proto, js_number_proto, js_number, js_string_proto,
  js_string,
}
use mquickjs_kmp.Stdlib.Collections.{
  js_array_proto, js_array, js_error_proto, js_array_buffer_proto, js_typed_array_base_proto,
}
use mquickjs_kmp.Stdlib.Services.{
  js_math, js_json, js_regexp_proto, js_date, js_date_proto, js_console, js_performance,
}
use mquickjs_kmp.Stdlib.{
  ClassName, ClassDef, js_prop_string_def, js_prop_double_def, js_class_def, js_class_magic_def,
  js_object_def, js_object_class, js_function_class, js_number_class, js_boolean_class,
  js_string_class, js_array_class, js_error_class, js_eval_error_class, js_range_error_class,
  js_reference_error_class, js_syntax_error_class, js_type_error_class, js_uri_error_class,
  js_internal_error_class, js_math_obj, js_json_obj, js_array_buffer_class,
  js_typed_array_base_class, js_uint8_clamped_array_class, js_int8_array_class,
  js_uint8_array_class, js_int16_array_class, js_uint16_array_class, js_int32_array_class,
  js_uint32_array_class, js_float32_array_class, js_float64_array_class, js_regexp_class,
  js_date_class, js_console_obj, js_performance_obj,
}

-- ERROR_DEF.
abbrev error_def : String → String → ClassDef
error_def name class_id =
    js_class_magic_def name 1 "js_error_constructor" class_id []
      (js_prop_string_def "name" name ∷ []) (some js_error_class)

-- TA_DEF.
abbrev ta_def : String → String → String → ClassDef
ta_def name class_id bpe =
    js_class_magic_def name 3 "js_typed_array_constructor" class_id
      (js_prop_double_def "BYTES_PER_ELEMENT" bpe ∷ [])
      (js_prop_double_def "BYTES_PER_ELEMENT" bpe ∷ []) (some js_typed_array_base_class)

abbrev object_class : ClassDef
object_class =
    js_class_def "Object" 1 "js_object_constructor" "JS_CLASS_OBJECT" js_object js_object_proto none

abbrev function_class : ClassDef
function_class =
    js_class_def "Function" 1 "js_function_constructor" "JS_CLASS_CLOSURE" [] js_function_proto none

abbrev number_class : ClassDef
number_class =
    js_class_def "Number" 1 "js_number_constructor" "JS_CLASS_NUMBER" js_number js_number_proto none

abbrev boolean_class : ClassDef
boolean_class = js_class_def "Boolean" 1 "js_boolean_constructor" "JS_CLASS_BOOLEAN" [] [] none

abbrev string_class : ClassDef
string_class =
    js_class_def "String" 1 "js_string_constructor" "JS_CLASS_STRING" js_string js_string_proto none

abbrev array_class : ClassDef
array_class =
    js_class_def "Array" 1 "js_array_constructor" "JS_CLASS_ARRAY" js_array js_array_proto none

abbrev error_class : ClassDef
error_class =
    js_class_magic_def "Error" 1 "js_error_constructor" "JS_CLASS_ERROR" [] js_error_proto none

abbrev eval_error_class : ClassDef
eval_error_class = error_def "EvalError" "JS_CLASS_EVAL_ERROR"

abbrev range_error_class : ClassDef
range_error_class = error_def "RangeError" "JS_CLASS_RANGE_ERROR"

abbrev reference_error_class : ClassDef
reference_error_class = error_def "ReferenceError" "JS_CLASS_REFERENCE_ERROR"

abbrev syntax_error_class : ClassDef
syntax_error_class = error_def "SyntaxError" "JS_CLASS_SYNTAX_ERROR"

abbrev type_error_class : ClassDef
type_error_class = error_def "TypeError" "JS_CLASS_TYPE_ERROR"

abbrev uri_error_class : ClassDef
uri_error_class = error_def "URIError" "JS_CLASS_URI_ERROR"

abbrev internal_error_class : ClassDef
internal_error_class = error_def "InternalError" "JS_CLASS_INTERNAL_ERROR"

abbrev math_obj : ClassDef
math_obj = js_object_def "Math" js_math

abbrev json_obj : ClassDef
json_obj = js_object_def "JSON" js_json

abbrev array_buffer_class : ClassDef
array_buffer_class =
    js_class_def "ArrayBuffer" 1 "js_array_buffer_constructor" "JS_CLASS_ARRAY_BUFFER" []
      js_array_buffer_proto none

abbrev typed_array_base_class : ClassDef
typed_array_base_class =
    js_class_def "TypedArray" 0 "js_typed_array_base_constructor" "JS_CLASS_TYPED_ARRAY" []
      js_typed_array_base_proto none

abbrev uint8_clamped_array_class : ClassDef
uint8_clamped_array_class = ta_def "Uint8ClampedArray" "JS_CLASS_UINT8C_ARRAY" "1"

abbrev int8_array_class : ClassDef
int8_array_class = ta_def "Int8Array" "JS_CLASS_INT8_ARRAY" "1"

abbrev uint8_array_class : ClassDef
uint8_array_class = ta_def "Uint8Array" "JS_CLASS_UINT8_ARRAY" "1"

abbrev int16_array_class : ClassDef
int16_array_class = ta_def "Int16Array" "JS_CLASS_INT16_ARRAY" "2"

abbrev uint16_array_class : ClassDef
uint16_array_class = ta_def "Uint16Array" "JS_CLASS_UINT16_ARRAY" "2"

abbrev int32_array_class : ClassDef
int32_array_class = ta_def "Int32Array" "JS_CLASS_INT32_ARRAY" "4"

abbrev uint32_array_class : ClassDef
uint32_array_class = ta_def "Uint32Array" "JS_CLASS_UINT32_ARRAY" "4"

abbrev float32_array_class : ClassDef
float32_array_class = ta_def "Float32Array" "JS_CLASS_FLOAT32_ARRAY" "4"

abbrev float64_array_class : ClassDef
float64_array_class = ta_def "Float64Array" "JS_CLASS_FLOAT64_ARRAY" "8"

abbrev regexp_class : ClassDef
regexp_class =
    js_class_def "RegExp" 2 "js_regexp_constructor" "JS_CLASS_REGEXP" [] js_regexp_proto none

abbrev date_class : ClassDef
date_class = js_class_def "Date" 7 "js_date_constructor" "JS_CLASS_DATE" js_date js_date_proto none

abbrev console_obj : ClassDef
console_obj = js_object_def "Console" js_console

abbrev performance_obj : ClassDef
performance_obj = js_object_def "Performance" js_performance

-- The JSClassDef that a variable holds.
abbrev pub class_def : ClassName → ClassDef
class_def js_object_class = object_class
class_def js_function_class = function_class
class_def js_number_class = number_class
class_def js_boolean_class = boolean_class
class_def js_string_class = string_class
class_def js_array_class = array_class
class_def js_error_class = error_class
class_def js_eval_error_class = eval_error_class
class_def js_range_error_class = range_error_class
class_def js_reference_error_class = reference_error_class
class_def js_syntax_error_class = syntax_error_class
class_def js_type_error_class = type_error_class
class_def js_uri_error_class = uri_error_class
class_def js_internal_error_class = internal_error_class
class_def js_math_obj = math_obj
class_def js_json_obj = json_obj
class_def js_array_buffer_class = array_buffer_class
class_def js_typed_array_base_class = typed_array_base_class
class_def js_uint8_clamped_array_class = uint8_clamped_array_class
class_def js_int8_array_class = int8_array_class
class_def js_uint8_array_class = uint8_array_class
class_def js_int16_array_class = int16_array_class
class_def js_uint16_array_class = uint16_array_class
class_def js_int32_array_class = int32_array_class
class_def js_uint32_array_class = uint32_array_class
class_def js_float32_array_class = float32_array_class
class_def js_float64_array_class = float64_array_class
class_def js_regexp_class = regexp_class
class_def js_date_class = date_class
class_def js_console_obj = console_obj
class_def js_performance_obj = performance_obj
