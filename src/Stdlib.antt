-- ===== src/Stdlib.antt =====
-- The tables of the JavaScript standard library, native/stdlib/kmp_stdlib.c, which the generator of
-- native/mquickjs turns into atoms and function tables at build time.
-- JSPropDef, JSClassDef and the macros that fill them are those of native/mquickjs/mquickjs_build.h. A
-- text is its bytes, a pointer to a class is the name of the C variable, and a double is the text that
-- the source spells it with. JS_PROP_END is the end of a list.
pub mod Basics
pub mod Classes
pub mod Collections
pub mod Global
pub mod Services
pub mod Sound
pub mod Unique
use Prim.Native.String.{String}
use mquickjs_kmp.Prelude.{ℕ, Option, none, some, List, [], ◌∷◌, codes}

abbrev pub Text : Type 0
Text = List ℕ

-- The C variables of type JSClassDef.
pub data ClassName : Type 0 where
  js_object_class js_function_class js_number_class js_boolean_class : ClassName
  js_string_class js_array_class js_error_class js_eval_error_class : ClassName
  js_range_error_class js_reference_error_class js_syntax_error_class : ClassName
  js_type_error_class js_uri_error_class js_internal_error_class js_math_obj : ClassName
  js_json_obj js_array_buffer_class js_typed_array_base_class : ClassName
  js_uint8_clamped_array_class js_int8_array_class js_uint8_array_class : ClassName
  js_int16_array_class js_uint16_array_class js_int32_array_class : ClassName
  js_uint32_array_class js_float32_array_class js_float64_array_class : ClassName
  js_regexp_class js_date_class js_console_obj js_performance_obj : ClassName

-- JSPropDef, with the magic, the C prototype and the C functions of a method or of an accessor.
pub data PropDef : Type 0 where
  cfunc : (name : Text) → (length : ℕ) → (magic cproto func : Text) → PropDef
  cgetset : (name magic cproto get_func set_func : Text) → PropDef
  prop_double : (name value : Text) → PropDef
  prop_undefined : (name : Text) → PropDef
  prop_string : (name value : Text) → PropDef
  prop_null : (name : Text) → PropDef
  prop_class : (name : Text) → ClassName → PropDef

-- JSClassDef. A missing table is an empty one.
pub record ClassDef : Type 0 where
  pub name : Text
  pub length : ℕ
  pub cproto : Option Text
  pub func : Option Text
  pub class_id : Option Text
  pub class_props : List PropDef
  pub proto_props : List PropDef
  pub parent_class : Option ClassName
  pub finalizer : Option Text

-- The macros.
abbrev pub js_cfunc_def : String → ℕ → String → PropDef
js_cfunc_def name length func = cfunc (codes name) length (codes "0") (codes "generic") (codes func)

abbrev pub js_cfunc_magic_def : String → ℕ → String → String → PropDef
js_cfunc_magic_def name length func magic =
    cfunc (codes name) length (codes magic) (codes "generic_magic") (codes func)

abbrev pub js_cfunc_special_def : String → ℕ → String → String → PropDef
js_cfunc_special_def name length proto func =
    cfunc (codes name) length (codes "0") (codes proto) (codes func)

abbrev pub js_cgetset_def : String → String → String → PropDef
js_cgetset_def name get set =
    cgetset (codes name) (codes "0") (codes "generic") (codes get) (codes set)

abbrev pub js_cgetset_magic_def : String → String → String → String → PropDef
js_cgetset_magic_def name get set magic =
    cgetset (codes name) (codes magic) (codes "generic_magic") (codes get) (codes set)

abbrev pub js_prop_class_def : String → ClassName → PropDef
js_prop_class_def name class = prop_class (codes name) class

abbrev pub js_prop_double_def : String → String → PropDef
js_prop_double_def name value = prop_double (codes name) (codes value)

abbrev pub js_prop_undefined_def : String → PropDef
js_prop_undefined_def name = prop_undefined (codes name)

abbrev pub js_prop_null_def : String → PropDef
js_prop_null_def name = prop_null (codes name)

abbrev pub js_prop_string_def : String → String → PropDef
js_prop_string_def name value = prop_string (codes name) (codes value)

abbrev class_with :
    String
    → String
    → ℕ
    → String
    → String
    → List PropDef
    → List PropDef
    → Option ClassName
    → ClassDef
class_with cproto name length func class_id class_props proto_props parent = record {
  name = codes name;
  length = length;
  cproto = some (codes cproto);
  func = some (codes func);
  class_id = some (codes class_id);
  class_props = class_props;
  proto_props = proto_props;
  parent_class = parent;
  finalizer = some (codes "NULL");
}

abbrev pub js_class_def :
    String → ℕ → String → String → List PropDef → List PropDef → Option ClassName → ClassDef
js_class_def = class_with "constructor"

abbrev pub js_class_magic_def :
    String → ℕ → String → String → List PropDef → List PropDef → Option ClassName → ClassDef
js_class_magic_def = class_with "constructor_magic"

-- A plain object has its properties where a class has its own ones, and no prototype properties.
abbrev pub js_object_def : String → List PropDef → ClassDef
js_object_def name obj_props = record {
  name = codes name;
  length = 0;
  cproto = none;
  func = none;
  class_id = none;
  class_props = obj_props;
  proto_props = [];
  parent_class = none;
  finalizer = none;
}
