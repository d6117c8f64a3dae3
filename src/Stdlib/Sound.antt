-- ===== src/Stdlib/Sound.antt =====
-- How the entries of the tables of native/stdlib/kmp_stdlib.c agree with one another: names, C functions
-- and class numbers.
use mathlib.Core.List.{Memᴰ}
use mathlib.Core.Option.{some-injective}
use mquickjs_kmp.Prelude.{
  ℕ, ◌+◌, ◌≡◌, refl, ap, ◌↔◌, suc, zero, Bool, true, false, Bool-cases, inl, inr, Option, none,
  some, List, [], ◌∷◌, arith, codes,
}
use mquickjs_kmp.Stdlib.Classes.{class_def}
use mquickjs_kmp.Stdlib.Global.{js_global_object, js_c_function_decl}
use mquickjs_kmp.Stdlib.Unique.{eq_text, decides, decides-Decides}
use mquickjs_kmp.Stdlib.{
  Text, ClassName, PropDef, cfunc, cgetset, prop_double, prop_undefined, prop_string, prop_null,
  prop_class,
}

abbrev pub prop_name : PropDef → Text
prop_name (cfunc name length magic cproto func) = name
prop_name (cgetset name magic cproto get set) = name
prop_name (prop_double name value) = name
prop_name (prop_undefined name) = name
prop_name (prop_string name value) = name
prop_name (prop_null name) = name
prop_name (prop_class name class) = name

-- All that an entry says, its kind first.
abbrev pub fields : PropDef → List Text
fields (cfunc name length magic cproto func) =
    codes "cfunc" ∷ name ∷ (length ∷ []) ∷ magic ∷ cproto ∷ func ∷ []
fields (cgetset name magic cproto get set) =
    codes "cgetset" ∷ name ∷ magic ∷ cproto ∷ get ∷ set ∷ []
fields (prop_double name value) = codes "double" ∷ name ∷ value ∷ []
fields (prop_undefined name) = codes "undefined" ∷ name ∷ []
fields (prop_string name value) = codes "string" ∷ name ∷ value ∷ []
fields (prop_null name) = codes "null" ∷ name ∷ []
fields (prop_class name class) = codes "class" ∷ name ∷ (class_def class).name ∷ []

-- The classes and objects that a table leads to, with the parents of the classes.
abbrev with_parent : Option ClassName → List ClassName → List ClassName
with_parent none rest = rest
with_parent (some p) rest = p ∷ rest

abbrev pub classes : List PropDef → List ClassName
classes [] = []
classes (prop_class name class ∷ ps) =
    class ∷ with_parent (class_def class).parent_class (classes ps)
classes (_ ∷ ps) = classes ps

-- The tables of a list of classes.
abbrev pub class_tables : List ClassName → List (List PropDef)
class_tables [] = []
class_tables (c ∷ cs) = (class_def c).class_props ∷ (class_def c).proto_props ∷ class_tables cs

abbrev pub library_classes : List ClassName
library_classes = classes js_global_object

abbrev pub library_tables : List (List PropDef)
library_tables = js_global_object ∷ js_c_function_decl ∷ class_tables library_classes

-- A C function that the library refers to: its name and the C prototype that it is called with.
pub record CFunction : Type 0 where
  pub func : Text
  pub cproto : Text

-- "NULL" stands for no function.
abbrev function_of : Text → Text → List CFunction → List CFunction
function_of func cproto rest = elim (eq_text func (codes "NULL")) [
  | true ↦ rest
  | false ↦ record { func = func; cproto = cproto } ∷ rest
]

abbrev prop_functions : List PropDef → List CFunction → List CFunction
prop_functions [] rest = rest
prop_functions (cfunc name length magic cproto func ∷ ps) rest =
    function_of func cproto (prop_functions ps rest)
prop_functions (cgetset name magic cproto get set ∷ ps) rest =
    function_of get cproto (function_of set cproto (prop_functions ps rest))
prop_functions (_ ∷ ps) rest = prop_functions ps rest

abbrev table_functions : List (List PropDef) → List CFunction → List CFunction
table_functions [] rest = rest
table_functions (t ∷ ts) rest = prop_functions t (table_functions ts rest)

abbrev constructor_of : Option Text → Option Text → List CFunction → List CFunction
constructor_of (some func) (some cproto) rest = function_of func cproto rest
constructor_of _ _ rest = rest

abbrev constructors : List ClassName → List CFunction
constructors [] = []
constructors (c ∷ cs) = constructor_of (class_def c).func (class_def c).cproto (constructors cs)

abbrev pub library_functions : List CFunction
library_functions = table_functions library_tables (constructors library_classes)

-- The class numbers that the classes take.
abbrev numbered : Option Text → ClassName → List (Text × ClassName) → List (Text × ClassName)
numbered none c rest = rest
numbered (some id) c rest = (id, c) ∷ rest

abbrev class_numbers : List ClassName → List (Text × ClassName)
class_numbers [] = []
class_numbers (c ∷ cs) = numbered (class_def c).class_id c (class_numbers cs)

abbrev pub library_numbers : List (Text × ClassName)
library_numbers = class_numbers library_classes

abbrev all_decide : List (List PropDef) → Bool
all_decide [] = true
all_decide (t ∷ ts) = elim (decides prop_name fields t) [ true ↦ all_decide ts | false ↦ false ]

all_decide_sound :
    (ts : List (List PropDef))
    → all_decide ts ≡ true
    → (t : List PropDef) → Memᴰ t ts
    → decides prop_name fields t ≡ true
all_decide_sound [] h t m = elim m [ ]
all_decide_sound (t₀ ∷ ts) h t m = elim (Bool-cases (decides prop_name fields t₀)) [
  | inr k ↦ absurd (ground (arith, rw (k, all_decide) at h))
  | inl k ↦ elim m [
    | Memᴰ.head e ↦ rw e k
    | Memᴰ.tail n ↦ all_decide_sound ts (rw (k, all_decide) at h) t n
  ]
]

abbrev first : List Text → Text
first [] = []
first (t ∷ ts) = t

tables_checked : all_decide library_tables ≡ true
tables_checked = refl

functions_checked : decides CFunction.func (λ f. f.cproto ∷ []) library_functions ≡ true
functions_checked = refl

numbers_checked : decides (λ p. p.0) (λ p. (class_def p.1).name ∷ []) library_numbers ≡ true
numbers_checked = refl

-- In each table of the library, the global object, the extra C functions, and the own and the prototype
-- properties of every class and object that the global object leads to and of their parents, a name has
-- one meaning: two entries of one name agree in all fields.
pub names-Decides :
    (t : List PropDef)
    → Memᴰ t library_tables
    → (p q : PropDef) → Memᴰ p t
    → Memᴰ q t
    → prop_name p ≡ prop_name q
    → fields p ≡ fields q
names-Decides t m =
    decides-Decides prop_name fields t (all_decide_sound library_tables tables_checked t m)

-- Every C function that the tables refer to, as a method, a getter, a setter or a constructor, is given
-- the same C prototype everywhere.
pub functions-Decides :
    (f h : CFunction)
    → Memᴰ f library_functions
    → Memᴰ h library_functions
    → f.func ≡ h.func
    → f.cproto ≡ h.cproto
functions-Decides f h m n e = ap first (
    decides-Decides CFunction.func (λ f. f.cproto ∷ []) library_functions functions_checked f h m n
      e)

-- No two classes of different names share a class number, by which the engine finds a prototype.
pub numbers-Decides :
    (p q : Text × ClassName)
    → Memᴰ p library_numbers
    → Memᴰ q library_numbers
    → p.0 ≡ q.0
    → (class_def p.1).name ≡ (class_def q.1).name
numbers-Decides p q m n e = ap first (
    decides-Decides (λ p. p.0) (λ p. (class_def p.1).name ∷ []) library_numbers numbers_checked p q
      m n e)

-- JS_CFUNCTION_USER of native/mquickjs/mquickjs.h, and the shim's KMP_CFUNCTION_HOST.
abbrev cfunction_user : ℕ
cfunction_user = 1

abbrev pub cfunction_host : ℕ
cfunction_host = cfunction_user + 0

-- The C function that a number stands for: js_c_function_decl comes first in the generated table.
abbrev prop_function : PropDef → Option Text
prop_function (cfunc name length magic cproto func) = some func
prop_function _ = none

abbrev pub c_function : ℕ → List PropDef → Option Text
c_function n [] = none
c_function zero (p ∷ ps) = prop_function p
c_function (suc n) (p ∷ ps) = c_function n ps

-- Among the numbers of js_c_function_decl, KMP_CFUNCTION_HOST, which kmpjs_define_function makes its
-- closures with, and no other stands for js_kmp_host.
pub host_function :
    (n : ℕ) → (c_function n js_c_function_decl ≡ some (codes "js_kmp_host")) ↔ (n ≡ cfunction_host)
host_function zero =
    (λ h. absurd (ground (arith, some-injective _ _ h)), λ h. absurd (omega (arith, h)))
host_function (suc zero) = (λ h. refl, λ h. refl)
host_function (suc (suc n)) = (λ h. absurd (ground (arith, h)), λ h. absurd (omega (arith, h)))
