-- ===== src/Engine.antt =====
-- kmpjs_engine and the shim's actions on it, of native/shim/mquickjs_kmp.c.
-- The JavaScript engine (native/mquickjs) and floating point are vendored or hardware, so they are
-- parameters: the record Vm, each of whose calls may change the whole engine, since scripts call
-- back into the shim and the collector updates every rooted value.
pub mod Actions
pub mod Books
pub mod Calls
pub mod Convert
pub mod Entries
pub mod Errors
pub mod Host
pub mod Keeps
pub mod Laws
pub mod Refs
pub mod Tests
pub mod Texts
use mquickjs_kmp.Prelude.{ℕ, Bool, true, false, Option, none, some, List, [], ◌∷◌, if◌then◌else◌}
use mquickjs_kmp.Buffer.{Buffer, Appended, buf_append, buf_reset, publish}
use mquickjs_kmp.GcRefs.{GcRefs}
use mquickjs_kmp.RunState.{RunState, run_begin, run_end}
use mquickjs_kmp.Slots.{Slot, Table, slot_get, slot_new}

abbrev pub Bytes : Type 0
Bytes = List ℕ

-- The KMPJS_TAG_* of kmpjs_value.tag; any other number is `other`.
pub data Tag : Type 0 where
  undefined null bool number string object exception ref : Tag
  other : ℕ → Tag

-- kmpjs_value, over the doubles. Texts are the bytes that the pointers lead to when they are
-- published; none is NULL. `ref` is the bit pattern of the int64_t.
pub record Value (Num : Type 0) : Type 0 where
  pub tag : Tag
  pub ref : ℕ
  pub num : Num
  pub str : Option Bytes
  pub stack : Option Bytes

-- The doubles, as far as the shim computes with them. An int32_t is its bit pattern.
pub record Doubles : Type 1 where
  pub Num : Type 0
  pub of_ℕ : ℕ → Num
  pub is_zero : Num → Bool
  pub to_int32 : Num → ℕ
  pub of_int32 : ℕ → Num
  pub eq : Num → Num → Bool
  pub signbit : Num → Bool

module _ (g : GcRefs) where
  -- kmpjs_engine. `roots` are the values of the JSGCRefs that are pushed at the moment, the last
  -- one first: JS_PushGCRef and JS_PopGCRef keep them as a stack.
  pub record Engine : Type 0 where
    pub table : Table g
    pub roots : List g.Val
    pub state : RunState
    pub out_str : Buffer
    pub out_stack : Buffer
    pub log_line : Buffer
    pub blocks : List Bytes

  -- A piece of code: its result and the engine that it leaves.
  abbrev pub Act : Type 0 → Type 0
  Act A = Engine → A × Engine

  unfoldable pub pure : {A : Type 0} → A → Act A
  pure a e = (a, e)

module _ {g : GcRefs} {A B : Type 0} where
  infixl 5 ◌>>=◌ ◌>>◌
  unfoldable pub ◌>>=◌ : Act g A → (A → Act g B) → Act g B
  ◌>>=◌ m f e = f (m e).0 (m e).1

  unfoldable pub ◌>>◌ : Act g A → Act g B → Act g B
  ◌>>◌ m n e = n (m e).1

module _ {g : GcRefs} {A B : Type 0} where
  -- A branch on a pointer or a result that may be missing, and one on what the engine says now.
  unfoldable pub case_of : Option A → Act g B → (A → Act g B) → Act g B
  case_of none m f = m
  case_of (some a) m f = f a

  unfoldable pub ask : (Engine g → A) → (A → Act g B) → Act g B
  ask q f e = f (q e) e

-- The calls of mquickjs.h that the shim makes. Those that read a value alone are functions of it,
-- those that read the heap are functions of the engine too, all others are actions.
pub record Vm (g : GcRefs) (d : Doubles) : Type 1 where
  pub null_value : g.Val
  pub exception_value : g.Val
  pub is_undefined : g.Val → Bool
  pub is_null : g.Val → Bool
  pub is_bool : g.Val → Bool
  pub is_true : g.Val → Bool
  pub is_exception : g.Val → Bool
  pub is_number : Engine g → g.Val → Bool
  pub is_string : Engine g → g.Val → Bool
  pub is_function : Engine g → g.Val → Bool
  pub is_array : Engine g → g.Val → Bool
  pub is_error : Engine g → g.Val → Bool
  pub global_object : Engine g → g.Val
  pub new_bool : Bool → g.Val
  pub to_number : g.Val → Act g (Option d.Num)
  pub to_c_string : g.Val → Act g (Option Bytes)
  pub to_string : g.Val → Act g g.Val
  pub get_property_str : g.Val → Bytes → Act g g.Val
  pub get_property_uint32 : g.Val → ℕ → Act g g.Val
  pub set_property_str : g.Val → Bytes → g.Val → Act g g.Val
  pub stack_check : ℕ → Act g Bool
  pub push_arg : g.Val → Act g (Unit {0})
  pub call : ℕ → Act g g.Val
  -- The buffer, which one zero byte ends, the length of the text in it, a file name and flags.
  pub eval : Bytes → ℕ → Bytes → ℕ → Act g g.Val
  pub parse : Bytes → ℕ → Bytes → ℕ → Act g g.Val
  pub run : g.Val → Act g g.Val
  pub get_exception : Act g g.Val
  pub throw_out_of_memory : Act g g.Val
  pub throw_type_error : Bytes → Act g g.Val
  pub throw_internal_error : Bytes → Act g g.Val
  pub throw_error : Bytes → Act g g.Val
  pub new_int32 : ℕ → Act g g.Val
  pub new_float64 : d.Num → Act g g.Val
  pub new_string_len : Bytes → Act g g.Val
  pub new_c_function_params : g.Val → Act g g.Val
  pub get_int : g.Val → ℕ
  pub print_value_long : g.Val → Act g (Unit {0})
  pub dump_memory : Act g (Unit {0})
  pub is_bytecode : Bytes → Bool
  pub relocate_bytecode : Bytes → Act g (Option Bytes)
  pub load_bytecode : Bytes → Act g g.Val
