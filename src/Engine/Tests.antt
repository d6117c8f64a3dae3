-- ===== src/Engine/Tests.antt =====
-- A small JavaScript engine of numbers, runs of the shim over it, and the theorems at them.
use mquickjs_kmp.Prelude.{
  ℕ, ◌-◌, ◌==◌, leb, ◌+◌, true, false, some, List, [], ◌∷◌, codes, if◌then◌else◌,
}
use mquickjs_kmp.Buffer.{empty_buffer}
use mquickjs_kmp.Engine.Actions.{tagged}
use mquickjs_kmp.Engine.Entries.{
  Entry, evaluate, get, set, call, to_json, run, retain, release, enter_all, enter_all-Restored,
}
use mquickjs_kmp.GcRefs.{GcRefs}
use mquickjs_kmp.Slots.Preserve.{Valid}
use mquickjs_kmp.Engine.Host.{HostFn}
use mquickjs_kmp.Engine.Host.Keeps.{HostKeeps}
use mquickjs_kmp.Engine.Keeps.{done}
use mquickjs_kmp.Engine.Laws.{VmAll, VmKeeps}
use mquickjs_kmp.Engine.{Value, Tag, number, ref, Doubles, Engine, Act, Vm, pure}
use mquickjs_kmp.RunState.{idle}
use mquickjs_kmp.Slots.Tests.{set_of_roots, roots_laws, fresh_table, fresh_table-Valid}

-- Whole numbers in place of doubles.
abbrev pub whole : Doubles
whole = record {
  Num = ℕ;
  of_ℕ = λ n. n;
  is_zero = λ n. n == 0;
  to_int32 = λ n. n;
  of_int32 = λ n. n;
  eq = λ m n. m == n;
  signbit = λ n. false;
}

module _ (g : GcRefs) (of : ℕ → g.Val) (val : g.Val → ℕ) where
  -- Values are numbers: undefined is 0, null 1, an exception 2, the Booleans 3 and 4, and 9 is a
  -- string, 8 a function; from 10 on they are numbers. A script gives a function, a call does `m`.
  abbrev pub small_calling : Act g g.Val → Vm g whole
  small_calling m = record {
    null_value = of 1;
    exception_value = of 2;
    is_undefined = λ v. val v == 0;
    is_null = λ v. val v == 1;
    is_exception = λ v. val v == 2;
    is_bool = λ v. if val v == 3 then true else val v == 4;
    is_true = λ v. val v == 4;
    is_number = λ e v. leb 10 (val v);
    is_string = λ e v. val v == 9;
    is_function = λ e v. val v == 8;
    is_array = λ e v. false;
    is_error = λ e v. false;
    global_object = λ e. of 7;
    new_bool = λ b. if b then of 4 else of 3;
    to_number = λ v. pure g (some (val v - 10));
    to_c_string = λ v. pure g (some (codes "text"));
    to_string = λ v. pure g (of 9);
    get_property_str = λ v p. pure g (of 12);
    get_property_uint32 = λ v i. pure g (of (10 + i));
    set_property_str = λ v p w. pure g w;
    stack_check = λ n. pure g false;
    push_arg = λ v. pure g tt;
    call = λ n. m;
    eval = λ p n f k. pure g (of 8);
    parse = λ p n f k. pure g (of 9);
    run = λ v. pure g v;
    get_exception = pure g (of 9);
    throw_out_of_memory = pure g (of 2);
    throw_type_error = λ p. pure g (of 2);
    throw_internal_error = λ p. pure g (of 2);
    throw_error = λ p. pure g (of 2);
    new_int32 = λ n. pure g (of (10 + n));
    new_float64 = λ n. pure g (of (10 + n));
    new_string_len = λ p. pure g (of 9);
    new_c_function_params = λ v. pure g (of 8);
    get_int = λ v. val v;
    print_value_long = λ v. pure g tt;
    dump_memory = pure g tt;
    is_bytecode = λ p. true;
    relocate_bytecode = λ p. pure g (some p);
    load_bytecode = λ p. pure g (of 8);
  }

  -- What holds of `m` and of all code that does nothing.
  pub small_calling_all :
      {P : (A : Type 0) → Act g A → Type 0} {m : Act g g.Val}
      → ((A : Type 0) (a : A) → P A (pure g a))
      → P _ m
      → VmAll P (small_calling m)
  small_calling_all nothing does = record {
    to_number = λ v. nothing _ _;
    to_c_string = λ v. nothing _ _;
    to_string = λ v. nothing _ _;
    get_property_str = λ v p. nothing _ _;
    get_property_uint32 = λ v i. nothing _ _;
    set_property_str = λ v p w. nothing _ _;
    stack_check = λ n. nothing _ _;
    push_arg = λ v. nothing _ _;
    call = λ n. does;
    eval = λ p n f k. nothing _ _;
    parse = λ p n f k. nothing _ _;
    run = λ v. nothing _ _;
    get_exception = nothing _ _;
    throw_out_of_memory = nothing _ _;
    throw_type_error = λ p. nothing _ _;
    throw_internal_error = λ p. nothing _ _;
    throw_error = λ p. nothing _ _;
    new_int32 = λ n. nothing _ _;
    new_float64 = λ n. nothing _ _;
    new_string_len = λ p. nothing _ _;
    new_c_function_params = λ v. nothing _ _;
    print_value_long = λ v. nothing _ _;
    dump_memory = nothing _ _;
    relocate_bytecode = λ p. nothing _ _;
    load_bytecode = λ p. nothing _ _;
  }

  -- Its calls throw.
  abbrev pub small_over : Vm g whole
  small_over = small_calling (pure g (of 2))

  pub small_over_keeps : VmKeeps small_over
  small_over_keeps = small_calling_all (λ A a. done a) (done (of 2))

abbrev pub small : Vm set_of_roots whole
small = small_over set_of_roots (λ n. n) (λ v. v)

pub small_keeps : VmKeeps small
small_keeps = small_over_keeps set_of_roots (λ n. n) (λ v. v)

abbrev pub fresh : Engine set_of_roots
fresh = record {
  table = fresh_table;
  roots = [];
  state = idle;
  out_str = empty_buffer;
  out_stack = empty_buffer;
  log_line = empty_buffer;
  blocks = [];
}

-- A script whose result comes as a ref, then calls with that handle, with a dead one and with a
-- number, and its release.
abbrev pub session : List (Entry ℕ)
session =
    evaluate (codes "f") (codes "a.js") 1
    ∷ call 1 0 (tagged whole number ∷ tagged whole ref ∷ []) 0
    ∷ set 1 (codes "x") (tagged whole number)
    ∷ get 7 (codes "x") 0
    ∷ to_json 1
    ∷ retain 1
    ∷ release 1
    ∷ run 1 1
    ∷ []

-- A host that answers every call with undefined.
abbrev polite : HostFn set_of_roots whole
polite = some (λ id args. pure set_of_roots (0, tagged whole Tag.undefined))

polite_keeps : HostKeeps set_of_roots whole polite
polite_keeps id args = done _

-- The engine after a script whose result it holds behind handle 1.
abbrev holding : Engine set_of_roots
holding = enter_all small (evaluate (codes "f") (codes "a.js") 1 ∷ []) fresh

holding-Valid : Valid set_of_roots holding.table
holding-Valid =
    (enter_all-Restored roots_laws small small_keeps (evaluate (codes "f") (codes "a.js") 1 ∷ [])
      fresh fresh_table-Valid).table

-- Its integers are read back as they were made.
abbrev short_ints : Vm set_of_roots whole
short_ints = record small { get_int = λ v. v - 10 }

-- A callback that answers with its function id.
abbrev own_id : ℕ → List (Value ℕ) → Act set_of_roots (ℕ × Value ℕ)
own_id id args = pure set_of_roots (0, record (tagged whole Tag.number) { num = id })
