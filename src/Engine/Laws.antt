-- ===== src/Engine/Laws.antt =====
-- What the shim relies on in the calls of the JavaScript engine: whatever scripts and callbacks run
-- inside one, they come back with the pushed roots balanced (JS_PushGCRef and JS_PopGCRef nest), the
-- run state of an engine that nobody but kmpjs_interrupt may change from outside, and a ref table
-- that only the shim's own functions have changed.
use mquickjs_kmp.Prelude.{ℕ, none}
use mquickjs_kmp.Engine.Keeps.{Meets}
use mquickjs_kmp.Engine.{Bytes, Doubles, Act, Vm}
use mquickjs_kmp.GcRefs.{GcRefs}

-- A predicate that holds of every call.
pub record VmAll {g : GcRefs} {d : Doubles} (P : (A : Type 0) → Act g A → Type 0) (vm : Vm g d)
    : Type 0 where
  pub to_number : (v : g.Val) → P _ (vm.to_number v)
  pub to_c_string : (v : g.Val) → P _ (vm.to_c_string v)
  pub to_string : (v : g.Val) → P _ (vm.to_string v)
  pub get_property_str : (v : g.Val) (p : Bytes) → P _ (vm.get_property_str v p)
  pub get_property_uint32 : (v : g.Val) (i : ℕ) → P _ (vm.get_property_uint32 v i)
  pub set_property_str : (v : g.Val) (p : Bytes) (w : g.Val) → P _ (vm.set_property_str v p w)
  pub stack_check : (n : ℕ) → P _ (vm.stack_check n)
  pub push_arg : (v : g.Val) → P _ (vm.push_arg v)
  pub call : (n : ℕ) → P _ (vm.call n)
  pub eval : (p : Bytes) (n : ℕ) (f : Bytes) (k : ℕ) → P _ (vm.eval p n f k)
  pub parse : (p : Bytes) (n : ℕ) (f : Bytes) (k : ℕ) → P _ (vm.parse p n f k)
  pub run : (v : g.Val) → P _ (vm.run v)
  pub get_exception : P _ vm.get_exception
  pub throw_out_of_memory : P _ vm.throw_out_of_memory
  pub throw_type_error : (p : Bytes) → P _ (vm.throw_type_error p)
  pub throw_internal_error : (p : Bytes) → P _ (vm.throw_internal_error p)
  pub throw_error : (p : Bytes) → P _ (vm.throw_error p)
  pub new_int32 : (n : ℕ) → P _ (vm.new_int32 n)
  pub new_float64 : (x : d.Num) → P _ (vm.new_float64 x)
  pub new_string_len : (p : Bytes) → P _ (vm.new_string_len p)
  pub new_c_function_params : (v : g.Val) → P _ (vm.new_c_function_params v)
  pub print_value_long : (v : g.Val) → P _ (vm.print_value_long v)
  pub dump_memory : P _ vm.dump_memory
  pub relocate_bytecode : (p : Bytes) → P _ (vm.relocate_bytecode p)
  pub load_bytecode : (p : Bytes) → P _ (vm.load_bytecode p)

-- What the shim's functions rely on.
abbrev pub VmKeeps : {g : GcRefs} {d : Doubles} → Vm g d → Type 0
VmKeeps vm = VmAll (λ A m. Meets 0 none m) vm

module _ {g : GcRefs} {d : Doubles} {P Q : (A : Type 0) → Act g A → Type 0} {vm : Vm g d} where
  pub VmAll-map : ((A : Type 0) (m : Act g A) → P A m → Q A m) → VmAll P vm → VmAll Q vm
  VmAll-map imply all = record {
    to_number = λ v. imply _ _ (all.to_number v);
    to_c_string = λ v. imply _ _ (all.to_c_string v);
    to_string = λ v. imply _ _ (all.to_string v);
    get_property_str = λ v p. imply _ _ (all.get_property_str v p);
    get_property_uint32 = λ v i. imply _ _ (all.get_property_uint32 v i);
    set_property_str = λ v p w. imply _ _ (all.set_property_str v p w);
    stack_check = λ n. imply _ _ (all.stack_check n);
    push_arg = λ v. imply _ _ (all.push_arg v);
    call = λ n. imply _ _ (all.call n);
    eval = λ p n f k. imply _ _ (all.eval p n f k);
    parse = λ p n f k. imply _ _ (all.parse p n f k);
    run = λ v. imply _ _ (all.run v);
    get_exception = imply _ _ all.get_exception;
    throw_out_of_memory = imply _ _ all.throw_out_of_memory;
    throw_type_error = λ p. imply _ _ (all.throw_type_error p);
    throw_internal_error = λ p. imply _ _ (all.throw_internal_error p);
    throw_error = λ p. imply _ _ (all.throw_error p);
    new_int32 = λ n. imply _ _ (all.new_int32 n);
    new_float64 = λ x. imply _ _ (all.new_float64 x);
    new_string_len = λ p. imply _ _ (all.new_string_len p);
    new_c_function_params = λ v. imply _ _ (all.new_c_function_params v);
    print_value_long = λ v. imply _ _ (all.print_value_long v);
    dump_memory = imply _ _ all.dump_memory;
    relocate_bytecode = λ p. imply _ _ (all.relocate_bytecode p);
    load_bytecode = λ p. imply _ _ (all.load_bytecode p);
  }
