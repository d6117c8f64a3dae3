-- ===== src/Jni/Tests.antt =====
-- A Java VM beside the small JavaScript engine, and the theorems on the bridge at it.
pub mod Compiled
pub mod Life
use mathlib.Core.Option.{some-injective}
use mquickjs_kmp.Prelude.{
  ℕ, ◌+◌, ◌==◌, ◌≡◌, inr, refl, sym, ◌∙◌, ap, inl, leb, Bool-cases, Bool, true, false, Option, none,
  some, List, [], ◌∷◌, codes, if◌then◌else◌, arith, get_or,
}
use mquickjs_kmp.Bytecode.Compile.{Compiler}
use mquickjs_kmp.Bytecode.{Build}
use mquickjs_kmp.Buffer.{empty_buffer}
use mquickjs_kmp.Engine.Host.{kmp_host}
use mquickjs_kmp.Engine.Keeps.{done}
use mquickjs_kmp.Engine.Laws.{VmKeeps}
use mquickjs_kmp.Engine.Tests.{whole, small_over, small_over_keeps}
use mquickjs_kmp.Engine.{Tag, Value, ◌>>=◌, Engine, Vm, pure}
use mquickjs_kmp.GcRefs.{GcRefs, GcRefsLaws}
use mquickjs_kmp.Jni.Keeps.{Kept, JavaLaws}
use mquickjs_kmp.Jni.Life.{
  new_global, create_result, native_create, native_create-refused, Settled, life_over_jni,
}
use mquickjs_kmp.Jni.Load.Members.{Ready, on_load-Ready}
use mquickjs_kmp.Jni.Load.{
  Lookups, nothing_cached, on_load, cache_classes, cache_members, cache_bridge, cache_value,
  all_cached,
}
use mquickjs_kmp.Jni.Natives.Entries.{Native, perform_all, perform_all-Bridged}
use mquickjs_kmp.Jni.Values.Host.{CallbacksKeep, Bridged, host_over_jni}
use mquickjs_kmp.Jni.Values.Trip.{AtEase, read_value-new_value}
use mquickjs_kmp.Jni.Values.{jni_host, new_value, new_bytes, read_value}
use mquickjs_kmp.Jni.{
  JniState, NativeValue, Java, calling, count_block, uncount_block, jni, run_jni, new_local,
  more_local,
}
use mquickjs_kmp.Lifecycle.{create, new_engine}
use mquickjs_kmp.RunState.{idle}
use mquickjs_kmp.Slots.Preserve.{Valid}

-- The roots as the set of linked slots, beside the Java VM.
abbrev pub with_java : GcRefs
with_java = record {
  Val = ℕ;
  Ctx = (ℕ → Bool) × JniState;
  undefined = 0;
  add_gc_ref = λ i c. ((λ j. if i == j then true else c.0 j), c.1);
  delete_gc_ref = λ i c. ((λ j. if i == j then false else c.0 j), c.1);
  linked = λ c i. c.0 i;
  Same = λ c c'. Kept c.1 c'.1;
  same_refl = λ c. record { frames = refl; blocks = refl; globals = refl };
  same_trans = λ c c₁ c₂ h k. record {
    frames = k.frames ∙ h.frames;
    blocks = k.blocks ∙ h.blocks;
    globals = k.globals ∙ h.globals;
  };
}

pub with_java_laws : GcRefsLaws with_java
with_java_laws = record {
  linked-add = λ i j c. refl;
  linked-delete = λ i j c h. refl;
  Same-add = λ i c. record { frames = refl; blocks = refl; globals = refl };
  Same-delete = λ i c h. record { frames = refl; blocks = refl; globals = refl };
}

-- Java methods that do nothing: a host call answers null, which is undefined to the shim.
abbrev pub quiet : Java with_java whole
quiet = record {
  state = λ c. c.1;
  put = λ s c. (c.0, s);
  on_host_call = λ id os. pure with_java none;
  on_log = λ bytes. pure with_java tt;
}

pub quiet_laws : JavaLaws quiet
quiet_laws = record {
  state-put = λ s c. refl;
  linked-put = λ s c i. refl;
  Same-Kept = λ c c' h. h;
  Kept-Same = λ c c' h. h;
}

pub quiet_calls : CallbacksKeep quiet
quiet_calls = record { host_call = λ id os. done _; log = λ bytes. done _ }

abbrev pub tiny : Vm with_java whole
tiny = small_over with_java (λ n. n) (λ v. v)

pub tiny_keeps : VmKeeps tiny
tiny_keeps = small_over_keeps with_java (λ n. n) (λ v. v)

-- A thread of Java in its frame, with room for two more objects.
abbrev pub jvm : JniState
jvm = record {
  frames = record { capacity = 16; used = 2 } ∷ [];
  attached = true;
  pending = false;
  misused = false;
  crowded = false;
  blocks = 1;
  globals = 1;
  answers = true ∷ true ∷ true ∷ [];
}

-- A new engine, with an allocator that has six answers left.
abbrev pub started : Engine with_java
started = record {
  table = record {
    ctx = ((λ i. false), jvm);
    slots = [];
    slot_cap = 0;
    free_head = none;
    allocs = true ∷ true ∷ true ∷ true ∷ true ∷ true ∷ [];
  };
  roots = [];
  state = idle;
  out_str = empty_buffer;
  out_stack = empty_buffer;
  log_line = empty_buffer;
  blocks = [];
}

pub started-Valid : Valid with_java started.table
unfolding get_or
started-Valid = (
  [],
  record {
    path = refl;
    distinct = tt;
    complete = λ i h. absurd (omega arith);
    gens = λ i. omega arith;
    rooted = λ i. refl;
    room = omega arith;
    few = omega arith;
  },
)

host_over_jni_example :
    Bridged quiet started (kmp_host tiny (some (jni_host quiet)) 2 (λ i e. 10 + i) 21 started).1
host_over_jni_example =
    host_over_jni with_java_laws tiny tiny_keeps quiet_laws quiet_calls 2 (λ i e. 10 + i) 21 started
      started-Valid

abbrev pub build_here : Build
build_here = record {
  word_size = 64;
  body_header = 2;
  commit = codes "0";
  decimal = λ n. codes "64";
}

-- A compiler without memory for a context.
abbrev pub no_compiler : Compiler
no_compiler = record {
  Program = Unit {0};
  new_context = false;
  parse = λ p n f k. inr tt;
  out_of_memory = [];
  to_32 = λ p. none;
  relocated = λ p. ([], []);
}

-- A NativeValue with a string.
abbrev pub a_string : NativeValue ℕ
a_string = record { tag = Tag.string; ref = 0; num = 0; str = some (codes "v"); stack = none }

abbrev pub visit : List (Native ℕ)
visit =
    Native.evaluate (codes "f") (codes "a.js") 1
    ∷ Native.set 1 (codes "x") (some a_string)
    ∷ Native.call 1 0 (some a_string ∷ none ∷ []) 0
    ∷ Native.compile (codes "f") (codes "a.js") 64 0
    ∷ Native.stats
    ∷ Native.release 1
    ∷ []

perform_all-Bridged_example :
    Bridged quiet started (perform_all tiny quiet build_here no_compiler visit started)
perform_all-Bridged_example =
    perform_all-Bridged with_java_laws tiny tiny_keeps quiet_laws build_here no_compiler visit
      started started-Valid

-- A string with an empty stack.
abbrev a_value : Value ℕ
a_value = record { tag = Tag.string; ref = 5; num = 3; str = some (codes "v"); stack = some [] }

read_value-new_value_example :
    (((new_value quiet a_value >>= read_value quiet) started).0 ≡ a_value)
    × AtEase [] ((new_value quiet a_value >>= read_value quiet) started).1.table.ctx.1
read_value-new_value_example =
    read_value-new_value quiet_laws a_value [] (true ∷ true ∷ true ∷ true ∷ []) started
      (record { answers = refl; calm = refl; proper = refl }) refl

-- A Java VM without memory: new_value goes on with the exception of its first call pending.
abbrev jvm_full : JniState
jvm_full = record jvm { answers = [] }

abbrev full : Engine with_java
full = record started { table = record (started.table) { ctx = ((λ i. false), jvm_full) } }

misused_when_full : (new_value quiet a_value full).1.table.ctx.1.misused ≡ true
unfolding new_value new_bytes jni run_jni new_local calling more_local pure ◌>>=◌
misused_when_full = refl
