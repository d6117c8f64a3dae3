-- ===== src/Jni/Tests/Life.antt =====
-- Lives of engines over a Java VM, and what JNI_OnLoad caches.
use mathlib.Core.Option.{some-injective}
use mquickjs_kmp.Prelude.{
  ℕ, ◌≡◌, inr, refl, sym, ap, inl, leb, Bool-cases, Bool, true, false, Option, none, some, List, [],
  ◌∷◌, if◌then◌else◌, arith,
}
use mquickjs_kmp.Engine.{Engine}
use mquickjs_kmp.Jni.Keeps.{Kept}
use mquickjs_kmp.Jni.Life.{
  new_global, create_result, native_create, native_create-refused, Settled, life_over_jni,
}
use mquickjs_kmp.Jni.Load.Members.{Ready, on_load-Ready}
use mquickjs_kmp.Jni.Load.{
  Lookups, nothing_cached, on_load, cache_classes, cache_members, cache_bridge, cache_value,
  all_cached,
}
use mquickjs_kmp.Jni.Natives.Entries.{perform_all}
use mquickjs_kmp.Jni.{JniState, calling, count_block, uncount_block}
use mquickjs_kmp.Lifecycle.{create, new_engine}
use mquickjs_kmp.Jni.Tests.{
  with_java, with_java_laws, quiet, quiet_laws, tiny, tiny_keeps, jvm, build_here, no_compiler,
  visit,
}

-- Contexts without roots, for at least 8192 bytes.
abbrev java_context : ℕ → Option ((ℕ → Bool) × JniState)
java_context n = if leb 8192 n then some ((λ i. false), jvm) else none

java_context-empty :
    (n : ℕ) (ctx : (ℕ → Bool) × JniState) → java_context n ≡ some ctx → (i : ℕ) → ctx.0 i ≡ false
java_context-empty n ctx h i = elim (Bool-cases (leb 8192 n)) [
  | inl e ↦ ap (λ c. c.0 i) (sym (some-injective _ _ (rw e at h)))
  | inr e ↦ absurd (ground (arith, h, e))
]

abbrev five_answers : List Bool
five_answers = true ∷ true ∷ true ∷ true ∷ true ∷ []

-- The VM after nativeCreate, and the engine.
abbrev jvm_held : JniState
jvm_held = record jvm { blocks = 2; globals = 2; answers = true ∷ true ∷ [] }

abbrev new_over_java : Engine with_java
new_over_java = new_engine with_java ((λ i. false), jvm_held) (true ∷ true ∷ [])

made_over_java :
    (native_create quiet java_context five_answers 65536 jvm).0
    ≡ some (new_over_java, record { target = true })
unfolding native_create create_result create new_global calling count_block
made_over_java = refl

life_over_jni_example :
    Settled quiet jvm
      (perform_all tiny quiet build_here no_compiler visit new_over_java)
      (record { target = true })
life_over_jni_example =
    life_over_jni with_java_laws tiny tiny_keeps quiet_laws build_here no_compiler java_context
      java_context-empty five_answers 65536 jvm new_over_java (record { target = true })
      made_over_java visit

too_small_over_java : (native_create quiet java_context five_answers 4096 jvm).0 ≡ none
unfolding native_create create_result create new_global calling count_block uncount_block
too_small_over_java = refl

native_create-refused_example : Kept jvm (native_create quiet java_context five_answers 4096 jvm).1
native_create-refused_example =
    native_create-refused quiet java_context five_answers 4096 jvm too_small_over_java

-- A VM that knows every class and member, named by their names.
abbrev knows_all : Lookups
knows_all = record {
  Class = List ℕ;
  MemberId = List ℕ;
  get_env = true;
  find_class = λ name. some name;
  new_global_ref = λ cls. some cls;
  static_method_id = λ cls name type. some name;
  method_id = λ cls name type. some name;
  field_id = λ cls name type. some name;
}

loads : (on_load knows_all (nothing_cached knows_all)).0 ≡ true
unfolding on_load cache_classes cache_members cache_bridge cache_value all_cached
loads = refl

on_load-Ready_example : Ready knows_all (on_load knows_all (nothing_cached knows_all)).1
on_load-Ready_example = on_load-Ready knows_all (nothing_cached knows_all) loads
