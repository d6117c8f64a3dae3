-- ===== src/Jni/Load.antt =====
-- JNI_OnLoad of native/jni/mquickjs_jni.c: what it caches for the natives and the callbacks.
pub mod Members
use mquickjs_kmp.Prelude.{
  ◌≡◌, refl, Bool, true, false, Bool-cases, inl, inr, ◌&&◌, Option, none, some, List, [], ◌∷◌, ◌++◌,
  if◌then◌else◌, arith, codes,
}
use mquickjs_kmp.Engine.{Bytes}

-- What the VM answers to the lookups of JNI_OnLoad: GetEnv, FindClass, NewGlobalRef, and the lookups of a
-- method or a field by its class, its name and its type. none is NULL.
pub record Lookups : Type 1 where
  pub Class : Type 0
  pub MemberId : Type 0
  pub get_env : Bool
  pub find_class : Bytes → Option Class
  pub new_global_ref : Class → Option Class
  pub static_method_id : Option Class → Bytes → Bytes → Option MemberId
  pub method_id : Option Class → Bytes → Bytes → Option MemberId
  pub field_id : Option Class → Bytes → Bytes → Option MemberId

abbrev pub found : {A : Type 0} → Option A → Bool
found none = false
found (some a) = true

module _ (l : Lookups) where
  -- The file's globals after g_vm.
  pub record Cached : Type 0 where
    pub bridge : Option l.Class
    pub on_host_call : Option l.MemberId
    pub on_log : Option l.MemberId
    pub value : Option l.Class
    pub value_ctor : Option l.MemberId
    pub f_tag : Option l.MemberId
    pub f_ref : Option l.MemberId
    pub f_num : Option l.MemberId
    pub f_str : Option l.MemberId
    pub f_stack : Option l.MemberId

  abbrev pub nothing_cached : Cached
  nothing_cached = record {
    bridge = none;
    on_host_call = none;
    on_log = none;
    value = none;
    value_ctor = none;
    f_tag = none;
    f_ref = none;
    f_num = none;
    f_str = none;
    f_stack = none;
  }

  -- BRIDGE_CLASS and VALUE_CLASS.
  abbrev pub bridge_class : Bytes
  bridge_class = codes "wang/harlon/mquickjs/NativeBridge"

  abbrev pub value_class : Bytes
  value_class = codes "wang/harlon/mquickjs/NativeValue"

  unfoldable pub cache_bridge : l.Class → Cached → Cached
  cache_bridge cls s =
      let bridge = l.new_global_ref cls in
      record s {
        bridge = bridge;
        on_host_call = l.static_method_id bridge (codes "onHostCall") (
            codes
              "(Ljava/lang/Object;I[Lwang/harlon/mquickjs/NativeValue;)Lwang/harlon/mquickjs/NativeValue;");
        on_log = l.static_method_id bridge (codes "onLog") (codes "(Ljava/lang/Object;[B)V");
      }

  unfoldable pub cache_value : l.Class → Cached → Cached
  cache_value cls s =
      let value = l.new_global_ref cls in
      record s {
        value = value;
        value_ctor = l.method_id value (codes "<init>") (codes "(IJD[B[B)V");
        f_tag = l.field_id value (codes "tag") (codes "I");
        f_ref = l.field_id value (codes "ref") (codes "J");
        f_num = l.field_id value (codes "num") (codes "D");
        f_str = l.field_id value (codes "str") (codes "[B");
        f_stack = l.field_id value (codes "stack") (codes "[B");
      }

  -- The test at the end.
  unfoldable pub all_cached : Cached → Bool
  all_cached s =
      found s.on_host_call
      && (found s.on_log
          && (found s.value_ctor
              && (found s.f_tag
                  && (found s.f_ref && (found s.f_num && (found s.f_str && found s.f_stack))))))

  -- JNI_OnLoad: whether it returns JNI_VERSION_1_6, JNI_ERR otherwise, and the globals.
  unfoldable pub cache_members : Option l.Class → Cached → Bool × Cached
  cache_members none s = (false, s)
  cache_members (some cls) s = (all_cached (cache_value cls s), cache_value cls s)

  unfoldable pub cache_classes : Option l.Class → Cached → Bool × Cached
  cache_classes none s = (false, s)
  cache_classes (some cls) s = cache_members (l.find_class value_class) (cache_bridge cls s)

  unfoldable pub on_load : Cached → Bool × Cached
  on_load s = if l.get_env then cache_classes (l.find_class bridge_class) s else (false, s)
