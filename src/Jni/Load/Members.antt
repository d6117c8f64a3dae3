-- ===== src/Jni/Load/Members.antt =====
-- The ids that JNI_OnLoad caches, against the classes of NativeBridge.kt and NativeValue.kt.
use mquickjs_kmp.Prelude.{
  ◌≡◌, refl, Bool, true, Bool-cases, inl, inr, ◌&&◌, Option, none, some, List, [], ◌∷◌, ◌++◌, arith,
  codes,
}
use mquickjs_kmp.Engine.{Bytes}
use mquickjs_kmp.Jni.Load.{
  Lookups, Cached, found, bridge_class, value_class, cache_bridge, cache_value, all_cached,
  cache_members, cache_classes, on_load,
}

found_id :
    {A : Type 0} (o : Option A) (rest : Bool)
    → (found o && rest) ≡ true
    → ((id : A) × (o ≡ some id)) × (rest ≡ true)
found_id none rest h = absurd (ground (arith, h))
found_id (some id) rest h = ((id, refl), h)

found_one : {A : Type 0} (o : Option A) → found o ≡ true → (id : A) × (o ≡ some id)
found_one none h = absurd (ground (arith, h))
found_one (some id) h = (id, refl)

-- The types of Java that the members have, and how the VM writes them.
pub data JavaType : Type 0 where
  int_type long_type double_type void_type byte_array : JavaType
  class_type class_array : Bytes → JavaType

abbrev pub descriptor : JavaType → Bytes
descriptor int_type = codes "I"
descriptor long_type = codes "J"
descriptor double_type = codes "D"
descriptor void_type = codes "V"
descriptor byte_array = codes "[B"
descriptor (class_type name) = codes "L" ++ (name ++ codes ";")
descriptor (class_array name) = codes "[" ++ (codes "L" ++ (name ++ codes ";"))

abbrev descriptors : List JavaType → Bytes
descriptors [] = []
descriptors (t ∷ ts) = descriptor t ++ descriptors ts

abbrev pub signature : List JavaType → JavaType → Bytes
signature args result = codes "(" ++ (descriptors args ++ (codes ")" ++ descriptor result))

-- The types of the fields of NativeValue.kt, in the order of its constructor.
abbrev pub value_types : List JavaType
value_types = int_type ∷ long_type ∷ double_type ∷ byte_array ∷ byte_array ∷ []

-- The VM has given an id for a lookup, and that id is cached.
abbrev pub Given : {Member : Type 0} → Option Member → Option Member → Type 0
Given {Member} looked cached = (id : Member) × (looked ≡ some id) × (cached ≡ some id)

module _ (l : Lookups) where
  -- What the natives and the callbacks use unchecked: the ids of the methods of NativeBridge.kt and of
  -- the constructor and the fields of NativeValue.kt, by their names and types there, in the classes as
  -- they are kept.
  pub record Ready (s : Cached l) : Type 0 where
    pub bridge :
        (cls : l.Class) × (l.find_class (bridge_class l) ≡ some cls)
        × (s.bridge ≡ l.new_global_ref cls)
    pub value :
        (cls : l.Class) × (l.find_class (value_class l) ≡ some cls)
        × (s.value ≡ l.new_global_ref cls)
    pub on_host_call :
        Given
          (l.static_method_id s.bridge (codes "onHostCall") (
            signature
              (class_type (codes "java/lang/Object")
                ∷ int_type
                ∷ class_array (codes "wang/harlon/mquickjs/NativeValue")
                ∷ [])
              (class_type (codes "wang/harlon/mquickjs/NativeValue"))))
          s.on_host_call
    pub on_log :
        Given
          (l.static_method_id s.bridge
            (codes "onLog")
            (signature (class_type (codes "java/lang/Object") ∷ byte_array ∷ []) void_type))
          s.on_log
    pub value_ctor :
        Given (l.method_id s.value (codes "<init>") (signature value_types void_type)) s.value_ctor
    pub f_tag : Given (l.field_id s.value (codes "tag") (descriptor int_type)) s.f_tag
    pub f_ref : Given (l.field_id s.value (codes "ref") (descriptor long_type)) s.f_ref
    pub f_num : Given (l.field_id s.value (codes "num") (descriptor double_type)) s.f_num
    pub f_str : Given (l.field_id s.value (codes "str") (descriptor byte_array)) s.f_str
    pub f_stack : Given (l.field_id s.value (codes "stack") (descriptor byte_array)) s.f_stack

given : {Member : Type 0} {o : Option Member} → (id : Member) × (o ≡ some id) → Given o o
given (id, h) = (id, h, h)

module _ {l : Lookups} where
  cached-Ready :
      (b v : l.Class) (s : Cached l)
      → l.find_class (bridge_class l) ≡ some b
      → l.find_class (value_class l) ≡ some v
      → all_cached l (cache_value l v (cache_bridge l b s)) ≡ true
      → Ready l (cache_value l v (cache_bridge l b s))
  unfolding all_cached cache_value cache_bridge
  cached-Ready b v s hb hv h =
      let (host, h₁) = found_id _ _ h in
      let (log, h₂) = found_id _ _ h₁ in
      let (ctor, h₃) = found_id _ _ h₂ in
      let (tag, h₄) = found_id _ _ h₃ in
      let (ref, h₅) = found_id _ _ h₄ in
      let (num, h₆) = found_id _ _ h₅ in
      let (str, h₇) = found_id _ _ h₆ in
      record {
        bridge = (b, hb, refl);
        value = (v, hv, refl);
        on_host_call = given host;
        on_log = given log;
        value_ctor = given ctor;
        f_tag = given tag;
        f_ref = given ref;
        f_num = given num;
        f_str = given str;
        f_stack = given (found_one _ h₇);
      }

  cache_members-Ready :
      (b : l.Class) (o : Option l.Class) (s : Cached l)
      → l.find_class (bridge_class l) ≡ some b
      → l.find_class (value_class l) ≡ o
      → (cache_members l o (cache_bridge l b s)).0 ≡ true
      → Ready l (cache_members l o (cache_bridge l b s)).1
  unfolding cache_members
  cache_members-Ready b none s hb hv h = absurd (ground (arith, h))
  cache_members-Ready b (some v) s hb hv h = cached-Ready b v s hb hv h

  cache_classes-Ready :
      (o : Option l.Class) (s : Cached l)
      → l.find_class (bridge_class l) ≡ o
      → (cache_classes l o s).0 ≡ true
      → Ready l (cache_classes l o s).1
  unfolding cache_classes
  cache_classes-Ready none s hb h = absurd (ground (arith, h))
  cache_classes-Ready (some b) s hb h =
      cache_members-Ready b (l.find_class (value_class l)) s hb refl h

-- When JNI_OnLoad succeeds, whatever the globals were before, both classes were found, what it keeps
-- of each is the global reference that the VM made of it, and each cached id is one that the VM has
-- given for the member of the kept class with the name and the type that NativeBridge.kt or
-- NativeValue.kt declares: onHostCall, onLog, the constructor, tag, ref, num, str and stack.
pub on_load-Ready : (l : Lookups) (s : Cached l) → (on_load l s).0 ≡ true → Ready l (on_load l s).1
unfolding on_load
on_load-Ready l s = elim (Bool-cases l.get_env) [
  | inl h ↦ rw h (cache_classes-Ready (l.find_class (bridge_class l)) s refl)
  | inr h ↦ rw h (λ k. absurd (ground (arith, k)))
]
