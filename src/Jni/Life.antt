-- ===== src/Jni/Life.antt =====
-- nativeCreate and nativeDestroy, and jni_user, of native/jni/mquickjs_jni.c.
use mathlib.Core.Path.{subst}
use mathlib.Core.Option.{some-injective}
use mquickjs_kmp.Prelude.{
  ℕ, suc, ◌+◌, ◌-◌, ◌≡◌, refl, ap, ◌∙◌, Bool, true, false, Bool-cases, inl, inr, Option, none, some,
  List, if◌then◌else◌, arith,
}
use mquickjs_kmp.Buffer.{next_answer, later_answers}
use mquickjs_kmp.Bytecode.Compile.{Compiler}
use mquickjs_kmp.Bytecode.{Build}
use mquickjs_kmp.Engine.Laws.{VmKeeps}
use mquickjs_kmp.Engine.{Doubles, Engine, Vm}
use mquickjs_kmp.GcRefs.{GcRefs, GcRefsLaws}
use mquickjs_kmp.Jni.Keeps.{Kept, JavaLaws}
use mquickjs_kmp.Jni.Natives.Entries.{Native, perform_all, perform_all-Bridged}
use mquickjs_kmp.Jni.{
  JniState, one_if, calling, count_block, uncount_block, Java, jni_state, with_state,
}
use mquickjs_kmp.Lifecycle.Ends.{Ended, new_engine-Ended, new_engine-Valid, created_engine}
use mquickjs_kmp.Lifecycle.{Step, new_engine, create, destroy}

-- NewGlobalRef, which gives NULL when memory runs out, and DeleteGlobalRef, which does nothing for
-- NULL.
unfoldable pub new_global : JniState → Bool × JniState
new_global s =
    let t = record (calling s) { answers = later_answers s.answers } in
    if next_answer s.answers then (true, record t { globals = suc s.globals }) else (false, t)

unfoldable pub delete_global : Bool → JniState → JniState
delete_global held s = record s { globals = s.globals - one_if held }

-- jni_user: whether `target` is a reference or NULL.
pub record JniUser : Type 0 where
  pub target : Bool

module _ {g : GcRefs} {d : Doubles} (java : Java g d) where
  -- nativeCreate with the result of kmpjs_create, and all of it. none is 0.
  unfoldable pub create_result :
      Option (Engine g) → Bool × JniState → Option (Engine g × JniUser) × JniState
  create_result none (target, s) = (none, uncount_block true (delete_global target s))
  create_result (some e) (target, s) = (some (with_state java s e, record { target = target }), s)

  unfoldable pub native_create :
      (ℕ → Option g.Ctx) → List Bool → ℕ → JniState → Option (Engine g × JniUser) × JniState
  native_create new_context allocs mem_bytes s =
      if next_answer allocs
      then create_result (create g new_context (later_answers allocs) mem_bytes)
          (new_global (count_block true s))
      else (none, s)

  -- nativeDestroy: the steps of kmpjs_destroy, then what happens to the jni_user.
  unfoldable pub native_destroy : Engine g → JniUser → List Step × JniState
  native_destroy e u = (destroy g e, uncount_block true (delete_global u.target (jni_state java e)))

-- What nativeCreate holds of the Java VM for an engine.
record Holds (target : Bool) (s s' : JniState) : Type 0 where
  frames : s'.frames ≡ s.frames
  blocks : s'.blocks ≡ s.blocks + 1
  globals : s'.globals ≡ s.globals + one_if target

let_go :
    (target : Bool) (s s' : JniState)
    → Holds target s s'
    → Kept s (uncount_block true (delete_global target s'))
unfolding uncount_block delete_global
let_go true s s' h = record {
  frames = h.frames;
  blocks = omega (arith, h.blocks);
  globals = omega (arith, h.globals);
}
let_go false s s' h = record {
  frames = h.frames;
  blocks = omega (arith, h.blocks);
  globals = omega (arith, h.globals);
}

new_global-Holds :
    (s : JniState) → Holds (new_global (count_block true s)).0 s (new_global (count_block true s)).1
unfolding new_global count_block calling
new_global-Holds s = elim (Bool-cases (next_answer s.answers)) [
  | inl h ↦ rw h (record { frames = refl; blocks = refl; globals = omega arith })
  | inr h ↦ rw h (record { frames = refl; blocks = refl; globals = omega arith })
]

Holds-Kept :
    (target : Bool) (s s₁ s₂ : JniState) → Holds target s s₁ → Kept s₁ s₂ → Holds target s s₂
Holds-Kept target s s₁ s₂ h k = record {
  frames = k.frames ∙ h.frames;
  blocks = k.blocks ∙ h.blocks;
  globals = k.globals ∙ h.globals;
}

module _ {g : GcRefs} {d : Doubles} (java : Java g d) where
  refused_result :
      (r : Option (Engine g)) (s : JniState)
      → (create_result java r (new_global (count_block true s))).0 ≡ none
      → Kept s (create_result java r (new_global (count_block true s))).1
  unfolding create_result
  refused_result none s h = let_go _ s _ (new_global-Holds s)
  refused_result (some e) s h = absurd (ground (arith, h))

  -- A nativeCreate that returns 0, for lack of memory, for a size out of range or without a context,
  -- leaves the frames of local references, the C blocks of the bridge and its global references as
  -- they were.
  pub native_create-refused :
      (new_context : ℕ → Option g.Ctx) (allocs : List Bool) (mem_bytes : ℕ) (s : JniState)
      → (native_create java new_context allocs mem_bytes s).0 ≡ none
      → Kept s (native_create java new_context allocs mem_bytes s).1
  unfolding native_create
  native_create-refused new_context allocs mem_bytes s = elim (Bool-cases (next_answer allocs)) [
    | inr k ↦ rw k (λ h. record { frames = refl; blocks = refl; globals = refl })
    | inl k ↦ rw k (refused_result (create g new_context (later_answers allocs) mem_bytes) s)
  ]

  -- What a successful nativeCreate has made.
  created_result :
      (r : Option (Engine g)) (t : Bool × JniState) (e : Engine g) (u : JniUser)
      → (create_result java r t).0 ≡ some (e, u)
      → (e₀ : Engine g) × (r ≡ some e₀) × (with_state java t.1 e₀ ≡ e) × (t.0 ≡ u.target)
  unfolding create_result
  created_result none t e u h = absurd (ground (arith, h))
  created_result (some e₀) t e u h =
      (e₀, refl, ap (λ p. p.0) (some-injective _ _ h), ap (λ p. p.1.target) (some-injective _ _ h))

  native_create-made :
      (new_context : ℕ → Option g.Ctx) (allocs : List Bool) (mem_bytes : ℕ) (s : JniState)
      (e : Engine g) (u : JniUser)
      → (native_create java new_context allocs mem_bytes s).0 ≡ some (e, u)
      → (create_result java
          (create g new_context (later_answers allocs) mem_bytes)
          (new_global (count_block true s))).0
        ≡ some (e, u)
  unfolding native_create
  native_create-made new_context allocs mem_bytes s e u = elim (Bool-cases (next_answer allocs)) [
    | inr k ↦ rw k (λ h. absurd (ground (arith, h)))
    | inl k ↦ rw k (λ h. h)
  ]

-- What a whole life leaves behind: how the engine is when kmpjs_destroy gets it, and what the bridge
-- holds after nativeDestroy.
pub record Settled {g : GcRefs} {d : Doubles} (java : Java g d) (s : JniState) (e : Engine g)
    (u : JniUser) : Type 0 where
  pub engine : Ended g e
  pub bridge : Kept s (native_destroy java e u).1

module _ {g : GcRefs} (laws : GcRefsLaws g) {d : Doubles} (vm : Vm g d) (k : VmKeeps vm)
    {java : Java g d} (jl : JavaLaws java) (b : Build) (c : Compiler) where
  settled :
      (ctx : g.Ctx) (a : List Bool) (s s₁ : JniState) (u : JniUser)
      → ((i : ℕ) → g.linked ctx i ≡ false)
      → Holds u.target s s₁
      → (xs : List (Native d.Num))
      → Settled java s (perform_all vm java b c xs (new_engine g (java.put s₁ ctx) a)) u
  unfolding native_destroy
  settled ctx a s s₁ u empty holds xs =
      let start = java.put s₁ ctx in
      let v = new_engine-Valid g laws start a (λ i. jl.linked-put s₁ ctx i ∙ empty i) in
      let r = perform_all-Bridged laws vm k jl b c xs (new_engine g start a) v in
      let after = perform_all vm java b c xs (new_engine g start a) in
      let kept = subst (λ x. Kept x (jni_state java after)) (jl.state-put s₁ ctx) r.bridge in
      record {
        engine = new_engine-Ended laws start a after r.shim;
        bridge = let_go u.target s _ (Holds-Kept u.target s s₁ _ holds kept);
      }

  -- If JS_NewContext makes contexts without roots and the calls of the JavaScript engine leave the
  -- engine in order, then after a successful nativeCreate and any sequence of calls of native methods
  -- the engine is idle, without pushed roots and ready for kmpjs_destroy, which unlinks linked roots
  -- only; and after nativeDestroy the frames of local references, the C blocks of the bridge and its
  -- global references are those from before nativeCreate.
  pub life_over_jni :
      (new_context : ℕ → Option g.Ctx)
      → ((n : ℕ) (ctx : g.Ctx) → new_context n ≡ some ctx → (i : ℕ) → g.linked ctx i ≡ false)
      → (allocs : List Bool) (mem_bytes : ℕ) (s : JniState) (e : Engine g) (u : JniUser)
      → (native_create java new_context allocs mem_bytes s).0 ≡ some (e, u)
      → (xs : List (Native d.Num)) → Settled java s (perform_all vm java b c xs e) u
  life_over_jni new_context empty allocs mem_bytes s e u made xs =
      let t = new_global (count_block true s) in
      let (e₀, is, same, held) =
        created_result java _ t e u
          (native_create-made java new_context allocs mem_bytes s e u made) in
      let (ctx, a, found, same₀) =
        created_engine g laws new_context (later_answers allocs) mem_bytes e₀ is in
      let start = subst (λ x. Holds x s t.1) held (new_global-Holds s) in
      subst (λ x. Settled java s (perform_all vm java b c xs x) u)
        (ap (with_state java t.1) same₀ ∙ same)
        (settled ctx a s t.1 u (empty mem_bytes ctx found) start xs)
