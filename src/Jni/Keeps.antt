-- ===== src/Jni/Keeps.antt =====
-- The relation between an engine before and after an action of the bridge, on what the shim keeps,
-- on the frames of local references and on what the bridge owns, and the rules that put actions
-- together.
pub mod Blocks
pub mod Rules
use mquickjs_kmp.Prelude.{
  ℕ, zero, suc, ◌+◌, ◌-◌, ◌≤◌, ◌≡◌, refl, sym, ◌∙◌, ap, Bool, true, false, Option, none, some, List,
  [], ◌∷◌, arith, if◌then◌else◌, length,
}
use mquickjs_kmp.Engine.Actions.{alloc_answer}
use mquickjs_kmp.Engine.Convert.Keeps.{alloc_answer-Meets}
use mquickjs_kmp.Engine.Keeps.{Steady, Steady-refl, Steady-trans, Meets}
use mquickjs_kmp.Engine.{Doubles, Engine, Act, pure, ◌>>=◌, ◌>>◌, case_of, ask}
use mquickjs_kmp.GcRefs.{GcRefs}
use mquickjs_kmp.Jni.{
  Frame, JniState, add_local, drop_local, without_frame, one_if, calling, misuse, more_local,
  delete_local_ref, new_local, push_local_frame, pop_local_frame, exception_clear, count_block,
  uncount_block, Java, jni_state, with_state, jni, run_jni, take_block, free_block,
}
use mquickjs_kmp.Slots.Preserve.{Valid}
use mquickjs_kmp.Slots.{Table}

-- What the engine's `Same` must keep of the bridge.
pub record Kept (s s' : JniState) : Type 0 where
  pub frames : s'.frames ≡ s.frames
  pub blocks : s'.blocks ≡ s.blocks
  pub globals : s'.globals ≡ s.globals

-- What is assumed of the place of the Java state in a context: it can be read and written, apart
-- from the GC roots, and it is what `Same` speaks of.
pub record JavaLaws {g : GcRefs} {d : Doubles} (java : Java g d) : Type 0 where
  pub state-put : (s : JniState) (c : g.Ctx) → java.state (java.put s c) ≡ s
  pub linked-put : (s : JniState) (c : g.Ctx) (i : ℕ) → g.linked (java.put s c) i ≡ g.linked c i
  pub Same-Kept : (c c' : g.Ctx) → g.Same c c' → Kept (java.state c) (java.state c')
  pub Kept-Same : (c c' : g.Ctx) → Kept (java.state c) (java.state c') → g.Same c c'

abbrev pub drop_frames : ℕ → List Frame → List Frame
drop_frames zero fs = fs
drop_frames (suc n) fs = drop_frames n (without_frame fs)

-- Inside a frame of its own, code may hold as many local references as it likes.
pub drop_frames-add :
    (n : ℕ) (fs : List Frame) → drop_frames (suc n) (add_local fs) ≡ drop_frames (suc n) fs
drop_frames-add n [] = refl
drop_frames-add n (f ∷ fs) = refl

pub drop_frames-drop :
    (n : ℕ) (fs : List Frame) → drop_frames (suc n) (drop_local fs) ≡ drop_frames (suc n) fs
drop_frames-drop n [] = refl
drop_frames-drop n (f ∷ fs) = refl

-- From a state with `n` frames and `held` blocks of its own to one with `k` frames and none of these
-- blocks.
pub record Owns (held n k : ℕ) (s s' : JniState) : Type 0 where
  pub frames : drop_frames k s'.frames ≡ drop_frames n s.frames
  pub blocks : held ≤ s.blocks → s'.blocks + held ≡ s.blocks
  pub globals : s'.globals ≡ s.globals

pub Owns-seq :
    {held n m k : ℕ} (s s₁ s₂ : JniState)
    → Owns 0 n m s s₁
    → Owns held m k s₁ s₂
    → Owns held n k s s₂
Owns-seq s s₁ s₂ a b = record {
  frames = b.frames ∙ a.frames;
  blocks = λ h.
      let start = a.blocks (omega arith) in omega (arith, start, b.blocks (omega (arith, start)));
  globals = b.globals ∙ a.globals;
}

Kept-Owns : (n : ℕ) (s s' : JniState) → Kept s s' → Owns 0 n n s s'
Kept-Owns n s s' k = record {
  frames = ap (drop_frames n) k.frames;
  blocks = λ _. omega (arith, k.blocks);
  globals = k.globals;
}

Owns-Kept : (s s' : JniState) → Owns 0 0 0 s s' → Kept s s'
Owns-Kept s s' o = record {
  frames = o.frames;
  blocks = omega (arith, o.blocks (omega arith));
  globals = o.globals;
}

module _ {g : GcRefs} {d : Doubles} (java : Java g d) where
  pub record Leaves (held n k : ℕ) (e e' : Engine g) : Type 0 where
    pub roots : length e'.roots ≡ length e.roots
    pub state : Steady e.state e'.state
    pub table : Valid g e.table → Valid g e'.table
    pub own : Valid g e.table → Owns held n k (jni_state java e) (jni_state java e')

  pub record Takes {A : Type 0} (held n k : ℕ) (m : Act g A) : Type 0 where
    pub from : (e : Engine g) → Leaves held n k e (m e).1

module _ {g : GcRefs} {d : Doubles} {java : Java g d} where
  pub Leaves-seq :
      {held n m k : ℕ} {e e₁ e₂ : Engine g}
      → Leaves java 0 n m e e₁
      → Leaves java held m k e₁ e₂
      → Leaves java held n k e e₂
  Leaves-seq {e = e} {e₁} {e₂} a b = record {
    roots = omega (arith, a.roots, b.roots);
    state = Steady-trans e.state e₁.state e₂.state a.state b.state;
    table = λ v. b.table (a.table v);
    own = λ v.
        Owns-seq (jni_state java e) (jni_state java e₁) (jni_state java e₂) (a.own v)
          (b.own (a.table v));
  }

  pub returns : {A : Type 0} {n : ℕ} (a : A) → Takes java 0 n n (pure g a)
  unfolding pure
  returns {n = n} a = record {
    from = λ e. record {
      roots = refl;
      state = Steady-refl e.state;
      table = λ v. v;
      own = λ _. record { frames = refl; blocks = λ _. omega arith; globals = refl };
    };
  }

module _ {g : GcRefs} {d : Doubles} {java : Java g d} {A B : Type 0} {held n m k : ℕ} where
  pub after :
      {x : Act g A} {f : A → Act g B}
      → Takes java 0 n m x
      → ((a : A) → Takes java held m k (f a))
      → Takes java held n k (x >>= f)
  unfolding ◌>>=◌
  after {x} h l = record { from = λ e. Leaves-seq (h.from e) ((l (x e).0).from (x e).1) }

  pub follow :
      {x : Act g A} {y : Act g B}
      → Takes java 0 n m x
      → Takes java held m k y
      → Takes java held n k (x >> y)
  unfolding ◌>>◌
  follow {x} h l = record { from = λ e. Leaves-seq (h.from e) (l.from (x e).1) }

module _ {g : GcRefs} {d : Doubles} {java : Java g d} {A : Type 0} {held n k : ℕ} where
  pub either :
      (b : Bool) {x y : Act g A}
      → Takes java held n k x
      → Takes java held n k y
      → Takes java held n k (if b then x else y)
  either true h l = h
  either false h l = l

module _ {g : GcRefs} {d : Doubles} {java : Java g d} {A B : Type 0} {held n k : ℕ} where
  pub of_cases :
      (o : Option A) {x : Act g B} {f : A → Act g B}
      → Takes java held n k x
      → ((a : A) → Takes java held n k (f a))
      → Takes java held n k (case_of o x f)
  unfolding case_of
  of_cases none h l = h
  of_cases (some a) h l = l a

  pub asking :
      (q : Engine g → A) {f : A → Act g B}
      → ((a : A) → Takes java held n k (f a))
      → Takes java held n k (ask q f)
  unfolding ask
  asking q h = record { from = λ e. (h (q e)).from e }

module _ {g : GcRefs} {d : Doubles} {java : Java g d} (jl : JavaLaws java) where
  -- A call of the shim, or of Java code, that keeps the engine in order.
  pub called : {A : Type 0} {n : ℕ} {x : Act g A} → Meets 0 none x → Takes java 0 n n x
  called {n = n} {x} h = record {
    from = λ e.
        let a = h.from e in
        record {
          roots = omega (arith, a.roots (omega arith));
          state = a.state;
          table = a.table;
          own = λ v.
              Kept-Owns n (jni_state java e) (jni_state java (x e).1)
                (jl.Same-Kept e.table.ctx (x e).1.table.ctx (a.rest v));
        };
  }

  -- And back: what ends without frames or blocks of its own keeps the engine in order.
  pub keeps_order : {A : Type 0} {x : Act g A} → Takes java 0 0 0 x → Meets 0 none x
  keeps_order {x = x} h = record {
    from = λ e.
        let a = h.from e in
        record {
          roots = λ _. omega (arith, a.roots);
          state = a.state;
          table = a.table;
          rest = λ v.
              jl.Kept-Same e.table.ctx (x e).1.table.ctx
                (Owns-Kept (jni_state java e) (jni_state java (x e).1) (a.own v));
        };
  }
