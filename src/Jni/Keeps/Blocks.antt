-- ===== src/Jni/Keeps/Blocks.antt =====
-- The rules for what the bridge takes on the way: blocks, and frames that are pushed.
use mathlib.Core.Path.{subst}
use mquickjs_kmp.Prelude.{
  ℕ, suc, ◌+◌, ◌≡◌, refl, sym, ◌∙◌, Bool, true, false, Bool-cases, inl, inr, arith, if◌then◌else◌,
}
use mquickjs_kmp.Buffer.{next_answer}
use mquickjs_kmp.Engine.Convert.Keeps.{alloc_answer-Meets}
use mquickjs_kmp.Engine.Keeps.{Steady-trans}
use mquickjs_kmp.Engine.{Doubles, Act, pure, ◌>>=◌, ◌>>◌, ask}
use mquickjs_kmp.GcRefs.{GcRefs}
use mquickjs_kmp.Jni.Keeps.{JavaLaws, Owns, Leaves, Takes, Leaves-seq, after, called}
use mquickjs_kmp.Jni.Values.{enter_frame}
use mquickjs_kmp.Jni.{
  JniState, one_if, calling, push_local_frame, count_block, Java, jni_state, with_state, jni,
  run_jni, take_block, free_block,
}
use mquickjs_kmp.Jni.Keeps.Rules.{put-Valid, put-Leaves, a_free}

-- Two releases, one after the other.
Owns-add :
    {one two n m k : ℕ} (s s₁ s₂ : JniState)
    → Owns one n m s s₁
    → Owns two m k s₁ s₂
    → Owns (one + two) n k s s₂
Owns-add s s₁ s₂ a b = record {
  frames = b.frames ∙ a.frames;
  blocks = λ h.
      let start = a.blocks (omega (arith, h)) in
      omega (arith, start, b.blocks (omega (arith, start, h)));
  globals = b.globals ∙ a.globals;
}

-- One block more, if there was memory for it.
abbrev pub owning : Bool → ℕ → ℕ
owning true held = suc held
owning false held = held

pub owning_comm : (a b : Bool) (held : ℕ) → owning a (owning b held) ≡ owning b (owning a held)
owning_comm true true held = refl
owning_comm true false held = refl
owning_comm false b held = refl

one_if-add : (b : Bool) (held : ℕ) → one_if b + held ≡ owning b held
one_if-add true held = omega arith
one_if-add false held = omega arith

-- A block more pays for the release of one.
count_then :
    {held n k : ℕ} (b : Bool) (s s' : JniState)
    → Owns (owning b held) n k (count_block b s) s'
    → Owns held n k s s'
unfolding count_block
count_then {held} b s s' o = record {
  frames = o.frames;
  blocks = λ h. omega (arith, one_if-add b held, o.blocks (omega (arith, h, one_if-add b held)));
  globals = o.globals;
}

pushed_frame :
    {held n k : ℕ} (c : ℕ) (s s' : JniState)
    → (push_local_frame c s).0 ≡ true
    → Owns held (suc n) k (push_local_frame c s).1 s'
    → Owns held n k s s'
unfolding push_local_frame calling
pushed_frame {held} {n} {k} c s s' = elim (Bool-cases (next_answer s.answers)) [
  | inl h ↦ rw h (λ _ o. record { frames = o.frames; blocks = o.blocks; globals = o.globals })
  | inr h ↦ rw h (λ z. cc z)
]

no_frame :
    (n c : ℕ) (s : JniState)
    → (push_local_frame c s).0 ≡ false
    → Owns 0 n n s (push_local_frame c s).1
unfolding push_local_frame calling
no_frame n c s = elim (Bool-cases (next_answer s.answers)) [
  | inl h ↦ rw h (λ z. cc z)
  | inr h ↦ rw h (λ _. record { frames = refl; blocks = λ _. omega arith; globals = refl })
]

module _ {g : GcRefs} {d : Doubles} {java : Java g d} (jl : JavaLaws java) where
  pub release :
      {A B : Type 0} {one two n m k : ℕ} {x : Act g A} {y : Act g B}
      → Takes java one n m x
      → Takes java two m k y
      → Takes java (one + two) n k (x >> y)
  unfolding ◌>>◌
  release {x = x} {y} h l = record {
    from = λ e.
        let a = h.from e in
        let b = l.from (x e).1 in
        record {
          roots = omega (arith, a.roots, b.roots);
          state = Steady-trans e.state (x e).1.state (y (x e).1).1.state a.state b.state;
          table = λ v. b.table (a.table v);
          own = λ v.
              Owns-add (jni_state java e) (jni_state java (x e).1) (jni_state java (y (x e).1).1)
                (a.own v) (b.own (a.table v));
        };
  }

  pub free_then :
      {B : Type 0} {held n k : ℕ} (b : Bool) {y : Act g B}
      → Takes java held n k y
      → Takes java (owning b held) n k (free_block java b >> y)
  free_then {held = held} {n} {k} b {y} h =
      subst (λ x. Takes java x n k (free_block java b >> y)) (one_if-add b held)
        (release (a_free jl b) h)

  pub count_step :
      {B : Type 0} {held n k : ℕ} (b : Bool) {y : Act g B}
      → Takes java (owning b held) n k y
      → Takes java held n k (run_jni java (count_block b) >> y)
  unfolding run_jni ◌>>◌
  count_step {held = held} {n} {k} b {y} h = record {
    from = λ e.
        let e₁ = with_state java (count_block b (jni_state java e)) e in
        let a = h.from e₁ in
        record {
          roots = a.roots;
          state = a.state;
          table = λ v. a.table (put-Valid jl e.table _ v);
          own = λ v. count_then b (jni_state java e) (jni_state java (y e₁).1) (
              subst (λ s. Owns (owning b held) n k s (jni_state java (y e₁).1))
                (jl.state-put (count_block b (jni_state java e)) e.table.ctx)
                (a.own (put-Valid jl e.table _ v)));
        };
  }

  pub take_then :
      {B : Type 0} {held n k : ℕ} {f : Bool → Act g B}
      → ((ok : Bool) → Takes java (owning ok held) n k (f ok))
      → Takes java held n k (take_block java >>= f)
  unfolding take_block ◌>>=◌ ◌>>◌ pure
  take_then h =
      let whole = after (called jl alloc_answer-Meets) (λ ok. count_step ok (h ok)) in
      record { from = λ e. whole.from e }

  push_then :
      {B : Type 0} {held n k : ℕ} (c : ℕ) (f : Bool → Act g B)
      → Takes java held (suc n) k (f true)
      → Takes java held n k (f false)
      → Takes java held n k (jni java (push_local_frame c) >>= f)
  unfolding jni ◌>>=◌
  push_then {held = held} {n} {k} c f h l = record {
    from = λ e.
        let s = jni_state java e in
        let e₁ = with_state java (push_local_frame c s).1 e in
        elim (Bool-cases (push_local_frame c s).0) [
          | inl t ↦
              (let a = h.from e₁ in
                subst (λ b. Leaves java held n k e (f b e₁).1) (sym t)
                  (record {
                    roots = a.roots;
                    state = a.state;
                    table = λ v. a.table (put-Valid jl e.table _ v);
                    own = λ v. pushed_frame c s (jni_state java (f true e₁).1) t (
                        subst (λ u. Owns held (suc n) k u (jni_state java (f true e₁).1))
                          (jl.state-put (push_local_frame c s).1 e.table.ctx)
                          (a.own (put-Valid jl e.table _ v)));
                  }))
          | inr t ↦
              subst (λ b. Leaves java held n k e (f b e₁).1) (sym t)
                (Leaves-seq (put-Leaves jl e (push_local_frame c s).1 (no_frame n c s t))
                  (l.from e₁))
        ];
  }

  attached_then :
      {B : Type 0} {held n k : ℕ} (c : ℕ) (f : Bool → Act g B) (attached : Bool)
      → Takes java held (suc n) k (f true)
      → Takes java held n k (f false)
      → Takes java held n k
          ((if attached then jni java (push_local_frame c) else pure g false) >>= f)
  unfolding ◌>>=◌ pure
  attached_then c f true h l = record { from = λ e. (push_then c f h l).from e }
  attached_then c f false h l = record { from = λ e. l.from e }

  pub enter_then :
      {B : Type 0} {held n k : ℕ} (c : ℕ) (f : Bool → Act g B)
      → Takes java held (suc n) k (f true)
      → Takes java held n k (f false)
      → Takes java held n k (enter_frame java c >>= f)
  unfolding enter_frame ◌>>=◌ ask
  enter_then c f h l = record {
    from = λ e. (attached_then c f (jni_state java e).attached h l).from e;
  }
