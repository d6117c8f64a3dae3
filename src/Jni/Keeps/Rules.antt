-- ===== src/Jni/Keeps/Rules.antt =====
-- The rules for the bridge's own steps: local references, frames and blocks.
use mathlib.Core.Path.{subst}
use mquickjs_kmp.Prelude.{ℕ, suc, refl, sym, ◌∙◌, Bool, Bool-cases, inl, inr, arith}
use mquickjs_kmp.Buffer.{next_answer}
use mquickjs_kmp.Engine.Keeps.{Steady-refl}
use mquickjs_kmp.Engine.{Doubles, Engine}
use mquickjs_kmp.GcRefs.{GcRefs}
use mquickjs_kmp.Jni.Keeps.{JavaLaws, drop_frames-add, drop_frames-drop, Owns, Leaves, Takes}
use mquickjs_kmp.Jni.{
  JniState, one_if, calling, misuse, more_local, delete_local_ref, new_local, pop_local_frame,
  exception_clear, uncount_block, Java, jni_state, with_state, jni, run_jni, free_block,
}
use mquickjs_kmp.Slots.Preserve.{Valid}
use mquickjs_kmp.Slots.{Table}

-- The steps on the state alone.
pub calling-Owns : (n : ℕ) (s : JniState) → Owns 0 n n s (calling s)
unfolding calling
calling-Owns n s = record { frames = refl; blocks = λ _. omega arith; globals = refl }

pub misuse-Owns : (n : ℕ) (s : JniState) → Owns 0 n n s (misuse s)
unfolding misuse
misuse-Owns n s = record { frames = refl; blocks = λ _. omega arith; globals = refl }

pub exception_clear-Owns : (n : ℕ) (s : JniState) → Owns 0 n n s (exception_clear s)
unfolding exception_clear
exception_clear-Owns n s = record { frames = refl; blocks = λ _. omega arith; globals = refl }

pub more_local-Owns : (n : ℕ) (s : JniState) → Owns 0 (suc n) (suc n) s (more_local s)
unfolding more_local
more_local-Owns n s = record {
  frames = drop_frames-add n s.frames;
  blocks = λ _. omega arith;
  globals = refl;
}

pub delete_local_ref-Owns : (n : ℕ) (s : JniState) → Owns 0 (suc n) (suc n) s (delete_local_ref s)
unfolding delete_local_ref
delete_local_ref-Owns n s = record {
  frames = drop_frames-drop n s.frames;
  blocks = λ _. omega arith;
  globals = refl;
}

pub new_local-Owns : (n : ℕ) (s : JniState) → Owns 0 (suc n) (suc n) s (new_local s).1
unfolding new_local more_local calling
new_local-Owns n s = elim (Bool-cases (next_answer s.answers)) [
  | inl h ↦
      rw h
        (record { frames = drop_frames-add n s.frames; blocks = λ _. omega arith; globals = refl })
  | inr h ↦ rw h (record { frames = refl; blocks = λ _. omega arith; globals = refl })
]

pub pop_local_frame-Owns : (n : ℕ) (s : JniState) → Owns 0 (suc n) n s (pop_local_frame s)
unfolding pop_local_frame
pop_local_frame-Owns n s = record { frames = refl; blocks = λ _. omega arith; globals = refl }

pub uncount_block-Owns :
    (n : ℕ) (b : Bool) (s : JniState) → Owns (one_if b) n n s (uncount_block b s)
unfolding uncount_block
uncount_block-Owns n b s = record { frames = refl; blocks = λ h. omega arith; globals = refl }

module _ {g : GcRefs} {d : Doubles} {java : Java g d} (jl : JavaLaws java) where
  pub put-Valid :
      (t : Table g) (s : JniState) → Valid g t → Valid g (record t { ctx = java.put s t.ctx })
  put-Valid t s (free, v) = (
    free,
    record {
      path = v.path;
      distinct = v.distinct;
      complete = v.complete;
      gens = v.gens;
      rooted = λ i. jl.linked-put s t.ctx i ∙ v.rooted i;
      room = v.room;
      few = v.few;
    },
  )

  pub put-Leaves :
      {held n k : ℕ} (e : Engine g) (s : JniState)
      → Owns held n k (jni_state java e) s
      → Leaves java held n k e (with_state java s e)
  put-Leaves {held} {n} {k} e s o = record {
    roots = refl;
    state = Steady-refl e.state;
    table = put-Valid e.table s;
    own = λ _. subst (Owns held n k (jni_state java e)) (sym (jl.state-put s e.table.ctx)) o;
  }

  pub run_step :
      {held n k : ℕ} {f : JniState → JniState}
      → ((s : JniState) → Owns held n k s (f s))
      → Takes java held n k (run_jni java f)
  unfolding run_jni
  run_step h = record { from = λ e. put-Leaves e _ (h (jni_state java e)) }

  pub jni_step :
      {held n k : ℕ} (f : JniState → Bool × JniState)
      → ((s : JniState) → Owns held n k s (f s).1)
      → Takes java held n k (jni java f)
  unfolding jni
  jni_step f h = record { from = λ e. put-Leaves e _ (h (jni_state java e)) }

  pub a_call : {n : ℕ} → Takes java 0 n n (run_jni java calling)
  a_call {n} = run_step (calling-Owns n)

  pub a_local : {n : ℕ} → Takes java 0 (suc n) (suc n) (jni java new_local)
  a_local {n} = jni_step new_local (new_local-Owns n)

  pub a_pop : {n : ℕ} → Takes java 0 (suc n) n (run_jni java pop_local_frame)
  a_pop {n} = run_step (pop_local_frame-Owns n)

  pub a_free : {n : ℕ} (b : Bool) → Takes java (one_if b) n n (free_block java b)
  unfolding free_block
  a_free {n} b = run_step (uncount_block-Owns n b)
