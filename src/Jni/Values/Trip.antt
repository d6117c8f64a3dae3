-- ===== src/Jni/Values/Trip.antt =====
-- A value on its way to Java and back.
use mathlib.Core.Path.{subst}
use mquickjs_kmp.Prelude.{
  arith, ◌==◌, ◌≡◌, refl, sym, ap, ◌∙◌, Bool, true, false, Option, none, some, List, ◌∷◌,
  if◌then◌else◌, length,
}
use mquickjs_kmp.Buffer.{next_answer, later_answers}
use mquickjs_kmp.Engine.Actions.{alloc_answer}
use mquickjs_kmp.Engine.{Bytes, Value, Doubles, Engine, Act, pure, ◌>>=◌, ◌>>◌}
use mquickjs_kmp.GcRefs.{GcRefs}
use mquickjs_kmp.Jni.Keeps.{JavaLaws}
use mquickjs_kmp.Jni.Values.{new_bytes, new_value, copy_bytes, read_text, read_value}
use mquickjs_kmp.Jni.{
  JniState, calling, more_local, delete_local_ref, new_local, count_block, NativeValue, Java,
  jni_state, jni, run_jni, take_block,
}

-- A Java VM that has still to answer `js`, with no exception pending and after no call that JNI forbids.
pub record AtEase (js : List Bool) (s : JniState) : Type 0 where
  pub answers : s.answers ≡ js
  pub calm : s.pending ≡ false
  pub proper : s.misused ≡ false

module _ {g : GcRefs} {d : Doubles} (java : Java g d) where
  -- An action with its result, when the Java VM and the allocator still answer `as` and `bs`, and what
  -- they still answer afterwards.
  pub record Gives {A : Type 0} (m : Act g A) (a : A) (js js' bs bs' : List Bool) : Type 0 where
    pub from :
        (e : Engine g)
        → AtEase js (jni_state java e)
        → e.table.allocs ≡ bs
        → ((m e).0 ≡ a) × AtEase js' (jni_state java (m e).1) × ((m e).1.table.allocs ≡ bs')

-- An answer for a text that there is.
abbrev pub for_text : Option Bytes → List Bool → List Bool
for_text none rest = rest
for_text (some p) rest = true ∷ rest

module _ {g : GcRefs} {d : Doubles} {java : Java g d} where
  pub pure-Gives : {A : Type 0} (a : A) (js bs : List Bool) → Gives java (pure g a) a js js bs bs
  unfolding pure
  pure-Gives a js bs = record { from = λ e h k. (refl, h, k) }

  pub Gives-then :
      {A B : Type 0} {m : Act g A} {a : A} {b : B} {js js₁ js₂ bs bs₁ bs₂ : List Bool}
      (f : A → Act g B)
      → Gives java m a js js₁ bs bs₁
      → Gives java (f a) b js₁ js₂ bs₁ bs₂
      → Gives java (m >>= f) b js js₂ bs bs₂
  unfolding ◌>>=◌
  Gives-then {m = m} {b = b} {js₂ = js₂} {bs₂ = bs₂} f x y = record {
    from = λ e h k.
        let (value, answers, allocs) = x.from e h k in
        subst
          (λ c.
            ((f c (m e).1).0 ≡ b)
            × AtEase js₂ (jni_state java (f c (m e).1).1)
            × ((f c (m e).1).1.table.allocs ≡ bs₂))
          (sym value) (y.from _ answers allocs);
  }

  pub Gives-next :
      {A B : Type 0} {m : Act g A} {n : Act g B} {a : A} {b : B} {js js₁ js₂ bs bs₁ bs₂ : List Bool}
      → Gives java m a js js₁ bs bs₁
      → Gives java n b js₁ js₂ bs₁ bs₂
      → Gives java (m >> n) b js js₂ bs bs₂
  unfolding ◌>>◌
  Gives-next {m = m} x y = record {
    from = λ e h k. let (value, answers, allocs) = x.from e h k in y.from (m e).1 answers allocs;
  }

module _ {g : GcRefs} {d : Doubles} {java : Java g d} (jl : JavaLaws java) where
  run_jni-Gives :
      (f : JniState → JniState) (js bs : List Bool)
      → ((s : JniState) → AtEase js s → AtEase js (f s))
      → Gives java (run_jni java f) tt js js bs bs
  unfolding run_jni
  run_jni-Gives f js bs same = record {
    from = λ e h k.
        (refl, subst (AtEase js) (sym (jl.state-put _ e.table.ctx)) (same (jni_state java e) h), k);
  }

  -- A call that changes none of the answers, the pending exception and the record of misuse.
  pub plain_call-Gives :
      (f : JniState → JniState) (js bs : List Bool)
      → ((s : JniState) → (f s).answers ≡ s.answers)
      → ((s : JniState) → (f s).pending ≡ s.pending)
      → ((s : JniState) → (f s).misused ≡ s.misused)
      → Gives java (run_jni java f) tt js js bs bs
  plain_call-Gives f js bs answers pending misused = run_jni-Gives f js bs (λ s r. record {
    answers = answers s ∙ r.answers;
    calm = pending s ∙ r.calm;
    proper = misused s ∙ r.proper;
  })

  pub calling-Gives : (js bs : List Bool) → Gives java (run_jni java calling) tt js js bs bs
  unfolding calling
  calling-Gives js bs = run_jni-Gives calling js bs (λ s r. record {
    answers = r.answers;
    calm = r.calm;
    proper = ground (arith, r.calm, r.proper);
  })

  new_local-AtEase :
      (s : JniState) (js : List Bool)
      → AtEase (true ∷ js) s
      → ((new_local s).0 ≡ true) × AtEase js (new_local s).1
  unfolding new_local calling more_local
  new_local-AtEase s js r =
      rw r.answers
        (refl, record { answers = refl; calm = r.calm; proper = ground (arith, r.calm, r.proper) })

  new_local-Gives : (js bs : List Bool) → Gives java (jni java new_local) true (true ∷ js) js bs bs
  unfolding jni
  new_local-Gives js bs = record {
    from = λ e h k.
        let (made, left) = new_local-AtEase (jni_state java e) js h in
        (made, subst (AtEase js) (sym (jl.state-put _ e.table.ctx)) left, k);
  }

  alloc_answer-Gives : (js bs : List Bool) → Gives java (alloc_answer g) true js js (true ∷ bs) bs
  unfolding alloc_answer
  alloc_answer-Gives js bs = record { from = λ e h k. (ap next_answer k, h, ap later_answers k) }

  pub take_block-Gives :
      (js bs : List Bool) → Gives java (take_block java) true js js (true ∷ bs) bs
  unfolding take_block count_block
  take_block-Gives js bs = Gives-then _ (alloc_answer-Gives js bs) (
      Gives-next (plain_call-Gives (count_block true) js bs (λ s. refl) (λ s. refl) (λ s. refl))
        (pure-Gives true js bs))

  region_call-Gives :
      (empty : Bool) (js bs : List Bool)
      → Gives java (if empty then pure g tt else run_jni java calling) tt js js bs bs
  region_call-Gives true js bs = pure-Gives tt js bs
  region_call-Gives false js bs = calling-Gives js bs

  region-Gives :
      (p : Bytes) (js bs : List Bool)
      → Gives java
          ((if length p == 0 then pure g tt else run_jni java calling) >> pure g (some p))
          (some p)
          js
          js
          bs
          bs
  region-Gives p js bs = Gives-next (region_call-Gives (length p == 0) js bs) (pure-Gives _ js bs)

  pub new_bytes-Gives :
      (p : Option Bytes) (js bs : List Bool)
      → Gives java (new_bytes java p) p (for_text p js) js bs bs
  unfolding new_bytes
  new_bytes-Gives none js bs = pure-Gives none js bs
  new_bytes-Gives (some p) js bs = Gives-then _ (new_local-Gives js bs) (region-Gives p js bs)

  copy_bytes-Gives :
      (p : Option Bytes) (js bs : List Bool)
      → Gives java (copy_bytes java p) p js js (for_text p bs) bs
  unfolding copy_bytes
  copy_bytes-Gives none js bs = pure-Gives none js bs
  copy_bytes-Gives (some p) js bs =
      Gives-next (calling-Gives js _) (Gives-then _ (take_block-Gives js bs) (region-Gives p js bs))

  read_text-Gives :
      (p : Option Bytes) (js bs : List Bool)
      → Gives java (read_text java p) p js js (for_text p bs) bs
  unfolding read_text more_local delete_local_ref
  read_text-Gives none js bs = Gives-next (calling-Gives js bs) (copy_bytes-Gives none js bs)
  read_text-Gives (some p) js bs = Gives-next (calling-Gives js _) (
      Gives-next (plain_call-Gives more_local js _ (λ s. refl) (λ s. refl) (λ s. refl)) (
        Gives-then _ (copy_bytes-Gives (some p) js bs) (
          Gives-next (plain_call-Gives delete_local_ref js bs (λ s. refl) (λ s. refl) (λ s. refl))
            (pure-Gives _ js bs))))

  -- The object that stands for a value.
  abbrev pub object_of : Value d.Num → NativeValue d.Num
  object_of v = record { tag = v.tag; ref = v.ref; num = v.num; str = v.str; stack = v.stack }

  pub new_value-Gives :
      (v : Value d.Num) (js bs : List Bool)
      → Gives java
          (new_value java v)
          (some (object_of v))
          (for_text v.str (for_text v.stack (true ∷ js)))
          js
          bs
          bs
  unfolding new_value
  new_value-Gives v js bs = Gives-then _ (new_bytes-Gives v.str _ bs) (
      Gives-then _ (new_bytes-Gives v.stack _ bs)
        (Gives-then _ (new_local-Gives js bs) (pure-Gives _ js bs)))

  read_value-Gives :
      (v : Value d.Num) (js bs : List Bool)
      → Gives java
          (read_value java (some (object_of v)))
          v
          js
          js
          (for_text v.str (for_text v.stack bs))
          bs
  unfolding read_value
  read_value-Gives v js bs = Gives-next (calling-Gives js _) (
      Gives-then _ (read_text-Gives v.str js _)
        (Gives-then _ (read_text-Gives v.stack js bs) (pure-Gives _ js bs)))

  -- While no exception is pending, the Java VM has memory for the object and its texts, and the
  -- allocator for their copies, a value that new_value hands to Java comes back from read_value with the
  -- tag, the handle, the number and the texts that it had, an absent text staying absent and an empty one
  -- empty, and no call is made that JNI forbids.
  pub read_value-new_value :
      (v : Value d.Num) (js bs : List Bool) (e : Engine g)
      → AtEase (for_text v.str (for_text v.stack (true ∷ js))) (jni_state java e)
      → e.table.allocs ≡ for_text v.str (for_text v.stack bs)
      → (((new_value java v >>= read_value java) e).0 ≡ v)
        × AtEase js (jni_state java ((new_value java v >>= read_value java) e).1)
  read_value-new_value v js bs e h k =
      let (value, at_ease, left) =
        (Gives-then _ (new_value-Gives v js (for_text v.str (for_text v.stack bs)))
            (read_value-Gives v js bs)).from
          e h k in
      (value, at_ease)
