-- ===== src/Engine/Texts.antt =====
-- The texts that a call leaves in *out: pointers into out_str and out_stack of kmpjs_engine, which
-- are right as long as nothing is written to these buffers behind them.
pub mod Calls
pub mod Convert
pub mod Errors
pub mod Refs
use mquickjs_kmp.Prelude.{
  ℕ, ◌≡◌, refl, sym, ◌∙◌, Bool, true, false, Option, none, some, if◌then◌else◌,
}
use mquickjs_kmp.Buffer.{Buffer, publish}
use mquickjs_kmp.Engine.Actions.{end_run, pop_gc_ref, to_str, to_stack, replace_text}
use mquickjs_kmp.Engine.{Bytes, Value, Engine, Act, pure, ◌>>=◌, ◌>>◌, case_of, ask}
use mquickjs_kmp.GcRefs.{GcRefs}

-- A text, if there is one, is what the buffer shows now.
abbrev pub IsIn : Buffer → Option Bytes → Type 0
IsIn b none = Unit {0}
IsIn b (some p) = p ≡ publish b

-- The texts of a value are what the two buffers of the engine show.
pub record Shown {g : GcRefs} {Num : Type 0} (e : Engine g) (v : Value Num) : Type 0 where
  pub str : IsIn e.out_str v.str
  pub stack : IsIn e.out_stack v.stack

-- The value of a reply.
abbrev pub reply_value : {Num : Type 0} → Bool × Value Num → Value Num
reply_value r = r.1

-- Code with a value in its result, whose texts are shown when it is over; and code that is run when
-- those of the value `u` are shown already.
pub record Shows {g : GcRefs} {A Num : Type 0} (v : A → Value Num) (m : Act g A) : Type 0 where
  pub from : (e : Engine g) → Shown (m e).1 (v (m e).0)

pub record Carries {g : GcRefs} {A Num : Type 0} (u : Value Num) (v : A → Value Num) (m : Act g A)
    : Type 0 where
  pub from : (e : Engine g) → Shown e u → Shown (m e).1 (v (m e).0)

-- The same for a text alone.
pub record Puts {g : GcRefs} {A : Type 0} (text : A → Option Bytes) (b : Engine g → Buffer)
    (m : Act g A) : Type 0 where
  pub from : (e : Engine g) → IsIn (b (m e).1) (text (m e).0)

-- Code that leaves out_str alone.
pub record Spares {g : GcRefs} {A : Type 0} (m : Act g A) : Type 0 where
  pub from : (e : Engine g) → (m e).1.out_str ≡ e.out_str

module _ {g : GcRefs} {Num B : Type 0} {v : B → Value Num} where
  pub branch : (b : Bool) {m n : Act g B} → Shows v m → Shows v n → Shows v (if b then m else n)
  branch true h k = h
  branch false h k = k

  -- A value without texts.
  pub plain : (b : B) → (v b).str ≡ none → (v b).stack ≡ none → Shows v (pure g b)
  unfolding pure
  plain b p q = record { from = λ e. record { str = rw p tt; stack = rw q tt } }

  pub carries : {u : Value Num} {m : Act g B} → Shows v m → Carries u v m
  carries h = record { from = λ e _. h.from e }

  pub carried_branch :
      {u : Value Num} (b : Bool) {m n : Act g B}
      → Carries u v m
      → Carries u v n
      → Carries u v (if b then m else n)
  carried_branch true h k = h
  carried_branch false h k = k

  pub same_value : {u : Value Num} (b : B) → v b ≡ u → Carries u v (pure g b)
  unfolding pure
  same_value b p = record { from = λ e h. rw p h }

  -- What is carried past the end of a run or the removal of a root.
  pub past_end :
      {u : Value Num} (outermost : Bool) {m : Act g B}
      → Carries u v m
      → Carries u v (end_run g outermost >> m)
  unfolding ◌>>◌ end_run
  past_end outermost h = record {
    from = λ e s. h.from (end_run g outermost e).1 (record { str = s.str; stack = s.stack });
  }

  pub past_pop : {u : Value Num} {m : Act g B} → Carries u v m → Carries u v (pop_gc_ref g >> m)
  unfolding ◌>>◌ pop_gc_ref
  past_pop h = record {
    from = λ e s. h.from (pop_gc_ref g e).1 (record { str = s.str; stack = s.stack });
  }

module _ {g : GcRefs} {Num A B : Type 0} {v : B → Value Num} where
  pub cased :
      (x : Option A) {m : Act g B} {f : A → Act g B}
      → Shows v m
      → ((a : A) → Shows v (f a))
      → Shows v (case_of x m f)
  unfolding case_of
  cased none h k = h
  cased (some a) h k = k a

  pub asked : (q : Engine g → A) {f : A → Act g B} → ((a : A) → Shows v (f a)) → Shows v (ask q f)
  unfolding ask
  asked q h = record { from = λ e. (h (q e)).from e }

  -- Whatever runs before the texts are made does not matter.
  pub behind : (m : Act g A) {f : A → Act g B} → ((a : A) → Shows v (f a)) → Shows v (m >>= f)
  unfolding ◌>>=◌
  behind m k = record { from = λ e. (k (m e).0).from (m e).1 }

  pub after : (m : Act g A) {n : Act g B} → Shows v n → Shows v (m >> n)
  unfolding ◌>>◌
  after m k = record { from = λ e. k.from (m e).1 }

  pub showing :
      {u : A → Value Num} {m : Act g A} {f : A → Act g B}
      → Shows u m
      → ((a : A) → Carries (u a) v (f a))
      → Shows v (m >>= f)
  unfolding ◌>>=◌
  showing {m = m} h k = record { from = λ e. (k (m e).0).from (m e).1 (h.from e) }
