-- ===== src/Engine/Books.antt =====
-- The references that a piece of the shim's code takes and gives back, counted for one handle.
pub mod Laws
pub mod Convert
pub mod Refs
pub mod Calls
pub mod Host
pub mod Tests
use mquickjs_kmp.Prelude.{
  ℕ, ◌+◌, ◌≤◌, ◌≡◌, refl, Bool, true, false, Option, none, some, List, arith, if◌then◌else◌,
}
use mquickjs_kmp.Buffer.{Appended}
use mquickjs_kmp.Engine.Actions.{
  begin_run, end_run, push_gc_ref, write_root, pop_gc_ref, alloc_answer, find_slot, new_slot,
  release_slot, Dest, to_str, to_stack, to_fresh, replace_text,
}
use mquickjs_kmp.Engine.Convert.Keeps.{allocs-Valid}
use mquickjs_kmp.Engine.{Bytes, Tag, Value, Engine, Act, pure, ◌>>=◌, ◌>>◌, case_of, ask}
use mquickjs_kmp.GcRefs.{GcRefs, GcRefsLaws}
use mquickjs_kmp.Slots.Held.{held, held-same, one, slot_new-held, ref_release-held}
use mquickjs_kmp.Slots.Preserve.{Valid, slot_new-Valid, ref_release-Valid}
use mquickjs_kmp.Slots.{Table, is_not_positive}

-- The books of the code `m` on the handle `x`: run on a valid table on which `owed` references are
-- there to give back, it gives those back, and takes as many as `lent` says of its result.
pub record Books {g : GcRefs} {A : Type 0} (x owed : ℕ) (lent : A → ℕ) (m : Act g A) : Type 0 where
  pub valid : (e : Engine g) → Valid g e.table → Valid g (m e).1.table
  pub even :
      (e : Engine g)
      → Valid g e.table
      → owed ≤ held g e.table x
      → held g (m e).1.table x + owed ≡ held g e.table x + lent (m e).0

-- The code takes as much as it gives back.
abbrev pub Level : {g : GcRefs} {A : Type 0} → ℕ → Act g A → Type 0
Level x m = Books x 0 (λ _. 0) m

-- The reference that goes out with a value of the host, with the result of a conversion, and with
-- a reply.
abbrev pub lent_by : ℕ → Tag → ℕ → ℕ
lent_by x Tag.ref r = one x r
lent_by x _ r = 0

abbrev pub lent_with : {Num : Type 0} → ℕ → Value Num → ℕ
lent_with x v = lent_by x v.tag v.ref

abbrev pub lent_out : {Num : Type 0} → ℕ → Bool × Value Num → ℕ
lent_out x (true, v) = lent_with x v
lent_out x (false, v) = 0

abbrev pub lent_reply : {Num : Type 0} → ℕ → Bool × Value Num → ℕ
lent_reply x (ok, v) = lent_with x v

module _ {g : GcRefs} {x : ℕ} where
  -- Code that leaves the table alone.
  pub aside : {A : Type 0} (m : Act g A) → ((e : Engine g) → (m e).1.table ≡ e.table) → Level x m
  aside m h = record { valid = λ e v. rw (h e) v; even = λ e v _. rw (h e) }

  other_answers :
      {A : Type 0} (m : Act g A)
      → ((e : Engine g) → (a : List Bool) × ((m e).1.table ≡ record (e.table) { allocs = a }))
      → Level x m
  other_answers m h = record {
    valid = λ e v. rw (h e).1 (allocs-Valid e.table _ v);
    even = λ e v _.
        rw (h e).1
          (omega (arith, held-same g e.table (record (e.table) { allocs = (h e).0 }) refl x));
  }

  pub push-Level : Level x (push_gc_ref g)
  unfolding push_gc_ref
  push-Level = aside _ (λ e. refl)

  pub pop-Level : Level x (pop_gc_ref g)
  unfolding pop_gc_ref
  pop-Level = aside _ (λ e. refl)

  pub write-Level : (v : g.Val) → Level x (write_root g v)
  unfolding write_root
  write-Level v = aside _ (λ e. refl)

  pub begin-Level : Level x (begin_run g)
  unfolding begin_run
  begin-Level = aside _ (λ e. refl)

  pub end-Level : (outermost : Bool) → Level x (end_run g outermost)
  unfolding end_run
  end-Level outermost = aside _ (λ e. refl)

  pub find_slot-Level : (ref : ℕ) → Level x (find_slot g ref)
  unfolding find_slot
  find_slot-Level ref = aside _ (λ e. refl)

  pub alloc_answer-Level : Level x (alloc_answer g)
  unfolding alloc_answer
  alloc_answer-Level = other_answers _ (λ e. (_, refl))

  pub replace_text-Level : (dest : Dest) (p : Bytes) → Level x (replace_text g dest p)
  unfolding replace_text
  replace_text-Level to_str p = other_answers _ (λ e. (_, refl))
  replace_text-Level to_stack p = other_answers _ (λ e. (_, refl))
  replace_text-Level to_fresh p = other_answers _ (λ e. (_, refl))

module _ {g : GcRefs} (laws : GcRefsLaws g) (x : ℕ) (p : is_not_positive x ≡ false) where
  -- A new handle is lent, and a release pays.
  pub new_slot-Books : (v : g.Val) → Books x 0 (one x) (new_slot g v)
  unfolding new_slot
  new_slot-Books v = record {
    valid = λ e ok. slot_new-Valid g laws e.table v ok;
    even = λ e ok _. omega (arith, slot_new-held g e.table v ok x p);
  }

  pub release_slot-Books : (ref : ℕ) → Books x (one x ref) (λ _. 0) (release_slot g ref)
  unfolding release_slot
  release_slot-Books ref = record {
    valid = λ e ok. ref_release-Valid g laws e.table ref ok;
    even = λ e ok h. omega (arith, h, ref_release-held g e.table ref x p);
  }

-- One rule for each way to put actions together.
module _ {g : GcRefs} {x : ℕ} {B : Type 0} {owed : ℕ} {lent : B → ℕ} where
  pub branch :
      (b : Bool) {m n : Act g B}
      → Books x owed lent m
      → Books x owed lent n
      → Books x owed lent (if b then m else n)
  branch true h k = h
  branch false h k = k

  pub framed :
      (more : ℕ) {m : Act g B} → Books x owed lent m → Books x (owed + more) (λ b. lent b + more) m
  framed more h = record {
    valid = h.valid;
    even = λ e v o. omega (arith, o, h.even e v (omega (arith, o)));
  }

  -- The same code, with its references counted from the result in another way.
  pub counted :
      {lent' : B → ℕ} {m : Act g B}
      → ((e : Engine g) → lent (m e).0 ≡ lent' (m e).0)
      → Books x owed lent m
      → Books x owed lent' m
  counted q h = record { valid = h.valid; even = λ e v o. omega (arith, q e, h.even e v o) }

  pub done : (b : B) → owed ≡ lent b → Books x owed lent (pure g b)
  unfolding pure
  done b q = record { valid = λ e v. v; even = λ e v o. omega (arith, q) }

  pub owing : {due : ℕ} {m : Act g B} → due ≡ owed → Books x due lent m → Books x owed lent m
  owing q h = rw q at h

module _ {g : GcRefs} {x : ℕ} {A B : Type 0} {owed : ℕ} {lent : B → ℕ} where
  pub cased :
      (o : Option A) {m : Act g B} {f : A → Act g B}
      → Books x owed lent m
      → ((a : A) → Books x owed lent (f a))
      → Books x owed lent (case_of o m f)
  unfolding case_of
  cased none h k = h
  cased (some a) h k = k a

  pub asked :
      (q : Engine g → A) {f : A → Act g B}
      → ((a : A) → Books x owed lent (f a))
      → Books x owed lent (ask q f)
  unfolding ask
  asked q h = record { valid = λ e. (h (q e)).valid e; even = λ e. (h (q e)).even e }

  pub bind :
      {m : Act g A} {f : A → Act g B}
      → Level x m
      → ((a : A) → Books x owed lent (f a))
      → Books x owed lent (m >>= f)
  unfolding ◌>>=◌
  bind {m} h k = record {
    valid = λ e v. (k (m e).0).valid (m e).1 (h.valid e v);
    even = λ e v o.
        let first = h.even e v (omega arith) in
        omega (arith, first, o, (k (m e).0).even (m e).1 (h.valid e v) (omega (arith, first, o)));
  }

  pub next :
      {m : Act g A} {n : Act g B} → Level x m → Books x owed lent n → Books x owed lent (m >> n)
  unfolding ◌>>◌
  next {m} h k = record {
    valid = λ e v. k.valid (m e).1 (h.valid e v);
    even = λ e v o.
        let first = h.even e v (omega arith) in
        omega (arith, first, o, k.even (m e).1 (h.valid e v) (omega (arith, first, o)));
  }

  -- The code `n` is given the references that `m` does not give back.
  pub pays :
      {first : ℕ} {m : Act g A} {n : Act g B}
      → Books x first (λ _. 0) m
      → Books x owed lent n
      → Books x (owed + first) lent (m >> n)
  unfolding ◌>>◌
  pays {m} h k = record {
    valid = λ e v. k.valid (m e).1 (h.valid e v);
    even = λ e v o.
        let paid = h.even e v (omega (arith, o)) in
        omega (arith, paid, o, k.even (m e).1 (h.valid e v) (omega (arith, paid, o)));
  }

  -- What the first code takes, the second one owes.
  pub lends :
      {some_lent : A → ℕ} {m : Act g A} {f : A → Act g B}
      → Books x owed some_lent m
      → ((a : A) → Books x (some_lent a) lent (f a))
      → Books x owed lent (m >>= f)
  unfolding ◌>>=◌
  lends {m} h k = record {
    valid = λ e v. (k (m e).0).valid (m e).1 (h.valid e v);
    even = λ e v o.
        let first = h.even e v o in
        omega (arith, first, o, (k (m e).0).even (m e).1 (h.valid e v) (omega (arith, first, o)));
  }

  -- The later code may use what is known of the result of the first.
  pub knowing :
      {P : A → Type 0} {m : Act g A} {f : A → Act g B}
      → ((e : Engine g) → P (m e).0)
      → Level x m
      → ((a : A) → P a → Books x owed lent (f a))
      → Books x owed lent (m >>= f)
  unfolding ◌>>=◌
  knowing {m} known h k = record {
    valid = λ e v. (k (m e).0 (known e)).valid (m e).1 (h.valid e v);
    even = λ e v o.
        let first = h.even e v (omega arith) in
        omega (
          arith,
          first,
          o,
          (k (m e).0 (known e)).even (m e).1 (h.valid e v) (omega (arith, first, o)),
        );
  }
