-- ===== src/Jni/Natives/Keeps.antt =====
-- What the native methods do to frames and blocks, and to what the shim keeps.
use mathlib.Core.Path.{subst}
use mquickjs_kmp.Prelude.{
  ap, sym, ◌∙◌, ℕ, suc, ◌==◌, ◌&&◌, Bool, true, false, Option, none, some, List, [], ◌∷◌, refl, ◌≡◌,
  arith, if◌then◌else◌, length,
}
use mquickjs_kmp.Bytecode.Load.Keeps.{load_bytecode-Meets}
use mquickjs_kmp.Bytecode.Load.{load_bytecode}
use mquickjs_kmp.Bytecode.{Build}
use mquickjs_kmp.Engine.Calls.Keeps.{ref_call-Meets}
use mquickjs_kmp.Engine.Convert.{until_zero}
use mquickjs_kmp.Engine.Keeps.{Meets}
use mquickjs_kmp.Engine.Laws.{VmKeeps}
use mquickjs_kmp.Engine.Refs.Keeps.{eval-Meets, ref_set-Meets}
use mquickjs_kmp.Engine.Refs.{Reply}
use mquickjs_kmp.Engine.{Bytes, Value, Doubles, Act, pure, ◌>>=◌, ◌>>◌, case_of, Vm}
use mquickjs_kmp.GcRefs.{GcRefs, GcRefsLaws}
use mquickjs_kmp.Jni.Keeps.Rules.{
  more_local-Owns, delete_local_ref-Owns, run_step, a_call, a_local, a_pop,
}
use mquickjs_kmp.Jni.Keeps.Blocks.{owning, owning_comm, free_then, take_then}
use mquickjs_kmp.Jni.Keeps.{
  JavaLaws, Owns, Takes, after, follow, either, of_cases, asking, called, returns, keeps_order,
}
use mquickjs_kmp.Jni.Natives.{
  open_frame, in_native, dup_cstring, reply_value, with_name, eval_copied, eval_method, set_method,
  read_args, free_args, call_read, call_method, stats_method, dump_method, load_method,
}
use mquickjs_kmp.Jni.Values.Keeps.{new_value-Takes, read_value_then, free_value_then, returned}
use mquickjs_kmp.Jni.Values.{has_text}
use mquickjs_kmp.Jni.{JniState, NativeValue, Java, free_block}
use mquickjs_kmp.Lifecycle.Keeps.{dump_memory-Meets}

open_frame-Owns : (n : ℕ) (s : JniState) → Owns 0 n (suc n) s (open_frame s)
unfolding open_frame
open_frame-Owns n s = record { frames = refl; blocks = λ _. omega arith; globals = refl }

module _ {g : GcRefs} {d : Doubles} {java : Java g d} (jl : JavaLaws java) where
  -- A method that ends with nothing but local references of its own keeps the engine in order.
  pub in_native-Meets :
      {A : Type 0} {m : Act g A} → Takes java 0 1 1 m → Meets 0 none (in_native java m)
  unfolding in_native
  in_native-Meets h =
      keeps_order jl
        (follow (run_step jl (open_frame-Owns 0)) (after h (λ a. follow (a_pop jl) (returns a))))

  kept_name :
      {B : Type 0} {held n k : ℕ} (ok : Bool) (p : Bytes) (f : Option Bytes → Act g B)
      → ((r : Option Bytes) → Takes java (owning (has_text r) held) n k (f r))
      → Takes java (owning ok held) n k (f (if ok then some p else none))
  kept_name true p f h = h (some p)
  kept_name false p f h = h none

  pub dup_cstring_then :
      {B : Type 0} {held n k : ℕ} (name : Bytes) (f : Option Bytes → Act g B)
      → ((r : Option Bytes) → Takes java (owning (has_text r) held) n k (f r))
      → Takes java held n k (dup_cstring java name >>= f)
  unfolding dup_cstring ◌>>=◌ ◌>>◌ pure
  dup_cstring_then name f h =
      let whole = follow (a_call jl) (take_then jl (λ ok. kept_name ok (until_zero name) f h)) in
      record { from = λ e. whole.from e }

  copied_name :
      {n : ℕ} (f : Bytes → Act g (Option (NativeValue d.Num)))
      → ((p : Bytes) → Takes java 0 n n (f p))
      → (r : Option Bytes)
      → Takes java
          (owning (has_text r) 0)
          n
          n
          (case_of r (pure g none) (λ p. f p >>= (λ res. free_block java true >> pure g res)))
  unfolding case_of
  copied_name f h none = returns none
  copied_name f h (some p) = after (h p) (λ res. free_then jl true (returns res))

  pub with_name-Takes :
      {n : ℕ} (name : Bytes) (f : Bytes → Act g (Option (NativeValue d.Num)))
      → ((p : Bytes) → Takes java 0 n n (f p))
      → Takes java 0 n n (with_name java name f)
  unfolding with_name
  with_name-Takes name f h = dup_cstring_then name _ (copied_name f h)

  pub reply_value-Takes :
      {n : ℕ} {m : Act g (Reply d)}
      → Meets 0 none m
      → Takes java 0 (suc n) (suc n) (reply_value java m)
  unfolding reply_value
  reply_value-Takes h = after (called jl h) (λ reply. new_value-Takes jl reply.1)

module _ {g : GcRefs} {d : Doubles} {java : Java g d} (jl : JavaLaws java) (vm : Vm g d) where
  -- What the values of a list own.
  abbrev owned_by : List (Value d.Num) → ℕ → ℕ
  owned_by [] held = held
  owned_by (v ∷ vs) held = owning (has_text v.str) (owning (has_text v.stack) (owned_by vs held))

  owned_by_comm :
      (vs : List (Value d.Num)) (b : Bool) (held : ℕ)
      → owned_by vs (owning b held) ≡ owning b (owned_by vs held)
  owned_by_comm [] b held = refl
  owned_by_comm (v ∷ vs) b held =
      ap (λ x. owning (has_text v.str) (owning (has_text v.stack) x)) (owned_by_comm vs b held)
      ∙ ap (owning (has_text v.str)) (owning_comm (has_text v.stack) b (owned_by vs held))
      ∙ owning_comm (has_text v.str) b (owning (has_text v.stack) (owned_by vs held))

  later_owned :
      (v : Value d.Num) (vs : List (Value d.Num)) (held : ℕ)
      → owned_by (v ∷ vs) held
        ≡ owned_by vs (owning (has_text v.str) (owning (has_text v.stack) held))
  later_owned v vs held = sym (
      owned_by_comm vs (has_text v.str) (owning (has_text v.stack) held)
      ∙ ap (owning (has_text v.str)) (owned_by_comm vs (has_text v.stack) held))

  read_args_then :
      {B : Type 0} {n k : ℕ} (os : List (Option (NativeValue d.Num))) {held : ℕ}
      (f : List (Value d.Num) → Act g B)
      → ((vs : List (Value d.Num)) → Takes java (owned_by vs held) (suc n) k (f vs))
      → Takes java held (suc n) k (read_args vm java os >>= f)
  unfolding read_args ◌>>=◌ ◌>>◌ pure
  read_args_then [] f h = returned jl [] f (h [])
  read_args_then {n = n} {k} (o ∷ os) {held} f h =
      let whole = follow (a_call jl) (
        follow (of_cases o (returns tt) (λ _. run_step jl (more_local-Owns n))) (
          read_value_then jl o _ (λ v.
            follow (of_cases o (returns tt) (λ _. run_step jl (delete_local_ref-Owns n))) (
              read_args_then os (λ vs. f (v ∷ vs))
                (λ vs.
                  subst (λ x. Takes java x (suc n) k (f (v ∷ vs))) (later_owned v vs held)
                    (h (v ∷ vs))))))) in
      record { from = λ e. whole.from e }

  free_args_then :
      {B : Type 0} {held n k : ℕ} (vs : List (Value d.Num)) {y : Act g B}
      → Takes java held n k y
      → Takes java (owned_by vs held) n k (free_args vm java vs >> y)
  unfolding free_args ◌>>◌ pure
  free_args_then [] h = record { from = h.from }
  free_args_then (v ∷ vs) h =
      let whole = free_value_then jl v (free_args_then vs h) in record { from = λ e. whole.from e }

module _ {g : GcRefs} (laws : GcRefsLaws g) {d : Doubles} (vm : Vm g d) (k : VmKeeps vm)
    {java : Java g d} (jl : JavaLaws java) where
  eval_copied-Takes :
      (code filename : Bytes) (flags : ℕ)
      → Takes java 2 1 1 (eval_copied vm java code filename flags)
  unfolding eval_copied
  eval_copied-Takes code filename flags =
      after (called jl (eval-Meets laws vm k code _ flags)) (λ out.
        after (new_value-Takes jl out) (λ res. free_then jl true (free_then jl true (returns res))))

  two_copies :
      (code filename : Bytes) (flags : ℕ) (a b : Bool)
      → Takes java (owning b (owning a 0)) 1 1 (
          if a && b
          then eval_copied vm java code filename flags
          else (free_block java a >> (free_block java b >> pure g none)))
  two_copies code filename flags true true = eval_copied-Takes code filename flags
  two_copies code filename flags true false = free_then jl true (free_then jl false (returns none))
  two_copies code filename flags false true = free_then jl false (free_then jl true (returns none))
  two_copies code filename flags false false =
      free_then jl false (free_then jl false (returns none))

  pub eval_method-Takes :
      (code filename : Bytes) (flags : ℕ)
      → Takes java 0 1 1 (eval_method vm java code filename flags)
  unfolding eval_method
  eval_method-Takes code filename flags =
      follow (a_call jl)
        (take_then jl (λ a. take_then jl (λ b. two_copies code filename flags a b)))

  pub set_method-Takes :
      (ref : ℕ) (value : Option (NativeValue d.Num)) (name : Bytes)
      → Takes java 0 1 1 (set_method vm java ref value name)
  unfolding set_method
  set_method-Takes ref value name = read_value_then jl value _ (λ v.
      after (called jl (ref_set-Meets laws vm k ref name v))
        (λ reply. after (new_value-Takes jl reply.1) (λ res. free_value_then jl v (returns res))))

  call_read-Takes :
      (ref this_ref : ℕ) (os : List (Option (NativeValue d.Num))) (flags : ℕ) (held : Bool)
      → Takes java (owning held 0) 1 1 (call_read vm java ref this_ref os flags held)
  unfolding call_read
  call_read-Takes ref this_ref os flags held = read_args_then jl vm os _ (λ vs.
      after (called jl (ref_call-Meets laws vm k ref this_ref vs flags)) (λ reply.
        after (new_value-Takes jl reply.1)
          (λ res. free_args_then jl vm vs (free_then jl held (returns res)))))

  call_taken :
      (ref this_ref : ℕ) (os : List (Option (NativeValue d.Num))) (flags : ℕ) (ok : Bool)
      → Takes java
          (owning ok 0)
          1
          1
          (if ok then call_read vm java ref this_ref os flags true else pure g none)
  call_taken ref this_ref os flags true = call_read-Takes ref this_ref os flags true
  call_taken ref this_ref os flags false = returns none

  pub call_method-Takes :
      (ref this_ref : ℕ) (os : List (Option (NativeValue d.Num))) (flags : ℕ)
      → Takes java 0 1 1 (call_method vm java ref this_ref os flags)
  unfolding call_method
  call_method-Takes ref this_ref os flags =
      either (length os == 0) (call_read-Takes ref this_ref os flags false)
        (take_then jl (λ ok. call_taken ref this_ref os flags ok))

  pub stats_method-Takes : Takes java 0 1 1 (stats_method vm java)
  unfolding stats_method
  stats_method-Takes =
      after (a_local jl)
        (λ ok. either ok (follow (a_call jl) (asking _ (λ st. returns _))) (returns none))

  pub dump_method-Takes : Takes java 0 1 1 (dump_method vm java)
  unfolding dump_method
  dump_method-Takes = after (called jl (dump_memory-Meets vm k)) (λ out. new_value-Takes jl out)

  load_taken :
      (b : Build) (bytes : Bytes) (ok : Bool)
      → Takes java (owning ok 0) 1 1 (
          if ok
          then (reply_value java (load_bytecode vm b bytes) >>= λ res.
              free_block java true >> pure g res)
          else pure g none)
  load_taken b bytes true =
      after (reply_value-Takes jl (load_bytecode-Meets laws vm k b bytes))
        (λ res. free_then jl true (returns res))
  load_taken b bytes false = returns none

  pub load_method-Takes :
      (b : Build) (bytes : Bytes) → Takes java 0 1 1 (load_method vm java b bytes)
  unfolding load_method
  load_method-Takes b bytes = follow (a_call jl) (take_then jl (λ ok. load_taken b bytes ok))
