-- ===== src/Jni/Values/Keeps.antt =====
-- What the conversions between the shim and Java do to frames and blocks.
use mathlib.Core.Path.{subst}
use mquickjs_kmp.Prelude.{
  ℕ, suc, ◌==◌, Bool, true, false, Option, none, some, if◌then◌else◌, length,
}
use mquickjs_kmp.Engine.{Bytes, Value, Doubles, Act, pure, ◌>>=◌, ◌>>◌}
use mquickjs_kmp.GcRefs.{GcRefs}
use mquickjs_kmp.Jni.Keeps.Rules.{more_local-Owns, delete_local_ref-Owns, run_step, a_call, a_local}
use mquickjs_kmp.Jni.Keeps.Blocks.{owning, owning_comm, free_then, take_then}
use mquickjs_kmp.Jni.Keeps.{JavaLaws, Takes, after, follow, either, returns}
use mquickjs_kmp.Jni.Values.{
  has_text, new_bytes, new_value, copy_bytes, read_text, read_value, free_value,
}
use mquickjs_kmp.Jni.{calling, delete_local_ref, NativeValue, Java, run_jni}

module _ {g : GcRefs} {d : Doubles} {java : Java g d} (jl : JavaLaws java) where
  pub new_bytes-Takes : {n : ℕ} (p : Option Bytes) → Takes java 0 (suc n) (suc n) (new_bytes java p)
  unfolding new_bytes
  new_bytes-Takes none = returns none
  new_bytes-Takes (some p) = after (a_local jl) (λ ok.
      either ok (follow (either (length p == 0) (returns tt) (a_call jl)) (returns _))
        (returns none))

  pub new_value-Takes : {n : ℕ} (v : Value d.Num) → Takes java 0 (suc n) (suc n) (new_value java v)
  unfolding new_value
  new_value-Takes v =
      after (new_bytes-Takes v.str)
        (λ str. after (new_bytes-Takes v.stack) (λ stack. after (a_local jl) (λ ok. returns _)))

  -- A null text costs nothing, a copied one a block.
  pub returned :
      {A B : Type 0} {held n k : ℕ} (a : A) (f : A → Act g B)
      → Takes java held n k (f a)
      → Takes java held n k (pure g a >>= f)
  unfolding ◌>>=◌ pure
  returned a f h = record { from = h.from }

  copied :
      {B : Type 0} {held n k : ℕ} (p : Bytes) (ok : Bool) (f : Option Bytes → Act g B)
      → ((r : Option Bytes) → Takes java (owning (has_text r) held) n k (f r))
      → Takes java (owning ok held) n k (
          (if ok
            then ((if length p == 0 then pure g tt else run_jni java calling) >> pure g (some p))
            else pure g none)
          >>= f)
  unfolding ◌>>=◌ ◌>>◌ pure
  copied p true f h =
      let whole = follow (either (length p == 0) (returns tt) (a_call jl)) (h (some p)) in
      record { from = λ e. whole.from e }
  copied p false f h = record { from = λ e. (h none).from e }

  copy_bytes_then :
      {B : Type 0} {held n k : ℕ} (p : Option Bytes) (f : Option Bytes → Act g B)
      → ((r : Option Bytes) → Takes java (owning (has_text r) held) n k (f r))
      → Takes java held n k (copy_bytes java p >>= f)
  unfolding copy_bytes ◌>>=◌ ◌>>◌
  copy_bytes_then none f h = returned none f (h none)
  copy_bytes_then (some p) f h =
      let whole = follow (a_call jl) (take_then jl (λ ok. copied p ok f h)) in
      record { from = λ e. whole.from e }

  read_text_then :
      {B : Type 0} {held n k : ℕ} (p : Option Bytes) (f : Option Bytes → Act g B)
      → ((r : Option Bytes) → Takes java (owning (has_text r) held) (suc n) k (f r))
      → Takes java held (suc n) k (read_text java p >>= f)
  unfolding read_text ◌>>=◌ ◌>>◌ pure
  read_text_then none f h =
      let whole = follow (a_call jl) (copy_bytes_then none f h) in
      record { from = λ e. whole.from e }
  read_text_then {n = n} (some p) f h =
      let whole = follow (a_call jl) (
        follow (run_step jl (more_local-Owns n)) (
          copy_bytes_then (some p) (λ r. run_jni java delete_local_ref >> f r)
            (λ r. follow (run_step jl (delete_local_ref-Owns n)) (h r)))) in
      record { from = λ e. whole.from e }

  -- What comes after read_value owns its texts.
  pub read_value_then :
      {B : Type 0} {held n k : ℕ} (o : Option (NativeValue d.Num)) (f : Value d.Num → Act g B)
      → ((v : Value d.Num)
          → Takes java (owning (has_text v.str) (owning (has_text v.stack) held)) (suc n) k (f v))
      → Takes java held (suc n) k (read_value java o >>= f)
  unfolding read_value ◌>>=◌ ◌>>◌ pure
  read_value_then none f h = returned _ f (h _)
  read_value_then {held = held} {n} {k} (some o) f h =
      let ending : (str stack : Option Bytes) → Value d.Num =
        λ str stack. record { tag = o.tag; ref = o.ref; num = o.num; str = str; stack = stack } in
      let whole = follow (a_call jl) (
        read_text_then o.str _ (λ str.
          read_text_then o.stack (λ stack. f (ending str stack))
            (λ stack.
              subst (λ x. Takes java x (suc n) k (f (ending str stack)))
                (owning_comm (has_text str) (has_text stack) held) (h (ending str stack))))) in
      record { from = λ e. whole.from e }

  pub free_value_then :
      {B : Type 0} {held n k : ℕ} (v : Value d.Num) {y : Act g B}
      → Takes java held n k y
      → Takes java
          (owning (has_text v.str) (owning (has_text v.stack) held))
          n
          k
          (free_value java v >> y)
  unfolding free_value ◌>>◌
  free_value_then v h =
      let whole = free_then jl (has_text v.str) (free_then jl (has_text v.stack) h) in
      record { from = λ e. whole.from e }
