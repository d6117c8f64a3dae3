-- ===== src/Jni/Values/Host.antt =====
-- The callbacks jni_host and jni_log, as the shim's host and log.
use mquickjs_kmp.Prelude.{
  ℕ, suc, ◌+◌, Bool, true, false, Option, none, some, List, [], ◌∷◌, if◌then◌else◌, length, codes,
}
use mquickjs_kmp.Engine.Actions.{tagged}
use mquickjs_kmp.Engine.Entries.{Restored, kmp_host-Restored}
use mquickjs_kmp.Engine.Host.Keeps.{HostKeeps}
use mquickjs_kmp.Engine.Host.{kmp_host}
use mquickjs_kmp.Engine.Keeps.{Meets}
use mquickjs_kmp.Engine.Laws.{VmKeeps}
use mquickjs_kmp.Engine.{
  Bytes, Tag, Value, Doubles, Engine, Act, pure, ◌>>=◌, ◌>>◌, case_of, ask, Vm,
}
use mquickjs_kmp.GcRefs.{GcRefs, GcRefsLaws}
use mquickjs_kmp.Jni.Keeps.Rules.{
  calling-Owns, misuse-Owns, exception_clear-Owns, more_local-Owns, run_step, a_call, a_local,
  a_pop,
}
use mquickjs_kmp.Jni.Keeps.Blocks.{owning, take_then, enter_then}
use mquickjs_kmp.Lifecycle.Keeps.{LogKeeps}
use mquickjs_kmp.Jni.Keeps.{
  Kept, JavaLaws, Takes, after, follow, of_cases, asking, called, returns, keeps_order,
}
use mquickjs_kmp.Jni.Values.Keeps.{
  new_bytes-Takes, new_value-Takes, read_value_then, free_value_then,
}
use mquickjs_kmp.Jni.Values.{
  has_text, is_exception_tag, set_error, fill_array, read_result, clear_exception, call_java,
  hand_over, fail_host, host_in_frame, jni_host, log_in_frame, jni_log,
}
use mquickjs_kmp.Jni.{pop_local_frame, NativeValue, Java, jni_state, run_jni}
use mquickjs_kmp.Slots.Preserve.{Valid}

-- What is assumed of the Java code in a callback: it comes back to the bridge with the engine in
-- order, however often it enters it.
pub record CallbacksKeep {g : GcRefs} {d : Doubles} (java : Java g d) : Type 0 where
  pub host_call :
      (id : ℕ) (os : List (Option (NativeValue d.Num))) → Meets 0 none (java.on_host_call id os)
  pub log : (bytes : Option Bytes) → Meets 0 none (java.on_log bytes)

abbrev texts_of : {Num : Type 0} → Option (Value Num) → ℕ → ℕ
texts_of none held = held
texts_of (some v) held = owning (has_text v.str) (owning (has_text v.stack) held)

module _ {g : GcRefs} {d : Doubles} {java : Java g d} (jl : JavaLaws java)
    (calls : CallbacksKeep java) where
  fill_array-Takes :
      {n : ℕ} (made : Bool) (vs : List (Value d.Num))
      → Takes java 0 (suc n) (suc n) (fill_array java made vs)
  unfolding fill_array
  fill_array-Takes made [] = returns []
  fill_array-Takes {n} true (v ∷ vs) = after (new_value-Takes jl v) (λ o.
      follow (run_step jl (calling-Owns (suc n)))
        (after (fill_array-Takes true vs) (λ os. returns _)))
  fill_array-Takes {n} false (v ∷ vs) = after (new_value-Takes jl v) (λ o.
      follow (run_step jl (misuse-Owns (suc n)))
        (after (fill_array-Takes false vs) (λ os. returns _)))

  outcome :
      {B : Type 0} {n k : ℕ} (thrown : Bool) (res : Option (NativeValue d.Num))
      (f : Option (Value d.Num) → Act g B)
      → ((r : Option (Value d.Num)) → Takes java (texts_of r 0) (suc n) k (f r))
      → Takes java 0
          (suc n)
          k
          ((if thrown then clear_exception java else read_result java res) >>= f)
  unfolding clear_exception read_result ◌>>=◌ ◌>>◌ pure
  outcome {n = n} true res f h =
      let whole = follow (run_step jl (exception_clear-Owns (suc n))) (h none) in
      record { from = λ e. whole.from e }
  outcome false res f h =
      let whole = read_value_then jl res (λ v. f (some v)) (λ v. h (some v)) in
      record { from = λ e. whole.from e }

  call_java_then :
      {B : Type 0} {n k : ℕ} (id : ℕ) (args : List (Value d.Num))
      (f : Option (Value d.Num) → Act g B)
      → ((r : Option (Value d.Num)) → Takes java (texts_of r 0) (suc n) k (f r))
      → Takes java 0 (suc n) k (call_java java id args >>= f)
  unfolding call_java ◌>>=◌ ◌>>◌ ask
  call_java_then {n = n} id args f h =
      let whole = after (a_local jl) (λ made. after (fill_array-Takes made args) (λ os.
        follow (a_call jl) (
          after (called jl (calls.host_call id os)) (λ res.
            follow (of_cases res (returns tt) (λ _. run_step jl (more_local-Owns n)))
              (asking (λ e. (jni_state java e).pending) (λ thrown. outcome thrown res f h)))))) in
      record { from = λ e. whole.from e }

  hand_over-Takes :
      {n : ℕ} (rc : ℕ) (v : Value d.Num)
      → Takes java (owning (has_text v.str) (owning (has_text v.stack) 0)) n n (hand_over java rc v)
  unfolding hand_over
  hand_over-Takes rc v = free_value_then jl v (returns (rc, v))

  failed :
      {n : ℕ} (msg : Bytes) (ok : Bool)
      → Takes java (owning ok 0) n n (
          hand_over java 1
            (record (tagged d Tag.exception) { str = if ok then some msg else none }))
  failed msg true = hand_over-Takes 1 _
  failed msg false = hand_over-Takes 1 _

  fail_host-Takes : {n : ℕ} (msg : Bytes) → Takes java 0 n n (fail_host java msg)
  unfolding fail_host set_error ◌>>=◌ pure
  fail_host-Takes msg = let whole = take_then jl (failed msg) in record { from = λ e. whole.from e }

  ended :
      {n : ℕ} (r : Option (Value d.Num))
      → Takes java (texts_of r 0) n n (
          case_of r
            (fail_host java (codes "uncaught exception in host function"))
            (λ v. hand_over java (if is_exception_tag v.tag then 1 else 0) v))
  unfolding case_of
  ended none = fail_host-Takes _
  ended (some v) = hand_over-Takes _ v

  pop_step :
      {B : Type 0} {held n k : ℕ} {y : Act g B}
      → Takes java held n k y
      → Takes java held (suc n) k (run_jni java pop_local_frame >> y)
  pop_step h = follow (a_pop jl) h

  host_in_frame-Takes :
      {n : ℕ} (id : ℕ) (args : List (Value d.Num))
      → Takes java 0 (suc n) n (host_in_frame java id args)
  unfolding host_in_frame
  host_in_frame-Takes {n} id args = call_java_then id args _ (λ r. pop_step (ended r))

  jni_host-Takes :
      {n : ℕ} (id : ℕ) (args : List (Value d.Num)) → Takes java 0 n n (jni_host java id args)
  unfolding jni_host
  jni_host-Takes id args =
      enter_then jl (length args + 8) _ (host_in_frame-Takes id args) (fail_host-Takes _)

  log_in_frame-Takes : {n : ℕ} (msg : Bytes) → Takes java 0 (suc n) n (log_in_frame java msg)
  unfolding log_in_frame
  log_in_frame-Takes {n} msg = after (new_bytes-Takes jl (some msg)) (λ bytes. follow (a_call jl) (
      follow (called jl (calls.log bytes))
        (follow (run_step jl (exception_clear-Owns (suc n))) (a_pop jl))))

  jni_log-Takes : {n : ℕ} (msg : Bytes) → Takes java 0 n n (jni_log java msg)
  unfolding jni_log
  jni_log-Takes msg = enter_then jl 4 _ (log_in_frame-Takes msg) (returns tt)

  pub jni_host-HostKeeps : HostKeeps g d (some (jni_host java))
  jni_host-HostKeeps id args = keeps_order jl (jni_host-Takes id args)

  pub jni_log-LogKeeps : LogKeeps g (some (jni_log java))
  jni_log-LogKeeps msg = keeps_order jl (jni_log-Takes msg)

-- After a call through the bridge: what the shim keeps, and what the bridge has of the Java VM.
pub record Bridged {g : GcRefs} {d : Doubles} (java : Java g d) (e e' : Engine g) : Type 0 where
  pub shim : Restored e e'
  pub bridge : Kept (jni_state java e) (jni_state java e')

pub bridged :
    {g : GcRefs} {d : Doubles} {java : Java g d} (jl : JavaLaws java) (e e' : Engine g)
    → Restored e e'
    → Bridged java e e'
bridged jl e e' r = record { shim = r; bridge = jl.Same-Kept e.table.ctx e'.table.ctx r.rest }

module _ {g : GcRefs} (laws : GcRefsLaws g) {d : Doubles} (vm : Vm g d) (k : VmKeeps vm)
    {java : Java g d} (jl : JavaLaws java) (calls : CallbacksKeep java) where
  -- Where the calls of the JavaScript engine and the Java code of the callbacks come back with the
  -- engine in order, a call of a host function over JNI does so on every path, from a valid ref
  -- table: the table is valid, the roots are balanced, an idle engine is idle and an interrupted one
  -- interrupted; each frame of local references is as it was, and the bridge owns as many C blocks
  -- and global references as before.
  pub host_over_jni :
      (argc : ℕ) (argv : ℕ → Engine g → g.Val) (params : g.Val) (e : Engine g)
      → Valid g e.table
      → Bridged java e (kmp_host vm (some (jni_host java)) argc argv params e).1
  host_over_jni argc argv params e v = bridged jl e _ (
      kmp_host-Restored laws vm k (some (jni_host java)) (jni_host-HostKeeps jl calls) argc argv
        params e v)
