-- ===== src/Jni/Values.antt =====
-- Values between the shim and Java, and the callbacks of an engine: new_bytes to jni_log of
-- native/jni/mquickjs_jni.c.
pub mod Host
pub mod Keeps
pub mod Trip
use mquickjs_kmp.Prelude.{
  ℕ, zero, suc, ◌+◌, ◌==◌, Bool, true, false, ◌&&◌, Option, none, some, List, [], ◌∷◌,
  if◌then◌else◌, length, codes,
}
use mquickjs_kmp.Engine.Actions.{tagged}
use mquickjs_kmp.Engine.{Bytes, Tag, Value, Doubles, Engine, Act, pure, ◌>>=◌, ◌>>◌, case_of, ask}
use mquickjs_kmp.GcRefs.{GcRefs}
use mquickjs_kmp.Jni.{
  JniState, calling, misuse, more_local, delete_local_ref, new_local, push_local_frame,
  pop_local_frame, exception_clear, NativeValue, Java, jni_state, jni, run_jni, take_block,
  free_block,
}

abbrev pub has_text : Option Bytes → Bool
has_text none = false
has_text (some p) = true

abbrev pub is_exception_tag : Tag → Bool
is_exception_tag Tag.exception = true
is_exception_tag _ = false

module _ {g : GcRefs} {d : Doubles} (java : Java g d) where
  -- new_bytes. A byte[] is its content, and none is NULL.
  unfoldable pub new_bytes : Option Bytes → Act g (Option Bytes)
  new_bytes none = pure g none
  new_bytes (some p) = do
    ok ← jni java new_local
    if ok
        then (do if length p == 0 then pure g tt else run_jni java calling; pure g (some p))
        else pure g none

  -- new_value. C leaves open which text is made first; here it is str.
  unfoldable pub new_value : Value d.Num → Act g (Option (NativeValue d.Num))
  new_value v = do
    str ← new_bytes v.str
    stack ← new_bytes v.stack
    ok ← jni java new_local
    pure g (
        if ok
        then some (record { tag = v.tag; ref = v.ref; num = v.num; str = str; stack = stack })
        else none)

  -- copy_bytes: a copy that the caller owns.
  unfoldable pub copy_bytes : Option Bytes → Act g (Option Bytes)
  copy_bytes none = pure g none
  copy_bytes (some p) = do
    run_jni java calling
    ok ← take_block java
    if ok
        then (do if length p == 0 then pure g tt else run_jni java calling; pure g (some p))
        else pure g none

  -- set_error, on a zeroed result.
  unfoldable pub set_error : Bytes → Act g (Value d.Num)
  set_error msg = do
    ok ← take_block java
    pure g (record (tagged d Tag.exception) { str = if ok then some msg else none })

  -- GetObjectField, copy_bytes and DeleteLocalRef for one field.
  unfoldable pub read_text : Option Bytes → Act g (Option Bytes)
  read_text none = do run_jni java calling; copy_bytes none
  read_text (some p) = do
    run_jni java calling
    run_jni java more_local
    text ← copy_bytes (some p)
    run_jni java delete_local_ref
    pure g text

  -- read_value.
  unfoldable pub read_value : Option (NativeValue d.Num) → Act g (Value d.Num)
  read_value none = pure g (tagged d Tag.undefined)
  read_value (some o) = do
    run_jni java calling
    str ← read_text o.str
    stack ← read_text o.stack
    pure g (record { tag = o.tag; ref = o.ref; num = o.num; str = str; stack = stack })

  -- free_value. The same count is taken off when the texts of a result pass to js_kmp_host, which
  -- frees them.
  unfoldable pub free_value : Value d.Num → Act g (Unit {0})
  free_value v = do free_block java (has_text v.str); free_block java (has_text v.stack)

  -- The loop of jni_host that fills the array; a NULL array is not looked at.
  unfoldable pub fill_array : Bool → List (Value d.Num) → Act g (List (Option (NativeValue d.Num)))
  fill_array made [] = pure g []
  fill_array made (v ∷ vs) = do
    o ← new_value v
    run_jni java (if made then calling else misuse)
    os ← fill_array made vs
    pure g (o ∷ os)

  -- What jni_host does between PushLocalFrame and PopLocalFrame; none when the call has thrown.
  unfoldable pub read_result : Option (NativeValue d.Num) → Act g (Option (Value d.Num))
  read_result res = do result ← read_value res; pure g (some result)

  unfoldable pub clear_exception : Act g (Option (Value d.Num))
  clear_exception = do run_jni java exception_clear; pure g none

  unfoldable pub call_java : ℕ → List (Value d.Num) → Act g (Option (Value d.Num))
  call_java fn_id args = do
    made ← jni java new_local
    os ← fill_array made args
    run_jni java calling
    res ← java.on_host_call fn_id os
    case_of res (pure g tt) (λ _. run_jni java more_local)
    ask (λ e. (jni_state java e).pending)
        (λ thrown. if thrown then clear_exception else read_result res)

  -- The result of jni_host: its texts are the caller's from here on.
  unfoldable pub hand_over : ℕ → Value d.Num → Act g (ℕ × Value d.Num)
  hand_over rc result = do free_value result; pure g (rc, result)

  unfoldable pub fail_host : Bytes → Act g (ℕ × Value d.Num)
  fail_host msg = do result ← set_error msg; hand_over 1 result

  unfoldable pub host_in_frame : ℕ → List (Value d.Num) → Act g (ℕ × Value d.Num)
  host_in_frame fn_id args = do
    result ← call_java fn_id args
    run_jni java pop_local_frame
    case_of result (fail_host (codes "uncaught exception in host function"))
        (λ v. hand_over (if is_exception_tag v.tag then 1 else 0) v)

  -- current_env and PushLocalFrame, which is not called without an env.
  unfoldable pub enter_frame : ℕ → Act g Bool
  enter_frame n =
      ask (λ e. (jni_state java e).attached)
        (λ attached. if attached then jni java (push_local_frame n) else pure g false)

  -- jni_host.
  unfoldable pub jni_host : ℕ → List (Value d.Num) → Act g (ℕ × Value d.Num)
  jni_host fn_id args = do
    ok ← enter_frame (length args + 8)
    if ok then host_in_frame fn_id args else fail_host (codes "JNI local frame unavailable")

  -- jni_log.
  unfoldable pub log_in_frame : Bytes → Act g (Unit {0})
  log_in_frame msg = do
    bytes ← new_bytes (some msg)
    run_jni java calling
    java.on_log bytes
    run_jni java exception_clear
    run_jni java pop_local_frame

  unfoldable pub jni_log : Bytes → Act g (Unit {0})
  jni_log msg = do ok ← enter_frame 4; if ok then log_in_frame msg else pure g tt
