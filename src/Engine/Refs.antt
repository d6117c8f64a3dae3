-- ===== src/Engine/Refs.antt =====
-- kmpjs_eval and the kmpjs_ref_* functions. A function that returns 0 or -1 gives true or false
-- here, and with it what is in *out.
pub mod Keeps
use mquickjs_kmp.Prelude.{
  ℕ, zero, suc, ◌+◌, ◌-◌, ◌^◌, ◌==◌, leb, Bool, true, false, ◌&&◌, ◌||◌, Option, none, some, List,
  [], ◌∷◌, if◌then◌else◌, length, get_or, codes,
}
use mquickjs_kmp.Engine.Actions.{
  reads, begin_run, end_run, push_gc_ref, write_root, pop_gc_ref, top_root, alloc_answer, find_slot,
  slot_val, to_str, replace_text, tagged, fail_message,
}
use mquickjs_kmp.Engine.Convert.{
  eval_retval, copy_js_string, json_stringify, value_to_out, exception_to_out, parse_terminated,
  value_from_host,
}
use mquickjs_kmp.Engine.{
  Bytes, Tag, Value, Doubles, Engine, Act, pure, ◌>>=◌, ◌>>◌, case_of, ask, Vm,
}
use mquickjs_kmp.GcRefs.{GcRefs}
use mquickjs_kmp.RunState.{RunState}
use mquickjs_kmp.Slots.{Slot}

abbrev pub Reply : Doubles → Type 0
Reply d = Bool × Value d.Num

module _ {g : GcRefs} {d : Doubles} (vm : Vm g d) where
  open vm use {is_exception, is_undefined, is_function, get_property_str}

  -- The end of each failing path: *out holds the exception.
  unfoldable pub report_exception : Act g (Reply d)
  report_exception = do out ← exception_to_out vm; pure g (false, out)

  -- `if (JS_IsException(v) || value_to_out(...)) exception_to_out(...)`.
  unfoldable pub deliver : g.Val → ℕ → Act g (Reply d)
  deliver v flags = if is_exception v then report_exception else do
    (ok, out) ← value_to_out vm v to_str flags
    if ok then pure g (true, out) else report_exception

  -- kmpjs_eval, which reports a failure by the tag of *out alone.
  unfoldable pub eval : Bytes → Bytes → ℕ → Act g (Value d.Num)
  eval code filename flags = do
    outermost ← begin_run g
    r ← parse_terminated vm code filename eval_retval true
    (_, out) ← deliver r flags
    end_run g outermost
    pure g out

  -- finish, after the call whose result it is given.
  unfoldable pub finish : Bool → g.Val → ℕ → Act g (Reply d)
  finish outermost v flags = do reply ← deliver v flags; end_run g outermost; pure g reply

  abbrev pub invalid_ref : Act g (Reply d)
  invalid_ref = fail_message g d (codes "invalid or released ref")

  -- kmpjs_ref_get.
  unfoldable pub ref_get : ℕ → Bytes → ℕ → Act g (Reply d)
  ref_get ref name flags = do
    s ← find_slot g ref
    case_of s invalid_ref λ slot. do
      outermost ← begin_run g
      v ← get_property_str slot.val name
      finish outermost v flags

  -- kmpjs_ref_get_index. The index is the bit pattern of an int32_t.
  unfoldable pub ref_get_index : ℕ → ℕ → ℕ → Act g (Reply d)
  ref_get_index ref index flags = do
    s ← find_slot g ref
    case_of s invalid_ref λ slot.
        if leb (2 ^ 31) index then fail_message g d (codes "negative index") else do
          outermost ← begin_run g
          v ← vm.get_property_uint32 slot.val index
          finish outermost v flags

  -- The two ends of kmpjs_ref_set: an exception, and the write of the converted, rooted value.
  unfoldable pub end_failed : Bool → Act g (Reply d)
  end_failed outermost = do reply ← report_exception; end_run g outermost; pure g reply

  unfoldable pub set_rooted : ℕ → Bytes → Bool → Act g (Reply d)
  set_rooted ref name outermost = do
    r ← ask (slot_val g ref) (λ target. ask (top_root g) (λ v. vm.set_property_str target name v))
    pop_gc_ref g
    if is_exception r
        then end_failed outermost
        else do end_run g outermost; pure g (true, tagged d Tag.undefined)

  -- kmpjs_ref_set.
  unfoldable pub ref_set : ℕ → Bytes → Value d.Num → Act g (Reply d)
  ref_set ref name value = do
    s ← find_slot g ref
    case_of s invalid_ref λ _. do
      outermost ← begin_run g
      push_gc_ref g
      v ← value_from_host vm value
      write_root g v
      if is_exception v
          then (do pop_gc_ref g; end_failed outermost)
          else set_rooted ref name outermost

  -- kmpjs_ref_to_json: the end, and the whole.
  unfoldable pub json_reply : g.Val → Act g (Reply d)
  json_reply json =
      if is_exception json
      then report_exception
      else if is_undefined json
      then pure g (true, tagged d Tag.object)
      else do
        text ← copy_js_string vm json to_str
        case_of text report_exception
            (λ p. pure g (true, record (tagged d Tag.object) { str = some p }))

  unfoldable pub object_to_json : ℕ → Act g (Reply d)
  object_to_json ref = do
    outermost ← begin_run g
    json ← json_stringify vm (slot_val g ref)
    reply ← json_reply json
    end_run g outermost
    pure g reply

  unfoldable pub ref_to_json : ℕ → Act g (Reply d)
  ref_to_json ref = do
    s ← find_slot g ref
    case_of s invalid_ref λ slot.
        ask (λ e. is_function e slot.val)
          (λ function. if function then pure g (true, tagged d Tag.object) else object_to_json ref)

  -- kmpjs_run_program.
  unfoldable pub run_program : ℕ → ℕ → Act g (Reply d)
  run_program ref flags = do
    s ← find_slot g ref
    case_of s (fail_message g d (codes "invalid or released program ref"))
        λ slot. do outermost ← begin_run g; v ← vm.run slot.val; finish outermost v flags
