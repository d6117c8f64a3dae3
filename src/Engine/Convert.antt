-- ===== src/Engine/Convert.antt =====
-- Conversion of values between JavaScript and the host.
pub mod Keeps
pub mod Tests
pub mod Text
pub mod Trip
use mquickjs_kmp.Prelude.{
  ℕ, ◌+◌, ◌%◌, ◌==◌, Bool, true, false, not, ◌&&◌, ◌||◌, Option, none, some, List, [], ◌∷◌, ◌++◌,
  if◌then◌else◌, length, codes,
}
use mquickjs_kmp.Engine.Actions.{
  reads, push_gc_ref, write_root, pop_gc_ref, top_root, next_root, alloc_answer, find_slot,
  new_slot, Dest, to_str, to_stack, to_fresh, replace_text, tagged,
}
use mquickjs_kmp.Engine.{
  Bytes, Tag, Value, Doubles, Engine, Act, pure, ◌>>=◌, ◌>>◌, case_of, ask, Vm,
}
use mquickjs_kmp.GcRefs.{GcRefs}

-- KMPJS_REF_FUNCTION, KMPJS_REF_ARRAY, and the flag KMPJS_FLAG_REF_OBJECTS, which is bit 0.
abbrev pub ref_function : ℕ
ref_function = 1

abbrev pub ref_array : ℕ
ref_array = 2

abbrev pub wants_refs : ℕ → Bool
wants_refs flags = flags % 2 == 1

-- JS_EVAL_RETVAL and JS_EVAL_JSON of mquickjs.h.
abbrev pub eval_retval : ℕ
eval_retval = 1

abbrev pub eval_json : ℕ
eval_json = 8

-- The text of "%s": it ends at its first zero byte.
unfoldable pub until_zero : Bytes → Bytes
until_zero [] = []
until_zero (b ∷ bs) = if b == 0 then [] else b ∷ until_zero bs

abbrev pub text_or_empty : Option Bytes → Bytes
text_or_empty none = []
text_or_empty (some p) = p

module _ {g : GcRefs} {d : Doubles} (vm : Vm g d) where
  open vm use {
    is_undefined, is_null, is_bool, is_true, is_exception, is_number, is_string, is_function,
    is_array, is_error, get_property_str,
  }

  -- copy_js_string and the publish behind it: the text now in the buffer, or none on a failure.
  unfoldable pub copy_js_string : g.Val → Dest → Act g (Option Bytes)
  copy_js_string v dest = do
    text ← vm.to_c_string v
    case_of text (pure g none)
        (λ p. do (ok, bytes) ← replace_text g dest p; pure g (if ok then some bytes else none))

  -- json_stringify, backwards: its failing end; the call once `stringify` is at hand; the lookup of
  -- `stringify`; and the whole. The argument is read through its root when it is pushed, while
  -- `stringify` itself stays in a C variable across JS_StackCheck.
  unfoldable pub stringify_fails : Act g g.Val
  stringify_fails = do pop_gc_ref g; pure g vm.exception_value

  unfoldable pub call_stringify : (Engine g → g.Val) → g.Val → Act g g.Val
  call_stringify arg func = do
    ask arg vm.push_arg
    vm.push_arg func
    ask (top_root g) vm.push_arg
    res ← vm.call 1
    pop_gc_ref g
    pure g res

  unfoldable pub find_stringify : (Engine g → g.Val) → Act g g.Val
  find_stringify arg = do
    func ← ask (top_root g) (λ json. get_property_str json (codes "stringify"))
    if is_exception func
        then stringify_fails
        else do short ← vm.stack_check 3; if short then stringify_fails else call_stringify arg func

  unfoldable pub json_stringify : (Engine g → g.Val) → Act g g.Val
  json_stringify arg = do
    push_gc_ref g
    json ← ask vm.global_object (λ global. get_property_str global (codes "JSON"))
    write_root g json
    if is_exception json then stringify_fails else find_stringify arg

  -- object_kind.
  unfoldable pub object_kind : Engine g → g.Val → ℕ
  object_kind e v =
      (if is_function e v then ref_function else 0) + (if is_array e v then ref_array else 0)

  -- The branches of value_to_out: a number, a text, an object that is handed out as a ref, and an
  -- object as JSON text, which has no text when it cannot be serialised.
  unfoldable pub number_to_out : g.Val → Act g (Bool × Value d.Num)
  number_to_out v = do
    num ← vm.to_number v
    case_of num (pure g (false, tagged d Tag.number))
        (λ x. pure g (true, record (tagged d Tag.number) { num = x }))

  unfoldable pub text_to_out : Tag → g.Val → Dest → Act g (Bool × Value d.Num)
  text_to_out tag v dest = do
    text ← copy_js_string v dest
    case_of text (pure g (false, tagged d tag))
        (λ p. pure g (true, record (tagged d tag) { str = some p }))

  unfoldable pub ref_to_out : g.Val → Act g (Bool × Value d.Num)
  ref_to_out v =
      ask (λ e. object_kind e v)
        λ kind. do
          ref ← new_slot g v
          let out = record (tagged d Tag.ref) { num = d.of_ℕ kind; ref = ref }
          if ref == 0 then (do vm.throw_out_of_memory; pure g (false, out)) else pure g (true, out)

  unfoldable pub json_to_out : g.Val → Dest → Act g (Bool × Value d.Num)
  json_to_out v dest = do
    push_gc_ref g
    write_root g v
    json ← json_stringify (next_root g)
    pop_gc_ref g
    if is_exception json
        then pure g (false, tagged d Tag.undefined)
        else (if is_undefined json
            then pure g (true, tagged d Tag.object)
            else text_to_out Tag.object json dest)

  -- What value_to_out does with an object.
  unfoldable pub object_to_out : g.Val → Dest → ℕ → Act g (Bool × Value d.Num)
  object_to_out v dest flags =
      if wants_refs flags
      then ref_to_out v
      else ask (λ e. is_function e v)
          (λ function. if function then pure g (true, tagged d Tag.object) else json_to_out v dest)

  -- value_to_out. The flag is false where the C function returns -1.
  unfoldable pub value_to_out : g.Val → Dest → ℕ → Act g (Bool × Value d.Num)
  value_to_out v dest flags =
      if is_undefined v
      then pure g (true, tagged d Tag.undefined)
      else if is_null v
      then pure g (true, tagged d Tag.null)
      else if is_bool v
      then pure g (true, record (tagged d Tag.bool) { num = d.of_ℕ (if is_true v then 1 else 0) })
      else ask (λ e. is_number e v)
          (λ number.
            if number
            then number_to_out v
            else ask (λ e. is_string e v)
                (λ string.
                  if string then text_to_out Tag.string v dest else object_to_out v dest flags))

  -- The text of an exception: what its conversion to a string gives, or a fixed text.
  unfoldable pub fixed_text : Act g Bytes
  fixed_text = do
    vm.get_exception
    (_, fixed) ← replace_text g to_str (codes "unknown exception")
    pure g fixed

  unfoldable pub exception_text : Act g Bytes
  exception_text = do
    s ← ask (top_root g) vm.to_string
    if is_exception s
        then fixed_text
        else do text ← copy_js_string s to_str; case_of text fixed_text (λ p. pure g p)

  -- The stack trace of an Error, when there is one.
  unfoldable pub error_stack : Act g (Option Bytes)
  error_stack = do
    s ← ask (top_root g) (λ exc. get_property_str exc (codes "stack"))
    if is_exception s
        then (do vm.get_exception; pure g none)
        else ask (λ e. is_string e s)
            (λ string. if string then copy_js_string s to_stack else pure g none)

  -- exception_to_out.
  unfoldable pub exception_to_out : Act g (Value d.Num)
  exception_to_out = do
    push_gc_ref g
    exc ← vm.get_exception
    write_root g exc
    text ← exception_text
    trace ←
        ask (λ e. is_error e (top_root g e)) (λ error. if error then error_stack else pure g none)
    pop_gc_ref g
    pure g (record (tagged d Tag.exception) { str = some text; stack = trace })

  -- parse_terminated: the engine reads one byte past the text, which is copied with a zero behind.
  unfoldable pub parse_terminated : Bytes → Bytes → ℕ → Bool → Act g g.Val
  parse_terminated text filename flags run = do
    ok ← alloc_answer g
    if ok
        then (if run
            then vm.eval (text ++ 0 ∷ []) (length text) filename flags
            else vm.parse (text ++ 0 ∷ []) (length text) filename flags)
        else vm.throw_out_of_memory

  -- throw_message: through a copy that "%s" reads up to its first zero byte.
  unfoldable pub throw_message : Bytes → Act g g.Val
  throw_message text = do
    ok ← alloc_answer g
    if ok then vm.throw_error (until_zero text) else vm.throw_out_of_memory

  -- The number of a value from the host: an int32_t where it is one, but for -0.
  unfoldable pub number_from_host : d.Num → Act g g.Val
  number_from_host x =
      let i = d.to_int32 x in
      if d.eq (d.of_int32 i) x && not (d.is_zero x && d.signbit x)
      then vm.new_int32 i
      else vm.new_float64 x

  -- value_from_host, for its tag.
  unfoldable pub from_host : Tag → Value d.Num → Act g g.Val
  from_host Tag.undefined v = pure g g.undefined
  from_host Tag.null v = pure g vm.null_value
  from_host Tag.bool v = pure g (vm.new_bool (not (d.is_zero v.num)))
  from_host Tag.number v = number_from_host v.num
  from_host Tag.string v = vm.new_string_len (text_or_empty v.str)
  from_host Tag.object v =
      case_of v.str (pure g g.undefined) (λ p. parse_terminated p (codes "<host>") eval_json false)
  from_host Tag.ref v = do
    s ← find_slot g v.ref
    case_of s (vm.throw_type_error (codes "invalid or released ref")) (λ slot. pure g slot.val)
  from_host Tag.exception v = throw_message (text_or_empty v.str)
  from_host (Tag.other n) v = throw_message (text_or_empty v.str)

  unfoldable pub value_from_host : Value d.Num → Act g g.Val
  value_from_host v = from_host v.tag v
