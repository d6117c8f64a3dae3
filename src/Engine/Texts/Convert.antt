-- ===== src/Engine/Texts/Convert.antt =====
-- The texts that value_to_out leaves, and the text of an exception.
use mquickjs_kmp.Prelude.{ℕ, ◌≡◌, refl, Bool, true, false, Option, none, some, if◌then◌else◌}
use mquickjs_kmp.Buffer.{Buffer, publish}
use mquickjs_kmp.Engine.Actions.{to_str, to_stack, replace_text, fail_message, tagged}
use mquickjs_kmp.Engine.Convert.{
  copy_js_string, number_to_out, text_to_out, object_to_out, fixed_text, ref_to_out, json_to_out,
  value_to_out, exception_text,
}
use mquickjs_kmp.Engine.Texts.{
  IsIn, Shown, reply_value, Shows, Puts, branch, plain, cased, asked, behind, after,
}
use mquickjs_kmp.Engine.{Bytes, Tag, Value, Doubles, Engine, Act, Vm, pure, ◌>>=◌, ◌>>◌, case_of}
use mquickjs_kmp.GcRefs.{GcRefs}

IsIn-published : (b : Buffer) (ok : Bool) → IsIn b (if ok then some (publish b) else none)
IsIn-published b true = refl
IsIn-published b false = tt

module _ {g : GcRefs} where
  -- An error of the shim itself.
  pub fail_message-Shows : (d : Doubles) (p : Bytes) → Shows reply_value (fail_message g d p)
  unfolding fail_message replace_text ◌>>=◌ pure
  fail_message-Shows d p = record { from = λ e. record { str = refl; stack = tt } }

module _ {g : GcRefs} {d : Doubles} (vm : Vm g d) where
  copied_str :
      (text : Option Bytes) (e : Engine g)
      → let m = case_of text (pure g none) (λ p. do
        (ok, bytes) ← replace_text g to_str p
        pure g (if ok then some bytes else none)) in
        IsIn (m e).1.out_str (m e).0
  unfolding replace_text ◌>>=◌ pure case_of
  copied_str none e = tt
  copied_str (some p) e = IsIn-published _ _

  pub copied_stack :
      (text : Option Bytes) (e : Engine g)
      → let m = case_of text (pure g none) (λ p. do
        (ok, bytes) ← replace_text g to_stack p
        pure g (if ok then some bytes else none)) in
        IsIn (m e).1.out_stack (m e).0 × (m e).1.out_str ≡ e.out_str
  unfolding replace_text ◌>>=◌ pure case_of
  copied_stack none e = (tt, refl)
  copied_stack (some p) e = (IsIn-published _ _, refl)

  copy_js_string-Puts : (v : g.Val) → Puts (λ t. t) (λ e. e.out_str) (copy_js_string vm v to_str)
  unfolding copy_js_string ◌>>=◌
  copy_js_string-Puts v = record {
    from = λ e. copied_str (vm.to_c_string v e).0 (vm.to_c_string v e).1;
  }

  module _ {m : Act g (Bool × Value d.Num)} (tag : Tag) (h : Shows reply_value m) where
    text_or :
        (text : Option Bytes) (e : Engine g)
        → IsIn e.out_str text
        → let n = case_of text m (λ p. pure g (true, record (tagged d tag) { str = some p })) in
          Shown (n e).1 (n e).0.1
    unfolding pure case_of
    text_or none e q = h.from e
    text_or (some p) e q = record { str = q; stack = tt }

    -- A text that is copied last, or else what `m` leaves.
    pub copied-Shows :
        (v : g.Val)
        → Shows reply_value (do
          text ← copy_js_string vm v to_str
          case_of text m (λ p. pure g (true, record (tagged d tag) { str = some p })))
    unfolding ◌>>=◌
    copied-Shows v = record { from = λ e. text_or _ _ ((copy_js_string-Puts v).from e) }

  text_to_out-Shows : (tag : Tag) (v : g.Val) → Shows reply_value (text_to_out vm tag v to_str)
  unfolding text_to_out
  text_to_out-Shows tag v = copied-Shows tag (plain _ refl refl) v

  number_to_out-Shows : (v : g.Val) → Shows reply_value (number_to_out vm v)
  unfolding number_to_out
  number_to_out-Shows v =
      behind (vm.to_number v) (λ num. cased num (plain _ refl refl) (λ x. plain _ refl refl))

  ref_to_out-Shows : (v : g.Val) → Shows reply_value (ref_to_out vm v)
  unfolding ref_to_out
  ref_to_out-Shows v =
      asked _ (λ kind. behind _ (λ ref. branch _ (after _ (plain _ refl refl)) (plain _ refl refl)))

  json_to_out-Shows : (v : g.Val) → Shows reply_value (json_to_out vm v to_str)
  unfolding json_to_out
  json_to_out-Shows v = after _ (
      after _ (
        behind _ (λ json. after _ (
          branch (vm.is_exception json) (plain _ refl refl) (
            branch (vm.is_undefined json) (plain _ refl refl)
              (text_to_out-Shows Tag.object json))))))

  object_to_out-Shows :
      (v : g.Val) (flags : ℕ) → Shows reply_value (object_to_out vm v to_str flags)
  unfolding object_to_out
  object_to_out-Shows v flags =
      branch _ (ref_to_out-Shows v)
        (asked _ (λ function. branch function (plain _ refl refl) (json_to_out-Shows v)))

  pub value_to_out-Shows :
      (v : g.Val) (flags : ℕ) → Shows reply_value (value_to_out vm v to_str flags)
  unfolding value_to_out
  value_to_out-Shows v flags = branch (vm.is_undefined v) (plain _ refl refl) (
      branch (vm.is_null v) (plain _ refl refl) (
        branch (vm.is_bool v) (plain _ refl refl) (
          asked (λ e. vm.is_number e v)
            (λ number. branch number (number_to_out-Shows v) (
              asked (λ e. vm.is_string e v)
                (λ string.
                  branch string (text_to_out-Shows Tag.string v) (object_to_out-Shows v flags)))))))

  -- The text of an exception, which is in out_str.
  fixed_text-Puts : Puts some (λ e. e.out_str) (fixed_text vm)
  unfolding fixed_text replace_text ◌>>=◌ ◌>>◌ pure
  fixed_text-Puts = record { from = λ e. refl }

  or_fixed :
      (text : Option Bytes) (e : Engine g)
      → IsIn e.out_str text
      → let m = case_of text (fixed_text vm) (λ p. pure g p) in IsIn (m e).1.out_str (some (m e).0)
  unfolding case_of pure
  or_fixed none e h = fixed_text-Puts.from e
  or_fixed (some p) e h = h

  fixed_or :
      (b : Bool) (s : g.Val) (e : Engine g)
      → let m =
          (if b then fixed_text vm else (do
            text ← copy_js_string vm s to_str
            case_of text (fixed_text vm) (λ p. pure g p))) in
        IsIn (m e).1.out_str (some (m e).0)
  unfolding ◌>>=◌
  fixed_or true s e = fixed_text-Puts.from e
  fixed_or false s e = or_fixed _ _ ((copy_js_string-Puts s).from e)

  pub exception_text-Puts : Puts some (λ e. e.out_str) (exception_text vm)
  unfolding exception_text ◌>>=◌
  exception_text-Puts = record { from = λ e. fixed_or _ _ _ }
