-- ===== src/Engine/Books/Convert.antt =====
-- The references that the conversions take and give back.
use mquickjs_kmp.Prelude.{ℕ, inl, inr, Bool-cases, ◌==◌, ◌≡◌, refl, sym, Bool, false}
use mquickjs_kmp.Engine.Actions.{Dest, to_str, to_stack, fail_message}
use mquickjs_kmp.Engine.Convert.{
  copy_js_string, json_stringify, stringify_fails, call_stringify, find_stringify, number_to_out,
  text_to_out, object_to_out, fixed_text, error_stack, from_host, ref_to_out, json_to_out,
  value_to_out, exception_text, exception_to_out, parse_terminated, throw_message, number_from_host,
  value_from_host, eval_json,
}
use mquickjs_kmp.Engine.Books.{
  Books, Level, counted, lent_by, lent_out, lent_with, lent_reply, branch, cased, bind, next, lends,
  asked, done, push-Level, pop-Level, write-Level, find_slot-Level, alloc_answer-Level,
  replace_text-Level, new_slot-Books,
}
use mquickjs_kmp.Engine.Books.Laws.{VmBooks}
use mquickjs_kmp.Engine.{Bytes, Tag, Value, Doubles, Engine, Vm, ◌>>=◌, ◌>>◌, pure}
use mquickjs_kmp.GcRefs.{GcRefs, GcRefsLaws}
use mquickjs_kmp.Slots.Held.{one_zero}
use mquickjs_kmp.Slots.{is_not_positive}

module _ {g : GcRefs} {x : ℕ} where
  pub fail_message-Books : (d : Doubles) (p : Bytes) → Books x 0 (lent_reply x) (fail_message g d p)
  unfolding fail_message
  fail_message-Books d p = bind (replace_text-Level to_str p) (λ r. done _ refl)

module _ {g : GcRefs} {d : Doubles} {x : ℕ} (vm : Vm g d) (k : VmBooks x vm) where
  pub copy_js_string-Level : (v : g.Val) (dest : Dest) → Level x (copy_js_string vm v dest)
  unfolding copy_js_string
  copy_js_string-Level v dest =
      bind (k.to_c_string v) (λ text.
        cased text (done _ refl) (λ p. bind (replace_text-Level dest p) (λ r. done _ refl)))

  stringify_fails-Level : Level x (stringify_fails vm)
  unfolding stringify_fails
  stringify_fails-Level = next pop-Level (done _ refl)

  call_stringify-Level :
      (arg : Engine g → g.Val) (func : g.Val) → Level x (call_stringify vm arg func)
  unfolding call_stringify
  call_stringify-Level arg func = next (asked arg k.push_arg) (
      next (k.push_arg func)
        (next (asked _ k.push_arg) (bind (k.call 1) (λ res. next pop-Level (done _ refl)))))

  find_stringify-Level : (arg : Engine g → g.Val) → Level x (find_stringify vm arg)
  unfolding find_stringify
  find_stringify-Level arg = bind (asked _ (λ json. k.get_property_str json _)) (λ func.
      branch _ stringify_fails-Level (
        bind (k.stack_check 3)
          (λ short. branch short stringify_fails-Level (call_stringify-Level arg func))))

  pub json_stringify-Level : (arg : Engine g → g.Val) → Level x (json_stringify vm arg)
  unfolding json_stringify
  json_stringify-Level arg = next push-Level (
      bind (asked _ (λ global. k.get_property_str global _)) (λ json.
        next (write-Level json) (branch _ stringify_fails-Level (find_stringify-Level arg))))

  number_to_out-Books : (v : g.Val) → Books x 0 (lent_out x) (number_to_out vm v)
  unfolding number_to_out
  number_to_out-Books v = bind (k.to_number v) (λ num. cased num (done _ refl) (λ x. done _ refl))

  text_to_out-Books :
      (tag : Tag)
      → lent_by x tag 0 ≡ 0
      → (v : g.Val) (dest : Dest) → Books x 0 (lent_out x) (text_to_out vm tag v dest)
  unfolding text_to_out
  text_to_out-Books tag q v dest =
      bind (copy_js_string-Level v dest) (λ text. cased text (done _ refl) (λ p. done _ (sym q)))

  json_to_out-Books : (v : g.Val) (dest : Dest) → Books x 0 (lent_out x) (json_to_out vm v dest)
  unfolding json_to_out
  json_to_out-Books v dest = next push-Level (
      next (write-Level v) (
        bind (json_stringify-Level _) (λ json. next pop-Level (
          branch (vm.is_exception json) (done _ refl) (
            branch (vm.is_undefined json) (done _ refl)
              (text_to_out-Books Tag.object refl json dest))))))

  fixed_text-Level : Level x (fixed_text vm)
  unfolding fixed_text
  fixed_text-Level = next k.get_exception (bind (replace_text-Level to_str _) (λ r. done _ refl))

  exception_text-Level : Level x (exception_text vm)
  unfolding exception_text
  exception_text-Level = bind (asked _ k.to_string) (λ s. branch _ fixed_text-Level (
      bind (copy_js_string-Level s to_str)
        (λ text. cased text fixed_text-Level (λ p. done _ refl))))

  error_stack-Level : Level x (error_stack vm)
  unfolding error_stack
  error_stack-Level = bind (asked _ (λ exc. k.get_property_str exc _)) (λ s.
      branch _ (next k.get_exception (done _ refl))
        (asked _ (λ string. branch string (copy_js_string-Level s to_stack) (done _ refl))))

  pub exception_to_out-Level : Level x (exception_to_out vm)
  unfolding exception_to_out
  exception_to_out-Level = next push-Level (
      bind k.get_exception (λ exc. next (write-Level exc) (
        bind exception_text-Level (λ text.
          bind (asked _ (λ error. branch error error_stack-Level (done _ refl)))
            (λ trace. next pop-Level (done _ refl))))))

  -- An exception is no ref.
  pub exception_to_out-lent : (e : Engine g) → 0 ≡ lent_with x (exception_to_out vm e).0
  unfolding exception_to_out ◌>>=◌ ◌>>◌ pure
  exception_to_out-lent e = refl

  pub exception_to_out-Books : Books x 0 (lent_with x) (exception_to_out vm)
  exception_to_out-Books = counted exception_to_out-lent exception_to_out-Level

  pub parse_terminated-Level :
      (text filename : Bytes) (flags : ℕ) (run : Bool)
      → Level x (parse_terminated vm text filename flags run)
  unfolding parse_terminated
  parse_terminated-Level text filename flags run = bind alloc_answer-Level (λ ok.
      branch ok (branch run (k.eval _ _ filename flags) (k.parse _ _ filename flags))
        k.throw_out_of_memory)

  pub throw_message-Level : (text : Bytes) → Level x (throw_message vm text)
  unfolding throw_message
  throw_message-Level text =
      bind alloc_answer-Level (λ ok. branch ok (k.throw_error _) k.throw_out_of_memory)

  number_from_host-Level : (num : d.Num) → Level x (number_from_host vm num)
  unfolding number_from_host
  number_from_host-Level num = branch _ (k.new_int32 _) (k.new_float64 num)

  from_host-Level : (tag : Tag) (v : Value d.Num) → Level x (from_host vm tag v)
  unfolding from_host
  from_host-Level Tag.undefined v = done _ refl
  from_host-Level Tag.null v = done _ refl
  from_host-Level Tag.bool v = done _ refl
  from_host-Level Tag.number v = number_from_host-Level v.num
  from_host-Level Tag.string v = k.new_string_len _
  from_host-Level Tag.object v =
      cased v.str (done _ refl) (λ p. parse_terminated-Level p _ eval_json false)
  from_host-Level Tag.ref v =
      bind (find_slot-Level v.ref) (λ s. cased s (k.throw_type_error _) (λ slot. done _ refl))
  from_host-Level Tag.exception v = throw_message-Level _
  from_host-Level (Tag.other n) v = throw_message-Level _

  pub value_from_host-Level : (v : Value d.Num) → Level x (value_from_host vm v)
  unfolding value_from_host
  value_from_host-Level v = from_host-Level v.tag v

module _ {g : GcRefs} (laws : GcRefsLaws g) {x : ℕ} (positive : is_not_positive x ≡ false)
    {d : Doubles} (vm : Vm g d) (k : VmBooks x vm) where
  ref_to_out-Books : (v : g.Val) → Books x 0 (lent_out x) (ref_to_out vm v)
  unfolding ref_to_out
  ref_to_out-Books v = asked _ (λ kind. lends (new_slot-Books laws x positive v) (λ ref.
      elim (Bool-cases (ref == 0)) [
        | inl z ↦ rw z (next k.throw_out_of_memory (done _ (one_zero g x ref positive z)))
        | inr more ↦ rw more (done _ refl)
      ]))

  object_to_out-Books :
      (v : g.Val) (dest : Dest) (flags : ℕ) → Books x 0 (lent_out x) (object_to_out vm v dest flags)
  unfolding object_to_out
  object_to_out-Books v dest flags =
      branch _ (ref_to_out-Books v)
        (asked _ (λ function. branch function (done _ refl) (json_to_out-Books vm k v dest)))

  pub value_to_out-Books :
      (v : g.Val) (dest : Dest) (flags : ℕ) → Books x 0 (lent_out x) (value_to_out vm v dest flags)
  unfolding value_to_out
  value_to_out-Books v dest flags = branch (vm.is_undefined v) (done _ refl) (
      branch (vm.is_null v) (done _ refl) (
        branch (vm.is_bool v) (done _ refl) (
          asked (λ e. vm.is_number e v)
            (λ number. branch number (number_to_out-Books vm k v) (
              asked (λ e. vm.is_string e v)
                (λ string.
                  branch string (text_to_out-Books vm k Tag.string refl v dest)
                    (object_to_out-Books v dest flags)))))))
