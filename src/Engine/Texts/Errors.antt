-- ===== src/Engine/Texts/Errors.antt =====
-- The texts that exception_to_out leaves: a message and a trace.
use mquickjs_kmp.Prelude.{
  ◌≡◌, refl, ◌∙◌, Bool, true, false, Option, none, some, if◌then◌else◌, codes,
}
use mquickjs_kmp.Engine.Actions.{to_stack, tagged, pop_gc_ref, top_root}
use mquickjs_kmp.Engine.Convert.{copy_js_string, error_stack, exception_to_out}
use mquickjs_kmp.Engine.Texts.{IsIn, Shown, Shows, Spares}
use mquickjs_kmp.Engine.{Bytes, Tag, Value, Doubles, Engine, Act, Vm, pure, ◌>>=◌, ◌>>◌, ask}
use mquickjs_kmp.GcRefs.{GcRefs}
use mquickjs_kmp.Engine.Texts.Convert.{copied_stack, exception_text-Puts}

-- What the texts rely on: no script comes back to the shim while the `stack` of an Error is read,
-- while a string is read, or while an exception is taken.
pub record VmSpares {g : GcRefs} {d : Doubles} (vm : Vm g d) : Type 0 where
  pub read_stack : (v : g.Val) → Spares (vm.get_property_str v (codes "stack"))
  pub to_c_string : (v : g.Val) → Spares (vm.to_c_string v)
  pub get_exception : Spares vm.get_exception

-- Code for a trace: it is in out_stack, and out_str is as it was.
record Traces {g : GcRefs} (m : Act g (Option Bytes)) : Type 0 where
  shown : (e : Engine g) → IsIn (m e).1.out_stack (m e).0
  same : (e : Engine g) → (m e).1.out_str ≡ e.out_str

module _ {g : GcRefs} {d : Doubles} (vm : Vm g d) (k : VmSpares vm) where
  trace_or :
      (b : Bool) {m n : Act g (Option Bytes)} → Traces m → Traces n → Traces (if b then m else n)
  trace_or true h k = h
  trace_or false h k = k

  no_trace : Traces (pure g none)
  unfolding pure
  no_trace = record { shown = λ e. tt; same = λ e. refl }

  copy_js_string-Traces : (v : g.Val) → Traces (copy_js_string vm v to_stack)
  unfolding copy_js_string ◌>>=◌
  copy_js_string-Traces v = record {
    shown = λ e. (copied_stack vm (vm.to_c_string v e).0 (vm.to_c_string v e).1).0;
    same = λ e.
        (copied_stack vm (vm.to_c_string v e).0 (vm.to_c_string v e).1).1
        ∙ (k.to_c_string v).from e;
  }

  no_exception-Traces : Traces (do vm.get_exception; pure g none)
  unfolding ◌>>◌ pure
  no_exception-Traces = record { shown = λ e. tt; same = λ e. k.get_exception.from e }

  asked_trace :
      (q : Engine g → Bool) {m : Act g (Option Bytes)}
      → Traces m
      → Traces (ask q (λ b. if b then m else pure g none))
  unfolding ask
  asked_trace q h = record {
    shown = λ e. (trace_or (q e) h no_trace).shown e;
    same = λ e. (trace_or (q e) h no_trace).same e;
  }

  read_trace :
      {m : Act g g.Val} {f : g.Val → Act g (Option Bytes)}
      → Spares m
      → ((s : g.Val) → Traces (f s))
      → Traces (m >>= f)
  unfolding ◌>>=◌
  read_trace {m} h f = record {
    shown = λ e. (f (m e).0).shown (m e).1;
    same = λ e. (f (m e).0).same (m e).1 ∙ h.from e;
  }

  read_stack-Spares : Spares (ask (top_root g) (λ exc. vm.get_property_str exc (codes "stack")))
  unfolding ask
  read_stack-Spares = record { from = λ e. (k.read_stack _).from e }

  error_stack-Traces : Traces (error_stack vm)
  unfolding error_stack
  error_stack-Traces =
      read_trace read_stack-Spares
        (λ s. trace_or _ no_exception-Traces (asked_trace _ (copy_js_string-Traces s)))

  with_trace :
      {m : Act g (Option Bytes)}
      → Traces m
      → (e : Engine g) (text : Bytes) → IsIn e.out_str (some text)
      → Shown
          (pop_gc_ref g (m e).1).1
          (record (tagged d Tag.exception) { str = some text; stack = (m e).0 })
  unfolding pop_gc_ref
  with_trace trace e text h = record { str = rw (trace.same e) h; stack = trace.shown e }

  pub exception_to_out-Shows : Shows (λ (v : Value d.Num). v) (exception_to_out vm)
  unfolding exception_to_out ◌>>=◌ ◌>>◌ pure
  exception_to_out-Shows =
      let trace = asked_trace (λ e. vm.is_error e (top_root g e)) error_stack-Traces in
      record { from = λ e. with_trace trace _ _ ((exception_text-Puts vm).from _) }
