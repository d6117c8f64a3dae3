-- ===== src/Lifecycle/Keeps.antt =====
-- What print and kmpjs_dump_memory do to the roots, the run state and the ref table.
use mquickjs_kmp.Prelude.{ℕ, zero, suc, ◌==◌, true, false, Option, none, some, arith, codes}
use mquickjs_kmp.Engine.Actions.{to_str}
use mquickjs_kmp.Engine.Convert.Keeps.{allocs-Valid, replace_text-Meets}
use mquickjs_kmp.Engine.Entries.{Restored, restored}
use mquickjs_kmp.Engine.Keeps.{Meets, Steady-refl, asked, bind, branch, cased, done, next}
use mquickjs_kmp.Engine.Laws.{VmKeeps}
use mquickjs_kmp.Engine.{Bytes, Doubles, Engine, Act, Vm}
use mquickjs_kmp.GcRefs.{GcRefs}
use mquickjs_kmp.Lifecycle.{append_log, call_log, reset_log, print_args, js_print, dump_memory}
use mquickjs_kmp.Slots.Preserve.{Valid}

-- What the shim relies on in the host's log callback.
abbrev pub LogKeeps : (g : GcRefs) → Option (Bytes → Act g (Unit {0})) → Type 0
LogKeeps g none = Unit {0}
LogKeeps g (some log) = (p : Bytes) → Meets 0 none (log p)

module _ {g : GcRefs} where
  append_log-Meets : (p : Bytes) → Meets 0 none (append_log g p)
  unfolding append_log
  append_log-Meets p = record {
    from = λ e. record {
      roots = λ _. omega arith;
      state = Steady-refl e.state;
      table = allocs-Valid e.table _;
      rest = λ _. g.same_refl e.table.ctx;
    };
  }

  reset_log-Meets : Meets 0 none (reset_log g)
  unfolding reset_log
  reset_log-Meets = record {
    from = λ e. record {
      roots = λ _. omega arith;
      state = Steady-refl e.state;
      table = λ v. v;
      rest = λ _. g.same_refl e.table.ctx;
    };
  }

  call_log-Meets :
      (log : Option (Bytes → Act g (Unit {0}))) → LogKeeps g log → Meets 0 none (call_log g log)
  unfolding call_log
  call_log-Meets none l = done tt
  call_log-Meets (some log) l = asked _ l

module _ {g : GcRefs} {d : Doubles} (vm : Vm g d) (k : VmKeeps vm) where
  print_args-Meets : (argv : ℕ → Engine g → g.Val) (n i : ℕ) → Meets 0 none (print_args vm argv n i)
  unfolding print_args
  print_args-Meets argv zero i = done true
  print_args-Meets argv (suc n) i =
      next (branch (i == 0) (done tt) (append_log-Meets (codes " "))) (
        asked (argv i) (λ v. asked _ (λ string.
          branch string
            (bind (k.to_c_string v) (λ text.
              cased text (done false)
                (λ p. next (append_log-Meets p) (print_args-Meets argv n (suc i)))))
            (next (k.print_value_long v) (print_args-Meets argv n (suc i))))))

  pub js_print-Meets :
      (log : Option (Bytes → Act g (Unit {0})))
      → LogKeeps g log
      → (argc : ℕ) (argv : ℕ → Engine g → g.Val) → Meets 0 none (js_print vm log argc argv)
  unfolding js_print
  js_print-Meets log l argc argv = next reset_log-Meets (
      bind (print_args-Meets argv argc 0)
        (λ ok. branch ok (next (call_log-Meets log l) (done _)) (done _)))

  pub dump_memory-Meets : Meets 0 none (dump_memory vm)
  unfolding dump_memory
  dump_memory-Meets =
      next reset_log-Meets
        (next k.dump_memory (bind (asked _ (replace_text-Meets to_str)) (λ r. done _)))

  -- If the calls of the JavaScript engine and the log callback leave the engine in order, so does
  -- js_print, also when an argument cannot be read or memory runs out.
  pub js_print-Restored :
      (log : Option (Bytes → Act g (Unit {0})))
      → LogKeeps g log
      → (argc : ℕ) (argv : ℕ → Engine g → g.Val) (e : Engine g) → Valid g e.table
      → Restored e (js_print vm log argc argv e).1
  js_print-Restored log l argc argv e v = restored e _ v ((js_print-Meets log l argc argv).from e)
