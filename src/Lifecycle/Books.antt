-- ===== src/Lifecycle/Books.antt =====
-- kmpjs_dump_memory takes no reference and gives none back.
use mquickjs_kmp.Prelude.{ℕ, refl}
use mquickjs_kmp.Engine.Actions.{to_str}
use mquickjs_kmp.Engine.Books.Laws.{VmBooks}
use mquickjs_kmp.Engine.Books.{
  Books, Level, lent_with, aside, asked, bind, done, next, replace_text-Level,
}
use mquickjs_kmp.Engine.{Doubles, Vm}
use mquickjs_kmp.GcRefs.{GcRefs}
use mquickjs_kmp.Lifecycle.{reset_log, dump_memory}

module _ {g : GcRefs} {x : ℕ} where
  reset_log-Level : Level x (reset_log g)
  unfolding reset_log
  reset_log-Level = aside _ (λ e. refl)

module _ {g : GcRefs} {x : ℕ} {d : Doubles} (vm : Vm g d) (k : VmBooks x vm) where
  pub dump_memory-Books : Books x 0 (lent_with x) (dump_memory vm)
  unfolding dump_memory
  dump_memory-Books =
      next reset_log-Level
        (next k.dump_memory (bind (asked _ (replace_text-Level to_str)) (λ r. done _ refl)))
