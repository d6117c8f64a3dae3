-- ===== src/Engine/Books/Laws.antt =====
-- What the books of the shim rely on in the calls of the JavaScript engine. Scripts that run inside
-- one may call back into the shim, and callbacks may retain and release handles: when such a call
-- is over, the callbacks that ran in it have released what they retained.
use mquickjs_kmp.Prelude.{ℕ}
use mquickjs_kmp.Engine.Books.{Level}
use mquickjs_kmp.Engine.Laws.{VmAll}
use mquickjs_kmp.Engine.{Doubles, Vm}
use mquickjs_kmp.GcRefs.{GcRefs}

abbrev pub VmBooks : {g : GcRefs} → ℕ → {d : Doubles} → Vm g d → Type 0
VmBooks x vm = VmAll (λ A m. Level x m) vm
