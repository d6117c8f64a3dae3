-- ===== src/Lifecycle/Nesting/Tests.antt =====
-- Worlds in which every call of a JavaScript function calls the host, which calls the shim, for as
-- long as there is room for one more call inside.
use mquickjs_kmp.Prelude.{ℕ, zero, suc, List, [], ◌∷◌, codes, some}
use mquickjs_kmp.Bytecode.Tests.{this_build}
use mquickjs_kmp.Engine.Actions.{tagged}
use mquickjs_kmp.Engine.Books.Tests.{small_with}
use mquickjs_kmp.Engine.Entries.{Restored, evaluate, call}
use mquickjs_kmp.Engine.Host.{kmp_host}
use mquickjs_kmp.Engine.Keeps.{done}
use mquickjs_kmp.Engine.Tests.{small, small_keeps, small_calling_all, fresh, whole}
use mquickjs_kmp.Engine.{Value, Tag, Act, pure}
use mquickjs_kmp.Lifecycle.Commands.{Command, entry, dump, obey, obey_all}
use mquickjs_kmp.Lifecycle.Nesting.{
  World, WorldKeeps, Around, Runs, over, calls_host, commands, nested_calls-Restored,
}
use mquickjs_kmp.Slots.Tests.{set_of_roots, roots_laws, fresh_table-Valid}

-- A callback that calls the function behind handle 1, and answers undefined.
abbrev calls_back : World set_of_roots whole → ℕ → List (Value ℕ) → Act set_of_roots (ℕ × Value ℕ)
calls_back w id args e =
    ((0, tagged whole Tag.undefined), obey w.vm this_build (entry (call 1 0 args 0)) e)

abbrev quiet_world : World set_of_roots whole
quiet_world = record {
  vm = small;
  host = some (λ id args. pure set_of_roots (0, tagged whole Tag.undefined));
  log = some (λ p. pure set_of_roots tt);
}

abbrev outer : World set_of_roots whole → World set_of_roots whole
outer w = record {
  vm = small_with (kmp_host w.vm w.host 2 (λ i e. 8) 3);
  host = some (calls_back w);
  log = some (λ p. pure set_of_roots tt);
}

abbrev worlds : ℕ → World set_of_roots whole
worlds zero = quiet_world
worlds (suc n) = outer (worlds n)

quiet_world-Keeps : WorldKeeps quiet_world
quiet_world-Keeps = record { vm = small_keeps; host = λ id args. done _; log = λ p. done _ }

nothing :
    (w : World set_of_roots whole) (A : Type 0) (a : A) → Runs this_build w A (pure set_of_roots a)
unfolding pure
nothing w A a = record { from = λ e. over e }

outer-Around : (w : World set_of_roots whole) → Around this_build w (outer w)
outer-Around w = record {
  vm =
      small_calling_all set_of_roots (λ n. n) (λ v. v) (nothing w)
        (record { from = λ e. calls_host 2 (λ i e'. 8) 3 (over _) });
  host = λ id args. record { from = λ e. commands (entry (call 1 0 args 0)) (over _) };
  log = λ p. nothing w _ _;
}

-- A script, then a call of the function behind handle 1, two levels deep.
abbrev deep : List (Command ℕ)
deep = entry (evaluate (codes "f") (codes "a.js") 1) ∷ entry (call 1 0 [] 0) ∷ dump ∷ []

nested_calls-Restored_example : Restored fresh (obey_all (worlds 2).vm this_build deep fresh)
nested_calls-Restored_example =
    nested_calls-Restored roots_laws this_build worlds quiet_world-Keeps
      (λ n. outer-Around (worlds n)) 2 deep fresh fresh_table-Valid
