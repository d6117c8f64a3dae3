-- ===== src/Lifecycle/Print/Tests.antt =====
-- print of two strings.
use mquickjs_kmp.Prelude.{
  ℕ, length, ◌==◌, if◌then◌else◌, ◌≡◌, refl, ap, true, List, [], ◌∷◌, codes, some,
}
use mquickjs_kmp.Buffer.{publish}
use mquickjs_kmp.Engine.Tests.{small, fresh}
use mquickjs_kmp.Engine.{Bytes, Engine, Act, pure}
use mquickjs_kmp.Lifecycle.Print.Line.{OnlyLogged, Reads, js_print-Line}
use mquickjs_kmp.Lifecycle.Print.{spaced}
use mquickjs_kmp.Lifecycle.{js_print}
use mquickjs_kmp.Slots.Tests.{set_of_roots}

spaced_texts : spaced (codes "a" ∷ codes "bc" ∷ codes "d" ∷ []) ≡ codes "a bc d"
spaced_texts = refl

-- The small engine's strings all have the text "text".
abbrev texts : List Bytes
texts = codes "text" ∷ codes "text" ∷ []

abbrev with_memory : Engine set_of_roots
with_memory = record fresh {
  table = record (fresh.table) { allocs = true ∷ true ∷ true ∷ true ∷ [] };
}

abbrev ignore : Bytes → Act set_of_roots (Unit {0})
ignore p = pure set_of_roots tt

-- The VM stack holds the strings as long as no GC root is linked.
abbrev stack : ℕ → Engine set_of_roots → ℕ
stack i e = if length e.roots == 0 then 9 else 2

on_stack : (i : ℕ) (e : Engine set_of_roots) → OnlyLogged with_memory e → stack i e ≡ 9
on_stack i e only = rw only refl

read_string :
    (i : ℕ) (e : Engine set_of_roots)
    → OnlyLogged with_memory e
    → small.is_string e (stack i e) ≡ true
read_string i e only = rw (on_stack i e only) refl

read_text :
    (i : ℕ) (e : Engine set_of_roots)
    → OnlyLogged with_memory e
    → small.to_c_string (stack i e) e ≡ (some (codes "text"), e)
unfolding pure
read_text i e only = ap (λ v. small.to_c_string v e) (on_stack i e only)

texts-Reads : Reads small stack with_memory 0 texts
texts-Reads = (read_string 0, read_text 0, (read_string 1, read_text 1, tt))

js_print-Line_example :
    (last : Engine set_of_roots) × (publish last.log_line ≡ codes "text text")
    × OnlyLogged with_memory last
    × (js_print small (some ignore) 2 stack with_memory ≡ (0, (ignore (codes "text text") last).1))
js_print-Line_example =
    js_print-Line small stack texts ignore with_memory texts-Reads
      (refl, (refl, (refl, (refl, tt))))
