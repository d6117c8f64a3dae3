-- ===== src/Lifecycle/Print/Line.antt =====
-- What print writes: the texts of its arguments, with one space between them.
use mathlib.Core.List.{append-nil}
use mquickjs_kmp.Prelude.{
  ℕ, suc, ◌==◌, ◌≡◌, refl, sym, ◌∙◌, ap, true, false, some, List, [], ◌∷◌, if◌then◌else◌, arith,
  codes, length,
}
use mquickjs_kmp.Buffer.{buf_reset, publish}
use mquickjs_kmp.Engine.{Bytes, Doubles, Engine, Act, Vm, ◌>>=◌, ◌>>◌, pure, case_of, ask}
use mquickjs_kmp.GcRefs.{GcRefs}
use mquickjs_kmp.Lifecycle.{append_log, reset_log, call_log, print_args, js_print}
use mquickjs_kmp.Lifecycle.Print.{
  spaced_after, spaced, Grants, Grants-fewer, IsBacked, publish-IsBacked, Logged, append_log-Logged,
  Logged-trans,
}

-- An engine that differs from another in the log line and the answers left of the allocator alone.
abbrev pub OnlyLogged : {g : GcRefs} → Engine g → Engine g → Type 0
OnlyLogged {g} e e' =
    e' ≡ record e { log_line = e'.log_line; table = record (e.table) { allocs = e'.table.allocs } }

OnlyLogged-trans :
    {g : GcRefs} (e e₁ e₂ : Engine g) → OnlyLogged e e₁ → OnlyLogged e₁ e₂ → OnlyLogged e e₂
OnlyLogged-trans {g} e e₁ e₂ h k =
    k
    ∙ ap
        (λ (x : Engine g). record x {
          log_line = e₂.log_line;
          table = record (x.table) { allocs = e₂.table.allocs };
        })
        h

-- As an engine stands, whatever the log line and the answers left of the allocator, the values on the
-- VM stack from index `i` on are strings with these texts, and reading them changes nothing.
abbrev pub Reads :
    {g : GcRefs} {d : Doubles}
    → Vm g d
    → (ℕ → Engine g → g.Val)
    → Engine g
    → ℕ
    → List Bytes
    → Type 0
Reads vm argv e i [] = Unit {0}
Reads vm argv e i (p ∷ ps) =
    ((e' : Engine _) → OnlyLogged e e' → vm.is_string e' (argv i e') ≡ true)
    × ((e' : Engine _) → OnlyLogged e e' → vm.to_c_string (argv i e') e' ≡ (some p, e'))
    × Reads vm argv e (suc i) ps

-- An argument takes two answers of the allocator at most.
abbrev pub answers_for : List Bytes → ℕ
answers_for [] = 0
answers_for (p ∷ ps) = suc (suc (answers_for ps))

-- The engine once the space before the argument of index `i` is written.
unfoldable separated : {g : GcRefs} → ℕ → Engine g → Engine g
separated {g} i e =
    (if◌then◌else◌ {A = Act g (Unit {0})} (i == 0) (pure g tt) (append_log g (codes " ")) e).1

module _ {g : GcRefs} {d : Doubles} (vm : Vm g d) (argv : ℕ → Engine g → g.Val) where
  -- One round of the loop.
  one_round :
      (i n : ℕ) (p : Bytes) (e : Engine g)
      → let at = separated i e in
        vm.is_string at (argv i at) ≡ true
        → vm.to_c_string (argv i at) at ≡ (some p, at)
        → print_args vm argv (suc n) i e ≡ print_args vm argv n (suc i) (append_log g p at).1
  unfolding print_args ◌>>=◌ ◌>>◌ ask case_of separated
  one_round i n p e str reads = rw (str, reads) refl

  separated-Logged :
      (n i : ℕ) (e : Engine g)
      → (i == 0) ≡ false
      → IsBacked e.log_line
      → Grants (suc n) e.table.allocs
      → Logged n (codes " ") e (separated i e)
  unfolding separated
  separated-Logged n i e later back h =
      rw (separated, later) (append_log-Logged n (codes " ") e back h)

  -- What the loop does from the argument of index `i` on, when it has got its memory.
  record Printed (i : ℕ) (ps : List Bytes) (line : Bytes) (e : Engine g) : Type 0 where
    last : Engine g
    result : print_args vm argv (length ps) i e ≡ (true, last)
    logged : Logged 0 line e last

  print_nothing : (i : ℕ) (e : Engine g) → IsBacked e.log_line → Printed i [] [] e
  unfolding print_args pure
  print_nothing i e back = record {
    last = e;
    result = refl;
    logged = record {
      line = record { bytes = sym (append-nil _); backed = back; more = tt };
      rest = refl;
    };
  }

  print_after :
      (base : Engine g) (ps : List Bytes) (i : ℕ) (e : Engine g)
      → OnlyLogged base e
      → (i == 0) ≡ false
      → Reads vm argv base i ps
      → IsBacked e.log_line
      → Grants (answers_for ps) e.table.allocs
      → Printed i ps (spaced_after ps) e
  print_after base [] i e only later reads back h = print_nothing i e back
  print_after base (p ∷ ps) i e only later (str, text, reads) back h =
      let space : Logged (suc (answers_for ps)) (codes " ") e (separated i e) =
        separated-Logged (suc (answers_for ps)) i e later back h in
      let text_too =
        append_log-Logged (answers_for ps) p (separated i e) space.line.backed space.line.more in
      let here : OnlyLogged base (separated i e) =
        OnlyLogged-trans base e (separated i e) only space.rest in
      let rest =
        print_after base ps (suc i) _ (OnlyLogged-trans base _ _ here text_too.rest) (ground arith)
          reads text_too.line.backed text_too.line.more in
      record {
        last = rest.last;
        result = one_round i (length ps) p e (str _ here) (text _ here) ∙ rest.result;
        logged = Logged-trans space (Logged-trans text_too rest.logged);
      }

  print_all :
      (base : Engine g) (ps : List Bytes) (e : Engine g)
      → OnlyLogged base e
      → Reads vm argv base 0 ps
      → IsBacked e.log_line
      → Grants (answers_for ps) e.table.allocs
      → Printed 0 ps (spaced ps) e
  unfolding separated pure
  print_all base [] e only reads back h = print_nothing 0 e back
  print_all base (p ∷ ps) e only (str, text, reads) back h =
      let first =
        append_log-Logged (answers_for ps) p e back (Grants-fewer (suc (answers_for ps)) _ h) in
      let rest =
        print_after base ps 1 _ (OnlyLogged-trans base e _ only first.rest) refl reads
          first.line.backed first.line.more in
      record {
        last = rest.last;
        result = one_round 0 (length ps) p e (str e only) (text e only) ∙ rest.result;
        logged = Logged-trans first rest.logged;
      }

  -- js_print on an engine whose VM stack holds strings, which are read without a change of the engine as
  -- it stands, with whatever log line and answers left of the allocator, and when the allocator grants
  -- what is asked of it: the log callback is called once, with the texts in their order and one space
  -- between each two, on an engine in which nothing but the log line and the answers of the
  -- allocator have changed, and js_print returns undefined.
  pub js_print-Line :
      (ps : List Bytes) (log : Bytes → Act g (Unit {0})) (e : Engine g)
      → Reads vm argv e 0 ps
      → Grants (answers_for ps) e.table.allocs
      → (last : Engine g) × (publish last.log_line ≡ spaced ps)
        × OnlyLogged e last
        × (js_print vm (some log) (length ps) argv e ≡ (g.undefined, (log (spaced ps) last).1))
  unfolding js_print reset_log call_log ◌>>=◌ ◌>>◌ ask pure buf_reset
  js_print-Line ps log e reads h =
      let printed = print_all e ps (reset_log g e).1 refl reads (λ _. refl) h in
      let line : publish printed.last.log_line ≡ spaced ps =
        publish-IsBacked _ printed.logged.line.backed ∙ printed.logged.line.bytes in
      (printed.last, line, printed.logged.rest, rw (printed.result, ← line) refl)
