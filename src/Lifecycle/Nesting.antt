-- ===== src/Lifecycle/Nesting.antt =====
-- JavaScript that calls the host, which calls the shim, which runs JavaScript: the calls that the
-- engine, the host and the shim make inside each other, to any depth.
pub mod Tests
use mquickjs_kmp.Prelude.{ℕ, zero, suc, Option, none, some, List, [], ◌∷◌}
use mquickjs_kmp.Bytecode.{Build}
use mquickjs_kmp.Engine.Entries.{Restored}
use mquickjs_kmp.Engine.Host.Keeps.{HostKeeps, kmp_host-Meets}
use mquickjs_kmp.Engine.Host.{HostFn, kmp_host}
use mquickjs_kmp.Engine.Keeps.{After, Keeps, Meets, keep, seq}
use mquickjs_kmp.Engine.Laws.{VmAll, VmAll-map, VmKeeps}
use mquickjs_kmp.Engine.{Bytes, Value, Doubles, Engine, Act, Vm}
use mquickjs_kmp.GcRefs.{GcRefs, GcRefsLaws}
use mquickjs_kmp.Lifecycle.Commands.{Command, obey, obey_all, obey-Keeps, obey_all-Restored}
use mquickjs_kmp.Lifecycle.Keeps.{LogKeeps, js_print-Meets}
use mquickjs_kmp.Lifecycle.{js_print}
use mquickjs_kmp.Slots.Preserve.{Valid}

abbrev pub LogFn : GcRefs → Type 0
LogFn g = Option (Bytes → Act g (Unit {0}))

-- The JavaScript engine and the host's callbacks, as they behave when there is room for so many
-- more calls inside each other.
pub record World (g : GcRefs) (d : Doubles) : Type 1 where
  pub vm : Vm g d
  pub host : HostFn g d
  pub log : LogFn g

module _ {g : GcRefs} {d : Doubles} (b : Build) where
  -- A run over a world: steps of the engine's own, in any order with calls of a host function, of
  -- print, and of the functions by which the host acts on the engine.
  pub data Run (w : World g d) : Engine g → Engine g → Type 0 where
    over : (e : Engine g) → Run w e e
    own : {e e₁ e₂ : Engine g} → Keeps e e₁ → Run w e₁ e₂ → Run w e e₂
    calls_host :
        {e e₂ : Engine g} (argc : ℕ) (argv : ℕ → Engine g → g.Val) (params : g.Val)
        → Run w (kmp_host w.vm w.host argc argv params e).1 e₂
        → Run w e e₂
    prints :
        {e e₂ : Engine g} (argc : ℕ) (argv : ℕ → Engine g → g.Val)
        → Run w (js_print w.vm w.log argc argv e).1 e₂
        → Run w e e₂
    commands : {e e₂ : Engine g} (c : Command d.Num) → Run w (obey w.vm b c e) e₂ → Run w e e₂

  -- Code that is such a run from every engine.
  pub record Runs (w : World g d) (A : Type 0) (m : Act g A) : Type 0 where
    pub from : (e : Engine g) → Run w e (m e).1

  abbrev pub HostRuns : World g d → HostFn g d → Type 0
  HostRuns w none = Unit {0}
  HostRuns w (some host) = (id : ℕ) (args : List (Value d.Num)) → Runs w _ (host id args)

  abbrev pub LogRuns : World g d → LogFn g → Type 0
  LogRuns w none = Unit {0}
  LogRuns w (some log) = (p : Bytes) → Runs w _ (log p)

  -- One more call inside: what the engine and the callbacks do is a run over the world within.
  pub record Around (inner outer : World g d) : Type 0 where
    pub vm : VmAll (Runs inner) outer.vm
    pub host : HostRuns inner outer.host
    pub log : LogRuns inner outer.log

-- A world that comes back in order.
pub record WorldKeeps {g : GcRefs} {d : Doubles} (w : World g d) : Type 0 where
  pub vm : VmKeeps w.vm
  pub host : HostKeeps g d w.host
  pub log : LogKeeps g w.log

module _ {g : GcRefs} (laws : GcRefsLaws g) {d : Doubles} (b : Build) where
  Run-Keeps : {w : World g d} → WorldKeeps w → {e e' : Engine g} → Run b w e e' → Keeps e e'
  Run-Keeps k (over e) = keep e
  Run-Keeps k (own h r) = seq h (Run-Keeps k r)
  Run-Keeps {w} k (calls_host argc argv params r) =
      seq ((kmp_host-Meets laws w.vm k.vm w.host k.host argc argv params).from _) (Run-Keeps k r)
  Run-Keeps {w} k (prints argc argv r) =
      seq ((js_print-Meets w.vm k.vm w.log k.log argc argv).from _) (Run-Keeps k r)
  Run-Keeps {w} k (commands c r) = seq (obey-Keeps laws w.vm k.vm b c _) (Run-Keeps k r)

  Runs-Meets :
      {w : World g d} → WorldKeeps w → (A : Type 0) (m : Act g A) → Runs b w A m → Meets 0 none m
  Runs-Meets k A m r = record { from = λ e. Run-Keeps k (r.from e) }

  host-Keeps :
      {w : World g d} → WorldKeeps w → (host : HostFn g d) → HostRuns b w host → HostKeeps g d host
  host-Keeps k none r = tt
  host-Keeps k (some host) r = λ id args. Runs-Meets k _ _ (r id args)

  log-Keeps : {w : World g d} → WorldKeeps w → (log : LogFn g) → LogRuns b w log → LogKeeps g log
  log-Keeps k none r = tt
  log-Keeps k (some log) r = λ p. Runs-Meets k _ _ (r p)

  pub Around-Keeps :
      {inner outer : World g d} → WorldKeeps inner → Around b inner outer → WorldKeeps outer
  Around-Keeps {outer = outer} k a = record {
    vm = VmAll-map (Runs-Meets k) a.vm;
    host = host-Keeps k outer.host a.host;
    log = log-Keeps k outer.log a.log;
  }

  nested-Keeps :
      (world : ℕ → World g d)
      → WorldKeeps (world 0)
      → ((n : ℕ) → Around b (world n) (world (suc n)))
      → (n : ℕ) → WorldKeeps (world n)
  nested-Keeps world first around zero = first
  nested-Keeps world first around (suc n) =
      Around-Keeps (nested-Keeps world first around n) (around n)

  -- To any depth of calls inside each other: if the engine's own steps leave the engine in order,
  -- and with no call inside so do the engine and the callbacks, then after any sequence of host
  -- calls on a valid ref table, in which scripts call the host and print, and callbacks call the
  -- shim in any order, the table is valid, as many roots are pushed as before, an engine that was
  -- idle is idle, and an interrupted one is still interrupted.
  pub nested_calls-Restored :
      (world : ℕ → World g d)
      → WorldKeeps (world 0)
      → ((n : ℕ) → Around b (world n) (world (suc n)))
      → (n : ℕ) (cs : List (Command d.Num)) (e : Engine g) → Valid g e.table
      → Restored e (obey_all (world n).vm b cs e)
  nested_calls-Restored world first around n =
      obey_all-Restored laws (world n).vm (nested-Keeps world first around n).vm b
