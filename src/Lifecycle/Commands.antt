-- ===== src/Lifecycle/Commands.antt =====
-- Every function of native/shim/mquickjs_kmp.h by which the host acts on an engine that it has
-- created, in sequences: those of Engine/Entries, kmpjs_load_bytecode, kmpjs_dump_memory and
-- kmpjs_interrupt.
use mquickjs_kmp.Prelude.{refl, arith, List, [], ◌∷◌}
use mquickjs_kmp.Bytecode.Load.Keeps.{load_bytecode-Meets}
use mquickjs_kmp.Bytecode.Load.{load_bytecode}
use mquickjs_kmp.Bytecode.{Build}
use mquickjs_kmp.Engine.Actions.{tagged}
use mquickjs_kmp.Engine.Entries.{
  Entry, answer, enter, enter-Keeps, Restored, Restored-trans, restored,
}
use mquickjs_kmp.Engine.Keeps.{Keeps, Steady, Steady-refl}
use mquickjs_kmp.Engine.Laws.{VmKeeps}
use mquickjs_kmp.Engine.{Bytes, Tag, Value, Doubles, Engine, Vm}
use mquickjs_kmp.GcRefs.{GcRefs, GcRefsLaws}
use mquickjs_kmp.Lifecycle.Keeps.{dump_memory-Meets}
use mquickjs_kmp.Lifecycle.{dump_memory}
use mquickjs_kmp.RunState.{RunState, idle, running, interrupted, interrupt}
use mquickjs_kmp.Slots.Preserve.{Valid}

pub data Command (Num : Type 0) : Type 0 where
  entry : Entry Num → Command Num
  load : Bytes → Command Num
  dump : Command Num
  interrupt_run : Command Num

module _ {g : GcRefs} {d : Doubles} (vm : Vm g d) (b : Build) where
  -- The engine after the call.
  abbrev pub obey : Command d.Num → Engine g → Engine g
  obey (Command.entry c) e = enter vm c e
  obey (Command.load buf) e = (load_bytecode vm b buf e).1
  obey Command.dump e = (dump_memory vm e).1
  obey Command.interrupt_run e = record e { state = interrupt e.state }

  abbrev pub obey_all : List (Command d.Num) → Engine g → Engine g
  obey_all [] e = e
  obey_all (c ∷ cs) e = obey_all cs (obey c e)

  -- What the call leaves in *out; an interrupt has none.
  abbrev pub reply : Command d.Num → Engine g → Value d.Num
  reply (Command.entry c) e = answer vm c e
  reply (Command.load buf) e = (load_bytecode vm b buf e).0.1
  reply Command.dump e = (dump_memory vm e).0
  reply Command.interrupt_run e = tagged d Tag.undefined

  abbrev pub replies : List (Command d.Num) → Engine g → List (Value d.Num)
  replies [] e = []
  replies (c ∷ cs) e = reply c e ∷ replies cs (obey c e)

-- An interrupt leaves an idle engine idle, and an interrupted one interrupted.
pub Steady-interrupt : (s : RunState) → Steady s (interrupt s)
unfolding interrupt
Steady-interrupt idle = refl
Steady-interrupt running = λ z. cc z
Steady-interrupt interrupted = refl

module _ {g : GcRefs} (laws : GcRefsLaws g) {d : Doubles} (vm : Vm g d) (k : VmKeeps vm)
    (b : Build) where
  pub obey-Keeps : (c : Command d.Num) (e : Engine g) → Keeps e (obey vm b c e)
  obey-Keeps (Command.entry c) e = enter-Keeps laws vm k c e
  obey-Keeps (Command.load buf) e = (load_bytecode-Meets laws vm k b buf).from e
  obey-Keeps Command.dump e = (dump_memory-Meets vm k).from e
  obey-Keeps Command.interrupt_run e = record {
    roots = λ _. omega arith;
    state = Steady-interrupt e.state;
    table = λ v. v;
    rest = λ _. g.same_refl e.table.ctx;
  }

  obey-Restored : (c : Command d.Num) (e : Engine g) → Valid g e.table → Restored e (obey vm b c e)
  obey-Restored c e v = restored e _ v (obey-Keeps c e)

  -- If the calls of the JavaScript engine leave the engine in order, then after any sequence of
  -- host calls on a valid ref table, failing or not, the table is valid, as many roots are pushed
  -- as before, an engine that was idle is idle, and an interrupted one is still interrupted.
  pub obey_all-Restored :
      (cs : List (Command d.Num)) (e : Engine g) → Valid g e.table → Restored e (obey_all vm b cs e)
  obey_all-Restored [] e v = record {
    roots = refl;
    state = Steady-refl e.state;
    table = v;
    rest = g.same_refl e.table.ctx;
  }
  obey_all-Restored (c ∷ cs) e v =
      let first = obey-Restored c e v in
      Restored-trans first (obey_all-Restored cs (obey vm b c e) first.table)
