-- ===== src/Engine/Entries.antt =====
-- The functions of native/shim/mquickjs_kmp.h by which the host enters a running engine, one by one
-- and in sequences. kmpjs_define_function, kmpjs_eval, the kmpjs_ref_* and kmpjs_run_program.
use mquickjs_kmp.Prelude.{ℕ, ◌≡◌, refl, List, [], ◌∷◌, arith, length}
use mquickjs_kmp.Engine.Calls.Keeps.{ref_call-Meets}
use mquickjs_kmp.Engine.Calls.{ref_call}
use mquickjs_kmp.Engine.Host.Keeps.{define_function-Meets, HostKeeps, kmp_host-Meets}
use mquickjs_kmp.Engine.Host.{define_function, HostFn, kmp_host}
use mquickjs_kmp.Engine.Keeps.{Steady, Steady-refl, Steady-trans, Keeps}
use mquickjs_kmp.Engine.Laws.{VmKeeps}
use mquickjs_kmp.Engine.Refs.Keeps.{
  eval-Meets, ref_get-Meets, ref_get_index-Meets, ref_set-Meets, ref_to_json-Meets,
  run_program-Meets,
}
use mquickjs_kmp.Engine.Refs.{eval, ref_get, ref_get_index, ref_set, ref_to_json, run_program}
use mquickjs_kmp.Engine.Actions.{tagged}
use mquickjs_kmp.Engine.{Bytes, Tag, Value, Doubles, Engine, Vm}
use mquickjs_kmp.GcRefs.{GcRefs, GcRefsLaws}
use mquickjs_kmp.Slots.Preserve.{Valid, ref_retain-Valid, ref_release-Valid}
use mquickjs_kmp.Slots.Outside.{ref_retain-Same, ref_release-Same}
use mquickjs_kmp.Slots.{ref_retain, ref_release}

module _ {g : GcRefs} where
  -- What is the same after a call as before it, and that the ref table is valid.
  pub record Restored (e e' : Engine g) : Type 0 where
    pub roots : length e'.roots ≡ length e.roots
    pub state : Steady e.state e'.state
    pub table : Valid g e'.table
    pub rest : g.Same e.table.ctx e'.table.ctx

  pub restored : (e e' : Engine g) → Valid g e.table → Keeps e e' → Restored e e'
  restored e e' v k = record {
    roots = omega (arith, k.roots (omega arith));
    state = k.state;
    table = k.table v;
    rest = k.rest v;
  }

module _ {g : GcRefs} where
  pub Restored-trans : {e e₁ e₂ : Engine g} → Restored e e₁ → Restored e₁ e₂ → Restored e e₂
  Restored-trans {e} {e₁} {e₂} first later = record {
    roots = omega (arith, first.roots, later.roots);
    state = Steady-trans e.state e₁.state e₂.state first.state later.state;
    table = later.table;
    rest = g.same_trans e.table.ctx e₁.table.ctx e₂.table.ctx first.rest later.rest;
  }

-- A call of the host into an engine.
pub data Entry (Num : Type 0) : Type 0 where
  evaluate : Bytes → Bytes → ℕ → Entry Num
  define : Bytes → ℕ → ℕ → Entry Num
  get : ℕ → Bytes → ℕ → Entry Num
  get_index : ℕ → ℕ → ℕ → Entry Num
  set : ℕ → Bytes → Value Num → Entry Num
  call : ℕ → ℕ → List (Value Num) → ℕ → Entry Num
  to_json : ℕ → Entry Num
  run : ℕ → ℕ → Entry Num
  retain release : ℕ → Entry Num

module _ {g : GcRefs} {d : Doubles} (vm : Vm g d) where
  -- The engine after the call.
  abbrev pub enter : Entry d.Num → Engine g → Engine g
  enter (Entry.evaluate code filename flags) e = (eval vm code filename flags e).1
  enter (Entry.define name fn_id flags) e = (define_function vm name fn_id flags e).1
  enter (Entry.get ref name flags) e = (ref_get vm ref name flags e).1
  enter (Entry.get_index ref index flags) e = (ref_get_index vm ref index flags e).1
  enter (Entry.set ref name value) e = (ref_set vm ref name value e).1
  enter (Entry.call ref this_ref args flags) e = (ref_call vm ref this_ref args flags e).1
  enter (Entry.to_json ref) e = (ref_to_json vm ref e).1
  enter (Entry.run ref flags) e = (run_program vm ref flags e).1
  enter (Entry.retain ref) e = record e { table = ref_retain g e.table ref }
  enter (Entry.release ref) e = record e { table = ref_release g e.table ref }

  -- What a call leaves in *out; a retain and a release have none.
  abbrev pub answer : Entry d.Num → Engine g → Value d.Num
  answer (Entry.evaluate code filename flags) e = (eval vm code filename flags e).0
  answer (Entry.define name fn_id flags) e = (define_function vm name fn_id flags e).0.1
  answer (Entry.get ref name flags) e = (ref_get vm ref name flags e).0.1
  answer (Entry.get_index ref index flags) e = (ref_get_index vm ref index flags e).0.1
  answer (Entry.set ref name value) e = (ref_set vm ref name value e).0.1
  answer (Entry.call ref this_ref args flags) e = (ref_call vm ref this_ref args flags e).0.1
  answer (Entry.to_json ref) e = (ref_to_json vm ref e).0.1
  answer (Entry.run ref flags) e = (run_program vm ref flags e).0.1
  answer (Entry.retain ref) e = tagged d Tag.undefined
  answer (Entry.release ref) e = tagged d Tag.undefined

  abbrev pub enter_all : List (Entry d.Num) → Engine g → Engine g
  enter_all [] e = e
  enter_all (c ∷ cs) e = enter_all cs (enter c e)

module _ {g : GcRefs} (laws : GcRefsLaws g) {d : Doubles} (vm : Vm g d) (k : VmKeeps vm) where
  pub enter-Keeps : (c : Entry d.Num) (e : Engine g) → Keeps e (enter vm c e)
  enter-Keeps (Entry.evaluate code filename flags) e =
      (eval-Meets laws vm k code filename flags).from e
  enter-Keeps (Entry.define name fn_id flags) e =
      (define_function-Meets laws vm k name fn_id flags).from e
  enter-Keeps (Entry.get ref name flags) e = (ref_get-Meets laws vm k ref name flags).from e
  enter-Keeps (Entry.get_index ref index flags) e =
      (ref_get_index-Meets laws vm k ref index flags).from e
  enter-Keeps (Entry.set ref name value) e = (ref_set-Meets laws vm k ref name value).from e
  enter-Keeps (Entry.call ref this_ref args flags) e =
      (ref_call-Meets laws vm k ref this_ref args flags).from e
  enter-Keeps (Entry.to_json ref) e = (ref_to_json-Meets laws vm k ref).from e
  enter-Keeps (Entry.run ref flags) e = (run_program-Meets laws vm k ref flags).from e
  enter-Keeps (Entry.retain ref) e = record {
    roots = λ _. omega arith;
    state = Steady-refl e.state;
    table = ref_retain-Valid g laws e.table ref;
    rest = ref_retain-Same g laws e.table ref;
  }
  enter-Keeps (Entry.release ref) e = record {
    roots = λ _. omega arith;
    state = Steady-refl e.state;
    table = ref_release-Valid g laws e.table ref;
    rest = ref_release-Same g laws e.table ref;
  }

  enter-Restored : (c : Entry d.Num) (e : Engine g) → Valid g e.table → Restored e (enter vm c e)
  enter-Restored c e v = restored e _ v (enter-Keeps c e)

  -- If the calls of the JavaScript engine leave the engine in order, then after any sequence of
  -- host calls on a valid ref table, failing or not, the table is valid, as many roots are pushed
  -- as before, an engine that was idle is idle, and an interrupted one is still interrupted.
  pub enter_all-Restored :
      (cs : List (Entry d.Num)) (e : Engine g) → Valid g e.table → Restored e (enter_all vm cs e)
  enter_all-Restored [] e v = record {
    roots = refl;
    state = Steady-refl e.state;
    table = v;
    rest = g.same_refl e.table.ctx;
  }
  enter_all-Restored (c ∷ cs) e v =
      let first = enter-Restored c e v in
      Restored-trans first (enter_all-Restored cs (enter vm c e) first.table)

  -- If moreover the host's callback leaves the engine in order, so does js_kmp_host on every path:
  -- the table stays valid, the roots are balanced, and the run state stays as in `Restored`.
  pub kmp_host-Restored :
      (host : HostFn g d)
      → HostKeeps g d host
      → (argc : ℕ) (argv : ℕ → Engine g → g.Val) (params : g.Val) (e : Engine g) → Valid g e.table
      → Restored e (kmp_host vm host argc argv params e).1
  kmp_host-Restored host h argc argv params e v =
      restored e _ v ((kmp_host-Meets laws vm k host h argc argv params).from e)

  -- On a valid table, kmpjs_ref_call leaves as many roots pushed as it found, whether the handle is
  -- dead, an argument cannot be converted, memory runs out or the call throws; the table stays
  -- valid, and a run that it started is over.
  pub ref_call-Restored :
      (ref this_ref : ℕ) (args : List (Value d.Num)) (flags : ℕ) (e : Engine g)
      → Valid g e.table
      → Restored e (ref_call vm ref this_ref args flags e).1
  ref_call-Restored ref this_ref args flags e v =
      restored e _ v ((ref_call-Meets laws vm k ref this_ref args flags).from e)
