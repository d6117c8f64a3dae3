-- ===== src/Engine/Keeps.antt =====
-- The relation between an engine before and after an action of the shim, on the pushed roots, the
-- run state and the ref table, and the rules that put actions together.
use mquickjs_kmp.Prelude.{
  ℕ, suc, ◌+◌, ◌≤◌, ◌≡◌, refl, ◌≢◌, Bool, true, false, Option, none, some, List, [], ◌∷◌, arith,
  if◌then◌else◌, length,
}
use mquickjs_kmp.Engine.Actions.{
  begin_run, end_run, push_gc_ref, write_root, pop_gc_ref, set_top, without_top,
}
use mquickjs_kmp.Engine.{Engine, Act, pure, ◌>>=◌, ◌>>◌, case_of, ask}
use mquickjs_kmp.GcRefs.{GcRefs}
use mquickjs_kmp.RunState.{RunState, idle, running, interrupted, run_begin, run_end}
use mquickjs_kmp.Slots.Preserve.{Valid}

-- While no run ends, an idle engine stays idle, an interrupt stays, and a run may be interrupted.
abbrev pub Steady : RunState → RunState → Type 0
Steady idle s = s ≡ idle
Steady interrupted s = s ≡ interrupted
Steady running s = s ≢ idle

-- A piece of code that ends with run_end leaves what run_end makes of such a state.
abbrev pub Leaves : Option Bool → RunState → RunState → Type 0
Leaves none s s' = Steady s s'
Leaves (some o) s s' = (m : RunState) × Steady s m × (s' ≡ run_end o m)

pub Steady-refl : (s : RunState) → Steady s s
Steady-refl idle = refl
Steady-refl running = cc
Steady-refl interrupted = refl

pub Steady-trans : (s m s' : RunState) → Steady s m → Steady m s' → Steady s s'
Steady-trans idle idle s' h k = k
Steady-trans idle running s' h k = cc
Steady-trans idle interrupted s' h k = cc
Steady-trans interrupted idle s' h k = cc
Steady-trans interrupted running s' h k = cc
Steady-trans interrupted interrupted s' h k = k
Steady-trans running idle s' h k = absurd (h refl)
Steady-trans running running s' h k = k
Steady-trans running interrupted s' h k = λ z. cc

Leaves-after : (o : Option Bool) (s m s' : RunState) → Steady s m → Leaves o m s' → Leaves o s s'
Leaves-after none s m s' h k = Steady-trans s m s' h k
Leaves-after (some o) s m s' h k = (k.0, Steady-trans s m k.0 h k.1, k.2)

-- The bracket of run_begin and run_end.
Leaves-begin : (s s' : RunState) → Leaves (some (run_begin s).0) (run_begin s).1 s' → Steady s s'
unfolding run_begin run_end
Leaves-begin idle s' (m, h, e) = e
Leaves-begin running s' (m, h, e) = ground (arith, h, e)
Leaves-begin interrupted s' (m, h, e) = ground (arith, h, e)

length-without_top :
    (g : GcRefs) (vs : List g.Val) → 1 ≤ length vs → length (without_top g vs) + 1 ≡ length vs
length-without_top g [] h = absurd (omega arith)
length-without_top g (v ∷ vs) h = omega arith

length-set_top : (g : GcRefs) (v : g.Val) (vs : List g.Val) → length (set_top g v vs) ≡ length vs
length-set_top g v [] = refl
length-set_top g v (_ ∷ vs) = refl

module _ {g : GcRefs} where
  -- From `e` to `e'`, with `pops` more pops than pushes, and with the run_end of a run if `o` says so.
  pub record After (pops : ℕ) (o : Option Bool) (e e' : Engine g) : Type 0 where
    pub roots : pops ≤ length e.roots → length e'.roots + pops ≡ length e.roots
    pub state : Leaves o e.state e'.state
    pub table : Valid g e.table → Valid g e'.table
    pub rest : Valid g e.table → g.Same e.table.ctx e'.table.ctx

  abbrev pub Keeps : Engine g → Engine g → Type 0
  Keeps = After 0 none

  pub keep : (e : Engine g) → Keeps e e
  keep e = record {
    roots = λ _. omega arith;
    state = Steady-refl e.state;
    table = λ v. v;
    rest = λ _. g.same_refl e.table.ctx;
  }

  pub seq :
      {pops : ℕ} {o : Option Bool} {e e₁ e₂ : Engine g}
      → Keeps e e₁
      → After pops o e₁ e₂
      → After pops o e e₂
  seq {o = o} {e} {e₁} {e₂} k a = record {
    roots =
        λ h. omega (arith, k.roots (omega arith), a.roots (omega (arith, k.roots (omega arith))));
    state = Leaves-after o e.state e₁.state e₂.state k.state a.state;
    table = λ v. a.table (k.table v);
    rest = λ v. g.same_trans e.table.ctx e₁.table.ctx e₂.table.ctx (k.rest v) (a.rest (k.table v));
  }

  -- A push pays for one pop.
  pub pushed :
      {pops : ℕ} {o : Option Bool} {e e₂ : Engine g}
      → After (suc pops) o (push_gc_ref g e).1 e₂
      → After pops o e e₂
  unfolding push_gc_ref
  pushed a = record {
    roots = λ h. omega (arith, a.roots (omega arith));
    state = a.state;
    table = a.table;
    rest = a.rest;
  }

  pub popped :
      {pops : ℕ} {o : Option Bool} {e e₂ : Engine g}
      → After pops o (pop_gc_ref g e).1 e₂
      → After (suc pops) o e e₂
  unfolding pop_gc_ref
  popped {e = e} a = record {
    roots = λ h.
        let one = length-without_top g e.roots (omega arith) in
        omega (arith, one, a.roots (omega (arith, one)));
    state = a.state;
    table = a.table;
    rest = a.rest;
  }

  pub wrote : (v : g.Val) (e : Engine g) → Keeps e (write_root g v e).1
  unfolding write_root
  wrote v e = record {
    roots = λ _. omega (arith, length-set_top g v e.roots);
    state = Steady-refl e.state;
    table = λ t. t;
    rest = λ _. g.same_refl e.table.ctx;
  }

  pub begun :
      {pops : ℕ} {e e₂ : Engine g}
      → After pops (some (begin_run g e).0) (begin_run g e).1 e₂
      → After pops none e e₂
  unfolding begin_run
  begun {e = e} {e₂} a = record {
    roots = a.roots;
    state = Leaves-begin e.state e₂.state a.state;
    table = a.table;
    rest = a.rest;
  }

  pub ended : (o : Bool) (e : Engine g) → After 0 (some o) e (end_run g o e).1
  unfolding end_run
  ended o e = record {
    roots = λ _. omega arith;
    state = (e.state, Steady-refl e.state, refl);
    table = λ v. v;
    rest = λ _. g.same_refl e.table.ctx;
  }

  -- An action that does so from every engine.
  pub record Meets {A : Type 0} (pops : ℕ) (o : Option Bool) (m : Act g A) : Type 0 where
    pub from : (e : Engine g) → After pops o e (m e).1

  pub wrote-Meets : (v : g.Val) → Meets 0 none (write_root g v)
  wrote-Meets v = record { from = wrote v }

-- One rule for each way to put actions together.
module _ {g : GcRefs} {A : Type 0} {pops : ℕ} {o : Option Bool} where
  pub branch :
      (b : Bool) {m n : Act g A}
      → Meets pops o m
      → Meets pops o n
      → Meets pops o (if b then m else n)
  branch true h k = h
  branch false h k = k

  pub push_then : {n : Act g A} → Meets (suc pops) o n → Meets pops o (push_gc_ref g >> n)
  unfolding ◌>>◌
  push_then h = record { from = λ e. pushed (h.from (push_gc_ref g e).1) }

  pub pop_then : {n : Act g A} → Meets pops o n → Meets (suc pops) o (pop_gc_ref g >> n)
  unfolding ◌>>◌
  pop_then h = record { from = λ e. popped (h.from (pop_gc_ref g e).1) }

module _ {g : GcRefs} {A : Type 0} {pops : ℕ} where
  pub begin_then :
      {f : Bool → Act g A}
      → ((outermost : Bool) → Meets pops (some outermost) (f outermost))
      → Meets pops none (begin_run g >>= f)
  unfolding ◌>>=◌
  begin_then h = record { from = λ e. begun ((h (begin_run g e).0).from (begin_run g e).1) }

module _ {g : GcRefs} {A B : Type 0} {pops : ℕ} {o : Option Bool} where
  pub bind :
      {m : Act g A} {f : A → Act g B}
      → Meets 0 none m
      → ((a : A) → Meets pops o (f a))
      → Meets pops o (m >>= f)
  unfolding ◌>>=◌
  bind {m} h k = record { from = λ e. seq (h.from e) ((k (m e).0).from (m e).1) }

  pub next : {m : Act g A} {n : Act g B} → Meets 0 none m → Meets pops o n → Meets pops o (m >> n)
  unfolding ◌>>◌
  next {m} h k = record { from = λ e. seq (h.from e) (k.from (m e).1) }

  pub cased :
      (x : Option A) {m : Act g B} {f : A → Act g B}
      → Meets pops o m
      → ((a : A) → Meets pops o (f a))
      → Meets pops o (case_of x m f)
  unfolding case_of
  cased none h k = h
  cased (some a) h k = k a

  pub asked :
      (q : Engine g → A) {f : A → Act g B} → ((a : A) → Meets pops o (f a)) → Meets pops o (ask q f)
  unfolding ask
  asked q h = record { from = λ e. (h (q e)).from e }

module _ {g : GcRefs} {A : Type 0} where
  pub done : (a : A) → Meets 0 none (pure g a)
  unfolding pure
  done a = record { from = λ e. keep e }

  pub end_last :
      (outermost : Bool) (a : A) → Meets 0 (some outermost) (end_run g outermost >> pure g a)
  unfolding ◌>>◌ pure
  end_last outermost a = record { from = λ e. ended outermost e }
