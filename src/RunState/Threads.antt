-- ===== src/RunState/Threads.antt =====
-- One thread that enters and leaves runs, nested or not, and other threads that interrupt it, in any
-- order: each event is one atomic operation.
use mquickjs_kmp.Prelude.{◌≡◌, refl, Bool, true, false, List, [], ◌∷◌, arith, ◌&&◌}
use mquickjs_kmp.RunState.{
  RunState, idle, running, interrupted, interrupt, run_begin, run_end, interrupt_handler,
}

-- The state, and what run_begin returned to each run that has not ended, innermost first.
pub record System : Type 0 where
  pub state : RunState
  pub runs : List Bool

pub data Event : Type 0 where
  enter leave interrupts : Event

-- The innermost run ends with its own flag. (There is no run to leave when none is open.)
abbrev pub pop_run : RunState → List Bool → System
pop_run s [] = record { state = s; runs = [] }
pop_run s (o ∷ os) = record { state = run_end o s; runs = os }

unfoldable pub play : System → Event → System
play s enter = record { state = (run_begin s.state).1; runs = (run_begin s.state).0 ∷ s.runs }
play s leave = pop_run s.state s.runs
play s interrupts = record s { state = interrupt s.state }

unfoldable pub play_all : System → List Event → System
play_all s [] = s
play_all s (e ∷ es) = play_all (play s e) es

abbrev pub start : System
start = record { state = idle; runs = [] }

-- Only the first of the open runs is the outermost.
abbrev pub Nested : List Bool → Type 0
Nested [] = Unit {0}
Nested (o ∷ []) = o ≡ true
Nested (o ∷ p ∷ os) = (o ≡ false) × Nested (p ∷ os)

-- The state is idle exactly when no run is open.
abbrev pub Matches : RunState → List Bool → Type 0
Matches idle [] = Unit {0}
Matches idle (o ∷ os) = ⊥
Matches running [] = ⊥
Matches running (o ∷ os) = Unit {0}
Matches interrupted [] = ⊥
Matches interrupted (o ∷ os) = Unit {0}

pub record IsSound (s : System) : Type 0 where
  pub nested : Nested s.runs
  pub matched : Matches s.state s.runs

sound :
    (st : RunState) (os : List Bool)
    → Nested os
    → Matches st os
    → IsSound (record { state = st; runs = os })
sound st os n m = record { nested = n; matched = m }

play-IsSound' :
    (st : RunState) (os : List Bool) (e : Event)
    → Nested os
    → Matches st os
    → IsSound (play (record { state = st; runs = os }) e)
unfolding play run_begin run_end interrupt
play-IsSound' idle [] enter n m = sound _ _ refl tt
play-IsSound' idle [] leave n m = sound _ _ tt tt
play-IsSound' idle [] interrupts n m = sound _ _ tt tt
play-IsSound' idle (o ∷ os) e n m = absurd m
play-IsSound' running [] e n m = absurd m
play-IsSound' running (o ∷ os) enter n m = sound _ _ (refl, n) tt
play-IsSound' running (o ∷ []) leave n m = rw n (sound _ _ tt tt)
play-IsSound' running (o ∷ p ∷ os) leave n m = rw (n.0) (sound _ _ n.1 tt)
play-IsSound' running (o ∷ os) interrupts n m = sound _ _ n tt
play-IsSound' interrupted [] e n m = absurd m
play-IsSound' interrupted (o ∷ os) enter n m = sound _ _ (refl, n) tt
play-IsSound' interrupted (o ∷ []) leave n m = rw n (sound _ _ tt tt)
play-IsSound' interrupted (o ∷ p ∷ os) leave n m = rw (n.0) (sound _ _ n.1 tt)
play-IsSound' interrupted (o ∷ os) interrupts n m = sound _ _ n tt

play-IsSound : (s : System) (e : Event) → IsSound s → IsSound (play s e)
play-IsSound s e v = play-IsSound' s.state s.runs e v.nested v.matched

-- In every interleaving from the start the state is idle exactly when no run is open, and only the
-- first open run will reset it.
pub play_all-IsSound : (s : System) (es : List Event) → IsSound s → IsSound (play_all s es)
unfolding play_all
play_all-IsSound s [] v = v
play_all-IsSound s (e ∷ es) v = play_all-IsSound (play s e) es (play-IsSound s e v)

-- Some run is open now and after every event but the last.
abbrev pub is_open : List Bool → Bool
is_open [] = false
is_open (_ ∷ _) = true

unfoldable pub stays_open : System → List Event → Bool
stays_open s [] = is_open s.runs
stays_open s (e ∷ es) = is_open s.runs && stays_open (play s e) es

play-interrupted' :
    (st : RunState) (os : List Bool) (e : Event)
    → st ≡ interrupted
    → Nested os
    → is_open (play (record { state = st; runs = os }) e).runs ≡ true
    → (play (record { state = st; runs = os }) e).state ≡ interrupted
unfolding play run_begin run_end interrupt
play-interrupted' st os enter e n h = rw e
play-interrupted' st os interrupts e n h = rw e
play-interrupted' st [] leave e n h = cc
play-interrupted' st (o ∷ []) leave e n h = cc
play-interrupted' st (o ∷ p ∷ os) leave e n h = rw (n.0) e

stays_open-tail :
    (s : System) (e : Event) (es : List Event)
    → stays_open s (e ∷ es) ≡ true
    → stays_open (play s e) es ≡ true
unfolding stays_open
stays_open-tail s e es h = ground arith

stays_open-head : (s : System) (es : List Event) → stays_open s es ≡ true → is_open s.runs ≡ true
unfolding stays_open
stays_open-head s [] h = h
stays_open-head s (e ∷ es) h = ground arith

-- An interrupt is never lost while its run lasts: as long as some run stays open, whatever runs
-- begin and end inside it, the engine's next poll sees the interrupt.
pub interrupt_kept :
    (s : System) (es : List Event)
    → IsSound s
    → s.state ≡ interrupted
    → stays_open s es ≡ true
    → interrupt_handler (play_all s es).state ≡ true
unfolding play_all interrupt_handler
interrupt_kept s [] v e h = rw e
interrupt_kept s (x ∷ xs) v e h =
    let later : stays_open (play s x) xs ≡ true = stays_open-tail s x xs h in
    interrupt_kept (play s x) xs (play-IsSound s x v)
      (play-interrupted' s.state s.runs x e v.nested (stays_open-head (play s x) xs later)) later

-- An interrupt while no run is open does nothing at all, and the next run starts uninterrupted.
pub interrupt_idle :
    (s : System)
    → IsSound s
    → s.runs ≡ []
    → (play s interrupts ≡ s) × (interrupt_handler (play (play s interrupts) enter).state ≡ false)
unfolding play interrupt interrupt_handler run_begin
interrupt_idle s v e = go s.state s.runs v.matched e
  where
    go :
        (st : RunState) (os : List Bool)
        → Matches st os
        → os ≡ []
        → let s' : System = record { state = st; runs = os } in
          (play s' interrupts ≡ s')
          × (interrupt_handler (play (play s' interrupts) enter).state ≡ false)
    go idle os m e = (refl, refl)
    go running [] m e = absurd m
    go running (o ∷ os) m e = cc
    go interrupted [] m e = absurd m
    go interrupted (o ∷ os) m e = cc
