-- ===== src/RunState/Tests.antt =====
-- The theorems on runs and interrupts at a concrete interleaving.
use mquickjs_kmp.Prelude.{◌≡◌, refl, true, false, List, [], ◌∷◌}
use mquickjs_kmp.RunState.Threads.{
  System, Event, enter, leave, interrupts, play, play_all, start, IsSound, stays_open,
  play_all-IsSound, interrupt_kept,
}
use mquickjs_kmp.RunState.{interrupted, run_begin, run_end, interrupt_handler}

start-IsSound : IsSound start
start-IsSound = record { nested = tt; matched = tt }

-- An interrupt inside a nested run, which ends before the outer one.
abbrev nested_run : List Event
nested_run = enter ∷ enter ∷ interrupts ∷ leave ∷ []

play_all-IsSound_example : IsSound (play_all start nested_run)
play_all-IsSound_example = play_all-IsSound start nested_run start-IsSound

abbrev hit : System
hit = record { state = interrupted; runs = false ∷ true ∷ [] }

interrupt_kept_example : interrupt_handler (play_all hit (leave ∷ enter ∷ leave ∷ [])).state ≡ true
unfolding stays_open play run_begin run_end
interrupt_kept_example =
    interrupt_kept hit (leave ∷ enter ∷ leave ∷ []) (record { nested = (refl, refl); matched = tt })
      refl refl
