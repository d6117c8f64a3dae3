-- ===== src/RunState.antt =====
-- The atomic state of kmpjs_engine in native/shim/mquickjs_kmp.c: idle, running or interrupted.
pub mod Tests
pub mod Threads
use mquickjs_kmp.Prelude.{Bool, true, false}

pub data RunState : Type 0 where
  idle running interrupted : RunState

-- kmpjs_interrupt: the compare-and-exchange of running for interrupted.
unfoldable pub interrupt : RunState → RunState
interrupt running = interrupted
interrupt idle = idle
interrupt interrupted = interrupted

-- run_begin: the compare-and-exchange of idle for running, true when it took place.
unfoldable pub run_begin : RunState → Bool × RunState
run_begin idle = (true, running)
run_begin running = (false, running)
run_begin interrupted = (false, interrupted)

-- run_end: the store of idle, by the outermost run alone.
unfoldable pub run_end : Bool → RunState → RunState
run_end true s = idle
run_end false s = s

-- kmp_interrupt_handler: what the engine polls.
unfoldable pub interrupt_handler : RunState → Bool
interrupt_handler interrupted = true
interrupt_handler idle = false
interrupt_handler running = false
