-- ===== src/Lifecycle/Tests.antt =====
-- The life of an engine over the small JavaScript engine, and print.
use mathlib.Core.Option.{some-injective}
use mquickjs_kmp.Prelude.{
  ◌<◌, ◌^◌, ap, sym, if◌then◌else◌, Bool-cases, inl, inr, arith, ℕ, ◌≡◌, refl, Bool, true, false,
  Option, none, some, List, [], ◌∷◌, leb, codes,
}
use mquickjs_kmp.Bytecode.Tests.{this_build}
use mquickjs_kmp.Engine.Actions.{tagged}
use mquickjs_kmp.Engine.Books.Laws.{VmBooks}
use mquickjs_kmp.Engine.Books.Tests.{
  small_with, small_books, host_call, host_call-Level, first_answer,
}
use mquickjs_kmp.Engine.Errors.{RefCall, Refused, call_ref}
use mquickjs_kmp.Engine.Entries.{Restored, evaluate, retain, release, call}
use mquickjs_kmp.Engine.Keeps.{done}
use mquickjs_kmp.Engine.Tests.{small, small_keeps, fresh, whole}
use mquickjs_kmp.Engine.{Bytes, Tag, Vm, Engine, Act, pure}
use mquickjs_kmp.Lifecycle.Commands.{
  Command, entry, load, dump, interrupt_run, obey_all, obey, reply, replies, obey_all-Restored,
}
use mquickjs_kmp.Lifecycle.Texts.{reply-Shown}
use mquickjs_kmp.Engine.Texts.{Shown}
use mquickjs_kmp.Engine.Texts.Errors.{VmSpares}
use mquickjs_kmp.Lifecycle.Ledger.Bounds.{refcount_fits}
use mquickjs_kmp.Lifecycle.Ledger.{
  book_all, held-book_all, kept_until_released, released_handle-Refused,
}
use mquickjs_kmp.Lifecycle.Ends.{Ended, whole_life}
use mquickjs_kmp.Lifecycle.Keeps.{LogKeeps}
use mquickjs_kmp.Lifecycle.{
  free_context, free_slots, free_out_str, free_out_stack, free_log_line, free_mem, free_engine,
  new_engine, create, destroy, unlink_slots, free_all_slots, free_blocks,
}
use mquickjs_kmp.Slots.Held.{held}
use mquickjs_kmp.Slots.{Slot, slot_get}
use mquickjs_kmp.Slots.Tests.{
  handle_one, set_of_roots, roots_laws, fresh_table-Valid, fresh_table-held,
}

-- Contexts without roots, for at least 8192 bytes.
abbrev small_context : ℕ → Option (ℕ → Bool)
small_context n = if leb 8192 n then some (λ i. false) else none

abbrev answers : List Bool
answers = true ∷ true ∷ true ∷ true ∷ true ∷ true ∷ []

abbrev new_small : Engine set_of_roots
new_small = new_engine set_of_roots (λ i. false) (true ∷ true ∷ true ∷ true ∷ [])

small_context-empty :
    (n : ℕ) (ctx : ℕ → Bool) → small_context n ≡ some ctx → (i : ℕ) → ctx i ≡ false
small_context-empty n ctx h i = elim (Bool-cases (leb 8192 n)) [
  | inl e ↦ ap (λ f. f i) (sym (some-injective _ _ (rw e at h)))
  | inr e ↦ absurd (ground (arith, h, e))
]

created : create set_of_roots small_context answers 65536 ≡ some new_small
unfolding create
created = refl

too_small : create set_of_roots small_context answers 4095 ≡ none
unfolding create
too_small = refl

empty_teardown :
    destroy set_of_roots new_small
    ≡ free_context ∷ free_slots ∷ free_out_str ∷ free_out_stack ∷ free_log_line ∷ free_mem
      ∷ free_engine ∷ []
unfolding destroy unlink_slots free_all_slots free_blocks
empty_teardown = refl

-- A file that is no bytecode, between two calls, with an interrupt and a look at the memory.
abbrev commands : List (Command ℕ)
commands =
    entry (evaluate (codes "f") (codes "a.js") 1)
    ∷ load (1 ∷ 2 ∷ [])
    ∷ entry (retain 1)
    ∷ dump
    ∷ entry (call 1 0 (tagged whole Tag.ref ∷ []) 0)
    ∷ interrupt_run
    ∷ entry (release 1)
    ∷ []

obey_all-Restored_example : Restored fresh (obey_all small this_build commands fresh)
obey_all-Restored_example =
    obey_all-Restored roots_laws small small_keeps this_build commands fresh fresh_table-Valid

whole_life_example : Ended set_of_roots (obey_all small this_build commands new_small)
whole_life_example =
    whole_life roots_laws small small_keeps this_build small_context small_context-empty answers
      65536 new_small created commands

-- An engine whose calls of functions call the host with two refs.
abbrev calling : Vm set_of_roots whole
calling = small_with host_call

calling_books : VmBooks 1 calling
calling_books = small_books 1 host_call-Level

held-book_all_example :
    held set_of_roots (obey_all calling this_build commands fresh).table 1
    ≡ book_all 1 commands
        (replies calling this_build commands fresh)
        (held set_of_roots fresh.table 1)
held-book_all_example =
    held-book_all roots_laws 1 handle_one calling calling_books this_build commands fresh
      fresh_table-Valid

kept_until_released_example :
    (s : Slot ℕ) × (slot_get set_of_roots (obey_all calling this_build commands fresh).table 1
      ≡ some s)
    × (s.refcount
        ≡ book_all 1 commands
            (replies calling this_build commands fresh)
            (held set_of_roots fresh.table 1))
kept_until_released_example =
    kept_until_released roots_laws 1 handle_one calling calling_books this_build commands fresh
      fresh_table-Valid (ground (arith, first_answer))

-- A log that ignores what it gets.
abbrev silent : Option (Bytes → Act set_of_roots (Unit {0}))
silent = some (λ p. pure set_of_roots tt)

silent_keeps : LogKeeps set_of_roots silent
silent_keeps p = done tt

small_spares : VmSpares small
unfolding pure
small_spares = record {
  read_stack = λ v. record { from = λ e. refl };
  to_c_string = λ v. record { from = λ e. refl };
  get_exception = record { from = λ e. refl };
}

-- The small engine's functions throw when they are called.
abbrev with_function : Engine set_of_roots
with_function = obey small this_build (entry (evaluate (codes "f") (codes "a.js") 1)) fresh

abbrev throwing : Command ℕ
throwing = entry (call 1 0 (tagged whole Tag.ref ∷ []) 0)

reply-Shown_example :
    Shown
      (obey small this_build throwing with_function)
      (reply small this_build throwing with_function)
reply-Shown_example = reply-Shown small small_spares this_build throwing with_function

refcount_fits_example :
    held set_of_roots (obey_all calling this_build commands fresh).table 1 < 2 ^ 31
refcount_fits_example =
    refcount_fits roots_laws 1 handle_one calling calling_books this_build commands fresh
      fresh_table-Valid (omega (arith, fresh_table-held))

-- A visit that gives everything back.
abbrev visit : List (Command ℕ)
visit = entry (evaluate (codes "f") (codes "a.js") 1) ∷ entry (release 1) ∷ []

released_handle-Refused_example :
    Refused whole
      (obey_all calling this_build visit fresh)
      (call_ref calling (RefCall.call 0 [] 0) 1 (obey_all calling this_build visit fresh))
released_handle-Refused_example =
    released_handle-Refused roots_laws 1 handle_one calling calling_books this_build visit fresh
      fresh_table-Valid (ground (arith, first_answer, fresh_table-held)) (RefCall.call 0 [] 0)
