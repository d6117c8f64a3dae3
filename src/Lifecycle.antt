-- ===== src/Lifecycle.antt =====
-- kmpjs_create and kmpjs_destroy, print and kmpjs_dump_memory of native/shim/mquickjs_kmp.c.
pub mod Books
pub mod Commands
pub mod Ends
pub mod Keeps
pub mod Ledger
pub mod Nesting
pub mod Print
pub mod Tests
pub mod Texts
use mquickjs_kmp.Prelude.{
  ℕ, zero, suc, ◌+◌, ◌^◌, ◌==◌, leb, ltb, Bool, true, false, ◌||◌, Option, none, some, List, [],
  ◌∷◌, ◌++◌, if◌then◌else◌, codes,
}
use mquickjs_kmp.Buffer.{
  Buffer, empty_buffer, buf_append, buf_reset, publish, next_answer, later_answers,
}
use mquickjs_kmp.Engine.Actions.{after_append, to_str, replace_text, tagged}
use mquickjs_kmp.Engine.{
  Bytes, Tag, Value, Doubles, Engine, Act, pure, ◌>>=◌, ◌>>◌, case_of, ask, Vm,
}
use mquickjs_kmp.GcRefs.{GcRefs}
use mquickjs_kmp.RunState.{idle}
use mquickjs_kmp.Slots.{Slot}

-- KMP_MIN_MEM.
abbrev pub min_mem : ℕ
min_mem = 4096

-- One step of kmpjs_destroy: a JS_DeleteGCRef for the slot of an index, or the release of something.
pub data Step : Type 0 where
  delete_gc_ref free_slot : ℕ → Step
  free_context free_slots free_out_str free_out_stack free_log_line free_mem free_engine : Step
  free_block : Bytes → Step

module _ (g : GcRefs) where
  -- The engine that kmpjs_create fills in, around a new context.
  abbrev pub new_engine : g.Ctx → List Bool → Engine g
  new_engine ctx allocs = record {
    table = record { ctx = ctx; slots = []; slot_cap = 0; free_head = none; allocs = allocs };
    roots = [];
    state = idle;
    out_str = empty_buffer;
    out_stack = empty_buffer;
    log_line = empty_buffer;
    blocks = [];
  }

  -- kmpjs_create, with JS_NewContext and the answers that calloc and malloc have still to give.
  -- `mem_bytes` is the bit pattern of an int32_t; none is NULL.
  unfoldable pub create : (ℕ → Option g.Ctx) → List Bool → ℕ → Option (Engine g)
  create new_context allocs mem_bytes =
      if leb (2 ^ 31) mem_bytes || ltb mem_bytes min_mem
      then none
      else if next_answer allocs
      then (if next_answer (later_answers allocs)
          then elim (new_context mem_bytes) [
            | none ↦ none
            | some ctx ↦ some (new_engine ctx (later_answers (later_answers allocs)))
          ]
          else none)
      else none

  -- The three loops of kmpjs_destroy.
  unfoldable pub unlink_slots : List (Slot g.Val) → ℕ → List Step
  unlink_slots [] i = []
  unlink_slots (s ∷ ss) i =
      let rest = unlink_slots ss (suc i) in
      if ltb 0 s.refcount then delete_gc_ref i ∷ rest else rest

  unfoldable pub free_all_slots : List (Slot g.Val) → ℕ → List Step
  free_all_slots [] i = []
  free_all_slots (s ∷ ss) i = free_slot i ∷ free_all_slots ss (suc i)

  unfoldable pub free_blocks : List Bytes → List Step
  free_blocks [] = []
  free_blocks (b ∷ bs) = free_block b ∷ free_blocks bs

  -- kmpjs_destroy, for an engine that is not NULL.
  unfoldable pub destroy : Engine g → List Step
  destroy e =
      unlink_slots e.table.slots 0
      ++ (free_context ∷ free_all_slots e.table.slots 0
          ++ (free_slots ∷ free_blocks e.blocks
              ++ (free_out_str ∷ free_out_stack ∷ free_log_line ∷ free_mem ∷ free_engine ∷ [])))

  -- buf_append to log_line, whose result is not looked at: kmp_write_func, and the appends of print.
  unfoldable pub append_log : Bytes → Act g (Unit {0})
  append_log p e =
      let r = buf_append e.table.allocs e.log_line p in
      (tt, record (after_append g e r) { log_line = r.buffer })

  unfoldable pub reset_log : Act g (Unit {0})
  reset_log e = (tt, record e { log_line = buf_reset e.log_line })

  -- The call of the host's log callback, if any.
  unfoldable pub call_log : Option (Bytes → Act g (Unit {0})) → Act g (Unit {0})
  call_log none = pure g tt
  call_log (some f) = ask (λ e. publish e.log_line) f

module _ {g : GcRefs} {d : Doubles} (vm : Vm g d) where
  -- The loop of js_print: false when a string cannot be read.
  unfoldable pub print_args : (ℕ → Engine g → g.Val) → ℕ → ℕ → Act g Bool
  print_args argv zero i = pure g true
  print_args argv (suc n) i = do
    if i == 0 then pure g tt else append_log g (codes " ")
    let rest = print_args argv n (suc i)
    ask (argv i) (λ v.
        ask (λ e. vm.is_string e v)
          (λ string.
            if string
            then (do
              text ← vm.to_c_string v
              case_of text (pure g false) (λ p. do append_log g p; rest))
            else (do vm.print_value_long v; rest)))

  -- js_print.
  unfoldable pub js_print :
      Option (Bytes → Act g (Unit {0})) → ℕ → (ℕ → Engine g → g.Val) → Act g g.Val
  js_print log argc argv = do
    reset_log g
    ok ← print_args argv argc 0
    if ok then (do call_log g log; pure g g.undefined) else pure g vm.exception_value

  -- kmpjs_dump_memory: JS_DumpMemory writes to log_line.
  unfoldable pub dump_memory : Act g (Value d.Num)
  dump_memory = do
    reset_log g
    vm.dump_memory
    (_, text) ← ask (λ e. publish e.log_line) (replace_text g to_str)
    pure g (record (tagged d Tag.string) { str = some text })
