-- ===== src/Engine/Actions.antt =====
-- The small actions of which the shim's functions are made.
use mquickjs_kmp.Prelude.{ℕ, Bool, false, Option, none, some, List, [], ◌∷◌}
use mquickjs_kmp.Buffer.{Appended, buf_append, buf_reset, publish, next_answer, later_answers}
use mquickjs_kmp.Engine.{Bytes, Tag, Value, Doubles, Engine, Act, pure, ◌>>=◌}
use mquickjs_kmp.GcRefs.{GcRefs}
use mquickjs_kmp.RunState.{run_begin, run_end}
use mquickjs_kmp.Slots.{Slot, negative, at, slot_at, slot_index, slot_get, slot_new, ref_release}

module _ (g : GcRefs) where
  abbrev pub reads : {A : Type 0} → (Engine g → A) → Act g A
  reads f e = (f e, e)

  -- run_begin and run_end on the engine's state.
  unfoldable pub begin_run : Act g Bool
  begin_run e = ((run_begin e.state).0, record e { state = (run_begin e.state).1 })

  unfoldable pub end_run : Bool → Act g (Unit {0})
  end_run outermost e = (tt, record e { state = run_end outermost e.state })

  -- JS_PushGCRef, which roots an undefined value; the write through the pointer that it returns;
  -- and JS_PopGCRef.
  unfoldable pub push_gc_ref : Act g (Unit {0})
  push_gc_ref e = (tt, record e { roots = g.undefined ∷ e.roots })

  abbrev pub set_top : g.Val → List g.Val → List g.Val
  set_top v [] = []
  set_top v (_ ∷ vs) = v ∷ vs

  unfoldable pub write_root : g.Val → Act g (Unit {0})
  write_root v e = (tt, record e { roots = set_top v e.roots })

  abbrev pub without_top : List g.Val → List g.Val
  without_top [] = []
  without_top (_ ∷ vs) = vs

  unfoldable pub pop_gc_ref : Act g (Unit {0})
  pop_gc_ref e = (tt, record e { roots = without_top e.roots })

  -- The value of the last pushed root, and of the one before it.
  abbrev pub top_of : List g.Val → g.Val
  top_of [] = g.undefined
  top_of (v ∷ _) = v

  abbrev pub top_root : Engine g → g.Val
  top_root e = top_of e.roots

  abbrev pub next_root : Engine g → g.Val
  next_root e = top_of (without_top e.roots)

  -- One call of malloc or calloc.
  unfoldable pub alloc_answer : Act g Bool
  alloc_answer e = (
    next_answer e.table.allocs,
    record e { table = record (e.table) { allocs = later_answers e.table.allocs } },
  )

  -- The slot behind a handle, and its value when it is read later through the slot's pointer.
  unfoldable pub find_slot : ℕ → Act g (Option (Slot g.Val))
  find_slot ref e = (slot_get g e.table ref, e)

  unfoldable pub slot_val : ℕ → Engine g → g.Val
  slot_val ref e = elim (slot_index ref) [
    | negative ↦ g.undefined
    | at idx ↦ (slot_at g e.table idx).val
  ]

  unfoldable pub new_slot : g.Val → Act g ℕ
  new_slot v e = ((slot_new g e.table v).0, record e { table = (slot_new g e.table v).1 })

  unfoldable pub release_slot : ℕ → Act g (Unit {0})
  release_slot ref e = (tt, record e { table = ref_release g e.table ref })

-- The buffer that a text is copied to: one of the engine's, or a zeroed one of the caller.
pub data Dest : Type 0 where
  to_str to_stack to_fresh : Dest

module _ (g : GcRefs) where
  abbrev pub after_append : Engine g → Appended → Engine g
  after_append e r = record e { table = record (e.table) { allocs = r.allocs } }

  -- Resets the buffer, appends the text, and publishes what the buffer then holds; the flag is
  -- false when memory ran out.
  unfoldable pub replace_text : Dest → Bytes → Act g (Bool × Bytes)
  replace_text to_str p e =
      let r = buf_append e.table.allocs (buf_reset e.out_str) p in
      ((r.ok, publish r.buffer), record (after_append e r) { out_str = r.buffer })
  replace_text to_stack p e =
      let r = buf_append e.table.allocs (buf_reset e.out_stack) p in
      ((r.ok, publish r.buffer), record (after_append e r) { out_stack = r.buffer })
  replace_text to_fresh p e =
      let r = buf_append e.table.allocs (record { bytes = []; cap = 0 }) p in
      ((r.ok, publish r.buffer), after_append e r)

-- A kmpjs_value after memset, with its tag.
abbrev pub tagged : (d : Doubles) → Tag → Value d.Num
tagged d t = record { tag = t; ref = 0; num = d.of_ℕ 0; str = none; stack = none }

-- fail_message: an error of the shim itself. The C functions then return -1, here false.
unfoldable pub fail_message : (g : GcRefs) (d : Doubles) → Bytes → Act g (Bool × Value d.Num)
fail_message g d msg = do
  (ok, text) ← replace_text g to_str msg
  pure g (false, record (tagged d Tag.exception) { str = some text })
