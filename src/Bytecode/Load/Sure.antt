-- ===== src/Bytecode/Load/Sure.antt =====
-- The slot that kmpjs_load_bytecode reserves before it loads.
use mquickjs_kmp.Prelude.{
  ℕ, ◌≡◌, ◌≢◌, refl, sym, ◌∙◌, ap, true, false, Bool-cases, some, Option-cases, inl, inr, codes,
}
use mquickjs_kmp.Bytecode.Load.{
  reserve_slot, keep_block, explain, load_failed, load_body, relocate_body, load_checked,
  load_bytecode,
}
use mquickjs_kmp.Bytecode.{Build, check_bytecode, out_has}
use mquickjs_kmp.Engine.Actions.{alloc_answer, fail_message, new_slot}
use mquickjs_kmp.Engine.Convert.Keeps.{allocs-Valid}
use mquickjs_kmp.Engine.Errors.{fail_message-Refused}
use mquickjs_kmp.Engine.Refs.{Reply}
use mquickjs_kmp.Engine.{Bytes, Value, Doubles, Engine, Vm, case_of, ◌>>=◌, ◌>>◌, pure}
use mquickjs_kmp.GcRefs.{GcRefs, GcRefsLaws}
use mathlib.Core.Path.{subst}
use mquickjs_kmp.Slots.Placing.{slot_new-reserved, slot_reserve-Reserved, Reserved-true}
use mquickjs_kmp.Slots.Preserve.{Valid, slot_reserve-Valid}
use mquickjs_kmp.Slots.{slot_reserve}

-- JS_RelocateBytecode and JS_LoadBytecode run no script, so they leave the ref table alone.
pub record RunsNoScript {g : GcRefs} {d : Doubles} (vm : Vm g d) : Type 0 where
  pub relocate : (p : Bytes) (e : Engine g) → (vm.relocate_bytecode p e).1.table ≡ e.table
  pub load : (p : Bytes) (e : Engine g) → (vm.load_bytecode p e).1.table ≡ e.table

module _ {g : GcRefs} (d : Doubles) where
  -- Whatever succeeds has a handle other than 0.
  abbrev HasRef : Reply d × Engine g → Type 0
  HasRef r = r.0.0 ≡ true → r.0.1.ref ≢ 0

  failed-HasRef : (r : Reply d × Engine g) → r.0.0 ≡ false → HasRef r
  failed-HasRef r h ok = cc

  message-HasRef : (msg : Bytes) (e : Engine g) → HasRef (fail_message g d msg e)
  message-HasRef msg e = failed-HasRef (fail_message g d msg e) (fail_message-Refused msg e).failed

module _ {g : GcRefs} (laws : GcRefsLaws g) {d : Doubles} (vm : Vm g d) (q : RunsNoScript vm) where
  explain-HasRef : (out : Value d.Num) (e : Engine g) → HasRef d (explain vm out e)
  unfolding explain pure
  explain-HasRef out e =
      elim (Bool-cases (out_has out.str (codes "no atom must be defined in RAM"))) [
        | inl h ↦ rw h (message-HasRef d _ e)
        | inr h ↦ rw h (elim (Bool-cases (out_has out.str (codes "too many rom atom tables"))) [
          | inl k ↦ rw k (message-HasRef d _ e)
          | inr k ↦ rw k (failed-HasRef d ((false, out), e) refl)
        ])
      ]

  load_failed-HasRef : (e : Engine g) → HasRef d (load_failed vm e)
  unfolding load_failed ◌>>=◌
  load_failed-HasRef e = explain-HasRef _ _

  load_body-HasRef :
      (body : Bytes) (e : Engine g) (i : ℕ)
      → Valid g e.table
      → e.table.free_head ≡ some i
      → HasRef d (load_body vm body e)
  unfolding load_body ◌>>=◌ ◌>>◌ pure new_slot keep_block
  load_body-HasRef body e i v free =
      elim (Bool-cases (vm.is_exception (vm.load_bytecode body e).0)) [
        | inl h ↦ rw h (load_failed-HasRef _)
        | inr h ↦ rw h (λ _.
            rw (q.load body e) (slot_new-reserved g e.table (vm.load_bytecode body e).0 i v free).0)
      ]

  relocate_body-HasRef :
      (body : Bytes) (e : Engine g) (i : ℕ)
      → Valid g e.table
      → e.table.free_head ≡ some i
      → HasRef d (relocate_body vm body e)
  unfolding relocate_body ◌>>=◌ alloc_answer case_of
  relocate_body-HasRef body e i v free = elim (Bool-cases (alloc_answer g e).0) [
    | inr h ↦ rw h (message-HasRef d _ _)
    | inl h ↦
        (let r = vm.relocate_bytecode body (alloc_answer g e).1 in
          rw h (elim (Option-cases r.0) [
            | inl gone ↦ rw gone (message-HasRef d _ _)
            | inr (moved, is) ↦ rw is (
                load_body-HasRef moved r.1 i
                  (subst (Valid g) (sym (q.relocate body (alloc_answer g e).1))
                    (allocs-Valid e.table _ v))
                  (ap (λ t. t.free_head) (q.relocate body (alloc_answer g e).1) ∙ free))
          ]))
  ]

  load_checked-HasRef :
      (body : Bytes) (e : Engine g) → Valid g e.table → HasRef d (load_checked vm body e)
  unfolding load_checked ◌>>=◌ reserve_slot
  load_checked-HasRef body e v = elim (Bool-cases (slot_reserve g e.table).0) [
    | inr h ↦ rw h (message-HasRef d _ _)
    | inl h ↦
        (let (i, free, _) = Reserved-true g (slot_reserve-Reserved g e.table v) h in
          rw h (relocate_body-HasRef body _ i (slot_reserve-Valid g laws e.table v) free))
  ]

  -- On a valid ref table, and if JS_RelocateBytecode and JS_LoadBytecode run no script, a program
  -- that kmpjs_load_bytecode has loaded always gets a handle other than 0: slot_new cannot fail
  -- after JS_LoadBytecode, which cannot be undone.
  pub loaded_has_ref :
      (b : Build) (buf : Bytes) (e : Engine g)
      → Valid g e.table
      → (load_bytecode vm b buf e).0.0 ≡ true
      → (load_bytecode vm b buf e).0.1.ref ≢ 0
  unfolding load_bytecode case_of
  loaded_has_ref b buf e v = elim (Option-cases (check_bytecode b vm.is_bytecode buf)) [
    | inl h ↦ rw h (load_checked-HasRef _ e v)
    | inr (msg, h) ↦ rw h (message-HasRef d msg e)
  ]
