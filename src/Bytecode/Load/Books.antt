-- ===== src/Bytecode/Load/Books.antt =====
-- The reference that kmpjs_load_bytecode hands out.
use mquickjs_kmp.Prelude.{ℕ, refl, ◌≡◌, false, codes, arith}
use mquickjs_kmp.Bytecode.Load.{
  reserve_slot, keep_block, explain, load_failed, load_body, relocate_body, load_checked,
  load_bytecode,
}
use mquickjs_kmp.Bytecode.{Build, check_bytecode, out_has, drop, header_size}
use mquickjs_kmp.Engine.Books.Convert.{
  exception_to_out-Level, exception_to_out-lent, fail_message-Books,
}
use mquickjs_kmp.Engine.Books.{
  Books, Level, knowing, lent_reply, lent_with, lends, bind, branch, cased, done, next, aside,
  alloc_answer-Level, new_slot-Books,
}
use mquickjs_kmp.Engine.Books.Laws.{VmBooks}
use mquickjs_kmp.Engine.{Bytes, Value, Doubles, Vm}
use mquickjs_kmp.GcRefs.{GcRefs, GcRefsLaws}
use mquickjs_kmp.Slots.Held.{slot_reserve-held}
use mquickjs_kmp.Slots.Preserve.{slot_reserve-Valid}
use mquickjs_kmp.Slots.{is_not_positive}

module _ {g : GcRefs} {x : ℕ} where
  reserve_slot-Level : GcRefsLaws g → Level x (reserve_slot g)
  unfolding reserve_slot
  reserve_slot-Level laws = record {
    valid = λ e v. slot_reserve-Valid g laws e.table v;
    even = λ e v _. omega (arith, slot_reserve-held g e.table v x);
  }

  keep_block-Level : (body : Bytes) → Level x (keep_block g body)
  unfolding keep_block
  keep_block-Level body = aside _ (λ e. refl)

module _ {g : GcRefs} (laws : GcRefsLaws g) {x : ℕ} (positive : is_not_positive x ≡ false)
    {d : Doubles} (vm : Vm g d) (k : VmBooks x vm) where
  explain-Books :
      (out : Value d.Num) → 0 ≡ lent_with x out → Books x 0 (lent_reply x) (explain vm out)
  unfolding explain
  explain-Books out q =
      branch (out_has out.str (codes "no atom must be defined in RAM"))
        (fail_message-Books d (
          codes
            "bytecode must be loaded before any script is evaluated or host function registered"))
        (branch (out_has out.str (codes "too many rom atom tables"))
          (fail_message-Books d
            (codes "this engine already holds its bytecode program; one program per engine"))
          (done (false, out) q))

  load_failed-Books : Books x 0 (lent_reply x) (load_failed vm)
  unfolding load_failed
  load_failed-Books =
      knowing (exception_to_out-lent vm k) (exception_to_out-Level vm k) explain-Books

  load_body-Books : (body : Bytes) → Books x 0 (lent_reply x) (load_body vm body)
  unfolding load_body
  load_body-Books body = bind (k.load_bytecode body) (λ val. branch _ load_failed-Books (
      next (keep_block-Level body)
        (lends (new_slot-Books laws x positive val) (λ ref. done _ refl))))

  relocate_body-Books : (body : Bytes) → Books x 0 (lent_reply x) (relocate_body vm body)
  unfolding relocate_body
  relocate_body-Books body = bind alloc_answer-Level (λ ok.
      branch ok
        (bind (k.relocate_bytecode body)
          (λ relocated. cased relocated (fail_message-Books d _) load_body-Books))
        (fail_message-Books d _))

  load_checked-Books : (body : Bytes) → Books x 0 (lent_reply x) (load_checked vm body)
  unfolding load_checked
  load_checked-Books body =
      bind (reserve_slot-Level laws)
        (λ reserved. branch reserved (relocate_body-Books body) (fail_message-Books d _))

  pub load_bytecode-Books :
      (b : Build) (buf : Bytes) → Books x 0 (lent_reply x) (load_bytecode vm b buf)
  unfolding load_bytecode
  load_bytecode-Books b buf =
      cased (check_bytecode b vm.is_bytecode buf) (load_checked-Books (drop header_size buf))
        (fail_message-Books d)
