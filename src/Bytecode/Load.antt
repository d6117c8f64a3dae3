-- ===== src/Bytecode/Load.antt =====
-- kmpjs_load_bytecode of native/shim/mquickjs_kmp.c, with what the engine holds afterwards.
pub mod Books
pub mod Elsewhere
pub mod Home
pub mod Keeps
pub mod Sure
use mquickjs_kmp.Prelude.{
  ℕ, ◌+◌, ◌==◌, Bool, true, false, Option, none, some, List, [], ◌∷◌, if◌then◌else◌, codes,
}
use mquickjs_kmp.Bytecode.{Build, check_bytecode, out_has, drop, header_size}
use mquickjs_kmp.Engine.Actions.{alloc_answer, new_slot, fail_message, tagged}
use mquickjs_kmp.Engine.Convert.{exception_to_out}
use mquickjs_kmp.Engine.Refs.{Reply}
use mquickjs_kmp.Engine.{Bytes, Tag, Value, Doubles, Engine, Act, pure, ◌>>=◌, ◌>>◌, case_of, Vm}
use mquickjs_kmp.GcRefs.{GcRefs}
use mquickjs_kmp.Slots.{slot_reserve}

module _ (g : GcRefs) where
  -- slot_reserve, true for its 0.
  unfoldable pub reserve_slot : Act g Bool
  reserve_slot e = ((slot_reserve g e.table).0, record e { table = (slot_reserve g e.table).1 })

  -- The loaded body goes in front of the blocks that outlive the context.
  unfoldable pub keep_block : Bytes → Act g (Unit {0})
  keep_block body e = (tt, record e { blocks = body ∷ e.blocks })

module _ {g : GcRefs} {d : Doubles} (vm : Vm g d) where
  -- The engine's messages that say something else to the caller.
  unfoldable pub explain : Value d.Num → Act g (Reply d)
  explain out =
      if out_has out.str (codes "no atom must be defined in RAM")
      then fail_message g d (
          codes
            "bytecode must be loaded before any script is evaluated or host function registered")
      else if out_has out.str (codes "too many rom atom tables")
      then fail_message g d
          (codes "this engine already holds its bytecode program; one program per engine")
      else pure g (false, out)

  unfoldable pub load_failed : Act g (Reply d)
  load_failed = do out ← exception_to_out vm; explain out

  -- From JS_LoadBytecode on.
  unfoldable pub load_body : Bytes → Act g (Reply d)
  load_body body = do
    val ← vm.load_bytecode body
    if vm.is_exception val then load_failed else do
      keep_block g body
      ref ← new_slot g val
      pure g (true, record (tagged d Tag.ref) { ref = ref })

  -- From malloc on: the copy is relocated in place.
  unfoldable pub relocate_body : Bytes → Act g (Reply d)
  relocate_body body = do
    ok ← alloc_answer g
    if ok
        then (do
          relocated ← vm.relocate_bytecode body
          case_of relocated (fail_message g d (codes "could not relocate bytecode")) load_body)
        else fail_message g d (codes "out of memory")

  unfoldable pub load_checked : Bytes → Act g (Reply d)
  load_checked body = do
    reserved ← reserve_slot g
    if reserved then relocate_body body else fail_message g d (codes "out of memory")

  -- kmpjs_load_bytecode.
  unfoldable pub load_bytecode : Build → Bytes → Act g (Reply d)
  load_bytecode b buf =
      case_of (check_bytecode b vm.is_bytecode buf) (load_checked (drop header_size buf))
        (fail_message g d)
