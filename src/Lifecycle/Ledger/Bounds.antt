-- ===== src/Lifecycle/Ledger/Bounds.antt =====
-- The size of the reference counts after calls of the host.
use mquickjs_kmp.Prelude.{◌≤◌, ◌^◌, length, ℕ, ◌+◌, ◌≡◌, ◌<◌, false, List, [], ◌∷◌, arith}
use mquickjs_kmp.Engine.Books.Laws.{VmBooks}
use mquickjs_kmp.Engine.Books.{lent_by}
use mquickjs_kmp.Engine.Entries.{Entry}
use mquickjs_kmp.Bytecode.{Build}
use mquickjs_kmp.Lifecycle.Commands.{Command, obey_all, replies}
use mquickjs_kmp.Engine.{Tag, Value, Doubles, Engine, Vm}
use mquickjs_kmp.GcRefs.{GcRefs, GcRefsLaws}
use mquickjs_kmp.Slots.Held.{held, one}
use mquickjs_kmp.Slots.Preserve.{Valid}
use mquickjs_kmp.Slots.{is_not_positive}
use mquickjs_kmp.Lifecycle.Ledger.{book, book_all, held-book_all}

one_small : (x r : ℕ) → one x r ≤ 1
one_small x r = ground arith

lent_small : (x : ℕ) (tag : Tag) (r : ℕ) → lent_by x tag r ≤ 1
lent_small x Tag.undefined r = omega arith
lent_small x Tag.null r = omega arith
lent_small x Tag.bool r = omega arith
lent_small x Tag.number r = omega arith
lent_small x Tag.string r = omega arith
lent_small x Tag.object r = omega arith
lent_small x Tag.exception r = omega arith
lent_small x Tag.ref r = one_small x r
lent_small x (Tag.other n) r = omega arith

page_small :
    {Num : Type 0} (x : ℕ) (c : Entry Num) (out : Value Num) (n : ℕ)
    → book x (Command.entry c) out n ≤ n + 1
page_small x (Entry.retain ref) out n = ground (arith, one_small x ref)
page_small x (Entry.release ref) out n = omega arith
page_small x (Entry.evaluate code filename flags) out n =
    omega (arith, lent_small x out.tag out.ref)
page_small x (Entry.define name fn_id flags) out n = omega (arith, lent_small x out.tag out.ref)
page_small x (Entry.get ref name flags) out n = omega (arith, lent_small x out.tag out.ref)
page_small x (Entry.get_index ref index flags) out n = omega (arith, lent_small x out.tag out.ref)
page_small x (Entry.set ref name value) out n = omega (arith, lent_small x out.tag out.ref)
page_small x (Entry.call ref this_ref args flags) out n =
    omega (arith, lent_small x out.tag out.ref)
page_small x (Entry.to_json ref) out n = omega (arith, lent_small x out.tag out.ref)
page_small x (Entry.run ref flags) out n = omega (arith, lent_small x out.tag out.ref)

book_small :
    {Num : Type 0} (x : ℕ) (c : Command Num) (out : Value Num) (n : ℕ) → book x c out n ≤ n + 1
book_small x (Command.entry c) out n = page_small x c out n
book_small x (Command.load buf) out n = omega (arith, lent_small x out.tag out.ref)
book_small x Command.dump out n = omega (arith, lent_small x out.tag out.ref)
book_small x Command.interrupt_run out n = omega (arith, lent_small x out.tag out.ref)

book_all_small :
    {Num : Type 0} (x : ℕ) (cs : List (Command Num)) (outs : List (Value Num)) (n : ℕ)
    → book_all x cs outs n ≤ n + length cs
book_all_small x [] outs n = omega arith
book_all_small x (c ∷ cs) [] n = omega arith
book_all_small x (c ∷ cs) (out ∷ outs) n =
    omega (arith, book_small x c out n, book_all_small x cs outs (book x c out n))

module _ {g : GcRefs} (laws : GcRefsLaws g) (x : ℕ) (positive : is_not_positive x ≡ false)
    {d : Doubles} (vm : Vm g d) (k : VmBooks x vm) (b : Build) where
  -- After host calls from a valid table, the references of a positive handle, which slot_get finds as
  -- the int32_t `refcount` of its slot, are fewer than 2^31, if those before and the number of the
  -- calls are fewer together.
  -- This is for JavaScript engines whose calls, callbacks included, keep no reference of the handle.
  pub refcount_fits :
      (cs : List (Command d.Num)) (e : Engine g)
      → Valid g e.table
      → held g e.table x + length cs < 2 ^ 31
      → held g (obey_all vm b cs e).table x < 2 ^ 31
  refcount_fits cs e v few =
      let most = book_all_small x cs (replies vm b cs e) (held g e.table x) in
      omega (arith, few, most, held-book_all laws x positive vm k b cs e v)
