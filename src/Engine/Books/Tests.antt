-- ===== src/Engine/Books/Tests.antt =====
-- Runs of the shim whose references are counted, over an engine whose calls run the trampoline.
use mquickjs_kmp.Prelude.{◌+◌, arith, List, [], ◌∷◌, ℕ, get_or, ◌≡◌, refl, some, codes}
use mquickjs_kmp.Engine.Actions.{tagged, alloc_answer, begin_run, end_run, new_slot}
use mquickjs_kmp.Engine.Refs.{eval, deliver}
use mquickjs_kmp.Engine.Convert.{
  parse_terminated, value_to_out, object_to_out, ref_to_out, object_kind,
}
use mquickjs_kmp.RunState.{run_begin}
use mquickjs_kmp.Engine.Books.Host.{lent_all}
use mquickjs_kmp.Engine.Books.Host.Kept.{HostBooks, kept_in_call, kmp_host-Level, kmp_host-held}
use mquickjs_kmp.Engine.Books.Laws.{VmBooks}
use mquickjs_kmp.Engine.Books.{Books, Level, lent_by, lent_with, done}
use mquickjs_kmp.Engine.Host.{HostFn, kmp_host}
use mquickjs_kmp.Engine.Tests.{small_calling, small_calling_all, whole, fresh}
use mquickjs_kmp.Engine.{Engine, Value, Tag, ref, Act, Vm, pure, ◌>>=◌, ◌>>◌, ask}
use mquickjs_kmp.Slots.Held.{held, ref_retain-held}
use mquickjs_kmp.Slots.Preserve.{Valid, ref_retain-Valid}
use mquickjs_kmp.Slots.Tests.{handle_one, set_of_roots, roots_laws, fresh_table-Valid}
use mquickjs_kmp.Slots.{
  slot_new, extend_slots, ensure_room, append_slot, occupy, slot_handle, ref_retain,
}

-- The small engine with other calls of functions.
abbrev pub small_with : Act set_of_roots ℕ → Vm set_of_roots whole
small_with = small_calling set_of_roots (λ n. n) (λ v. v)

pub small_books : (x : ℕ) {m : Act set_of_roots ℕ} → Level x m → VmBooks x (small_with m)
small_books x = small_calling_all set_of_roots (λ n. n) (λ v. v) (λ A a. done a refl)

-- A host that answers every call with undefined.
abbrev polite : HostFn set_of_roots whole
polite = some (λ id args. pure set_of_roots (0, tagged whole Tag.undefined))

polite_books : (x : ℕ) → HostBooks set_of_roots x whole (λ id args. 0) polite
polite_books x id args = done _ (omega arith)

-- An engine of which every call gives undefined, and one of which every call calls the host with two
-- functions, as refs.
abbrev plain : Vm set_of_roots whole
plain = small_with (pure set_of_roots 0)

plain_books : VmBooks 1 plain
plain_books = small_books 1 (done _ refl)

abbrev pub host_call : Act set_of_roots ℕ
host_call = kmp_host plain polite 2 (λ i e. 8) 3

pub host_call-Level : Level 1 host_call
host_call-Level =
    kmp_host-Level roots_laws handle_one plain plain_books polite (polite_books 1) 2 (λ i e. 8) 3

-- Over that engine the first script gives handle 1.
pub first_answer :
    (eval (small_with host_call) (codes "f") (codes "a.js") 1 fresh).0
    ≡ record (tagged whole ref) { ref = 1; num = 1 }
unfolding eval pure ◌>>=◌ ◌>>◌ ask deliver parse_terminated alloc_answer begin_run end_run
    value_to_out object_to_out ref_to_out object_kind slot_handle new_slot slot_new extend_slots
    ensure_room append_slot occupy run_begin get_or
first_answer = refl

-- A host that retains its first argument when that is a ref.
abbrev keep_ref : Tag → ℕ → Act set_of_roots (Unit {0})
keep_ref Tag.ref r e = (tt, record e { table = ref_retain set_of_roots e.table r })
keep_ref _ r e = (tt, e)

abbrev keep_first : List (Value ℕ) → Act set_of_roots (Unit {0})
keep_first [] e = (tt, e)
keep_first (v ∷ vs) e = keep_ref v.tag v.ref e

abbrev keeping : HostFn set_of_roots whole
keeping = some (λ id args e. ((0, tagged whole Tag.undefined), (keep_first args e).1))

-- What it keeps of handle 1.
abbrev first_ref : ℕ → List (Value ℕ) → ℕ
first_ref id [] = 0
first_ref id (v ∷ vs) = lent_with 1 v

no_ref : {n : ℕ} → Books 1 n (λ _. 0 + n) (λ (e : Engine set_of_roots). (tt {0}, e))
no_ref = record { valid = λ e ok. ok; even = λ e ok h. omega arith }

keep_ref-Books :
    (tag : Tag) (r more : ℕ)
    → Books 1
        (more + lent_by 1 tag r)
        (λ _. lent_by 1 tag r + (more + lent_by 1 tag r))
        (keep_ref tag r)
keep_ref-Books Tag.undefined r more = no_ref
keep_ref-Books Tag.null r more = no_ref
keep_ref-Books Tag.bool r more = no_ref
keep_ref-Books Tag.number r more = no_ref
keep_ref-Books Tag.string r more = no_ref
keep_ref-Books Tag.object r more = no_ref
keep_ref-Books Tag.exception r more = no_ref
keep_ref-Books (Tag.other n) r more = no_ref
keep_ref-Books Tag.ref r more = record {
  valid = λ e ok. ref_retain-Valid set_of_roots roots_laws e.table r ok;
  even = λ e ok h. ground (arith, h, ref_retain-held set_of_roots e.table r 1 handle_one);
}

keep_first-Books :
    (id : ℕ) (args : List (Value ℕ))
    → Books 1 (lent_all 1 args) (λ _. first_ref id args + lent_all 1 args) (keep_first args)
keep_first-Books id [] = no_ref
keep_first-Books id (v ∷ vs) = record {
  valid = λ e ok. (keep_ref-Books v.tag v.ref (lent_all 1 vs)).valid e ok;
  even = λ e ok h. (keep_ref-Books v.tag v.ref (lent_all 1 vs)).even e ok h;
}

keeping_books : HostBooks set_of_roots 1 whole first_ref keeping
keeping_books id args = record {
  valid = (keep_first-Books id args).valid;
  even = (keep_first-Books id args).even;
}

kmp_host-held_example :
    Valid set_of_roots (kmp_host plain keeping 2 (λ i e. 8) 3 fresh).1.table
    × (held set_of_roots (kmp_host plain keeping 2 (λ i e. 8) 3 fresh).1.table 1
        ≡ held set_of_roots fresh.table 1
          + kept_in_call plain first_ref keeping 2 (λ i e. 8) 3 fresh)
kmp_host-held_example =
    kmp_host-held roots_laws handle_one plain plain_books first_ref keeping keeping_books 2
      (λ i e. 8) 3 fresh fresh_table-Valid
