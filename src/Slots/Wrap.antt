-- ===== src/Slots/Wrap.antt =====
-- Handles of slots in the second half of the generations.
use mquickjs_kmp.Prelude.{ℕ, ◌^◌, ◌≤◌, ◌≡◌, ◌∙◌, ◌≢◌, true, none, some, arith, get_or-set}
use mquickjs_kmp.GcRefs.{GcRefs}
use mquickjs_kmp.Slots.FreeList.{FreePath-some}
use mquickjs_kmp.Slots.Handles.{is_not_positive-slot_handle, ref_release-dead}
use mquickjs_kmp.Slots.Lookup.{slot_get-not_positive}
use mquickjs_kmp.Slots.Placing.{slot_new-some, slot_new-reserved}
use mquickjs_kmp.Slots.Preserve.{Valid}
use mquickjs_kmp.Slots.{
  Table, blank, slot_at, slot_get, slot_new, slot_handle, is_not_positive, occupy, ref_release,
}

module _ (g : GcRefs) where
  -- When the slot to be reused is in a generation from 2^31 on, slot_new succeeds, but the handle is
  -- negative as an int64_t: slot_get refuses it at once, a release of it does nothing, and the slot
  -- keeps its reference.
  pub late_generation_leaks :
      (t : Table g) (v : g.Val) (i : ℕ)
      → Valid g t
      → t.free_head ≡ some i
      → 2 ^ 31 ≤ (slot_at g t i).gen
      → let r = (slot_new g t v).0 in
        let t' = (slot_new g t v).1 in
        (r ≢ 0)
        × (slot_get g t' r ≡ none)
        × (ref_release g t' r ≡ t')
        × ((slot_at g t' i).refcount ≡ 1)
  unfolding occupy
  late_generation_leaks t v i (free, ok) e late =
      let (_, _, h, _, _) = FreePath-some (blank g) t.slots i free (rw e at ok.path) in
      let gen = (slot_at g t i).gen in
      let reused = record (slot_at g t i) { val = v; refcount = 1; next_free = none } in
      let neg : is_not_positive (slot_handle i gen) ≡ true =
        is_not_positive-slot_handle i gen (omega (arith, ok.few)) (ok.gens i) ∙ ground arith in
      let dead =
        slot_get-not_positive (slot_new g t v).1 (slot_new g t v).0
          (rw (slot_new-some g t v i e) neg) in
      (
        (slot_new-reserved g t v i (free, ok) e).0,
        dead,
        ref_release-dead _ _ dead,
        rw (slot_new-some g t v i e) (ground (arith, get_or-set t.slots i i reused (blank g) h)),
      )
