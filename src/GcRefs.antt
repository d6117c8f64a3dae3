-- ===== src/GcRefs.antt =====
-- What the ref table takes from the engine's GC roots (JS_AddGCRef and JS_DeleteGCRef of
-- native/mquickjs). The engine is vendored code, so its context is a parameter. A root is named by
-- the index of the slot whose JSGCRef is linked, since a slot never moves.
use mquickjs_kmp.Prelude.{ℕ, ◌≡◌, Bool, true, false, ◌==◌, if◌then◌else◌}

pub record GcRefs : Type 1 where
  pub Val : Type 0
  pub Ctx : Type 0
  pub undefined : Val
  pub add_gc_ref : ℕ → Ctx → Ctx
  pub delete_gc_ref : ℕ → Ctx → Ctx
  -- The JSGCRef of the slot is in the context's list.
  pub linked : Ctx → ℕ → Bool
  -- A context also stands for what the embedder keeps, such as the frames of a Java VM. `Same` says
  -- that this part is as it was.
  pub Same : Ctx → Ctx → Type 0
  pub same_refl : (c : Ctx) → Same c c
  pub same_trans : (c c₁ c₂ : Ctx) → Same c c₁ → Same c₁ c₂ → Same c c₂

-- Adding links one more root. Deleting is defined for a linked root alone: the engine aborts the
-- process when the root is not in its list, so nothing is assumed of that case.
pub record GcRefsLaws (g : GcRefs) : Type 0 where
  pub linked-add :
      (i j : ℕ) (c : g.Ctx)
      → g.linked (g.add_gc_ref i c) j ≡ (if i == j then true else g.linked c j)
  pub linked-delete :
      (i j : ℕ) (c : g.Ctx)
      → g.linked c i ≡ true
      → g.linked (g.delete_gc_ref i c) j ≡ (if i == j then false else g.linked c j)
  pub Same-add : (i : ℕ) (c : g.Ctx) → g.Same c (g.add_gc_ref i c)
  pub Same-delete : (i : ℕ) (c : g.Ctx) → g.linked c i ≡ true → g.Same c (g.delete_gc_ref i c)
