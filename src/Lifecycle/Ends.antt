-- ===== src/Lifecycle/Ends.antt =====
-- From kmpjs_create to kmpjs_destroy: what the context holds when it is freed.
use mathlib.Core.Option.{some-injective}
use mathlib.Core.Path.{subst}
use mquickjs_kmp.Prelude.{
  ℕ, suc, ◌+◌, ◌-◌, ◌^◌, ◌<◌, ◌≡◌, refl, ◌∙◌, ◌==◌, leb, ltb, Bool, true, false, Bool-cases, ◌||◌,
  Option, some, Option-cases, inl, inr, List, [], ◌∷◌, ◌++◌, arith, get_or, length,
}
use mquickjs_kmp.Buffer.{next_answer, later_answers}
use mquickjs_kmp.Bytecode.{Build}
use mquickjs_kmp.Engine.Entries.{Restored}
use mquickjs_kmp.Lifecycle.Commands.{Command, obey_all, obey_all-Restored}
use mquickjs_kmp.Engine.Laws.{VmKeeps}
use mquickjs_kmp.Engine.{Doubles, Engine, Vm}
use mquickjs_kmp.GcRefs.{GcRefs, GcRefsLaws}
use mquickjs_kmp.Lifecycle.{
  Step, delete_gc_ref, free_context, new_engine, create, unlink_slots, destroy, min_mem,
}
use mquickjs_kmp.RunState.{idle}
use mquickjs_kmp.Slots.Preserve.{Valid}
use mquickjs_kmp.Slots.{Slot, blank}

module _ (g : GcRefs) where
  -- The steps of a teardown on the context: JS_DeleteGCRef is called for linked roots only, since
  -- it aborts for any other, and when the context is freed no slot's root is linked in it.
  pub data Clean : g.Ctx → List Step → Type 0 where
    deleted :
        {c : g.Ctx} (i : ℕ) (rest : List Step)
        → g.linked c i ≡ true
        → Clean (g.delete_gc_ref i c) rest
        → Clean c (delete_gc_ref i ∷ rest)
    freed :
        {c : g.Ctx} (rest : List Step)
        → ((i : ℕ) → g.linked c i ≡ false)
        → Clean c (free_context ∷ rest)

module _ (g : GcRefs) (laws : GcRefsLaws g) where
  delete_self :
      (i j : ℕ) (c : g.Ctx)
      → g.linked c i ≡ true
      → j < suc i
      → ((k : ℕ) → k < i → g.linked c k ≡ false)
      → g.linked (g.delete_gc_ref i c) j ≡ false
  delete_self i j c live h before = elim (Bool-cases (i == j)) [
    | inl e ↦ laws.linked-delete i j c live ∙ rw e refl
    | inr e ↦ laws.linked-delete i j c live ∙ rw e (before j (ground (arith, e)))
  ]

  delete_other :
      (i j : ℕ) (c : g.Ctx)
      → g.linked c i ≡ true
      → i < j
      → g.linked (g.delete_gc_ref i c) j ≡ g.linked c j
  delete_other i j c live h =
      let apart : (i == j) ≡ false = ground (arith, h) in
      laws.linked-delete i j c live ∙ rw apart refl

  -- The loop from index `i` on, while the slots before it are unlinked already.
  unlink_slots-Clean :
      (ss : List (Slot g.Val)) (i : ℕ) (c : g.Ctx) (rest : List Step)
      → ((j : ℕ) → j < i → g.linked c j ≡ false)
      → ((k j : ℕ) → k ≡ i + j → g.linked c k ≡ ltb 0 (get_or ss j (blank g)).refcount)
      → Clean g c (unlink_slots g ss i ++ (free_context ∷ rest))
  unfolding unlink_slots get_or
  unlink_slots-Clean [] i c rest before from = freed rest (λ j. elim (Bool-cases (ltb j i)) [
    | inl h ↦ before j (ground (arith, h))
    | inr h ↦ from j (j - i) (ground (arith, h))
  ])
  unlink_slots-Clean (s ∷ ss) i c rest before from = elim (Bool-cases (ltb 0 s.refcount)) [
    | inl h ↦
        (let live = from i 0 (omega arith) ∙ h in
          rw h (
            deleted i _ live (
              unlink_slots-Clean ss (suc i) (g.delete_gc_ref i c) rest
                (λ j less. delete_self i j c live less before)
                (λ k j e.
                  delete_other i k c live (omega (arith, e)) ∙ from k (suc j) (omega (arith, e))))))
    | inr h ↦ rw h (
        unlink_slots-Clean ss (suc i) c rest
          (λ j less. elim (Bool-cases (ltb j i)) [
            | inl k ↦ before j (ground (arith, k))
            | inr k ↦ from j 0 (ground (arith, k, less)) ∙ h
          ])
          (λ k j e. from k (suc j) (omega (arith, e))))
  ]

  destroy-Clean : (e : Engine g) → Valid g e.table → Clean g e.table.ctx (destroy g e)
  unfolding destroy
  destroy-Clean e (free, v) =
      unlink_slots-Clean e.table.slots 0 e.table.ctx _ (λ j h. absurd (omega (arith, h)))
        (λ k j eq. let same : k ≡ j = omega (arith, eq) in v.rooted k ∙ rw same refl)

  -- A new engine, around a context without roots.
  pub new_engine-Valid :
      (ctx : g.Ctx) (allocs : List Bool)
      → ((i : ℕ) → g.linked ctx i ≡ false)
      → Valid g (new_engine g ctx allocs).table
  unfolding get_or
  new_engine-Valid ctx allocs empty = (
    [],
    record {
      path = refl;
      distinct = tt;
      complete = λ i h. absurd (omega (arith, h));
      gens = λ i. omega arith;
      rooted = λ i. empty i;
      room = omega arith;
      few = omega arith;
    },
  )

  pub created_engine :
      (new_context : ℕ → Option g.Ctx) (allocs : List Bool) (mem_bytes : ℕ) (e : Engine g)
      → create g new_context allocs mem_bytes ≡ some e
      → (ctx : g.Ctx) × (a : List Bool) × (new_context mem_bytes ≡ some ctx)
        × (new_engine g ctx a ≡ e)
  unfolding create
  created_engine new_context allocs mem_bytes e h =
      elim (Bool-cases (leb (2 ^ 31) mem_bytes || ltb mem_bytes min_mem)) [
        | inl k ↦ absurd (ground (arith, h, k))
        | inr k ↦ elim (Bool-cases (next_answer allocs)) [
          | inr l ↦ absurd (ground (arith, h, k, l))
          | inl l ↦ elim (Bool-cases (next_answer (later_answers allocs))) [
            | inr m ↦ absurd (ground (arith, h, k, l, m))
            | inl m ↦ elim (Option-cases (new_context mem_bytes)) [
              | inl n ↦ absurd (ground (arith, rw (k, l, m, n) at h))
              | inr (ctx, n) ↦ (
                ctx,
                later_answers (later_answers allocs),
                n,
                some-injective _ _ (rw (k, l, m, n) at h),
              )
            ]
          ]
        ]
      ]

-- What is known of an engine when it is destroyed.
pub record Ended (g : GcRefs) (e : Engine g) : Type 0 where
  pub idle : e.state ≡ idle
  pub no_roots : e.roots ≡ []
  pub clean : Clean g e.table.ctx (destroy g e)

empty_list : {A : Type 0} (vs : List A) → length vs ≡ 0 → vs ≡ []
empty_list [] h = refl
empty_list (v ∷ vs) h = absurd (omega (arith, h))

module _ {g : GcRefs} (laws : GcRefsLaws g) where
  -- From a new engine to one that has come back in order.
  pub new_engine-Ended :
      (ctx : g.Ctx) (a : List Bool) (e : Engine g) → Restored (new_engine g ctx a) e → Ended g e
  new_engine-Ended ctx a e r = record {
    idle = r.state;
    no_roots = empty_list _ r.roots;
    clean = destroy-Clean g laws e r.table;
  }

module _ {g : GcRefs} (laws : GcRefsLaws g) {d : Doubles} (vm : Vm g d) (k : VmKeeps vm)
    (b : Build) where
  end_of_new :
      (ctx : g.Ctx) (a : List Bool)
      → ((i : ℕ) → g.linked ctx i ≡ false)
      → (cs : List (Command d.Num)) → Ended g (obey_all vm b cs (new_engine g ctx a))
  end_of_new ctx a empty cs =
      let e = new_engine g ctx a in
      new_engine-Ended laws ctx a _
        (obey_all-Restored laws vm k b cs e (new_engine-Valid g laws ctx a empty))

  -- If JS_NewContext makes contexts without roots and the calls of the JavaScript engine leave the
  -- engine in order, then an engine that kmpjs_create has made is, after any sequence of host calls,
  -- idle and without pushed roots, and kmpjs_destroy calls JS_DeleteGCRef for linked roots only and
  -- frees the context when no slot's root is linked in it.
  pub whole_life :
      (new_context : ℕ → Option g.Ctx)
      → ((n : ℕ) (ctx : g.Ctx) → new_context n ≡ some ctx → (i : ℕ) → g.linked ctx i ≡ false)
      → (allocs : List Bool) (mem_bytes : ℕ) (e : Engine g)
      → create g new_context allocs mem_bytes ≡ some e
      → (cs : List (Command d.Num)) → Ended g (obey_all vm b cs e)
  whole_life new_context empty allocs mem_bytes e made cs =
      let (ctx, a, is, same) = created_engine g laws new_context allocs mem_bytes e made in
      subst (λ x. Ended g (obey_all vm b cs x)) same (end_of_new ctx a (empty mem_bytes ctx is) cs)
