-- ===== src/Engine/Books/Host/Kept.antt =====
-- The references that are left of a call of the trampoline js_kmp_host: "object arguments are released
-- after the call unless retained".
use mquickjs_kmp.Prelude.{
  ◌==◌, ◌&&◌, ◌≤◌, ℕ, arith, ◌+◌, Bool, true, false, if◌then◌else◌, ◌≡◌, refl, none, some, List,
}
use mquickjs_kmp.Engine.Books.Convert.{throw_message-Level, value_from_host-Level}
use mquickjs_kmp.Engine.Actions.{alloc_answer}
use mquickjs_kmp.Engine.Host.{
  args_to_host, unpack_flags, HostFn, unpack_fn_id, release_args, call_host, host_converted,
  host_running, kmp_host,
}
use mquickjs_kmp.Engine.Books.{
  Books, Level, counted, lends, pays, framed, owing, branch, done, alloc_answer-Level,
}
use mquickjs_kmp.Engine.Books.Laws.{VmBooks}
use mquickjs_kmp.Engine.{Value, Doubles, Engine, Act, Vm, pure, ◌>>=◌, ◌>>◌}
use mquickjs_kmp.GcRefs.{GcRefs, GcRefsLaws}
use mquickjs_kmp.Slots.Held.{held}
use mquickjs_kmp.Slots.Preserve.{Valid}
use mquickjs_kmp.Slots.{is_not_positive}
use mquickjs_kmp.Engine.Books.Host.{lent_all, lent_args, args_to_host-Books, release_args-Books}

-- What is relied on in the host's callback: it may call the shim as often as it likes, on an engine
-- that holds the references of its arguments, and when it comes back those are still there, and
-- `kept id args` references of `x` more, which it has retained or been given and not released.
abbrev pub HostBooks :
    (g : GcRefs) (x : ℕ) (d : Doubles) → (ℕ → List (Value d.Num) → ℕ) → HostFn g d → Type 0
HostBooks g x d kept none = Unit {0}
HostBooks g x d kept (some host) =
    (id : ℕ) (args : List (Value d.Num))
    → Books x (lent_all x args) (λ _. kept id args + lent_all x args) (host id args)

-- The answer for one of the two arrays, which is not allocated when there is no argument.
abbrev allocated : {g : GcRefs} → ℕ → Engine g → Bool × Engine g
allocated {g} argc e = (if argc == 0 then pure g true else alloc_answer g) e

module _ {g : GcRefs} {d : Doubles} (vm : Vm g d) (kept : ℕ → List (Value d.Num) → ℕ) where
  -- What the callback keeps in a call of the trampoline: `kept` of the function id behind `params` and
  -- of the arguments that the conversions give, and nothing when one of the two arrays cannot be
  -- allocated, a conversion fails, or there is no callback. This runs the code as far as it has to for
  -- the number.
  abbrev pub kept_of : ℕ → Bool × List (Value d.Num) → ℕ
  kept_of id (true, args) = kept id args
  kept_of id (false, args) = 0

  abbrev pub kept_in_call : HostFn g d → ℕ → (ℕ → Engine g → g.Val) → g.Val → Engine g → ℕ
  kept_in_call none argc argv params e = 0
  kept_in_call (some host) argc argv params e =
      let packed = vm.get_int params in
      let args = allocated argc e in
      let bufs = allocated argc args.1 in
      if args.0 && bufs.0
      then kept_of (unpack_fn_id packed)
          (args_to_host vm argv argc 0 (unpack_flags packed) bufs.1).0
      else 0

nothing_kept :
    {g : GcRefs} {d : Doubles} (vm : Vm g d) (host : HostFn g d) (argc : ℕ)
    (argv : ℕ → Engine g → g.Val) (params : g.Val) (e : Engine g)
    → kept_in_call vm (λ id args. 0) host argc argv params e ≡ 0
nothing_kept vm none argc argv params e = refl
nothing_kept vm (some host) argc argv params e = ground arith

module _ {g : GcRefs} {A : Type 0} where
  -- The books of code that takes `count e` references when it starts in `e`.
  record Takes (x owed : ℕ) (count : Engine g → ℕ) (m : Act g A) : Type 0 where
    valid : (e : Engine g) → Valid g e.table → Valid g (m e).1.table
    total :
        (e : Engine g)
        → Valid g e.table
        → owed ≤ held g e.table x
        → held g (m e).1.table x + owed ≡ held g e.table x + count e

module _ {g : GcRefs} {x owed : ℕ} {A : Type 0} where
  takes : {m : Act g A} (n : ℕ) → Books x owed (λ _. n) m → Takes x owed (λ _. n) m
  takes n b = record { valid = b.valid; total = λ e v o. b.even e v o }

  either :
      {p q : Engine g → ℕ} (b : Bool) {m n : Act g A}
      → Takes x owed p m
      → Takes x owed q n
      → Takes x owed (λ e. if b then p e else q e) (if b then m else n)
  either true h k = h
  either false h k = k

module _ {g : GcRefs} {x owed : ℕ} {A B : Type 0} where
  lends_first :
      {lent : A → ℕ} {count : A → Engine g → ℕ} {m : Act g A} {f : A → Act g B}
      → Books x owed lent m
      → ((a : A) → Takes x (lent a) (count a) (f a))
      → Takes x owed (λ e. count (m e).0 (m e).1) (m >>= f)
  unfolding ◌>>=◌
  lends_first {m = m} h k = record {
    valid = λ e v. (k (m e).0).valid (m e).1 (h.valid e v);
    total = λ e v o.
        let first = h.even e v o in
        let later = (k (m e).0).total (m e).1 (h.valid e v) (omega (arith, first, o)) in
        omega (arith, first, later);
  }

module _ {g : GcRefs} {x : ℕ} {A : Type 0} where
  -- Code that takes and gives the same, with `n` references at hand.
  carrying : (n : ℕ) {m : Act g A} → Level x m → Books x n (λ _. n) m
  carrying n h = owing (omega arith) (counted (λ e. omega arith) (framed n h))

  level :
      {count : Engine g → ℕ} {m : Act g A}
      → ((e : Engine g) → count e ≡ 0)
      → Takes x 0 count m
      → Level x m
  level none_kept t = record {
    valid = t.valid;
    even = λ e v o. omega (arith, none_kept e, t.total e v o);
  }

module _ {g : GcRefs} (laws : GcRefsLaws g) {x : ℕ} (positive : is_not_positive x ≡ false)
    {d : Doubles} (vm : Vm g d) (k : VmBooks x vm) (kept : ℕ → List (Value d.Num) → ℕ) where
  module _ (host : ℕ → List (Value d.Num) → Act g (ℕ × Value d.Num))
      (h : HostBooks g x d kept (some host)) where
    call_host-Books :
        (id : ℕ) (args : List (Value d.Num))
        → Books x
            (lent_all x args)
            (λ _. kept id args + lent_all x args)
            (call_host vm host id args)
    unfolding call_host
    call_host-Books id args = lends (h id args) (λ r.
        carrying (kept id args + lent_all x args)
          (branch _ (value_from_host-Level vm k r.1) (throw_message-Level vm k _)))

    -- The releases behind `n` references that the callback has kept.
    released-Books :
        (n : ℕ) (args : List (Value d.Num)) (ret : g.Val)
        → Books x (n + lent_all x args) (λ _. n) (release_args vm args >> pure g ret)
    released-Books n args ret = pays (release_args-Books laws positive vm k args) (done ret refl)

    called-Takes :
        (id : ℕ) (r : Bool × List (Value d.Num))
        → Takes x
            (lent_args x r)
            (λ _. kept_of vm kept id r)
            (do
              ret ← if r.0 then call_host vm host id r.1 else pure g vm.exception_value
              release_args vm r.1
              pure g ret)
    called-Takes id (true, args) =
        takes (kept id args) (lends (call_host-Books id args) (released-Books (kept id args) args))
    called-Takes id (false, args) = takes 0 (
        lends (owing (omega arith) (framed (lent_all x args) (done vm.exception_value refl)))
          (released-Books 0 args))

    host_converted-Takes :
        (argc : ℕ) (argv : ℕ → Engine g → g.Val) (packed : ℕ)
        → Takes x 0
            (λ e.
              kept_of vm kept
                (unpack_fn_id packed)
                (args_to_host vm argv argc 0 (unpack_flags packed) e).0)
            (host_converted vm host argc argv packed)
    unfolding host_converted
    host_converted-Takes argc argv packed =
        lends_first (args_to_host-Books laws positive vm k argv argc 0 _) (called-Takes _)

    host_running-Takes :
        (argc : ℕ) (argv : ℕ → Engine g → g.Val) (params : g.Val)
        → Takes x 0
            (kept_in_call vm kept (some host) argc argv params)
            (host_running vm host argc argv (vm.get_int params))
    unfolding host_running
    host_running-Takes argc argv params =
        lends_first (branch _ (done _ refl) alloc_answer-Level) (λ args_ok.
          lends_first (branch _ (done _ refl) alloc_answer-Level) (λ bufs_ok.
            either _ (host_converted-Takes argc argv _) (takes 0 k.throw_out_of_memory)))

  kmp_host-Takes :
      (host : HostFn g d)
      → HostBooks g x d kept host
      → (argc : ℕ) (argv : ℕ → Engine g → g.Val) (params : g.Val)
      → Takes x 0 (kept_in_call vm kept host argc argv params) (kmp_host vm host argc argv params)
  unfolding kmp_host
  kmp_host-Takes none h argc argv params = takes 0 (k.throw_internal_error _)
  kmp_host-Takes (some host) h argc argv params = host_running-Takes host h argc argv params

  -- The trampoline js_kmp_host releases, on each path, the refs that it has handed out as arguments,
  -- and no more: from a valid ref table, over a callback that leaves `kept id args` references of a
  -- positive handle more than it finds, the table stays valid and holds as many more references of
  -- that handle as the callback keeps for the function id behind the parameters and for the very
  -- arguments that the conversions of this call give, and exactly as many as before when an array
  -- cannot be allocated, a conversion fails, or there is no callback. This is for JavaScript engines
  -- whose own calls keep no reference of it.
  pub kmp_host-held :
      (host : HostFn g d)
      → HostBooks g x d kept host
      → (argc : ℕ) (argv : ℕ → Engine g → g.Val) (params : g.Val) (e : Engine g) → Valid g e.table
      → Valid g (kmp_host vm host argc argv params e).1.table
        × (held g (kmp_host vm host argc argv params e).1.table x
            ≡ held g e.table x + kept_in_call vm kept host argc argv params e)
  kmp_host-held host h argc argv params e v =
      let t = kmp_host-Takes host h argc argv params in
      (t.valid e v, omega (arith, t.total e v (omega arith)))

module _ {g : GcRefs} (laws : GcRefsLaws g) {x : ℕ} (positive : is_not_positive x ≡ false)
    {d : Doubles} (vm : Vm g d) (k : VmBooks x vm) where
  -- With a callback that keeps nothing.
  pub kmp_host-Level :
      (host : HostFn g d)
      → HostBooks g x d (λ id args. 0) host
      → (argc : ℕ) (argv : ℕ → Engine g → g.Val) (params : g.Val)
      → Level x (kmp_host vm host argc argv params)
  kmp_host-Level host h argc argv params =
      level (nothing_kept vm host argc argv params)
        (kmp_host-Takes laws positive vm k (λ id args. 0) host h argc argv params)
