-- ===== src/Kmpjsc/Arguments.antt =====
-- The arguments of kmpjsc and what they mean.
use mathlib.Core.Option.{some-injective}
use mathlib.Core.Path.{subst}
use mquickjs_kmp.Prelude.{
  ◌==◌, ◌≡◌, refl, ◌∙◌, ap, ◌↔◌, true, false, Bool-cases, inl, inr, some, List, [], ◌∷◌, ◌++◌,
  codes, arith,
}
use mquickjs_kmp.Engine.{Bytes}
use mquickjs_kmp.Kmpjsc.{
  Options, same_text, has_dash, Branch, word_32, strip, output, dashed, source_name, branch,
  with_strip, parse_args,
}

-- What a user asks for, one setting after another. A source file's name does not begin with a dash.
pub data Setting : Type 0 where
  for_32_bits without_columns : Setting
  into : Bytes → Setting
  from : (source : Bytes) → has_dash source ≡ false → Setting

-- The arguments that say it.
abbrev pub spelled : Setting → List Bytes
spelled for_32_bits = codes "-m32" ∷ []
spelled without_columns = codes "--no-column" ∷ []
spelled (into target) = codes "-o" ∷ target ∷ []
spelled (from source plain) = source ∷ []

abbrev pub spelled_all : List Setting → List Bytes
spelled_all [] = []
spelled_all (s ∷ ss) = spelled s ++ spelled_all ss

-- What it changes.
abbrev pub applied : Setting → Options → Options
applied for_32_bits o = record o { word_size = 32 }
applied without_columns o = record o { flags = with_strip o.flags }
applied (into target) o = record o { out_path = some target }
applied (from source plain) o = record o { in_path = some source }

abbrev pub applied_all : List Setting → Options → Options
applied_all [] o = o
applied_all (s ∷ ss) o = applied_all ss (applied s o)

same_text-same : (a b : Bytes) → same_text a b ≡ true → a ≡ b
unfolding same_text
same_text-same [] [] h = refl
same_text-same [] (b ∷ bs) h = absurd (ground (arith, h))
same_text-same (a ∷ xs) [] h = absurd (ground (arith, h))
same_text-same (a ∷ xs) (b ∷ bs) h = elim (Bool-cases (a == b)) [
  | inl e ↦
      (let head : a ≡ b = ground (arith, e) in
        rw head (ap (λ t. b ∷ t) (same_text-same xs bs (ground (arith, h, e)))))
  | inr e ↦ absurd (ground (arith, h, e))
]

-- An argument without a dash is no option.
branch-source_name : (arg : Bytes) → has_dash arg ≡ false → branch arg ≡ source_name
unfolding branch same_text has_dash
branch-source_name [] h = refl
branch-source_name (b ∷ bs) h = rw h (ground (arith, h))

-- One argument that is read alone.
parse-word_32 :
    (rest : List Bytes) (o : Options)
    → parse_args (codes "-m32" ∷ rest) o ≡ parse_args rest (record o { word_size = 32 })
unfolding parse_args branch same_text
parse-word_32 [] o = refl
parse-word_32 (next ∷ rest) o = refl

parse-strip :
    (rest : List Bytes) (o : Options)
    → parse_args (codes "--no-column" ∷ rest) o
      ≡ parse_args rest (record o { flags = with_strip o.flags })
unfolding parse_args branch same_text
parse-strip [] o = refl
parse-strip (next ∷ rest) o = refl

parse-source_name :
    (arg : Bytes) (rest : List Bytes) (o : Options)
    → branch arg ≡ source_name
    → parse_args (arg ∷ rest) o ≡ parse_args rest (record o { in_path = some arg })
unfolding parse_args
parse-source_name arg [] o h = rw (h, parse_args) refl
parse-source_name arg (next ∷ rest) o h = rw (h, parse_args) refl

parse-spelled :
    (ss : List Setting) (o : Options) → parse_args (spelled_all ss) o ≡ some (applied_all ss o)
unfolding parse_args branch same_text
parse-spelled [] o = refl
parse-spelled (for_32_bits ∷ ss) o = parse-word_32 (spelled_all ss) o ∙ parse-spelled ss _
parse-spelled (without_columns ∷ ss) o = parse-strip (spelled_all ss) o ∙ parse-spelled ss _
parse-spelled (into target ∷ ss) o = parse-spelled ss _
parse-spelled (from source plain ∷ ss) o =
    parse-source_name source (spelled_all ss) o (branch-source_name source plain)
    ∙ parse-spelled ss _

-- What an argument is when the loop takes a branch.
abbrev Means : Branch → Bytes → Type 0
Means word_32 arg = arg ≡ codes "-m32"
Means strip arg = arg ≡ codes "--no-column"
Means output arg = arg ≡ codes "-o"
Means dashed arg = Unit {0}
Means source_name arg = has_dash arg ≡ false

branch-Means : (arg : Bytes) → (b : Branch) × (branch arg ≡ b) × Means b arg
unfolding branch
branch-Means arg = elim (Bool-cases (same_text arg (codes "-m32"))) [
  | inl h ↦ (word_32, rw h refl, same_text-same arg _ h)
  | inr h ↦ elim (Bool-cases (same_text arg (codes "--no-column"))) [
    | inl k ↦ (strip, rw (h, k) refl, same_text-same arg _ k)
    | inr k ↦ elim (Bool-cases (same_text arg (codes "-o"))) [
      | inl l ↦ (output, rw (h, k, l) refl, same_text-same arg _ l)
      | inr l ↦ elim (Bool-cases (has_dash arg)) [
        | inl m ↦ (dashed, rw (h, k, l, m) refl, tt)
        | inr m ↦ (source_name, rw (h, k, l, m) refl, m)
      ]
    ]
  ]
]

-- The settings that some arguments stand for.
abbrev pub Understood : List Bytes → Options → Options → Type 0
Understood args o o' = (ss : List Setting) × (spelled_all ss ≡ args) × (applied_all ss o ≡ o')

more :
    (s : Setting) (args : List Bytes) (o o' : Options)
    → Understood args (applied s o) o'
    → Understood (spelled s ++ args) o o'
more s args o o' (ss, spells, applies) = (s ∷ ss, ap (λ xs. spelled s ++ xs) spells, applies)

alone :
    (b : Branch) (arg : Bytes) (o o' : Options)
    → branch arg ≡ b
    → Means b arg
    → parse_args (arg ∷ []) o ≡ some o'
    → Understood (arg ∷ []) o o'
unfolding parse_args
alone word_32 arg o o' e m h =
    rw m (more for_32_bits [] o o' ([], refl, some-injective _ _ (rw (e, parse_args) at h)))
alone strip arg o o' e m h =
    rw m (more without_columns [] o o' ([], refl, some-injective _ _ (rw (e, parse_args) at h)))
alone output arg o o' e m h = absurd (ground (arith, rw (e, parse_args) at h))
alone dashed arg o o' e m h = absurd (ground (arith, rw (e, parse_args) at h))
alone source_name arg o o' e m h =
    more (from arg m) [] o o' ([], refl, some-injective _ _ (rw (e, parse_args) at h))

read_back :
    (b : Branch) (arg next : Bytes) (args : List Bytes) (o o' : Options)
    → branch arg ≡ b
    → Means b arg
    → parse_args (arg ∷ next ∷ args) o ≡ some o'
    → ((o₁ : Options) → parse_args (next ∷ args) o₁ ≡ some o' → Understood (next ∷ args) o₁ o')
    → ((o₁ : Options) → parse_args args o₁ ≡ some o' → Understood args o₁ o')
    → Understood (arg ∷ next ∷ args) o o'
unfolding parse_args
read_back word_32 arg next args o o' e m h one two =
    rw m (more for_32_bits (next ∷ args) o o' (one _ (rw (e, parse_args) at h)))
read_back strip arg next args o o' e m h one two =
    rw m (more without_columns (next ∷ args) o o' (one _ (rw (e, parse_args) at h)))
read_back output arg next args o o' e m h one two =
    rw m (more (into next) args o o' (two _ (rw (e, parse_args) at h)))
read_back dashed arg next args o o' e m h one two = absurd (ground (arith, rw (e, parse_args) at h))
read_back source_name arg next args o o' e m h one two =
    more (from arg m) (next ∷ args) o o' (one _ (rw (e, parse_args) at h))

accepted-Understood :
    (args : List Bytes) (o o' : Options) → parse_args args o ≡ some o' → Understood args o o'
unfolding parse_args
accepted-Understood [] o o' h = ([], refl, some-injective _ _ h)
accepted-Understood (arg ∷ []) o o' h = let (b, e, m) = branch-Means arg in alone b arg o o' e m h
accepted-Understood (arg ∷ next ∷ args) o o' h =
    let (b, e, m) = branch-Means arg in
    read_back b arg next args o o' e m h (λ o₁. accepted-Understood (next ∷ args) o₁ o')
      (λ o₁. accepted-Understood args o₁ o')

-- The loop over the arguments accepts them, and turns some options into others, exactly when they spell
-- a list of settings, in any order, that make this change one after another: of two that contradict
-- each other the later one holds. Anything else is a call of usage.
pub parse_args-Understood :
    (args : List Bytes) (o o' : Options) → (parse_args args o ≡ some o') ↔ Understood args o o'
parse_args-Understood args o o' = (
  accepted-Understood args o o',
  λ (ss, spells, applies).
      subst (λ xs. parse_args xs o ≡ some o') spells (parse-spelled ss o ∙ ap some applies),
)
