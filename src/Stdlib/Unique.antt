-- ===== src/Stdlib/Unique.antt =====
-- Tables in which one text decides another, and a test for it.
use mathlib.Core.List.{Memᴰ}
use mquickjs_kmp.Prelude.{
  ◌==◌, ◌≡◌, refl, sym, ◌∙◌, ap, Bool, true, false, Bool-cases, inl, inr, List, [], ◌∷◌, arith,
}
use mquickjs_kmp.Stdlib.{Text}

abbrev pub eq_text : Text → Text → Bool
eq_text [] [] = true
eq_text [] (y ∷ ys) = false
eq_text (x ∷ xs) [] = false
eq_text (x ∷ xs) (y ∷ ys) = elim (x == y) [ true ↦ eq_text xs ys | false ↦ false ]

pub eq_text-same : (x y : Text) → eq_text x y ≡ true → x ≡ y
eq_text-same [] [] h = refl
eq_text-same [] (y ∷ ys) h = absurd (ground (arith, h))
eq_text-same (x ∷ xs) [] h = absurd (ground (arith, h))
eq_text-same (x ∷ xs) (y ∷ ys) h = elim (Bool-cases (x == y)) [
  | inl e ↦
      (let head : x ≡ y = ground (arith, e) in
        rw head (ap (λ t. y ∷ t) (eq_text-same xs ys (rw (e, eq_text) at h))))
  | inr e ↦ absurd (ground (arith, rw (e, eq_text) at h))
]

eq_text_refl : (x : Text) → eq_text x x ≡ true
eq_text_refl [] = refl
eq_text_refl (x ∷ xs) =
    (let e : (x == x) ≡ true = ground arith in rw (e, eq_text) (eq_text_refl xs))

abbrev eq_texts : List Text → List Text → Bool
eq_texts [] [] = true
eq_texts [] (y ∷ ys) = false
eq_texts (x ∷ xs) [] = false
eq_texts (x ∷ xs) (y ∷ ys) = elim (eq_text x y) [ true ↦ eq_texts xs ys | false ↦ false ]

eq_texts-same : (x y : List Text) → eq_texts x y ≡ true → x ≡ y
eq_texts-same [] [] h = refl
eq_texts-same [] (y ∷ ys) h = absurd (ground (arith, h))
eq_texts-same (x ∷ xs) [] h = absurd (ground (arith, h))
eq_texts-same (x ∷ xs) (y ∷ ys) h = elim (Bool-cases (eq_text x y)) [
  | inl e ↦ rw (eq_text-same x y e) (ap (λ t. y ∷ t) (eq_texts-same xs ys (rw (e, eq_texts) at h)))
  | inr e ↦ absurd (ground (arith, rw (e, eq_texts) at h))
]

module _ {A : Type 0} (key : A → Text) (value : A → List Text) where
  -- Two entries of one list that agree in their key agree in their value.
  abbrev pub Decides : List A → Type 0
  Decides xs = (x y : A) → Memᴰ x xs → Memᴰ y xs → key x ≡ key y → value x ≡ value y

  abbrev agree : A → A → Bool
  agree x y = elim (eq_text (key x) (key y)) [ true ↦ eq_texts (value x) (value y) | false ↦ true ]

  abbrev agrees_with : A → List A → Bool
  agrees_with x [] = true
  agrees_with x (y ∷ ys) = elim (agree x y) [ true ↦ agrees_with x ys | false ↦ false ]

  -- Each entry agrees with those behind it.
  abbrev pub decides : List A → Bool
  decides [] = true
  decides (x ∷ xs) = elim (agrees_with x xs) [ true ↦ decides xs | false ↦ false ]

  agree_sound : (x y : A) → agree x y ≡ true → key x ≡ key y → value x ≡ value y
  agree_sound x y h e = elim (Bool-cases (eq_text (key x) (key y))) [
    | inl k ↦ eq_texts-same (value x) (value y) (rw (k, agree) at h)
    | inr k ↦ absurd (ground (arith, k, sym (ap (λ t. eq_text (key x) t) e) ∙ eq_text_refl (key x)))
  ]

  agrees_with_sound :
      (x y : A) (ys : List A)
      → agrees_with x ys ≡ true
      → Memᴰ y ys
      → key x ≡ key y
      → value x ≡ value y
  agrees_with_sound x y (z ∷ ys) h m e = elim (Bool-cases (agree x z)) [
    | inr k ↦ absurd (ground (arith, rw (k, agrees_with) at h))
    | inl k ↦ elim m [
      | Memᴰ.head same ↦ rw same (agree_sound x z k (rw same at e))
      | Memᴰ.tail later ↦ agrees_with_sound x y ys (rw (k, agrees_with) at h) later e
    ]
  ]
  agrees_with_sound x y [] h m e = elim m [ ]

  -- A list that passes the test.
  pub decides-Decides : (xs : List A) → decides xs ≡ true → Decides xs
  decides-Decides [] h x y m n e = elim m [ ]
  decides-Decides (z ∷ xs) h x y m n e = elim (Bool-cases (agrees_with z xs)) [
    | inr k ↦ absurd (ground (arith, rw (k, decides) at h))
    | inl k ↦ elim (m) [
      | Memᴰ.head p ↦ elim n [
        | Memᴰ.head q ↦ ap value (p ∙ sym q)
        | Memᴰ.tail q ↦ ap value p ∙ agrees_with_sound z y xs k q (ap key (sym p) ∙ e)
      ]
      | Memᴰ.tail p ↦ elim n [
        | Memᴰ.head q ↦ sym (agrees_with_sound z x xs k p (sym (e ∙ ap key q))) ∙ ap value (sym q)
        | Memᴰ.tail q ↦ decides-Decides xs (rw (k, decides) at h) x y p q e
      ]
    ]
  ]
