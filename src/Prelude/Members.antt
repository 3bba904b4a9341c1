-- ===== src/Prelude/Members.antt =====
-- The elements of a list, and lists without repetition.
use Prim.Native.Nat.{ℕ, zero, suc, ◌<◌}
use mathlib.Core.Path.{◌≡◌, refl, sym, ap, transport}
use mathlib.Core.Logic.{◌⊎◌, inl, inr}
use mathlib.Core.Option.{some}
use mathlib.Core.List.{List, [], ◌∷◌, ◌++◌}
use native.Mathlib.Omega.{arith}
use native.Mathlib.Decide.{ℕ_discrete}
use redi_go.Prelude.Lists.{length, get_elem?, take, drop, get_or}

module _ {A : Type 0} where
  abbrev pub In : A → List A → Type 0
  In a [] = ⊥
  In a (x ∷ xs) = (a ≡ x) ⊎ In a xs

  abbrev pub Distinct : List A → Type 0
  Distinct [] = Unit {0}
  Distinct (x ∷ xs) = ¬ (In x xs) × Distinct xs

  pub In-append_left : (a : A) (xs ys : List A) → In a xs → In a (xs ++ ys)
  In-append_left a [] ys i = elim i [ ]
  In-append_left a (x ∷ xs) ys (inl e) = inl e
  In-append_left a (x ∷ xs) ys (inr i) = inr (In-append_left a xs ys i)

  pub In-append_right : (a : A) (xs ys : List A) → In a ys → In a (xs ++ ys)
  In-append_right a [] ys i = i
  In-append_right a (x ∷ xs) ys i = inr (In-append_right a xs ys i)

  pub In-append_cases : (a : A) (xs ys : List A) → In a (xs ++ ys) → In a xs ⊎ In a ys
  In-append_cases a [] ys i = inr i
  In-append_cases a (x ∷ xs) ys (inl e) = inl (inl e)
  In-append_cases a (x ∷ xs) ys (inr i) = elim (In-append_cases a xs ys i) [
    | inl j ↦ inl (inr j)
    | inr j ↦ inr j
  ]

  -- A list with one more element `z` somewhere in it.
  pub In-insert_cases : (a z : A) (xs ys : List A) → In a (xs ++ z ∷ ys) → (a ≡ z) ⊎ In a (xs ++ ys)
  In-insert_cases a z xs ys i = elim (In-append_cases a xs (z ∷ ys) i) [
    | inl j ↦ inr (In-append_left a xs ys j)
    | inr (inl e) ↦ inl e
    | inr (inr j) ↦ inr (In-append_right a xs ys j)
  ]

  pub In-insert : (a z : A) (xs ys : List A) → In a (xs ++ ys) → In a (xs ++ z ∷ ys)
  In-insert a z xs ys i = elim (In-append_cases a xs ys i) [
    | inl j ↦ In-append_left a xs (z ∷ ys) j
    | inr j ↦ In-append_right a xs (z ∷ ys) (inr j)
  ]

  pub In-inserted : (z : A) (xs ys : List A) → In z (xs ++ z ∷ ys)
  In-inserted z xs ys = In-append_right z xs (z ∷ ys) (inl refl)

  pub Distinct-insert :
      (z : A) (xs ys : List A) → Distinct (xs ++ ys) → ¬ (In z (xs ++ ys)) → Distinct (xs ++ z ∷ ys)
  Distinct-insert z [] ys d n = (n, d)
  Distinct-insert z (x ∷ xs) ys (nx, d) n = (
    λ i. elim (In-insert_cases x z xs ys i) [ inl e ↦ n (inl (sym e)) | inr j ↦ nx j ],
    Distinct-insert z xs ys d (λ i. n (inr i)),
  )

  pub Distinct-append_left : (xs ys : List A) → Distinct (xs ++ ys) → Distinct xs
  Distinct-append_left [] ys d = tt
  Distinct-append_left (x ∷ xs) ys (n, d) =
      (λ i. n (In-append_left x xs ys i), Distinct-append_left xs ys d)

  pub Distinct-append_right : (xs ys : List A) → Distinct (xs ++ ys) → Distinct ys
  Distinct-append_right [] ys d = d
  Distinct-append_right (x ∷ xs) ys (n, d) = Distinct-append_right xs ys d

  pub Distinct-append_apart : (a : A) (xs ys : List A) → Distinct (xs ++ ys) → In a xs → In a ys → ⊥
  Distinct-append_apart a [] ys d i j = elim i [ ]
  Distinct-append_apart a (x ∷ xs) ys (n, d) (inl e) j =
      n (In-append_right x xs ys (transport (ap (λ b. In b ys) e) j))
  Distinct-append_apart a (x ∷ xs) ys (n, d) (inr i) j = Distinct-append_apart a xs ys d i j

  pub In-get_elem? : (xs : List A) (i : ℕ) (a : A) → get_elem? xs i ≡ some a → In a xs
  In-get_elem? [] i a e = absurd cc
  In-get_elem? (x ∷ xs) zero a e = inl (let s : x ≡ a = cc in sym s)
  In-get_elem? (x ∷ xs) (suc i) a e = inr (In-get_elem? xs i a e)

  pub take-drop : (n : ℕ) (xs : List A) → take n xs ++ drop n xs ≡ xs
  take-drop zero xs = refl
  take-drop (suc n) [] = refl
  take-drop (suc n) (x ∷ xs) = ap (◌∷◌ x) (take-drop n xs)

  pub In-take : (a : A) (n : ℕ) (xs : List A) → In a (take n xs) → In a xs
  In-take a zero xs i = elim i [ ]
  In-take a (suc n) [] i = elim i [ ]
  In-take a (suc n) (x ∷ xs) (inl e) = inl e
  In-take a (suc n) (x ∷ xs) (inr i) = inr (In-take a n xs i)

  pub In-drop : (a : A) (n : ℕ) (xs : List A) → In a (drop n xs) → In a xs
  In-drop a zero xs i = i
  In-drop a (suc n) [] i = elim i [ ]
  In-drop a (suc n) (x ∷ xs) i = inr (In-drop a n xs i)

  pub get_or-append_old :
      (xs ys : List A) (i : ℕ) (d : A) → i < length xs → get_or (xs ++ ys) i d ≡ get_or xs i d
  get_or-append_old [] ys i d lt = elim lt [ ]
  get_or-append_old (x ∷ xs) ys zero d lt = refl
  get_or-append_old (x ∷ xs) ys (suc i) d lt = get_or-append_old xs ys i d (omega arith)

  pub get_or-append_new : (xs : List A) (y d : A) → get_or (xs ++ y ∷ []) (length xs) d ≡ y
  get_or-append_new [] y d = refl
  get_or-append_new (x ∷ xs) y d = get_or-append_new xs y d

pub in? : (a : ℕ) (xs : List ℕ) → In a xs ⊎ ¬ (In a xs)
in? a [] = inr (λ i. i)
in? a (x ∷ xs) = elim (ℕ_discrete a x) [
  | yes e ↦ inl (inl e)
  | no ne ↦ elim (in? a xs) [
    | inl i ↦ inl (inr i)
    | inr n ↦ inr (λ i. elim i [ inl e ↦ ne e | inr j ↦ n j ])
  ]
]
