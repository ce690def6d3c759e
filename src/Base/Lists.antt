-- ===== src/Base/Lists.antt =====
-- Lists measured by native numbers, and predicates on lists by recursion.
use Prim.Native.Nat.{ℕ, zero, suc, ◌+◌, min}
use mathlib.Core.Path.{◌≡◌, refl, ◌∙◌, ap}
use mathlib.Core.Logic.{◌↔◌}
use mathlib.Core.Bool.{and-eq-true_iff, Bool, true, false, ◌||◌, ◌&&◌}
use mathlib.Core.List.{List, [], ◌∷◌, ◌++◌, append-nil, append_assoc}
use native.Mathlib.Omega.{arith}

module _ {ℓ} {A : Type ℓ} where
  abbrev pub length : List A → ℕ
  length [] = 0
  length (x ∷ xs) = suc (length xs)

  abbrev pub take : ℕ → List A → List A
  take zero xs = []
  take (suc n) [] = []
  take (suc n) (x ∷ xs) = x ∷ take n xs

  abbrev pub drop : ℕ → List A → List A
  drop zero xs = xs
  drop (suc n) [] = []
  drop (suc n) (x ∷ xs) = drop n xs

  abbrev pub replicate : ℕ → A → List A
  replicate zero a = []
  replicate (suc n) a = a ∷ replicate n a

  abbrev pub any : (A → Bool) → List A → Bool
  any p [] = false
  any p (x ∷ xs) = p x || any p xs

  abbrev pub all : (A → Bool) → List A → Bool
  all p [] = true
  all p (x ∷ xs) = p x && all p xs

  abbrev pub null : List A → Bool
  null [] = true
  null (x ∷ xs) = false

  -- `for _, opt := range opts { opt(&a) }`
  abbrev pub apply_all : List (A → A) → A → A
  apply_all [] a = a
  apply_all (opt ∷ opts) a = apply_all opts (opt a)

  pub length-append : (xs ys : List A) → length (xs ++ ys) ≡ length xs + length ys
  length-append [] ys = omega arith
  length-append (x ∷ xs) ys = omega (arith, length-append xs ys)

  -- A list that grew by one element and then by others.
  pub append_step :
      (before : List A) (x : A) (rest : List A) {grown all : List A}
      → grown ≡ before ++ x ∷ []
      → all ≡ grown ++ rest
      → all ≡ before ++ x ∷ rest
  append_step before x rest g a = a ∙ ap (λ l. l ++ rest) g ∙ append_assoc before (x ∷ []) rest

  pub length-replace :
      (xs : List A) (y z : A) (ys : List A) → length (xs ++ z ∷ ys) ≡ length (xs ++ y ∷ ys)
  length-replace [] y z ys = refl
  length-replace (x ∷ xs) y z ys = ap suc (length-replace xs y z ys)

  pub length-replicate : (n : ℕ) (a : A) → length (replicate n a) ≡ n
  length-replicate zero a = refl
  length-replicate (suc n) a = ap suc (length-replicate n a)

  pub take-append-drop : (n : ℕ) (xs : List A) → take n xs ++ drop n xs ≡ xs
  take-append-drop zero xs = refl
  take-append-drop (suc n) [] = refl
  take-append-drop (suc n) (x ∷ xs) = λ i. x ∷ take-append-drop n xs i

  pub length-take : (n : ℕ) (xs : List A) → length (take n xs) ≡ min n (length xs)
  length-take zero xs = omega arith
  length-take (suc n) [] = omega arith
  length-take (suc n) (x ∷ xs) = omega (arith, length-take n xs)

module _ {ℓ κ} {A : Type ℓ} (P : A → Type κ) where
  abbrev pub All : List A → Type κ
  All [] = Unit
  All (x ∷ xs) = P x × All xs

  pub All-append : (xs ys : List A) → All xs → All ys → All (xs ++ ys)
  All-append [] ys hx hy = hy
  All-append (x ∷ xs) ys hx hy = (hx.0, All-append xs ys hx.1 hy)

  pub All-at : (xs : List A) (y : A) (ys : List A) → All (xs ++ y ∷ ys) → P y
  All-at [] y ys h = h.0
  All-at (x ∷ xs) y ys h = All-at xs y ys h.1

  pub All-replace :
      (xs : List A) (y z : A) (ys : List A) → All (xs ++ y ∷ ys) → P z → All (xs ++ z ∷ ys)
  All-replace [] y z ys h new_one = (new_one, h.1)
  All-replace (x ∷ xs) y z ys h new_one = (h.0, All-replace xs y z ys h.1 new_one)

  pub All-replicate : (n : ℕ) (x : A) → P x → All (replicate n x)
  All-replicate zero x h = tt
  All-replicate (suc n) x h = (h, All-replicate n x h)

pub All-map {ℓ κ η} :
    {A : Type ℓ} (P : A → Type κ) (Q : A → Type η)
    → ((x : A) → P x → Q x)
    → (xs : List A) → All P xs
    → All Q xs
All-map P Q f [] h = tt
All-map P Q f (x ∷ xs) h = (f x h.0, All-map P Q f xs h.1)

pub all_iff {ℓ κ} :
    {A : Type ℓ} (p : A → Bool) (P : A → Type κ)
    → ((x : A) → (p x ≡ true) ↔ P x)
    → (xs : List A) → (all p xs ≡ true) ↔ All P xs
all_iff p P each [] = (λ e. tt, λ h. refl)
all_iff p P each (x ∷ xs) =
    let (to, from) = all_iff p P each xs in
    (
      λ e. let (here, later) = (and-eq-true_iff _ _).0 e in ((each x).0 here, to later),
      λ h. (and-eq-true_iff _ _).1 ((each x).1 h.0, from h.1),
    )

pub append-eq-nil_iff {ℓ} :
    {A : Type ℓ} (xs ys : List A) → (xs ++ ys ≡ []) ↔ ((xs ≡ []) × (ys ≡ []))
append-eq-nil_iff [] ys = (λ e. (refl, e), λ h. h.1)
append-eq-nil_iff (x ∷ xs) ys = ground arith

pub ruleset list_laws = (append-nil, append_assoc)
