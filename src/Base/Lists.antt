-- ===== src/Base/Lists.antt =====
-- List helpers over native numbers, under the library's names.
use Prim.Native.Nat.{ℕ, zero, suc, ◌+◌, ◌≤◌, ◌<◌}
use Prim.Native.String.{String}
use mathlib.Core.Path.{◌≡◌, refl, ◌∙◌}
use mathlib.Core.Logic.{inl, inr}
use mathlib.Core.Bool.{Bool, true, false, ◌||◌, ◌&&◌}
use mathlib.Core.Option.{Option, none, some}
use mathlib.Core.List.{List, [], ◌∷◌, ◌++◌, map}
use native.Mathlib.Omega.{arith}
use backend_task_management.Base.Tests.{if◌then◌else◌, ◌==◌, Bool-cases}

module _ {ℓ} {A : Type ℓ} where
  abbrev pub length : List A → ℕ
  length [] = 0
  length (_ ∷ xs) = suc (length xs)

  pub length-append : (xs ys : List A) → length (xs ++ ys) ≡ length xs + length ys
  length-append [] ys = omega arith
  length-append (x ∷ xs) ys = omega (arith, length-append xs ys)

  abbrev pub get_elem? : List A → ℕ → Option A
  get_elem? [] _ = none
  get_elem? (x ∷ xs) zero = some x
  get_elem? (x ∷ xs) (suc i) = get_elem? xs i

  abbrev pub any : (A → Bool) → List A → Bool
  any p [] = false
  any p (x ∷ xs) = p x || any p xs

  abbrev pub all : (A → Bool) → List A → Bool
  all p [] = true
  all p (x ∷ xs) = p x && all p xs

  abbrev pub keep : (A → Bool) → List A → List A
  keep p [] = []
  keep p (x ∷ xs) = let rest = keep p xs in if p x then x ∷ rest else rest

module _ {ℓ κ} {A : Type ℓ} where
  abbrev pub All : (A → Type κ) → List A → Type κ
  All P [] = Unit
  All P (x ∷ xs) = P x × All P xs

-- `xs.includes(s)` on strings
abbrev pub includes : List String → String → Bool
includes [] s = false
includes (x ∷ xs) s = x == s || includes xs s

module _ {ℓ κ μ} {A : Type ℓ} {P : A → Type κ} {Q : A → Type μ} where
  pub All-map : ((a : A) → P a → Q a) → (xs : List A) → All P xs → All Q xs
  All-map f [] h = tt
  All-map f (x ∷ xs) (p, h) = (f x p, All-map f xs h)

module _ {A : Type 0} where
  pub map_fixed : (f : A → A) (as' : List A) → All (λ a. f a ≡ a) as' → map f as' ≡ as'
  map_fixed f [] h = refl
  map_fixed f (a ∷ as') (p, h) = cc (map_fixed f as' h)

  -- A map that respects a test, and fixes what passes it, is not seen behind the test.
  pub keep-map_fixed :
      (p : A → Bool) (g : A → A)
      → ((a : A) → p (g a) ≡ p a)
      → (as' : List A) → All (λ a. g a ≡ a) (keep p as')
      → keep p (map g as') ≡ keep p as'
  keep-map_fixed p g same [] h = refl
  keep-map_fixed p g same (a ∷ as') h = elim (Bool-cases (p a)) [
    | inl y ↦
        let (fixed, rest) = rw y at h in
        let passes : p (g a) ≡ true = same a ∙ y in
        rw (y, passes) (cc (keep-map_fixed p g same as' rest))
    | inr n ↦
        let fails : p (g a) ≡ false = same a ∙ n in
        rw (n, fails) (keep-map_fixed p g same as' (rw n at h))
  ]

module _ {ℓ} {A : Type ℓ} where
  abbrev pub take : ℕ → List A → List A
  take zero xs = []
  take (suc n) [] = []
  take (suc n) (x ∷ xs) = x ∷ take n xs

  abbrev pub drop : ℕ → List A → List A
  drop zero xs = xs
  drop (suc n) [] = []
  drop (suc n) (x ∷ xs) = drop n xs

  pub length-take-le : (n : ℕ) (xs : List A) → length (take n xs) ≤ n
  length-take-le zero xs = omega arith
  length-take-le (suc n) [] = omega arith
  length-take-le (suc n) (x ∷ xs) = omega (arith, length-take-le n xs)

  -- A slice is full when the list goes on behind it, and reaches the end otherwise.
  pub slice_lem :
      (skip limit : ℕ) (xs : List A)
      → (skip + limit < length xs → length (take limit (drop skip xs)) ≡ limit)
        × (length xs ≤ skip + limit → length xs ≤ skip + length (take limit (drop skip xs)))
  slice_lem (suc skip) limit [] = ((λ h. omega arith), (λ h. omega arith))
  slice_lem (suc skip) limit (x ∷ xs) =
      let (full, last) = slice_lem skip limit xs in
      ((λ h. full (omega arith)), (λ h. omega (arith, last (omega arith))))
  slice_lem zero zero xs = ((λ h. omega arith), (λ h. omega arith))
  slice_lem zero (suc limit) [] = ((λ h. omega arith), (λ h. omega arith))
  slice_lem zero (suc limit) (x ∷ xs) =
      let (full, last) = slice_lem zero limit xs in
      ((λ h. omega (arith, full (omega arith))), (λ h. omega (arith, last (omega arith))))

module _ {ℓ κ} {A : Type ℓ} (P : A → Type κ) where
  pub All-take : (n : ℕ) (xs : List A) → All P xs → All P (take n xs)
  All-take zero xs h = tt
  All-take (suc n) [] h = tt
  All-take (suc n) (x ∷ xs) (p, h) = (p, All-take n xs h)

  pub All-drop : (n : ℕ) (xs : List A) → All P xs → All P (drop n xs)
  All-drop zero xs h = h
  All-drop (suc n) [] h = tt
  All-drop (suc n) (x ∷ xs) (p, h) = All-drop n xs h
