-- ===== src/Base/Lists.antt =====
-- Lists over the native numbers and Boolean conditions, as the queries on tables use them.
use Prim.Native.Nat.{ℕ, zero, suc, ◌+◌}
use mathlib.Core.Path.{◌≡◌, refl, ap}
use mathlib.Core.Bool.{Bool, true, false}
use mathlib.Core.List.{List, [], ◌∷◌, ◌++◌}
use mathlib.Core.Option.{Option, none, some}
use native.Mathlib.Omega.{arith}
use mathlib.Core.Logic.{inl, inr}
use yourz_gift.Base.Tests.{if◌then◌else◌, Bool-cases}

module _ {ℓ} {A : Type ℓ} where
  abbrev pub length : List A → ℕ
  length [] = 0
  length (x ∷ xs) = suc (length xs)

  abbrev pub head? : List A → Option A
  head? [] = none
  head? (x ∷ xs) = some x

  -- The rows that satisfy a condition.
  unfoldable pub filter : (A → Bool) → List A → List A
  filter p [] = []
  filter p (x ∷ xs) = let rest = filter p xs in if p x then x ∷ rest else rest

  -- The rows that satisfy a condition, changed.
  unfoldable pub amend : (A → Bool) → (A → A) → List A → List A
  amend p f [] = []
  amend p f (x ∷ xs) = (if p x then f x else x) ∷ amend p f xs

  unfoldable pub any : (A → Bool) → List A → Bool
  any p [] = false
  any p (x ∷ xs) = if p x then true else any p xs

  unfoldable pub sum_by : (A → ℕ) → List A → ℕ
  sum_by f [] = 0
  sum_by f (x ∷ xs) = f x + sum_by f xs

  abbrev pub take : ℕ → List A → List A
  take zero xs = []
  take (suc n) [] = []
  take (suc n) (x ∷ xs) = x ∷ take n xs

  abbrev pub drop : ℕ → List A → List A
  drop zero xs = xs
  drop (suc n) [] = []
  drop (suc n) (x ∷ xs) = drop n xs

  -- Insertion sort by a test for "comes first or is level": ORDER BY.
  unfoldable pub insert_by : (A → A → Bool) → A → List A → List A
  insert_by before x [] = x ∷ []
  insert_by before x (y ∷ ys) = if before x y then x ∷ y ∷ ys else y ∷ insert_by before x ys

  unfoldable pub sort_by : (A → A → Bool) → List A → List A
  unfolding insert_by
  sort_by before [] = []
  sort_by before (x ∷ xs) = insert_by before x (sort_by before xs)

  abbrev pub All {κ} : (A → Type κ) → List A → Type κ
  All P [] = Unit
  All P (x ∷ xs) = P x × All P xs

  pub head?-filter :
      (p : A → Bool) (xs : List A) {x : A} → head? (filter p xs) ≡ some x → p x ≡ true
  unfolding filter
  head?-filter p [] h = ground arith
  head?-filter p (y ∷ xs) {x} h = ground (arith, head?-filter p xs {x = x})

  pub length-amend : (p : A → Bool) (f : A → A) (xs : List A) → length (amend p f xs) ≡ length xs
  unfolding amend
  length-amend p f [] = refl
  length-amend p f (x ∷ xs) = omega (arith, length-amend p f xs)

  pub sum_by-append : (f : A → ℕ) (xs ys : List A) → sum_by f (xs ++ ys) ≡ sum_by f xs + sum_by f ys
  unfolding sum_by
  sum_by-append f [] ys = omega arith
  sum_by-append f (x ∷ xs) ys = omega (arith, sum_by-append f xs ys)

  pub filter-append :
      (p : A → Bool) (xs ys : List A) → filter p (xs ++ ys) ≡ filter p xs ++ filter p ys
  unfolding filter
  filter-append p [] ys = refl
  filter-append p (x ∷ xs) ys = ground (arith, filter-append p xs ys)

  pub sum_by-filter :
      (f : A → ℕ) (p : A → Bool) (xs : List A)
      → sum_by f (filter p xs) ≡ sum_by (λ x. if p x then f x else 0) xs
  unfolding sum_by filter
  sum_by-filter f p [] = refl
  sum_by-filter f p (x ∷ xs) = ground (arith, sum_by-filter f p xs)

  pub All-map : {P Q : A → Type 0} → ((x : A) → P x → Q x) → (xs : List A) → All P xs → All Q xs
  All-map h [] a = tt
  All-map h (x ∷ xs) (px, pxs) = (h x px, All-map h xs pxs)

  pub All-append : (P : A → Type 0) (xs ys : List A) → All P xs → All P ys → All P (xs ++ ys)
  All-append P [] ys a b = b
  All-append P (x ∷ xs) ys (px, pxs) b = (px, All-append P xs ys pxs b)

  pub All-amend :
      (P : A → Type 0) (p : A → Bool) (f : A → A) (xs : List A)
      → ((x : A) → p x ≡ true → P x → P (f x))
      → All P xs
      → All P (amend p f xs)
  unfolding amend
  All-amend P p f [] h a = tt
  All-amend P p f (x ∷ xs) h (px, pxs) = elim (Bool-cases (p x)) [
    | inl e ↦ (rw e (h x e px), All-amend P p f xs h pxs)
    | inr e ↦ (rw e px, All-amend P p f xs h pxs)
  ]

  pub All-amend_at :
      (P : A → Type 0) (p : A → Bool) (f : A → A) (xs : List A)
      → All (λ x. p x ≡ true → P x → P (f x)) xs
      → All P xs
      → All P (amend p f xs)
  unfolding amend
  All-amend_at P p f [] h a = tt
  All-amend_at P p f (x ∷ xs) (h, hs) (px, pxs) = elim (Bool-cases (p x)) [
    | inl e ↦ (rw e (h e px), All-amend_at P p f xs hs pxs)
    | inr e ↦ (rw e px, All-amend_at P p f xs hs pxs)
  ]

  pub All-map₂ :
      {P Q T : A → Type 0}
      → ((x : A) → P x → Q x → T x)
      → (xs : List A) → All P xs
      → All Q xs
      → All T xs
  All-map₂ h [] a b = tt
  All-map₂ h (x ∷ xs) (px, pxs) (qx, qxs) = (h x px qx, All-map₂ h xs pxs qxs)

pub append_nil {ℓ} : {A : Type ℓ} (xs : List A) → xs ++ [] ≡ xs
append_nil [] = refl
append_nil (x ∷ xs) = ap (λ l. x ∷ l) (append_nil xs)
