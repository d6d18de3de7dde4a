-- ===== src/Base/Keys.antt =====
-- Lists of rows with a primary key.
use mathlib.Core.Path.{◌≡◌, refl, sym, ◌∙◌, subst}
use mathlib.Core.Logic.{◌≢◌, inl, inr}
use mathlib.Core.Bool.{Bool, true, false}
use mathlib.Core.List.{List, [], ◌∷◌, ◌++◌}
use native.Mathlib.Omega.{arith}
use Prim.Native.Nat.{ℕ, ◌≤◌}
use yourz_gift.Base.Tests.{if◌then◌else◌, Bool-cases}
use yourz_gift.Base.Lists.{All, All-amend, All-append, amend, any, sum_by}

module _ {ℓ} {A : Type ℓ} where
  pub All-intro {κ} : {P : A → Type κ} → ((x : A) → P x) → (xs : List A) → All P xs
  All-intro h [] = tt
  All-intro h (x ∷ xs) = (h x, All-intro h xs)

  -- What holds of the rows that are changed, after it, and of the rows that are not.
  pub All-amend-intro {κ} :
      {P : A → Type κ} (p : A → Bool) (f : A → A) (xs : List A)
      → ((x : A) → p x ≡ true → P (f x))
      → ((x : A) → p x ≡ false → P x)
      → All P (amend p f xs)
  unfolding amend
  All-amend-intro p f [] h k = tt
  All-amend-intro p f (x ∷ xs) h k = elim (Bool-cases (p x)) [
    | inl e ↦ (rw e (h x e), All-amend-intro p f xs h k)
    | inr e ↦ (rw e (k x e), All-amend-intro p f xs h k)
  ]

  -- Rows that are changed and weigh no more make the sum no larger.
  pub sum_by-amend-le :
      (w : A → ℕ) (p : A → Bool) (f : A → A) (xs : List A)
      → All (λ x. p x ≡ true → w (f x) ≤ w x) xs
      → sum_by w (amend p f xs) ≤ sum_by w xs
  unfolding sum_by amend
  sum_by-amend-le w p f [] h = omega arith
  sum_by-amend-le w p f (x ∷ xs) (h, hs) = ground (arith, h, sum_by-amend-le w p f xs hs)

  pub any-amend :
      (q p : A → Bool) (f : A → A) (xs : List A)
      → ((x : A) → p x ≡ true → q (f x) ≡ q x)
      → any q (amend p f xs) ≡ any q xs
  unfolding any amend
  any-amend q p f [] h = refl
  any-amend q p f (x ∷ xs) h = ground (arith, h x, any-amend q p f xs h)

  pub any_mono :
      (q q' : A → Bool) (xs : List A)
      → ((x : A) → q x ≡ true → q' x ≡ true)
      → any q xs ≡ true
      → any q' xs ≡ true
  unfolding any
  any_mono q q' [] h a = cc
  any_mono q q' (x ∷ xs) h a = ground (arith, h x, any_mono q q' xs h)

  pub any-eq-false : (q : A → Bool) (xs : List A) → any q xs ≡ false → All (λ x. q x ≡ false) xs
  unfolding any
  any-eq-false q [] h = tt
  any-eq-false q (x ∷ xs) h = elim (Bool-cases (q x)) [
    | inl e ↦ absurd (ground arith)
    | inr e ↦ (e, any-eq-false q xs (rw e at h))
  ]

  pub any-append : (q : A → Bool) (xs ys : List A) → any q xs ≡ true → any q (xs ++ ys) ≡ true
  unfolding any
  any-append q [] ys h = cc
  any-append q (x ∷ xs) ys h = ground (arith, any-append q xs ys)

module _ {A K : Type 0} (key : A → K) where
  -- No two rows have the same key.
  abbrev pub Distinct : List A → Type 0
  Distinct [] = Unit
  Distinct (x ∷ xs) = All (λ y. key y ≢ key x) xs × Distinct xs

  pub Distinct-amend :
      (p : A → Bool) (f : A → A) (xs : List A)
      → ((x : A) → p x ≡ true → key (f x) ≡ key x)
      → Distinct xs
      → Distinct (amend p f xs)
  unfolding amend
  Distinct-amend p f [] same d = tt
  Distinct-amend p f (x ∷ xs) same (d, ds) = (
    subst (λ k. All (λ y. key y ≢ k) (amend p f xs)) (sym (key-changed x same))
        (All-amend (λ y. key y ≢ key x) p f xs (λ y py ne e. ne (sym (same y py) ∙ e)) d),
    Distinct-amend p f xs same ds,
  )
    where
      key-changed :
          (z : A)
          → ((y : A) → p y ≡ true → key (f y) ≡ key y)
          → key (if p z then f z else z) ≡ key z
      key-changed z same' = elim (Bool-cases (p z)) [ inl e ↦ rw e (same' z e) | inr e ↦ rw e ]

  pub Distinct-append :
      (xs : List A) (r : A) → All (λ y. key y ≢ key r) xs → Distinct xs → Distinct (xs ++ r ∷ [])
  Distinct-append [] r h d = (tt, tt)
  Distinct-append (x ∷ xs) r (h, hs) (d, ds) = (
    All-append (λ y. key y ≢ key x) xs (r ∷ []) d ((λ e. h (sym e)), tt),
    Distinct-append xs r hs ds,
  )
