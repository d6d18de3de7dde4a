-- ===== src/Db/Laws.antt =====
-- What a successful read says of the rows of a table.
use yourz_gift.Base.Keys.{Distinct}
use yourz_gift.Base.{
  All-map, ap, sym, ◌≢◌, ◌∙◌, ◌≡◌, Bool, true, ◌&&◌, List, [], ◌∷◌, arith, filter, any, All,
  Bool-cases, ok, inl, inr, eq_refl,
}
use mathlib.Core.Path.{subst}
use yourz_gift.Db.{Model, Driver, live, has_key, both, scan, find, first, first_row}

module _ {R : Type 0} where
  -- The first row of a selection satisfies the condition.
  first_row-filter :
      (p : R → Bool) (rows : List R) (r : R) → first_row (filter p rows) ≡ ok r → p r ≡ true
  unfolding filter
  first_row-filter p [] r e = cc
  first_row-filter p (x ∷ xs) r e = elim (Bool-cases (p x)) [
    | inl h ↦ ground arith
    | inr h ↦ first_row-filter p xs r (rw h at e)
  ]

  -- What holds of every row, holds of the first row of a selection.
  first_row-All :
      (P : R → Type 0) (p : R → Bool) (rows : List R) (r : R)
      → first_row (filter p rows) ≡ ok r
      → All P rows
      → P r
  unfolding filter
  first_row-All P p [] r e h = absurd (cc)
  first_row-All P p (x ∷ xs) r e (hx, hs) = elim (Bool-cases (p x)) [
    | inl h ↦ subst P (ground arith) hx
    | inr h ↦ first_row-All P p xs r (rw h at e) hs
  ]

  -- A row that a selection begins with is among the rows.
  first_row-any :
      (p q : R → Bool) (rows : List R) (r : R)
      → first_row (filter p rows) ≡ ok r
      → q r ≡ true
      → any q rows ≡ true
  unfolding filter any
  first_row-any p q [] r e h = cc
  first_row-any p q (x ∷ xs) r e h = elim (Bool-cases (p x)) [
    | inl k ↦ ground arith
    | inr k ↦ ground (arith, first_row-any p q xs r (rw k at e) h)
  ]

module _ {R K : Type 0} (key : R → K) where
  -- A row that a selection begins with is the only row with its key.
  only_row :
      (p : R → Bool) (rows : List R) (r : R)
      → first_row (filter p rows) ≡ ok r
      → Distinct key rows
      → All (λ x. key x ≡ key r → x ≡ r) rows
  unfolding filter
  only_row p [] r e d = tt
  only_row p (x ∷ xs) r e (d, ds) = elim (Bool-cases (p x)) [
    | inl h ↦
        let same : x ≡ r = ground arith in
        (λ _. same, All-map (λ y ne k. absurd (ne (k ∙ ap key (sym same)))) xs d)
    | inr h ↦
        let e' = (rw h at e) in
        (
          λ k. absurd (first_row-All (λ y. key y ≢ key x) p xs r e' d (sym k)),
          only_row p xs r e' ds,
        )
  ]

module _ {R : Type 0} {m : Model R} (d : Driver R m) (p : R → Bool) (t : d.Table) (r : R) where
  first-row : first d p t ≡ ok r → first_row (filter (both (live m) p) (d.contents t)) ≡ ok r
  unfolding first find scan
  first-row e = ground arith

  pub first-holds : first d p t ≡ ok r → (live m r && p r) ≡ true
  first-holds e = first_row-filter (both (live m) p) (d.contents t) r (first-row e)

  -- A row that was read may be saved: its key is there.
  pub first-any :
      first d p t ≡ ok r → any (both (live m) (has_key m (m.key r))) (d.contents t) ≡ true
  first-any e =
      first_row-any (both (live m) p) _ (d.contents t) r (first-row e)
        (ground (arith, first-holds e, eq_refl (m.key r)))

  pub first-All : (P : R → Type 0) → first d p t ≡ ok r → All P (d.contents t) → P r
  first-All P e = first_row-All P (both (live m) p) (d.contents t) r (first-row e)

  pub first-only :
      first d p t ≡ ok r
      → Distinct m.key (d.contents t)
      → All (λ x. m.key x ≡ m.key r → x ≡ r) (d.contents t)
  first-only e = only_row m.key (both (live m) p) (d.contents t) r (first-row e)
