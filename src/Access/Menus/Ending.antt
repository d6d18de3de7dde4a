-- ===== src/Access/Menus/Ending.antt =====
-- internal/services/shared/menu_access.go: when the loop over parents ends.
use yourz_gift.Base.{
  ℕ, zero, suc, ◌<◌, String, ◌≡◌, inl, inr, refl, ap, ◌∙◌, true, none, some, List, [], ◌∷◌, map,
  ◌++◌, ◌==◌, eq_iff, arith, filter, Option-cases, Bool-cases,
}
use yourz_gift.Domain.Access.{MenuItem}
use yourz_gift.Repo.Columns.{contains}
use yourz_gift.Access.Menus.{
  last_of, menu_by_name, parent_of, climb, granted_by, allowed, resolve_accessible_menus,
}
use yourz_gift.Access.Menus.Closure.{Has, last_of-Has, parent_of-Has}

-- The parents go down in some numbering of the ids: no menu stands above itself.
abbrev pub IsForest : (String → ℕ) → List MenuItem → Type 0
IsForest height menus =
    (m p : MenuItem) → Has m menus → parent_of menus m ≡ some p → height p.id < height m.id

module _ (height : String → ℕ) (menus : List MenuItem) (forest : IsForest height menus) where
  climb_ends :
      (fuel : ℕ) (m : MenuItem)
      → Has m menus
      → height m.id < fuel
      → (ps : List MenuItem) × (climb menus fuel m ≡ some ps)
  unfolding climb
  climb_ends zero m h lt = absurd (omega arith)
  climb_ends (suc fuel) m h lt = elim (Option-cases (parent_of menus m)) [
    | inl f ↦ ([], ground arith)
    | inr (p, f) ↦
        let down = forest m p h f in
        let (ps, e) = climb_ends fuel p (parent_of-Has menus m p f) (omega arith) in
        (p ∷ ps, ground arith)
  ]

  granted_ends :
      (fuel : ℕ) (resource : String)
      → ((m : MenuItem) → Has m menus → height m.id < fuel)
      → (found : List MenuItem) × (granted_by menus fuel resource ≡ some found)
  unfolding granted_by menu_by_name
  granted_ends fuel resource enough = elim (Option-cases (menu_by_name menus resource)) [
    | inl f ↦ ([], ground arith)
    | inr (m, f) ↦
        let here = (last_of-Has (λ x. x.name == resource) menus m f).0 in
        let (ps, e) = climb_ends fuel m here (enough m here) in (m ∷ ps, ground arith)
  ]

  allowed_ends :
      (fuel : ℕ) (resources : List String)
      → ((m : MenuItem) → Has m menus → height m.id < fuel)
      → (found : List MenuItem) × (allowed menus fuel resources ≡ some found)
  unfolding allowed
  allowed_ends fuel [] enough = ([], refl)
  allowed_ends fuel (r ∷ rs) enough =
      let (xs, e) = granted_ends fuel r enough in
      let (ys, f) = allowed_ends fuel rs enough in (xs ++ ys, ground arith)

-- Where no menu stands above itself, ResolveAccessibleMenus answers: the loop over the parents ends
-- within as many rounds as the numbering of the menus is high.
pub resolve_ends :
    (height : String → ℕ) (menus : List MenuItem) (resources : List String) (fuel : ℕ)
    → IsForest height menus
    → ((m : MenuItem) → Has m menus → height m.id < fuel)
    → (answer : List MenuItem) × (resolve_accessible_menus fuel menus resources ≡ some answer)
unfolding resolve_accessible_menus
resolve_ends height [] resources fuel forest enough = ([], refl)
resolve_ends height (m ∷ ms) [] fuel forest enough = ([], refl)
resolve_ends height (m ∷ ms) (r ∷ rs) fuel forest enough =
    let (found, e) = allowed_ends height (m ∷ ms) forest fuel (r ∷ rs) enough in
    (filter (λ x. contains (map (λ y. y.id) found) x.id) (m ∷ ms), ground arith)

module _ (menus : List MenuItem) (Circle : MenuItem → Type 0)
    (round : (m : MenuItem)
      → Circle m
      → (p : MenuItem) × (parent_of menus m ≡ some p) × Circle p) where
  climb_circles : (fuel : ℕ) (m : MenuItem) → Circle m → climb menus fuel m ≡ none
  unfolding climb
  climb_circles zero m c = refl
  climb_circles (suc fuel) m c = let (p, f, d) = round m c in ground (arith, climb_circles fuel p d)

  allowed_circles :
      (fuel : ℕ) (resources : List String) (resource : String) (m : MenuItem)
      → contains resources resource ≡ true
      → menu_by_name menus resource ≡ some m
      → Circle m
      → allowed menus fuel resources ≡ none
  unfolding allowed contains granted_by
  allowed_circles fuel [] resource m c f k = absurd (cc)
  allowed_circles fuel (r ∷ rs) resource m c f k = elim (Bool-cases (r == resource)) [
    | inl t ↦
        let same : r ≡ resource = (eq_iff r resource).0 t in
        let lost = climb_circles fuel m k in
        let f' : menu_by_name menus r ≡ some m = ap (menu_by_name menus) same ∙ f in ground arith
    | inr t ↦ let rest = allowed_circles fuel rs resource m (ground arith) f k in ground arith
  ]

-- Where a granted resource has the name of a menu from which the parents go round in a circle,
-- ResolveAccessibleMenus never answers: no number of rounds is enough.
pub resolve_circles :
    (menus : List MenuItem) (resources : List String) (Circle : MenuItem → Type 0)
    (resource : String) (m : MenuItem) (fuel : ℕ)
    → ((x : MenuItem) → Circle x → (p : MenuItem) × (parent_of menus x ≡ some p) × Circle p)
    → contains resources resource ≡ true
    → menu_by_name menus resource ≡ some m
    → Circle m
    → resolve_accessible_menus fuel menus resources ≡ none
unfolding resolve_accessible_menus menu_by_name last_of contains
resolve_circles [] resources Circle resource m fuel round c f k = absurd (cc)
resolve_circles (x ∷ xs) [] Circle resource m fuel round c f k = absurd (cc)
resolve_circles (x ∷ xs) (r ∷ rs) Circle resource m fuel round c f k =
    let lost = allowed_circles (x ∷ xs) Circle round fuel (r ∷ rs) resource m c f k in ground arith
