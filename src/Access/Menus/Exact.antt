-- ===== src/Access/Menus/Exact.antt =====
-- internal/services/shared/menu_access.go: what ResolveAccessibleMenus answers, by its specification.
use mathlib.Core.Path.{subst}
use yourz_gift.Base.{
  ℕ, String, ◌≡◌, ◌↔◌, inl, inr, refl, sym, ap, ◌∙◌, Bool, true, some, List, [], ◌∷◌, map, ◌==◌,
  eq_iff, arith, filter, Option-cases, Bool-cases,
}
use yourz_gift.Domain.Access.{MenuItem}
use yourz_gift.Repo.Columns.{contains}
use yourz_gift.Access.Menus.{allowed, resolve_accessible_menus}
use yourz_gift.Access.Menus.Closure.{
  Has, Accessible, granted, above, allowed_complete, allowed_sound,
}

Has-filter :
    (p : MenuItem → Bool) (xs : List MenuItem) (x : MenuItem)
    → Has x xs
    → p x ≡ true
    → Has x (filter p xs)
unfolding filter
Has-filter p [] x h k = elim h [ ]
Has-filter p (y ∷ ys) x (inl e) k = let here : p y ≡ true = ap p (sym e) ∙ k in rw here (inl e)
Has-filter p (y ∷ ys) x (inr h) k = elim (Bool-cases (p y)) [
  | inl t ↦ rw t (inr (Has-filter p ys x h k))
  | inr t ↦ rw t (Has-filter p ys x h k)
]

filter-Has :
    (p : MenuItem → Bool) (xs : List MenuItem) (x : MenuItem)
    → Has x (filter p xs)
    → Has x xs × (p x ≡ true)
unfolding filter
filter-Has p [] x h = elim h [ ]
filter-Has p (y ∷ ys) x h = elim (Bool-cases (p y)) [
  | inr t ↦ let (a, b) = filter-Has p ys x (rw t at h) in (inr a, b)
  | inl t ↦
      let h' : Has x (y ∷ filter p ys) = rw t at h in
      elim h' [
        | inl e ↦ (inl e, ap p e ∙ t)
        | inr k ↦ let (a, b) = filter-Has p ys x k in (inr a, b)
      ]
]

contains-Has :
    (xs : List MenuItem) (x : MenuItem) → Has x xs → contains (map (λ y. y.id) xs) x.id ≡ true
unfolding contains
contains-Has [] x h = elim h [ ]
contains-Has (y ∷ ys) x (inl e) =
    let same : x.id ≡ y.id = ap (λ z. z.id) e in ground (arith, eq_iff y.id x.id)
contains-Has (y ∷ ys) x (inr h) = ground (arith, contains-Has ys x h)

Has-contains :
    (xs : List MenuItem) (id : String)
    → contains (map (λ y. y.id) xs) id ≡ true
    → (x : MenuItem) × Has x xs × (x.id ≡ id)
unfolding contains
Has-contains [] id e = absurd (cc)
Has-contains (y ∷ ys) id e = elim (Bool-cases (y.id == id)) [
  | inl t ↦ (y, inl refl, (eq_iff y.id id).0 t)
  | inr t ↦ let (x, h, k) = Has-contains ys id (ground arith) in (x, inr h, k)
]

no_resources : (menus : List MenuItem) {m : MenuItem} → Accessible menus [] m → ⊥
unfolding contains
no_resources menus (granted resource c f) = absurd (cc)
no_resources menus (above a f) = no_resources menus a

-- Where the loop over parents ends, a menu is in the answer of ResolveAccessibleMenus exactly if it is
-- one of the active menus, and has the id of a menu that is granted or stands above one.
pub resolve_iff :
    (fuel : ℕ) (menus : List MenuItem) (resources : List String) (answer : List MenuItem)
    (x : MenuItem)
    → resolve_accessible_menus fuel menus resources ≡ some answer
    → Has x answer ↔ (Has x menus × ((m : MenuItem) × Accessible menus resources m × (m.id ≡ x.id)))
unfolding resolve_accessible_menus
resolve_iff fuel [] resources answer x e =
    let nothing : answer ≡ [] = cc in
    ((λ h. elim (subst (Has x) nothing h) [ ]), (λ k. elim k.0 [ ]))
resolve_iff fuel (m ∷ ms) [] answer x e =
    let nothing : answer ≡ [] = cc in
    ((λ h. elim (subst (Has x) nothing h) [ ]), (λ k. absurd (no_resources (m ∷ ms) k.1.1)))
resolve_iff fuel (m ∷ ms) (r ∷ rs) answer x e =
    elim (Option-cases (allowed (m ∷ ms) fuel (r ∷ rs))) [
      | inl f ↦ absurd (ground arith)
      | inr (found, f) ↦
          let same : answer ≡ filter (λ y. contains (map (λ z. z.id) found) y.id) (m ∷ ms) =
            ground arith in
          (to found f same, from found f same)
    ]
  where
    to :
        (found : List MenuItem)
        → allowed (m ∷ ms) fuel (r ∷ rs) ≡ some found
        → answer ≡ filter (λ y. contains (map (λ z. z.id) found) y.id) (m ∷ ms)
        → Has x answer
        → Has x (m ∷ ms) × ((y : MenuItem) × Accessible (m ∷ ms) (r ∷ rs) y × (y.id ≡ x.id))
    to found f same h =
        let (here, allows) =
          filter-Has (λ y. contains (map (λ z. z.id) found) y.id) (m ∷ ms) x
            (subst (Has x) same h) in
        let (y, k, i) = Has-contains found x.id allows in
        (here, (y, allowed_sound (m ∷ ms) (r ∷ rs) fuel (r ∷ rs) found (λ s c. c) f y k, i))

    from :
        (found : List MenuItem)
        → allowed (m ∷ ms) fuel (r ∷ rs) ≡ some found
        → answer ≡ filter (λ y. contains (map (λ z. z.id) found) y.id) (m ∷ ms)
        → Has x (m ∷ ms) × ((y : MenuItem) × Accessible (m ∷ ms) (r ∷ rs) y × (y.id ≡ x.id))
        → Has x answer
    from found f same (here, (y, a, i)) = subst (Has x) (sym same) (
        Has-filter (λ y. contains (map (λ z. z.id) found) y.id) (m ∷ ms) x here
          (subst (λ id. contains (map (λ z. z.id) found) id ≡ true) i
            (contains-Has found y (allowed_complete (m ∷ ms) fuel (r ∷ rs) found f a))))
