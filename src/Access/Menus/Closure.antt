-- ===== src/Access/Menus/Closure.antt =====
-- internal/services/shared/menu_access.go: ResolveAccessibleMenus gives what is granted, and what stands
-- above it.
use mathlib.Core.Path.{subst}
use yourz_gift.Base.{
  ℕ, zero, suc, String, ◌≡◌, ◌⊎◌, inl, inr, sym, Bool, true, Option, none, some, List, [], ◌∷◌,
  ◌++◌, ◌==◌, eq_iff, eq_refl, arith, Option-cases, Bool-cases,
}
use yourz_gift.Domain.Access.{MenuItem}
use yourz_gift.Repo.Columns.{contains}
use yourz_gift.Access.Menus.{
  last_of, open_parent, menu_by_id, menu_by_name, parent_of, climb, granted_by, allowed,
}

-- Membership, with the place.
abbrev pub Has : {A : Type 0} → A → List A → Type 0
Has x [] = ⊥
Has x (y ∷ ys) = (x ≡ y) ⊎ Has x ys

pub Has-append : {A : Type 0} (x : A) (xs ys : List A) → (Has x xs ⊎ Has x ys) → Has x (xs ++ ys)
Has-append x [] ys (inl h) = elim h [ ]
Has-append x [] ys (inr h) = h
Has-append x (y ∷ xs) ys (inl (inl e)) = inl e
Has-append x (y ∷ xs) ys (inl (inr h)) = inr (Has-append x xs ys (inl h))
Has-append x (y ∷ xs) ys (inr h) = inr (Has-append x xs ys (inr h))

pub append-Has : {A : Type 0} (x : A) (xs ys : List A) → Has x (xs ++ ys) → Has x xs ⊎ Has x ys
append-Has x [] ys h = inr h
append-Has x (y ∷ xs) ys (inl e) = inl (inl e)
append-Has x (y ∷ xs) ys (inr h) = elim (append-Has x xs ys h) [
  | inl a ↦ inl (inr a)
  | inr b ↦ inr b
]

-- A row that a map holds is one of the rows, and has the key.
pub last_of-Has :
    {A : Type 0} (p : A → Bool) (xs : List A) (x : A)
    → last_of p xs ≡ some x
    → Has x xs × (p x ≡ true)
unfolding last_of
last_of-Has p [] x e = absurd (cc)
last_of-Has p (y ∷ ys) x e = elim (Option-cases (last_of p ys)) [
  | inr (z, f) ↦ let (h, k) = last_of-Has p ys x (ground arith) in (inr h, k)
  | inl f ↦ elim (Bool-cases (p y)) [
    | inl t ↦ let same : y ≡ x = ground arith in (inl (sym same), subst (λ z. p z ≡ true) same t)
    | inr t ↦ absurd (ground arith)
  ]
]

-- What is granted: the menu that has the name of a granted resource, and what stands above a menu
-- that is granted.
pub data Accessible (menus : List MenuItem) (resources : List String) : MenuItem → Type 0 where
  granted :
      {m : MenuItem} (resource : String)
      → contains resources resource ≡ true
      → menu_by_name menus resource ≡ some m
      → Accessible menus resources m
  above :
      {m p : MenuItem}
      → Accessible menus resources m
      → parent_of menus m ≡ some p
      → Accessible menus resources p

module _ (menus : List MenuItem) where
  pub open_parent-some :
      (m : Option MenuItem) (p : MenuItem) → open_parent menus m ≡ some p → m ≡ some p
  open_parent-some m p e = ground arith

  -- A parent is one of the menus.
  pub parent_of-Has : (m p : MenuItem) → parent_of menus m ≡ some p → Has p menus
  unfolding parent_of menu_by_id
  parent_of-Has m p e = elim (Option-cases m.parent_id) [
    | inl f ↦ absurd (ground arith)
    | inr (id, f) ↦
        let found : menu_by_id menus id ≡ some p = ground arith in
        (last_of-Has (λ x. x.id == id) menus p found).0
  ]

  climb-cases :
      (fuel : ℕ) (m : MenuItem) (ps : List MenuItem)
      → climb menus (suc fuel) m ≡ some ps
      → ((parent_of menus m ≡ none) × (ps ≡ []))
        ⊎ ((q : MenuItem) × (qs : List MenuItem) × (parent_of menus m ≡ some q)
            × (climb menus fuel q ≡ some qs)
            × (ps ≡ q ∷ qs))
  unfolding climb
  climb-cases fuel m ps e = elim (Option-cases (parent_of menus m)) [
    | inl f ↦ inl (f, ground arith)
    | inr (q, f) ↦ elim (Option-cases (climb menus fuel q)) [
      | inl g ↦ absurd (ground arith)
      | inr (qs, g) ↦ inr (q, qs, f, g, ground arith)
    ]
  ]

  climb-Accessible :
      (resources : List String) (fuel : ℕ) (m : MenuItem) (ps : List MenuItem)
      → climb menus fuel m ≡ some ps
      → Accessible menus resources m
      → (x : MenuItem) → Has x ps
      → Accessible menus resources x
  unfolding climb
  climb-Accessible resources zero m ps e a x h = absurd (cc)
  climb-Accessible resources (suc fuel) m ps e a x h = elim (climb-cases fuel m ps e) [
    | inl (f, none_left) ↦ elim (subst (Has x) none_left h) [ ]
    | inr (q, qs, f, g, k) ↦ elim (subst (Has x) k h) [
      | inl same ↦ subst (Accessible menus resources) (sym same) (above a f)
      | inr further ↦ climb-Accessible resources fuel q qs g (above a f) x further
    ]
  ]

  -- The loop does not stop below a parent that it could go on with.
  climb-closed :
      (fuel : ℕ) (m : MenuItem) (ps : List MenuItem)
      → climb menus fuel m ≡ some ps
      → (x p : MenuItem) → Has x (m ∷ ps)
      → parent_of menus x ≡ some p
      → Has p ps
  unfolding climb
  climb-closed zero m ps e x p h f = absurd (cc)
  climb-closed (suc fuel) m ps e x p (inl here) f = elim (climb-cases fuel m ps e) [
    | inl (g, none_left) ↦ absurd (cc)
    | inr (q, qs, g, c, k) ↦ let same : p ≡ q = cc in subst (Has p) (sym k) (inl same)
  ]
  climb-closed (suc fuel) m ps e x p (inr further) f = elim (climb-cases fuel m ps e) [
    | inl (g, none_left) ↦ elim (subst (Has x) none_left further) [ ]
    | inr (q, qs, g, c, k) ↦
        subst (Has p) (sym k) (inr (climb-closed fuel q qs c x p (subst (Has x) k further) f))
  ]

  -- The menus of one resource.
  granted-cases :
      (fuel : ℕ) (resource : String) (found : List MenuItem)
      → granted_by menus fuel resource ≡ some found
      → ((menu_by_name menus resource ≡ none) × (found ≡ []))
        ⊎ ((m : MenuItem) × (ps : List MenuItem) × (menu_by_name menus resource ≡ some m)
            × (climb menus fuel m ≡ some ps)
            × (found ≡ m ∷ ps))
  unfolding granted_by
  granted-cases fuel resource found e = elim (Option-cases (menu_by_name menus resource)) [
    | inl f ↦ inl (f, ground arith)
    | inr (m, f) ↦ elim (Option-cases (climb menus fuel m)) [
      | inl g ↦ absurd (ground arith)
      | inr (ps, g) ↦ inr (m, ps, f, g, ground arith)
    ]
  ]

  allowed-cases :
      (fuel : ℕ) (r : String) (rs : List String) (found : List MenuItem)
      → allowed menus fuel (r ∷ rs) ≡ some found
      → (xs : List MenuItem) × (ys : List MenuItem) × (granted_by menus fuel r ≡ some xs)
        × (allowed menus fuel rs ≡ some ys)
        × (found ≡ xs ++ ys)
  unfolding allowed
  allowed-cases fuel r rs found e = elim (Option-cases (granted_by menus fuel r)) [
    | inl f ↦ absurd (ground arith)
    | inr (xs, f) ↦ elim (Option-cases (allowed menus fuel rs)) [
      | inl g ↦ absurd (ground arith)
      | inr (ys, g) ↦ (xs, ys, f, g, ground arith)
    ]
  ]

  -- Each list that a resource gives is closed under going to a parent.
  allowed-closed :
      (fuel : ℕ) (rs : List String) (found : List MenuItem)
      → allowed menus fuel rs ≡ some found
      → (x p : MenuItem) → Has x found
      → parent_of menus x ≡ some p
      → Has p found
  unfolding allowed
  allowed-closed fuel [] found e x p h f =
      let nothing : found ≡ [] = cc in elim (subst (Has x) nothing h) [ ]
  allowed-closed fuel (r ∷ rs) found e x p h f =
      let (xs, ys, g, a, k) = allowed-cases fuel r rs found e in
      subst (Has p) (sym k) (
        Has-append p xs ys (elim (append-Has x xs ys (subst (Has x) k h)) [
          | inr later ↦ inr (allowed-closed fuel rs ys a x p later f)
          | inl here ↦ elim (granted-cases fuel r xs g) [
            | inl (n, nothing) ↦ elim (subst (Has x) nothing here) [ ]
            | inr (m, ps, n, c, q) ↦ inl (
                subst (Has p) (sym q) (inr (climb-closed fuel m ps c x p (subst (Has x) q here) f)))
          ]
        ]))

  -- The menu that has a granted resource's name is there.
  allowed-granted :
      (fuel : ℕ) (rs : List String) (found : List MenuItem)
      → allowed menus fuel rs ≡ some found
      → (resource : String) (m : MenuItem) → contains rs resource ≡ true
      → menu_by_name menus resource ≡ some m
      → Has m found
  unfolding contains
  allowed-granted fuel [] found e resource m c f = absurd (cc)
  allowed-granted fuel (r ∷ rs) found e resource m c f =
      let (xs, ys, g, a, k) = allowed-cases fuel r rs found e in
      subst (Has m) (sym k) (
        Has-append m xs ys (elim (Bool-cases (r == resource)) [
          | inr other ↦ inr (allowed-granted fuel rs ys a resource m (ground arith) f)
          | inl this ↦
              let same : r ≡ resource = (eq_iff r resource).0 this in
              elim (granted-cases fuel r xs g) [
                | inl (n, nothing) ↦ absurd (cc)
                | inr (m', ps, n, q, w) ↦
                    let one : m ≡ m' = cc in inl (subst (Has m) (sym w) (inl one))
              ]
        ]))

  pub allowed_complete :
      (fuel : ℕ) (rs : List String) (found : List MenuItem)
      → allowed menus fuel rs ≡ some found
      → {x : MenuItem} → Accessible menus rs x
      → Has x found
  allowed_complete fuel rs found e (granted resource c f) =
      allowed-granted fuel rs found e resource _ c f
  allowed_complete fuel rs found e (above a f) =
      allowed-closed fuel rs found e _ _ (allowed_complete fuel rs found e a) f

  pub allowed_sound :
      (all : List String) (fuel : ℕ) (rs : List String) (found : List MenuItem)
      → ((resource : String) → contains rs resource ≡ true → contains all resource ≡ true)
      → allowed menus fuel rs ≡ some found
      → (x : MenuItem) → Has x found
      → Accessible menus all x
  unfolding allowed contains
  allowed_sound all fuel [] found sub e x h =
      let nothing : found ≡ [] = cc in elim (subst (Has x) nothing h) [ ]
  allowed_sound all fuel (r ∷ rs) found sub e x h =
      let (xs, ys, g, a, k) = allowed-cases fuel r rs found e in
      elim (append-Has x xs ys (subst (Has x) k h)) [
        | inr later ↦ allowed_sound all fuel rs ys (λ s c. sub s (ground arith)) a x later
        | inl here ↦ elim (granted-cases fuel r xs g) [
          | inl (n, nothing) ↦ elim (subst (Has x) nothing here) [ ]
          | inr (m, ps, n, c, q) ↦
              let start = granted r (sub r (ground (arith, eq_refl r))) n in
              elim (subst (Has x) q here) [
                | inl same ↦ subst (Accessible menus all) (sym same) start
                | inr further ↦ climb-Accessible all fuel m ps c start x further
              ]
        ]
      ]
