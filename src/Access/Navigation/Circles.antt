-- ===== src/Access/Navigation/Circles.antt =====
-- internal/services/menu/service.go: Update may put a menu below itself.
use mathlib.Core.Path.{subst}
use yourz_gift.Base.{
  ℕ, String, ◌≡◌, ◌≢◌, ◌⊎◌, inl, inr, sym, ap, ◌∙◌, Bool, true, ◌&&◌, some, none, List, [], ◌∷◌,
  ◌==◌, eq_iff, arith, filter, sort_by, insert_by, leb, All, ok, Bool-cases, Option-cases,
  Result-cases,
}
use yourz_gift.Base.Keys.{All-amend-intro}
use yourz_gift.Db.{Attempt-cases, find, scan, live, has_key, both}
use yourz_gift.Db.Laws.{first-holds, first-any}
use yourz_gift.Domain.Access.{MenuItem, menu_items}
use yourz_gift.Repo.Generic.{get_by_id, update}
use yourz_gift.Repo.Columns.{contains}
use yourz_gift.Gift.{Call}
use yourz_gift.Access.{AccessGorm, AccessDb}
use yourz_gift.Access.Menus.{last_of, menu_by_id, menu_by_name, parent_of, resolve_accessible_menus}
use yourz_gift.Access.Menus.Closure.{Has, last_of-Has}
use yourz_gift.Access.Menus.Ending.{resolve_circles}
use yourz_gift.Access.Navigation.{MenuUpdate, updated_menu, get_active_menus, update_menu}

module _ {A : Type 0} where
  filter-Has : (p : A → Bool) (x : A) (xs : List A) → Has x (filter p xs) → Has x xs × (p x ≡ true)
  unfolding filter
  filter-Has p x [] h = elim h [ ]
  filter-Has p x (y ∷ ys) h = elim (Bool-cases (p y)) [
    | inr t ↦ let (k, e) = filter-Has p x ys (rw t at h) in (inr k, e)
    | inl t ↦ elim (kept (rw t at h)) [
      | inl e ↦ (inl e, ap p e ∙ t)
      | inr k ↦ let (k', e) = filter-Has p x ys k in (inr k', e)
    ]
  ]
    where
      kept : Has x (y ∷ filter p ys) → (x ≡ y) ⊎ Has x (filter p ys)
      kept k = k

  insert-Has :
      (b : A → A → Bool) (x y : A) (ys : List A) → Has x (insert_by b y ys) → Has x (y ∷ ys)
  unfolding insert_by
  insert-Has b x y [] h = h
  insert-Has b x y (z ∷ zs) h = elim (Bool-cases (b y z)) [
    | inl t ↦ (rw t at h)
    | inr t ↦ later (insert-Has b x y zs) (rw t at h)
  ]
    where
      later :
          (Has x (insert_by b y zs) → Has x (y ∷ zs))
          → Has x (z ∷ insert_by b y zs)
          → Has x (y ∷ z ∷ zs)
      later f (inl e) = inr (inl e)
      later f (inr k) = elim (f k) [ inl e ↦ inl e | inr k' ↦ inr (inr k') ]

  sort-Has : (b : A → A → Bool) (x : A) (xs : List A) → Has x (sort_by b xs) → Has x xs
  unfolding sort_by
  sort-Has b x [] h = h
  sort-Has b x (y ∷ ys) h = elim (insert-Has b x y (sort_by b ys) h) [
    | inl e ↦ inl e
    | inr k ↦ inr (sort-Has b x ys k)
  ]

  All-Has : (P : A → Type 0) (x : A) (xs : List A) → All P xs → Has x xs → P x
  All-Has P x [] a h = elim h [ ]
  All-Has P x (y ∷ ys) (a, rest) (inl e) = subst P (sym e) a
  All-Has P x (y ∷ ys) (a, rest) (inr h) = All-Has P x ys rest h

  -- Where a row has the key, the map has a row under it.
  last_of-some :
      (p : A → Bool) (x : A) (xs : List A)
      → Has x xs
      → p x ≡ true
      → (y : A) × (last_of p xs ≡ some y)
  unfolding last_of
  last_of-some p x [] h e = elim h [ ]
  last_of-some p x (z ∷ zs) h e = elim (Option-cases (last_of p zs)) [
    | inr (y, f) ↦ (y, ground arith)
    | inl f ↦ elim h [
      | inl same ↦ (z, let t : p z ≡ true = ap p (sym same) ∙ e in ground arith)
      | inr k ↦ let (y, f') = last_of-some p x zs k e in absurd (cc)
    ]
  ]

module _ {g : AccessGorm} (call : Call) (id : String) (req : MenuUpdate) where
  -- The rows with the key of a saved menu have the parent of the request.
  saved_parent :
      (m : MenuItem) (parent : String) (db : AccessDb g) (t : g.menus.Table)
      → req.parent_id ≡ some parent
      → get_by_id g.menus id db.menus ≡ ok m
      → update g.menus (updated_menu call req m) db.menus ≡ ok t
      → All
          (λ x. both (live menu_items) (has_key menu_items id) x ≡ true → x.parent_id ≡ some parent)
          (g.menus.contents t)
  unfolding get_by_id update
  saved_parent m parent db t asks found e =
      elim (Attempt-cases (g.menus.save (updated_menu call req m) db.menus)) [
        | inr (s, f) ↦ absurd (ground arith)
        | inl (t', f) ↦
            let key = has_key menu_items id in
            let same : m.id ≡ id =
              ground (arith, first-holds g.menus key db.menus m found, eq_iff m.id id) in
            let here = first-any g.menus key db.menus m found in
            let saved = g.menus.contents-save (updated_menu call req m) db.menus t' here f in
            let new : t' ≡ t = ground arith in
            subst
              (λ u.
                All
                  (λ x.
                    both (live menu_items) (has_key menu_items id) x ≡ true
                    → x.parent_id ≡ some parent)
                  (g.menus.contents u))
              new
              (rw saved
                (All-amend-intro _ _ _ (λ x h k. ground arith) (λ x h k. absurd (ground arith))))
      ]

  update_menu-saved :
      (m : MenuItem) (db db' : AccessDb g)
      → update_menu call id req db ≡ (ok m, db')
      → (old : MenuItem) × (get_by_id g.menus id db.menus ≡ ok old)
        × (update g.menus (updated_menu call req old) db.menus ≡ ok db'.menus)
  unfolding update_menu
  update_menu-saved m db db' e = elim (Result-cases (get_by_id g.menus id db.menus)) [
    | inr (x, f) ↦ absurd (ground arith)
    | inl (old, f) ↦ elim (Result-cases (update g.menus (updated_menu call req old) db.menus)) [
      | inr (x, k) ↦ absurd (ground arith)
      | inl (t, k) ↦ (old, f, ground arith)
    ]
  ]

  -- An active menu is a live row.
  active-Has :
      (x : MenuItem) (db : AccessDb g) (menus : List MenuItem)
      → get_active_menus db ≡ ok menus
      → Has x menus
      → Has x (g.menus.contents db.menus) × ((live menu_items x && x.is_active) ≡ true)
  unfolding get_active_menus find scan
  active-Has x db menus e h = elim (Option-cases (g.menus.read_fault db.menus)) [
    | inr (s, f) ↦ absurd (ground arith)
    | inl f ↦
        let active = both (live menu_items) (λ m. m.is_active) in
        let order : MenuItem → MenuItem → Bool = λ a b. leb a.order_index b.order_index in
        let shown : menus ≡ sort_by order (filter active (g.menus.contents db.menus)) =
          ground arith in
        filter-Has active x (g.menus.contents db.menus) (sort-Has order x _ (subst (Has x) shown h))
  ]

  -- MenuService.Update lets a menu be its own parent. Once it has done so, and an active menu has
  -- the id, the menus of a caller who is granted it are never resolved: no number of rounds of the
  -- loop over parents is enough.
  pub own_parent :
      (m x : MenuItem) (db db' : AccessDb g) (menus : List MenuItem) (resources : List String)
      (resource : String) (fuel : ℕ)
      → id ≢ ""
      → req.parent_id ≡ some id
      → update_menu call id req db ≡ (ok m, db')
      → get_active_menus db' ≡ ok menus
      → contains resources resource ≡ true
      → menu_by_name menus resource ≡ some x
      → x.id ≡ id
      → resolve_accessible_menus fuel menus resources ≡ none
  unfolding menu_by_name parent_of menu_by_id
  own_parent m x db db' menus resources resource fuel set asks e shown c named same =
      let (old, found, saved) = update_menu-saved m db db' e in
      let rows = saved_parent old id db db'.menus asks found saved in
      resolve_circles menus resources (λ y. Has y menus × (y.id ≡ id)) resource x fuel
        (λ y k. goes_round rows y k.0 k.1) c named
        ((last_of-Has (λ y. y.name == resource) menus x named).0, same)
    where
      goes_round :
          All
            (λ y. both (live menu_items) (has_key menu_items id) y ≡ true → y.parent_id ≡ some id)
            (g.menus.contents db'.menus)
          → (y : MenuItem) → Has y menus
          → y.id ≡ id
          → (p : MenuItem) × (parent_of menus y ≡ some p) × (Has p menus × (p.id ≡ id))
      goes_round rows y h k =
          let (row, is_live) = active-Has y db' menus shown h in
          let own : y.parent_id ≡ some id =
            All-Has _ y _ rows row (ground (arith, (eq_iff y.id id).1 k)) in
          let (p, f) = last_of-some (λ z. z.id == id) y menus h ((eq_iff y.id id).1 k) in
          let (here, at) = last_of-Has (λ z. z.id == id) menus p f in
          let (row', live') = active-Has p db' menus shown here in
          (p, ground (arith, eq_iff id ""), (here, (eq_iff p.id id).0 at))
