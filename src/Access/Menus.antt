-- ===== src/Access/Menus.antt =====
-- internal/services/shared/menu_access.go: the menus that go with a list of granted resources.
pub mod Closure
pub mod Exact
pub mod Ending
use yourz_gift.Base.{
  ℕ, zero, suc, String, Bool, true, false, not, ◌||◌, Option, none, some, List, [], ◌∷◌, ◌++◌, map,
  ◌==◌, if◌then◌else◌, filter,
}
use yourz_gift.Domain.Gift.{is_set}
use yourz_gift.Domain.Access.{MenuItem}
use yourz_gift.Repo.Columns.{contains}

-- A map that a loop fills row by row: of rows with one key, the last one is kept.
unfoldable pub last_of {ℓ} : {A : Type ℓ} → (A → Bool) → List A → Option A
last_of p [] = none
last_of p (x ∷ xs) = elim (last_of p xs) [ some y ↦ some y | none ↦ if p x then some x else none ]

module _ (menus : List MenuItem) where
  unfoldable pub menu_by_id : String → Option MenuItem
  unfolding last_of
  menu_by_id id = last_of (λ m. m.id == id) menus

  unfoldable pub menu_by_name : String → Option MenuItem
  unfolding last_of
  menu_by_name name = last_of (λ m. m.name == name) menus

  -- A parent that is not active, or deleted, ends the loop.
  abbrev pub open_parent : Option MenuItem → Option MenuItem
  open_parent none = none
  open_parent (some m) = if not m.is_active || is_set m.deleted_at then none else some m

  -- One round of the inner loop: the parent to go on with, none where the loop ends.
  unfoldable pub parent_of : MenuItem → Option MenuItem
  unfolding menu_by_id
  parent_of m = elim m.parent_id [
    | none ↦ none
    | some id ↦ if id == "" then none else open_parent (menu_by_id id)
  ]

  -- The inner loop: the parents above a menu. It runs until there is no parent to go on with;
  -- nothing where the fuel runs out.
  unfoldable pub climb : ℕ → MenuItem → Option (List MenuItem)
  unfolding parent_of
  climb zero m = none
  climb (suc fuel) m = elim (parent_of m) [
    | none ↦ some []
    | some p ↦ elim (climb fuel p) [ none ↦ none | some ps ↦ some (p ∷ ps) ]
  ]

  abbrev pub and_then : Option (List MenuItem) → Option (List MenuItem) → Option (List MenuItem)
  and_then (some xs) (some ys) = some (xs ++ ys)
  and_then (some xs) none = none
  and_then none ys = none

  -- The menu of a resource, with those above it.
  unfoldable pub granted_by : ℕ → String → Option (List MenuItem)
  unfolding climb menu_by_name
  granted_by fuel resource = elim (menu_by_name resource) [
    | none ↦ some []
    | some m ↦ elim (climb fuel m) [ none ↦ none | some ps ↦ some (m ∷ ps) ]
  ]

  -- allowedIDs, as the menus that were put into it
  unfoldable pub allowed : ℕ → List String → Option (List MenuItem)
  unfolding granted_by
  allowed fuel [] = some []
  allowed fuel (r ∷ rs) = and_then (granted_by fuel r) (allowed fuel rs)

-- ResolveAccessibleMenus
unfoldable pub resolve_accessible_menus : ℕ → List MenuItem → List String → Option (List MenuItem)
unfolding allowed contains filter
resolve_accessible_menus fuel [] resources = some []
resolve_accessible_menus fuel (m ∷ ms) [] = some []
resolve_accessible_menus fuel (m ∷ ms) (r ∷ rs) = elim (allowed (m ∷ ms) fuel (r ∷ rs)) [
  | none ↦ none
  | some found ↦ some (filter (λ x. contains (map (λ y. y.id) found) x.id) (m ∷ ms))
]

unfoldable pub resolve_accessible_menu_ids : ℕ → List MenuItem → List String → Option (List String)
unfolding resolve_accessible_menus
resolve_accessible_menu_ids fuel menus resources =
    elim (resolve_accessible_menus fuel menus resources) [
      | none ↦ none
      | some ms ↦ some (map (λ m. m.id) ms)
    ]
