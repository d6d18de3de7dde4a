-- ===== src/Access/Navigation.antt =====
-- internal/services/menu/service.go and internal/repositories/menu/menu.go: the menus of a user, and the
-- menus of a role in internal/services/role/service.go.
pub mod Circles
use yourz_gift.Base.{
  ℕ, String, Bool, true, false, Option, none, some, List, [], ◌∷◌, ◌==◌, if◌then◌else◌, sort_by,
  leb, Error, Result, ok, err, Exec, pure, gets, ◌>>=◌, ◌>>◌,
}
use yourz_gift.Db.{find}
use yourz_gift.Domain.Access.{Role, MenuItem, Permission}
use yourz_gift.Base.Text.{TextLib}
use yourz_gift.Repo.Generic.{
  get_by_id, update, writes, BaseParams, QueryOptions, build_search_func, get_all,
}
use yourz_gift.Gift.{Call}
use yourz_gift.Gift.Lists.{unless_empty, unless_nil}
use yourz_gift.Access.{AccessGorm, AccessDb}
use yourz_gift.Access.Permissions.{get_user_permissions}
use yourz_gift.Access.Roles.{get_role_permissions}
use yourz_gift.Access.Menus.{resolve_accessible_menus, resolve_accessible_menu_ids}

-- dto.MenuUpdate
pub record MenuUpdate : Type 0 where
  pub display_name : String
  pub path : String
  pub icon : String
  pub parent_id : Option String
  pub order_index : Option ℕ
  pub is_active : Option Bool

abbrev or_keep : Option String → Option String → Option String
or_keep none old = old
or_keep (some new) old = some new

-- The menu that Update saves.
abbrev pub updated_menu : Call → MenuUpdate → MenuItem → MenuItem
updated_menu call req m = record m {
  display_name = unless_empty req.display_name req.display_name m.display_name;
  path = unless_empty req.path req.path m.path;
  icon = unless_empty req.icon req.icon m.icon;
  parent_id = or_keep req.parent_id m.parent_id;
  order_index = unless_nil req.order_index m.order_index;
  is_active = unless_nil req.is_active m.is_active;
  updated_at = some call.now;
}

-- The resources of permissions, the empty ones left out.
unfoldable pub resources_of : List Permission → List String
resources_of [] = []
resources_of (p ∷ ps) =
    let rest = resources_of ps in if p.resource == "" then rest else p.resource ∷ rest

module _ {g : AccessGorm} where
  -- GetActiveMenus: ORDER BY order_index
  unfoldable pub get_active_menus : AccessDb g → Result (List MenuItem)
  unfolding find
  get_active_menus db = elim (find g.menus (λ m. m.is_active) db.menus) [
    | err e ↦ err e
    | ok rows ↦ ok (sort_by (λ a b. leb a.order_index b.order_index) rows)
  ]

  -- MenuService.GetUserMenus; nothing where the fuel of the loop over parents runs out
  unfoldable pub get_user_menus : ℕ → String → AccessDb g → Result (Option (List MenuItem))
  unfolding get_active_menus get_user_permissions resources_of resolve_accessible_menus
  get_user_menus fuel user_id db = elim (get_active_menus db) [
    | err e ↦ err e
    | ok menus ↦ elim (get_user_permissions user_id db) [
      | err e ↦ err e
      | ok ps ↦ ok (resolve_accessible_menus fuel menus (resources_of ps))
    ]
  ]

  -- The loop of deriveMenuIDsFromPermissions over the permission ids.
  unfoldable pub permissions_by_ids : List String → AccessDb g → Result (List Permission)
  unfolding get_by_id
  permissions_by_ids [] db = ok []
  permissions_by_ids (id ∷ ids) db =
      let rest = permissions_by_ids ids db in
      elim (get_by_id g.permissions id db.permissions) [
        | err e ↦ err e
        | ok p ↦ elim rest [ err e ↦ err e | ok ps ↦ ok (p ∷ ps) ]
      ]

  unfoldable pub derive_menu_ids : ℕ → List String → AccessDb g → Result (Option (List String))
  unfolding permissions_by_ids get_active_menus resources_of resolve_accessible_menu_ids
  derive_menu_ids fuel ids db = elim (permissions_by_ids ids db) [
    | err e ↦ err e
    | ok ps ↦ elim (get_active_menus db) [
      | err e ↦ err e
      | ok menus ↦ ok (resolve_accessible_menu_ids fuel menus (resources_of ps))
    ]
  ]

  -- RoleService.GetRoleMenus
  unfoldable pub get_role_menus : ℕ → String → AccessDb g → Result (Option (List String))
  unfolding get_role_permissions derive_menu_ids
  get_role_menus fuel role_id db = elim (get_role_permissions role_id db) [
    | err e ↦ err e
    | ok ids ↦ derive_menu_ids fuel ids db
  ]

  -- MenuService.Update
  unfoldable pub update_menu : Call → String → MenuUpdate → Exec (AccessDb g) MenuItem
  unfolding get_by_id update
  update_menu call id req = do
    menu ← gets (λ s. get_by_id g.menus id s.menus)
    writes (λ s. s.menus) (λ t s. record s { menus = t })
        (update g.menus (updated_menu call req menu))
    pure (updated_menu call req menu)

-- dto.RoleWithDetails
pub record RoleWithDetails : Type 0 where
  pub id : String
  pub name : String
  pub display_name : String
  pub description : String
  pub is_system : Bool
  pub permission_ids : List String
  pub menu_ids : List String
  pub created_at : String
  pub updated_at : String

-- The details of a role; `rfc3339` is time.Time.Format(time.RFC3339).
abbrev pub with_details :
    (rfc3339 : ℕ → String) → Role → List String → List String → RoleWithDetails
with_details rfc3339 role permission_ids menu_ids = record {
  id = role.id;
  name = role.name;
  display_name = role.display_name;
  description = role.description;
  is_system = role.is_system;
  permission_ids = permission_ids;
  menu_ids = menu_ids;
  created_at = rfc3339 role.created_at;
  updated_at = elim role.updated_at [ none ↦ "" | some t ↦ rfc3339 t ];
}

module _ {g : AccessGorm} where
  -- GetByIDWithDetails; nothing where the fuel of the loop over parents runs out
  unfoldable pub get_by_id_with_details :
      (rfc3339 : ℕ → String) (fuel : ℕ) → String → AccessDb g → Result (Option RoleWithDetails)
  unfolding get_by_id get_role_permissions derive_menu_ids
  get_by_id_with_details rfc3339 fuel id db = elim (get_by_id g.roles id db.roles) [
    | err e ↦ err e
    | ok role ↦ elim (get_role_permissions id db) [
      | err e ↦ err e
      | ok permission_ids ↦ elim (derive_menu_ids fuel permission_ids db) [
        | err e ↦ err e
        | ok none ↦ ok none
        | ok (some menu_ids) ↦ ok (some (with_details rfc3339 role permission_ids menu_ids))
      ]
    ]
  ]

module _ (lib : TextLib) where
  -- MenuRepo.GetAll
  abbrev pub menu_options : AccessGorm → QueryOptions MenuItem
  menu_options g = record {
    base_query = λ _. true;
    search = λ s r. build_search_func lib g.menus ("name" ∷ "display_name" ∷ "path" ∷ []) s r;
    allowed_filters =
        "id" ∷ "name" ∷ "display_name" ∷ "path" ∷ "parent_id" ∷ "order_index" ∷ "is_active"
        ∷ "created_at" ∷ "updated_at" ∷ [];
    sanitizer = λ v. v;
    allowed_order_columns =
        "name" ∷ "display_name" ∷ "path" ∷ "order_index" ∷ "created_at" ∷ "updated_at" ∷ [];
    default_orders = [];
  }

  unfoldable pub get_all_menus :
      {g : AccessGorm} → BaseParams → AccessDb g → Result (List MenuItem × ℕ)
  unfolding get_all
  get_all_menus {g} params db = get_all lib g.menus (menu_options g) params db.menus
