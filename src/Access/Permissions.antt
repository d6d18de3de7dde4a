-- ===== src/Access/Permissions.antt =====
-- internal/repositories/permission/permission.go and internal/services/permission/service.go.
use yourz_gift.Base.{
  ℕ, String, true, ◌&&◌, Option, none, some, List, [], ◌∷◌, ◌==◌, if◌then◌else◌, filter, any,
  message, Result, ok, err, Exec, pure, gets, guard, ◌>>=◌, ◌>>◌,
}
use yourz_gift.Base.Text.{TextLib}
use yourz_gift.Db.{scan, find, live, has_key, first_row}
use yourz_gift.Domain.User.{Users, users}
use yourz_gift.Domain.Access.{Permission, permissions, role_super_admin}
use yourz_gift.Repo.Generic.{
  store, get_by_id, update, delete, writes, get_one_by_field, get_many_by_field, BaseParams,
  QueryOptions, build_search_func, get_all,
}
use yourz_gift.Gift.{Call}
use yourz_gift.Gift.Lists.{unless_empty}
use yourz_gift.Access.{AccessGorm, AccessDb, Invalidator, invalidate_all}

-- dto.PermissionCreate and dto.PermissionUpdate
pub record PermissionCreate : Type 0 where
  pub name : String
  pub display_name : String
  pub description : String
  pub resource : String
  pub action : String

pub record PermissionUpdate : Type 0 where
  pub display_name : String
  pub description : String
  pub resource : String
  pub action : String

-- The user's role id, "" where there is none.
abbrev pub role_id_of : Users → String
role_id_of u = elim u.role_id [ none ↦ "" | some id ↦ id ]

-- The id of what was found, "" beside an error, which is dropped.
abbrev pub found_id {ℓ} : {A : Type ℓ} → (A → String) → Result A → String
found_id id_of (ok a) = id_of a
found_id id_of (err e) = ""

module _ {g : AccessGorm} where
  -- SELECT role_id, role FROM users: the soft-deleted users are read too.
  unfoldable pub get_role_user : String → AccessDb g → Result Users
  unfolding scan
  get_role_user user_id db = elim (scan g.accounts db.accounts) [
    | err e ↦ err e
    | ok rows ↦ first_row (filter (has_key users user_id) rows)
  ]

  -- The permissions that the JOIN over role_permissions gives for a role.
  unfoldable pub get_permissions_of_role : String → AccessDb g → Result (List Permission)
  unfolding scan any
  get_permissions_of_role role_id db = elim (scan g.role_permissions db.role_permissions) [
    | err e ↦ err e
    | ok rps ↦ elim (scan g.permissions db.permissions) [
      | err e ↦ err e
      | ok rows ↦ ok (
          g.permissions.arrange ("resource" ∷ "action" ∷ []) (
            filter
              (λ p.
                live permissions p
                && any (λ rp. rp.role_id == role_id && rp.permission_id == p.id) rps)
              rows))
    ]
  ]

  -- GetUserPermissions
  unfoldable pub get_user_permissions : String → AccessDb g → Result (List Permission)
  unfolding get_role_user get_permissions_of_role find
  get_user_permissions user_id db = elim (get_role_user user_id db) [
    | err e ↦ err e
    | ok u ↦
        if u.role == role_super_admin
        then (elim (find g.permissions (λ _. true) db.permissions) [
          | err e ↦ err e
          | ok rows ↦ ok (g.permissions.arrange ("resource" ∷ "action" ∷ []) rows)
        ])
        else if role_id_of u == ""
        then ok []
        else get_permissions_of_role (role_id_of u) db
  ]

  abbrev pub write_permissions :
      (g.permissions.Table → Result g.permissions.Table) → Exec (AccessDb g) (Unit {0})
  write_permissions = writes (λ s. s.permissions) (λ t s. record s { permissions = t })

-- The permission that Create stores.
abbrev pub new_permission : Call → PermissionCreate → Permission
new_permission call req = record {
  id = call.uuid;
  name = req.name;
  display_name = req.display_name;
  description = req.description;
  resource = req.resource;
  action = req.action;
  created_at = call.now;
  updated_at = none;
  deleted_at = none;
}

-- The permission that Update saves.
abbrev pub updated_permission : Call → PermissionUpdate → Permission → Permission
updated_permission call req p = record p {
  display_name = unless_empty req.display_name req.display_name p.display_name;
  description = req.description;
  resource = unless_empty req.resource req.resource p.resource;
  action = unless_empty req.action req.action p.action;
  updated_at = some call.now;
}

module _ (cache : Option Invalidator) where
  unfoldable pub create_permission :
      {g : AccessGorm} → TextLib → Call → PermissionCreate → Exec (AccessDb g) Permission
  unfolding get_one_by_field store invalidate_all
  create_permission {g} lib call req = do
    existing ← gets (λ s.
        ok
          (found_id (λ p. p.id) (get_one_by_field lib g.permissions "name" req.name s.permissions)))
    guard (existing == "") (message "permission with this name already exists")
    write_permissions (store g.permissions (new_permission call req))
    invalidate_all cache
    pure (new_permission call req)

  unfoldable pub update_permission :
      {g : AccessGorm} → Call → String → PermissionUpdate → Exec (AccessDb g) Permission
  unfolding get_by_id update invalidate_all
  update_permission {g} call id req = do
    permission ← gets (λ s. get_by_id g.permissions id s.permissions)
    write_permissions (update g.permissions (updated_permission call req permission))
    invalidate_all cache
    pure (updated_permission call req permission)

  unfoldable pub delete_permission : {g : AccessGorm} → String → Exec (AccessDb g) (Unit {0})
  unfolding delete invalidate_all
  delete_permission {g} id = do write_permissions (delete g.permissions id); invalidate_all cache

module _ (lib : TextLib) where
  -- PermissionRepo.GetAll
  abbrev pub permission_options : AccessGorm → QueryOptions Permission
  permission_options g = record {
    base_query = λ _. true;
    search = λ s r.
        build_search_func lib g.permissions
          ("name" ∷ "display_name" ∷ "description" ∷ "resource" ∷ []) s r;
    allowed_filters =
        "id" ∷ "name" ∷ "display_name" ∷ "resource" ∷ "action" ∷ "created_at" ∷ "updated_at" ∷ [];
    sanitizer = λ v. v;
    allowed_order_columns =
        "name" ∷ "display_name" ∷ "resource" ∷ "action" ∷ "created_at" ∷ "updated_at" ∷ [];
    default_orders = [];
  }

  unfoldable pub get_all_permissions :
      {g : AccessGorm} → BaseParams → AccessDb g → Result (List Permission × ℕ)
  unfolding get_all
  get_all_permissions {g} params db =
      get_all lib g.permissions (permission_options g) params db.permissions

  unfoldable pub get_by_resource : {g : AccessGorm} → String → AccessDb g → Result (List Permission)
  unfolding get_many_by_field
  get_by_resource {g} resource db =
      get_many_by_field lib g.permissions "resource" resource db.permissions
