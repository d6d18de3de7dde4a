-- ===== src/Access/Roles.antt =====
-- internal/repositories/role/role.go and internal/services/role/service.go.
pub mod Assigning
pub mod Deleting
use yourz_gift.Base.{
  ℕ, zero, suc, ◌-◌, String, Bool, true, false, not, ◌&&◌, Option, none, some, List, [], ◌∷◌, ◌==◌,
  if◌then◌else◌, map, length, filter, Error, message, Result, ok, err, Exec, pure, raise, gets,
  guard, ◌>>=◌, ◌>>◌,
}
use yourz_gift.Base.Text.{TextLib}
use yourz_gift.Db.{find, to_result}
use yourz_gift.Domain.Access.{
  Role, RolePermission, MenuItem, roles, role_permissions, role_super_admin,
}
use yourz_gift.Repo.Generic.{
  BaseParams, QueryOptions, build_search_func, get_all, store, get_by_id, update, delete, writes,
  get_one_by_field,
}
use yourz_gift.Auth.{Scope, has_permission}
use yourz_gift.Gift.{Call}
use yourz_gift.Gift.Lists.{unless_empty}
use yourz_gift.Access.{AccessGorm, AccessDb, Invalidator, invalidate_all, in_transaction}
use yourz_gift.Access.Permissions.{get_user_permissions, found_id}

-- dto.RoleCreate and dto.RoleUpdate
pub record RoleCreate : Type 0 where
  pub name : String
  pub display_name : String
  pub description : String

pub record RoleUpdate : Type 0 where
  pub display_name : String
  pub description : String

module _ {g : AccessGorm} where
  abbrev pub write_roles : (g.roles.Table → Result g.roles.Table) → Exec (AccessDb g) (Unit {0})
  write_roles = writes (λ s. s.roles) (λ t s. record s { roles = t })

  abbrev pub write_role_permissions :
      (g.role_permissions.Table → Result g.role_permissions.Table) → Exec (AccessDb g) (Unit {0})
  write_role_permissions =
      writes (λ s. s.role_permissions) (λ t s. record s { role_permissions = t })

  -- The loop that inserts the rows of AssignPermissions; `uuids` gives their ids.
  unfoldable pub insert_permissions :
      (role_id : String) → (uuids : ℕ → String) → List String → Exec (AccessDb g) (Unit {0})
  insert_permissions role_id uuids [] = pure tt
  insert_permissions role_id uuids (id ∷ ids) = do
    write_role_permissions (λ t. to_result (
        g.role_permissions.create
          (record { id = uuids 0; role_id = role_id; permission_id = id; created_at = 0 }) t))
    insert_permissions role_id (λ n. uuids (suc n)) ids

  unfoldable pub replace_permissions :
      (role_id : String) → (uuids : ℕ → String) → List String → Exec (AccessDb g) (Unit {0})
  unfolding insert_permissions
  replace_permissions role_id uuids ids = do
    write_role_permissions
        (λ t. to_result (g.role_permissions.delete (λ rp. rp.role_id == role_id) t))
    insert_permissions role_id uuids ids

  -- RoleRepo.AssignPermissions
  unfoldable pub store_permissions :
      (role_id : String) → (uuids : ℕ → String) → List String → Exec (AccessDb g) (Unit {0})
  unfolding in_transaction replace_permissions
  store_permissions role_id uuids ids = in_transaction (replace_permissions role_id uuids ids)

  unfoldable pub get_role_permissions : String → AccessDb g → Result (List String)
  unfolding find
  get_role_permissions role_id db =
      elim (find g.role_permissions (λ rp. rp.role_id == role_id) db.role_permissions) [
        | err e ↦ err e
        | ok rows ↦ ok (map (λ rp. rp.permission_id) rows)
      ]

  -- The check that every permission of a request is there.
  unfoldable pub check_permission_ids : List String → AccessDb g → Result (Unit {0})
  unfolding get_by_id
  check_permission_ids [] db = ok tt
  check_permission_ids (id ∷ ids) db =
      let rest = check_permission_ids ids db in
      elim (get_by_id g.permissions id db.permissions) [
        | err e ↦ err (message "invalid permission ID")
        | ok p ↦ rest
      ]

-- The role that Create stores.
abbrev pub new_role : Call → RoleCreate → Role
new_role call req = record {
  id = call.uuid;
  name = req.name;
  display_name = req.display_name;
  description = req.description;
  is_system = false;
  created_at = call.now;
  updated_at = none;
  deleted_at = none;
}

-- The role that Update saves.
abbrev pub updated_role : Call → RoleUpdate → Role → Role
updated_role call req r = record r {
  display_name = unless_empty req.display_name req.display_name r.display_name;
  description = req.description;
  updated_at = some call.now;
}

-- The roles that a caller who is not the super admin gets to see, and how many there are.
abbrev pub shown_roles : Scope → List Role × ℕ → List Role × ℕ
shown_roles s (rows, total) = if s.role == role_super_admin then (rows, total) else (
  filter (λ r. not (r.name == role_super_admin)) rows,
  total - (length rows - length (filter (λ r. not (r.name == role_super_admin)) rows)),
)

module _ (lib : TextLib) where
  -- RoleRepo.GetAll
  abbrev pub role_options : AccessGorm → QueryOptions Role
  role_options g = record {
    base_query = λ _. true;
    search =
        λ s r. build_search_func lib g.roles ("name" ∷ "display_name" ∷ "description" ∷ []) s r;
    allowed_filters =
        "id" ∷ "name" ∷ "display_name" ∷ "is_system" ∷ "created_at" ∷ "updated_at" ∷ [];
    sanitizer = λ v. v;
    allowed_order_columns =
        "name" ∷ "display_name" ∷ "is_system" ∷ "created_at" ∷ "updated_at" ∷ [];
    default_orders = [];
  }

  unfoldable pub get_all_roles :
      {g : AccessGorm} → Scope → BaseParams → AccessDb g → Result (List Role × ℕ)
  unfolding get_all
  get_all_roles {g} s params db = elim (get_all lib g.roles (role_options g) params db.roles) [
    | err e ↦ err e
    | ok page ↦ ok (shown_roles s page)
  ]

  unfoldable pub create_role : {g : AccessGorm} → Call → RoleCreate → Exec (AccessDb g) Role
  unfolding get_one_by_field store
  create_role {g} call req = do
    existing ←
        gets (λ s. ok (found_id (λ r. r.id) (get_one_by_field lib g.roles "name" req.name s.roles)))
    guard (existing == "") (message "role with this name already exists")
    write_roles (store g.roles (new_role call req))
    pure (new_role call req)

  -- The checks of AssignPermissions on a system role.
  unfoldable pub check_system_role :
      {g : AccessGorm} → Scope → Role → AccessDb g → Result (Unit {0})
  unfolding has_permission get_user_permissions
  check_system_role {g} s role db =
      let checked : Result (Unit {0}) =
        elim (has_permission lib (λ u. get_user_permissions u db) s "roles" "manage_system") [
          | err e ↦ err e
          | ok false ↦ err (message "access denied: missing permission roles:manage_system")
          | ok true ↦
              if role.name == role_super_admin && not (s.role == role_super_admin)
              then err (message "access denied: cannot modify superadmin role")
              else ok tt
        ] in
      if role.is_system then checked else ok tt

unfoldable pub update_role : {g : AccessGorm} → Call → String → RoleUpdate → Exec (AccessDb g) Role
unfolding get_by_id update
update_role {g} call id req = do
  role ← gets (λ s. get_by_id g.roles id s.roles)
  guard (not role.is_system) (message "cannot update system roles")
  write_roles (update g.roles (updated_role call req role))
  pure (updated_role call req role)

module _ (cache : Option Invalidator) where
  unfoldable pub delete_role : {g : AccessGorm} → String → Exec (AccessDb g) (Unit {0})
  unfolding get_by_id delete invalidate_all
  delete_role {g} id = do
    role ← gets (λ s. get_by_id g.roles id s.roles)
    guard (not role.is_system) (message "cannot delete system roles")
    write_roles (delete g.roles id)
    invalidate_all cache

  -- RoleService.AssignPermissions
  unfoldable pub assign_permissions :
      {g : AccessGorm}
      → TextLib
      → Scope
      → (uuids : ℕ → String) (role_id : String) → List String
      → Exec (AccessDb g) (Unit {0})
  unfolding get_by_id check_system_role check_permission_ids store_permissions invalidate_all
  assign_permissions {g} lib s uuids role_id ids = do
    role ← gets (λ db. get_by_id g.roles role_id db.roles)
    gets (check_system_role lib s role)
    gets (check_permission_ids ids)
    store_permissions role_id uuids ids
    invalidate_all cache
