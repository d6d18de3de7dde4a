-- ===== src/Access.antt =====
-- Roles, permissions and menus: the state that internal/services/role, permission and menu, their
-- repositories and the permission middleware work on.
pub mod Menus
pub mod Permissions
pub mod Roles
pub mod Navigation
pub mod Gate
pub mod Invalidation
use yourz_gift.Base.{
  String, Option, none, some, List, [], ◌∷◌, ◌==◌, if◌then◌else◌, Result, ok, err, fault, Exec,
}
use yourz_gift.Db.{Driver}
use yourz_gift.Domain.Access.{
  Role, RolePermission, Permission, MenuItem, roles, role_permissions, permissions, menu_items,
}
use yourz_gift.Domain.User.{Users, users}

pub record AccessGorm : Type 1 where
  pub roles : Driver Role roles
  pub role_permissions : Driver RolePermission role_permissions
  pub permissions : Driver Permission permissions
  pub menus : Driver MenuItem menu_items
  pub accounts : Driver Users users

-- What Redis holds under "permission:user:": user ids with their permission keys, the newest first.
abbrev pub Cache : Type 0
Cache = List (String × List String)

-- The permission keys of a user id.
unfoldable pub held : String → Cache → Option (List String)
held user_id [] = none
held user_id ((id, keys) ∷ cache) =
    let rest = held user_id cache in if id == user_id then some keys else rest

-- `commit` says whether the database would refuse to commit a transaction now.
pub record AccessDb (g : AccessGorm) : Type 0 where
  pub roles : g.roles.Table
  pub role_permissions : g.role_permissions.Table
  pub permissions : g.permissions.Table
  pub menus : g.menus.Table
  pub accounts : g.accounts.Table
  pub commit : Option String
  pub cached : Cache

-- permissioncache.Invalidator, an interface.
pub record Invalidator : Type 0 where
  pub delete_user : List String → Cache → Cache
  pub delete_all : Cache → Cache

module _ {g : AccessGorm} where
  -- Begin, the statements, Commit; an error of a statement rolls back.
  unfoldable pub in_transaction : Exec (AccessDb g) (Unit {0}) → Exec (AccessDb g) (Unit {0})
  in_transaction body db = elim (body db).0 [
    | err e ↦ (err e, db)
    | ok _ ↦ elim (body db).1.commit [ none ↦ body db | some s ↦ (err (fault s), db) ]
  ]

  -- invalidatePermissionCache: DeleteAll, where the service has an invalidator
  unfoldable pub invalidate_all : Option Invalidator → Exec (AccessDb g) (Unit {0})
  invalidate_all none db = (ok tt, db)
  invalidate_all (some i) db = (ok tt, record db { cached = i.delete_all db.cached })
