-- ===== src/Account.antt =====
-- internal/services/user: accounts, on the state that roles and permissions use too.
pub mod Text
pub mod Jwt
pub mod Creating
pub mod Google
pub mod Changing
pub mod Tokens
pub mod SuperAdmins
use yourz_gift.Base.{
  ℕ, String, Option, none, some, List, ◌==◌, if◌then◌else◌, Result, ok, err, Exec, Bool,
}
use yourz_gift.Base.Text.{TextLib}
use yourz_gift.Domain.User.{Users}
use yourz_gift.Repo.Generic.{get_one_by_field, writes}
use yourz_gift.Auth.{Scope, has_permission}
use yourz_gift.Access.{AccessGorm, AccessDb, Invalidator}
use yourz_gift.Access.Permissions.{get_user_permissions}

abbrev pub role_member : String
role_member = "member"

abbrev pub role_viewer : String
role_viewer = "viewer"

-- golang.org/x/crypto/bcrypt: the hash of a password with random bytes, and the comparison of a hash with
-- a password.
pub record Bcrypt : Type 0 where
  pub hash : Option (List ℕ) → (password : String) → Result String
  pub compare : (hashed password : String) → Result (Unit {0})

module _ {g : AccessGorm} where
  abbrev pub write_accounts :
      (g.accounts.Table → Result g.accounts.Table) → Exec (AccessDb g) (Unit {0})
  write_accounts = writes (λ s. s.accounts) (λ t s. record s { accounts = t })

  -- invalidateUserPermissionCache
  unfoldable pub invalidate_users : Option Invalidator → List String → Exec (AccessDb g) (Unit {0})
  invalidate_users none ids db = (ok tt, db)
  invalidate_users (some i) ids db = (ok tt, record db { cached = i.delete_user ids db.cached })

  module _ (lib : TextLib) where
    unfoldable pub get_by_email : String → AccessDb g → Result Users
    unfolding get_one_by_field
    get_by_email email db = get_one_by_field lib g.accounts "email" email db.accounts

    unfoldable pub get_by_phone : String → AccessDb g → Result Users
    unfolding get_one_by_field
    get_by_phone phone db = get_one_by_field lib g.accounts "phone" phone db.accounts

    -- The id of the role with a name, nothing where there is none.
    unfoldable pub find_role_id_by_name : String → AccessDb g → Option String
    unfolding get_one_by_field
    find_role_id_by_name name db = elim (get_one_by_field lib g.roles "name" name db.roles) [
      | err e ↦ none
      | ok role ↦ if role.id == "" then none else some role.id
    ]

    -- serviceshared.HasPermission(ctx, PermissionRepo, "users", "assign_role")
    unfoldable pub can_assign_role : Scope → AccessDb g → Result Bool
    unfolding has_permission get_user_permissions
    can_assign_role scope db =
        has_permission lib (λ u. get_user_permissions u db) scope "users" "assign_role"
