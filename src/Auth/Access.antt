-- ===== src/Auth/Access.antt =====
-- internal/services/shared/menu_access.go: who has a permission.
use yourz_gift.Base.{
  String, ◌≡◌, ◌≢◌, ◌⊎◌, inl, inr, true, List, [], ◌==◌, any, arith, eq_iff, Result, ok,
  Result-cases, Bool-cases,
}
use yourz_gift.Base.Text.{TextLib, trim_space}
use yourz_gift.Repo.Columns.{contains}
use yourz_gift.Domain.Access.{Permission, role_super_admin}
use yourz_gift.Auth.{Scope, permission_key, has, permission_list_has_access, has_permission}

module _ (lib : TextLib) where
  -- HasPermission grants only to a super admin, to a scope that holds the key of the permission, or
  -- to a user without a scope's permissions to whom the repository gives one with the same key,
  -- which is not empty.
  pub has_permission_lem :
      (permissions_of : String → Result (List Permission)) (s : Scope) (resource action : String)
      → has_permission lib permissions_of s resource action ≡ ok true
      → (trim_space lib s.role ≡ role_super_admin)
        ⊎ (contains s.permissions (permission_key lib resource action) ≡ true)
        ⊎ ((s.permissions ≡ [])
            × (permissions : List Permission) × (permissions_of s.user_id ≡ ok permissions)
            × (permission_key lib resource action ≢ "")
            × (any
                  (λ p.
                    permission_key lib p.resource p.action == permission_key lib resource action)
                  permissions
                ≡ true))
  unfolding has_permission has permission_list_has_access
  has_permission_lem permissions_of s resource action e =
      elim (Bool-cases (trim_space lib s.role == role_super_admin)) [
        | inl a ↦ inl (ground (arith, eq_iff (trim_space lib s.role) role_super_admin))
        | inr a ↦ elim (Bool-cases (contains s.permissions (permission_key lib resource action))) [
          | inl b ↦ inr (inl b)
          | inr b ↦ elim (Result-cases (permissions_of s.user_id)) [
            | inr (x, r) ↦ absurd (ground arith)
            | inl (permissions, r) ↦ inr (
                inr (
                  ground arith,
                  permissions,
                  r,
                  λ q. absurd (ground (arith, eq_iff (permission_key lib resource action) "")),
                  ground arith,
                ))
          ]
        ]
      ]
