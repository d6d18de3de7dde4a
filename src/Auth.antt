-- ===== src/Auth.antt =====
-- internal/authscope/context.go, and the permission check of internal/services/shared/menu_access.go.
pub mod Access
use Prim.Native.Char.{code}
use Prim.Native.String
use yourz_gift.Base.{
  ℕ, String, Bool, true, false, not, ◌&&◌, ◌||◌, Option, none, some, List, [], ◌∷◌, ◌==◌, eqb, any,
  if◌then◌else◌, Result, ok, err,
}
use yourz_gift.Base.Text.{TextLib, trim_space, normalize_key}
use yourz_gift.Domain.Access.{Permission, role_super_admin}
use yourz_gift.Repo.Columns.{contains}

-- The set of permission keys is a list.
pub record Scope : Type 0 where
  pub user_id : String
  pub username : String
  pub role : String
  pub permissions : List String
  pub is_impersonated : Bool
  pub original_user_id : String
  pub original_username : String
  pub original_role : String

-- The claims of a token that a scope is made of, as texts; a claim that is missing is "".
pub record Claims : Type 0 where
  pub user_id : String
  pub username : String
  pub role : String
  pub is_impersonated : Bool
  pub original_user_id : String
  pub original_username : String
  pub original_role : String

-- strings.SplitN(s, ":", 2), nothing where there is no ":"
unfoldable pub split_colon : String → Option (String × String)
split_colon String.[] = none
split_colon (String.◌∷◌ c s) =
    let rest : Option (String × String) = elim (split_colon s) [
      | none ↦ none
      | some (a, b) ↦ some (String.◌∷◌ c a, b)
    ] in
    if eqb (code c) b':' then some ("", s) else rest

module _ (lib : TextLib) where
  unfoldable pub permission_key : String → String → String
  unfolding normalize_key
  permission_key resource action =
      let resource_part = normalize_key lib resource in
      let action_part = normalize_key lib action in
      if resource_part == "" || action_part == ""
      then ""
      else String.◌++◌ resource_part (String.◌++◌ ":" action_part)

  unfoldable pub normalize_permission_key : String → String
  unfolding permission_key split_colon trim_space
  normalize_permission_key permission = elim (split_colon (trim_space lib permission)) [
    | none ↦ ""
    | some (resource, action) ↦ permission_key resource action
  ]

  -- The keys of permissions, those that are none left out.
  unfoldable pub permission_set : List String → List String
  unfolding normalize_permission_key
  permission_set [] = []
  permission_set (permission ∷ permissions) =
      let rest = permission_set permissions in
      let k = normalize_permission_key permission in if k == "" then rest else k ∷ rest

  -- New
  unfoldable pub new_scope : (user_id username role : String) → List String → Scope
  unfolding permission_set trim_space
  new_scope user_id username role permissions = record {
    user_id = trim_space lib user_id;
    username = trim_space lib username;
    role = trim_space lib role;
    permissions = permission_set permissions;
    is_impersonated = false;
    original_user_id = "";
    original_username = "";
    original_role = "";
  }

  -- NewFromClaims, on the texts of the claims
  unfoldable pub new_from_claims : Claims → List String → Scope
  unfolding new_scope trim_space
  new_from_claims claims permissions =
      record (new_scope claims.user_id claims.username claims.role permissions) {
        is_impersonated = claims.is_impersonated;
        original_user_id = trim_space lib claims.original_user_id;
        original_username = trim_space lib claims.original_username;
        original_role = trim_space lib claims.original_role;
      }

  -- Scope.Has
  unfoldable pub has : Scope → String → String → Bool
  unfolding contains permission_key trim_space
  has s resource action =
      trim_space lib s.role == role_super_admin
      || contains s.permissions (permission_key resource action)

  unfoldable pub actor_user_id : Scope → String
  unfolding trim_space
  actor_user_id s =
      if s.is_impersonated && not (trim_space lib s.original_user_id == "")
      then trim_space lib s.original_user_id
      else trim_space lib s.user_id

  unfoldable pub actor_role : Scope → String
  unfolding trim_space
  actor_role s =
      if s.is_impersonated && not (trim_space lib s.original_role == "")
      then trim_space lib s.original_role
      else trim_space lib s.role

  unfoldable pub permission_list_has_access : List Permission → String → String → Bool
  unfolding permission_key any
  permission_list_has_access permissions resource action =
      let target = permission_key resource action in
      not (target == "") && any (λ p. permission_key p.resource p.action == target) permissions

  abbrev is_empty : List String → Bool
  is_empty [] = true
  is_empty (x ∷ xs) = false

  -- HasPermission; `permissions_of` is GetUserPermissions of the permission repository.
  unfoldable pub has_permission :
      (permissions_of : String → Result (List Permission)) → Scope → String → String → Result Bool
  unfolding has permission_list_has_access
  has_permission permissions_of s resource action =
      let looked_up : Result Bool = elim (permissions_of s.user_id) [
        | err e ↦ err e
        | ok permissions ↦ ok (permission_list_has_access permissions resource action)
      ] in
      if has s resource action
      then ok true
      else if not (is_empty s.permissions) || trim_space lib s.user_id == ""
      then ok false
      else looked_up
