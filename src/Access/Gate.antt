-- ===== src/Access/Gate.antt =====
-- middlewares/auth.go: PermissionMiddleware and RoleMiddleware, over internal/cache/permission/cache.go.
pub mod Fresh
pub mod Passing
pub mod History
use yourz_gift.Base.{
  String, Bool, true, false, not, ◌&&◌, ◌||◌, Option, none, some, List, [], ◌∷◌, ◌==◌,
  if◌then◌else◌, Error, record_not_found, Result, ok, err,
}
use yourz_gift.Base.Text.{TextLib, trim_space}
use yourz_gift.Domain.Access.{Permission, role_super_admin}
use yourz_gift.Repo.Columns.{contains}
use yourz_gift.Auth.{Scope, Claims, permission_key, new_from_claims, has}
use yourz_gift.Access.{AccessGorm, AccessDb, Cache, held}
use yourz_gift.Access.Permissions.{get_user_permissions}

-- The request goes on with a scope, or it is answered with a status.
pub data Verdict : Type 0 where
  passed : Scope → Verdict
  forbidden unauthorized server_error : Verdict

-- GetUserPermissionKeys and SetUserPermissionKeys; `up` says whether Redis answers.
abbrev pub cached_keys : Bool → String → Cache → Option (List String)
cached_keys up user_id cache = if up then held user_id cache else none

abbrev pub set_cached : Bool → String → List String → Cache → Cache
set_cached up user_id keys cache = if up then (user_id, keys) ∷ cache else cache

module _ (lib : TextLib) where
  -- permissionKeysFromPermissions
  unfoldable pub permission_keys : List Permission → List String
  unfolding permission_key
  permission_keys [] = []
  permission_keys (p ∷ ps) =
      let rest = permission_keys ps in
      let k = permission_key lib p.resource p.action in if k == "" then rest else k ∷ rest

  -- The keys of the user: those of the cache, or those of the database, which are cached then.
  unfoldable pub load_keys :
      {g : AccessGorm} → (up : Bool) → String → AccessDb g → Result (List String) × AccessDb g
  unfolding get_user_permissions permission_keys
  load_keys up user_id db = elim (cached_keys up user_id db.cached) [
    | some keys ↦ (ok keys, db)
    | none ↦ elim (get_user_permissions user_id db) [
      | err e ↦ (err e, db)
      | ok ps ↦ (
        ok (permission_keys ps),
        record db { cached = set_cached up user_id (permission_keys ps) db.cached },
      )
    ]
  ]

  -- The verdict on the scope that the keys make.
  abbrev pub judge_keys : Claims → (resource action : String) → Result (List String) → Verdict
  judge_keys claims resource action (err record_not_found) = forbidden
  judge_keys claims resource action (err e) = server_error
  judge_keys claims resource action (ok keys) =
      let scope = new_from_claims lib claims keys in
      if has lib scope (trim_space lib resource) (trim_space lib action)
      then passed scope
      else forbidden

  -- PermissionMiddleware; no claims where the request carries none. The super admin goes on with
  -- the scope that the request has.
  unfoldable pub permission_middleware :
      {g : AccessGorm}
      → (up : Bool) (resource action : String) (now : Scope) → Option Claims
      → AccessDb g
      → Verdict × AccessDb g
  unfolding load_keys new_from_claims has trim_space
  permission_middleware up resource action now none db = (forbidden, db)
  permission_middleware up resource action now (some claims) db =
      let loaded = load_keys up (trim_space lib claims.user_id) db in
      if trim_space lib claims.role == ""
      then (forbidden, db)
      else if trim_space lib claims.role == role_super_admin
      then (passed now, db)
      else if trim_space lib claims.user_id == ""
      then (unauthorized, db)
      else (judge_keys claims resource action loaded.0, loaded.1)

  -- RoleMiddleware: the role of the scope, or of the claims where the scope has none.
  unfoldable pub role_middleware : List String → Scope → Option Claims → Verdict
  unfolding new_from_claims contains trim_space
  role_middleware allowed now claims =
      let judge : Scope → Verdict = λ s.
        if trim_space lib s.role == ""
        then forbidden
        else if trim_space lib s.role == role_super_admin
            || contains allowed (trim_space lib s.role)
        then passed s
        else forbidden in
      if trim_space lib now.role == ""
      then (elim claims [ none ↦ forbidden | some c ↦ judge (new_from_claims lib c []) ])
      else judge now
