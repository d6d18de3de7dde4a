-- ===== src/Access/Gate/Passing.antt =====
-- middlewares/auth.go: whom PermissionMiddleware lets pass.
use yourz_gift.Base.{
  String, ◌≡◌, ◌⊎◌, inl, inr, ap, ◌∙◌, Bool, true, some, List, ◌==◌, arith, eq_iff, ok,
  Result-cases, Bool-cases, Option-cases,
}
use yourz_gift.Base.Text.{TextLib, trim_space}
use yourz_gift.Domain.Access.{Permission, role_super_admin}
use yourz_gift.Auth.{Scope, Claims, new_from_claims, has}
use yourz_gift.Access.{AccessGorm, AccessDb, held}
use yourz_gift.Access.Permissions.{get_user_permissions}
use yourz_gift.Access.Gate.{passed, cached_keys, permission_keys, load_keys, permission_middleware}

module _ {g : AccessGorm} (lib : TextLib) where
  -- Each cached list of keys is that of the user's permissions in the database.
  abbrev pub IsFresh : AccessDb g → Type 0
  IsFresh db =
      (u : String) (keys : List String)
      → held u db.cached ≡ some keys
      → (ps : List Permission) × (get_user_permissions u db ≡ ok ps)
        × (keys ≡ permission_keys lib ps)

  -- The keys that are loaded are those of the user's permissions.
  pub load_keys-fresh :
      (up : Bool) (u : String) (keys : List String) (db : AccessDb g)
      → IsFresh db
      → (load_keys lib up u db).0 ≡ ok keys
      → (ps : List Permission) × (get_user_permissions u db ≡ ok ps)
        × (keys ≡ permission_keys lib ps)
  unfolding load_keys
  load_keys-fresh up u keys db fresh e = elim (Option-cases (cached_keys up u db.cached)) [
    | inr (ks, c) ↦ fresh u keys (ground arith)
    | inl c ↦ elim (Result-cases (get_user_permissions u db)) [
      | inr (x, r) ↦ absurd (ground arith)
      | inl (ps, r) ↦ (ps, r, ground arith)
    ]
  ]

  passed-loaded :
      (up : Bool) (resource action : String) (now s : Scope) (claims : Claims) (db db' : AccessDb g)
      → permission_middleware lib up resource action now (some claims) db ≡ (passed s, db')
      → (trim_space lib claims.role ≡ role_super_admin)
        ⊎ ((keys : List String) × ((load_keys lib up (trim_space lib claims.user_id) db).0
              ≡ ok keys)
            × (s ≡ new_from_claims lib claims keys)
            × (has lib s (trim_space lib resource) (trim_space lib action) ≡ true))
  unfolding permission_middleware
  passed-loaded up resource action now s claims db db' e =
      elim (Bool-cases (trim_space lib claims.role == role_super_admin)) [
        | inl a ↦ inl ((eq_iff (trim_space lib claims.role) role_super_admin).0 a)
        | inr a ↦ elim (Result-cases (load_keys lib up (trim_space lib claims.user_id) db).0) [
          | inr (x, l) ↦ absurd (ground arith)
          | inl (keys, l) ↦ inr (keys, l, ground arith, ground arith)
        ]
      ]

  -- Where the cache is fresh, PermissionMiddleware lets a request pass only if its claims carry the super
  -- admin's role, or if the user's permissions in the database make a scope that has the permission
  -- that is asked for.
  pub permission_middleware_lem :
      (up : Bool) (resource action : String) (now s : Scope) (claims : Claims) (db db' : AccessDb g)
      → IsFresh db
      → permission_middleware lib up resource action now (some claims) db ≡ (passed s, db')
      → (trim_space lib claims.role ≡ role_super_admin)
        ⊎ ((ps : List Permission) × (get_user_permissions (trim_space lib claims.user_id) db
              ≡ ok ps)
            × (s ≡ new_from_claims lib claims (permission_keys lib ps))
            × (has lib s (trim_space lib resource) (trim_space lib action) ≡ true))
  permission_middleware_lem up resource action now s claims db db' fresh e =
      elim (passed-loaded up resource action now s claims db db' e) [
        | inl a ↦ inl a
        | inr (keys, l, same, h) ↦
            let (ps, r, k) = load_keys-fresh up (trim_space lib claims.user_id) keys db fresh l in
            inr (ps, r, same ∙ ap (new_from_claims lib claims) k, h)
      ]
