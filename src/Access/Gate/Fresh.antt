-- ===== src/Access/Gate/Fresh.antt =====
-- The permission cache: which operations keep it in step with the database.
use mathlib.Core.Path.{subst}
use yourz_gift.Base.{
  ℕ, suc, Error, String, ◌≡◌, ◌⊎◌, inl, inr, refl, sym, ap, ◌∙◌, Bool, ◌&&◌, ◌||◌, Option, none,
  some, List, [], ◌∷◌, ◌==◌, arith, eq_iff, ok, err, Result-cases, Bool-cases, Option-cases,
}
use yourz_gift.Base.Text.{TextLib, trim_space}
use yourz_gift.Domain.Access.{Permission, role_super_admin}
use yourz_gift.Db.{Attempt-cases}
use yourz_gift.Auth.{Scope, Claims}
use yourz_gift.Gift.{Call}
use yourz_gift.Access.{AccessGorm, AccessDb, held, Invalidator, invalidate_all, in_transaction}
use yourz_gift.Access.Permissions.{
  PermissionCreate, PermissionUpdate, get_role_user, get_permissions_of_role, get_user_permissions,
  create_permission, update_permission, delete_permission,
}
use yourz_gift.Access.Roles.{
  RoleCreate, RoleUpdate, create_role, update_role, delete_role, assign_permissions,
  insert_permissions, replace_permissions, store_permissions,
}
use yourz_gift.Access.Navigation.{MenuUpdate, update_menu}
use yourz_gift.Access.Gate.{
  permission_keys, cached_keys, set_cached, load_keys, permission_middleware,
}
use yourz_gift.Access.Gate.Passing.{IsFresh}

-- The rows that a user's permissions are read from, and the cache, are the same.
pub record SameGrants {g : AccessGorm} (db db' : AccessDb g) : Type 0 where
  pub accounts : db'.accounts ≡ db.accounts
  pub role_permissions : db'.role_permissions ≡ db.role_permissions
  pub permissions : db'.permissions ≡ db.permissions
  pub cached : db'.cached ≡ db.cached

module _ {g : AccessGorm} where
  pub same_permissions :
      (u : String) (db db' : AccessDb g)
      → db'.accounts ≡ db.accounts
      → db'.role_permissions ≡ db.role_permissions
      → db'.permissions ≡ db.permissions
      → get_user_permissions u db' ≡ get_user_permissions u db
  unfolding get_user_permissions get_role_user get_permissions_of_role
  same_permissions u db db' a r p = rw a (rw r (rw p refl))

module _ {g : AccessGorm} (lib : TextLib) where
  pub SameGrants-IsFresh :
      (db db' : AccessDb g) → SameGrants db db' → IsFresh lib db → IsFresh lib db'
  SameGrants-IsFresh db db' same fresh u keys e =
      let (ps, r, k) = fresh u keys (ap (held u) (sym same.cached) ∙ e) in
      (ps, same_permissions u db db' same.accounts same.role_permissions same.permissions ∙ r, k)

  pub Settled-IsFresh :
      (i : Invalidator) (db db' : AccessDb g)
      → (db' ≡ db) ⊎ (db'.cached ≡ i.delete_all db.cached)
      → IsFresh lib db
      → IsFresh lib db' ⊎ (db'.cached ≡ i.delete_all db.cached)
  Settled-IsFresh i db db' (inl same) fresh = inl (subst (IsFresh lib) (sym same) fresh)
  Settled-IsFresh i db db' (inr cleared) fresh = inr cleared

  pub create_permission_settles :
      (i : Invalidator) (call : Call) (req : PermissionCreate) (db : AccessDb g)
      → ((create_permission (some i) lib call req db).1 ≡ db)
        ⊎ ((create_permission (some i) lib call req db).1.cached ≡ i.delete_all db.cached)
  unfolding create_permission invalidate_all
  create_permission_settles i call req db = ground arith

  pub update_permission_settles :
      (i : Invalidator) (call : Call) (id : String) (req : PermissionUpdate) (db : AccessDb g)
      → ((update_permission (some i) call id req db).1 ≡ db)
        ⊎ ((update_permission (some i) call id req db).1.cached ≡ i.delete_all db.cached)
  unfolding update_permission invalidate_all
  update_permission_settles i call id req db = ground arith

  pub delete_permission_settles :
      (i : Invalidator) (id : String) (db : AccessDb g)
      → ((delete_permission (some i) id db).1 ≡ db)
        ⊎ ((delete_permission (some i) id db).1.cached ≡ i.delete_all db.cached)
  unfolding delete_permission invalidate_all
  delete_permission_settles i id db = ground arith

  pub delete_role_settles :
      (i : Invalidator) (id : String) (db : AccessDb g)
      → ((delete_role (some i) id db).1 ≡ db)
        ⊎ ((delete_role (some i) id db).1.cached ≡ i.delete_all db.cached)
  unfolding delete_role invalidate_all
  delete_role_settles i id db = ground arith

  insert_permissions-cached :
      (role_id : String) (uuids : ℕ → String) (ids : List String) (db : AccessDb g)
      → (insert_permissions role_id uuids ids db).1.cached ≡ db.cached
  unfolding insert_permissions
  insert_permissions-cached role_id uuids [] db = refl
  insert_permissions-cached role_id uuids (id ∷ ids) db =
      elim (Attempt-cases (
        g.role_permissions.create
          (record { id = uuids 0; role_id = role_id; permission_id = id; created_at = 0 })
          db.role_permissions)) [
            | inr (x, e) ↦ ground arith
            | inl (t, e) ↦
                let rest =
                  insert_permissions-cached role_id (λ n. uuids (suc n)) ids
                    (record db { role_permissions = t }) in
                ground arith
          ]

  store_permissions-cached :
      (role_id : String) (uuids : ℕ → String) (ids : List String) (db : AccessDb g)
      → (store_permissions role_id uuids ids db).1.cached ≡ db.cached
  unfolding store_permissions in_transaction replace_permissions
  store_permissions-cached role_id uuids ids db =
      elim (Attempt-cases
        (g.role_permissions.delete (λ rp. rp.role_id == role_id) db.role_permissions)) [
          | inr (x, e) ↦ ground arith
          | inl (t, e) ↦
              let rest =
                insert_permissions-cached role_id uuids ids (record db { role_permissions = t }) in
              ground arith
        ]

  pub store_permissions-err :
      (role_id : String) (uuids : ℕ → String) (ids : List String) (db : AccessDb g) (x : Error)
      → (store_permissions role_id uuids ids db).0 ≡ err x
      → (store_permissions role_id uuids ids db).1 ≡ db
  unfolding store_permissions in_transaction
  store_permissions-err role_id uuids ids db x e = ground arith

  pub assign_permissions_settles :
      (i : Invalidator) (s : Scope) (uuids : ℕ → String) (role_id : String) (ids : List String)
      (db : AccessDb g)
      → ((assign_permissions (some i) lib s uuids role_id ids db).1 ≡ db)
        ⊎ ((assign_permissions (some i) lib s uuids role_id ids db).1.cached
            ≡ i.delete_all db.cached)
  unfolding assign_permissions invalidate_all
  assign_permissions_settles i s uuids role_id ids db =
      let kept = store_permissions-cached role_id uuids ids db in
      elim (Result-cases (store_permissions role_id uuids ids db).0) [
        | inl (v, e) ↦ ground arith
        | inr (x, e) ↦ let back = store_permissions-err role_id uuids ids db x e in ground arith
      ]

  pub create_role_grants :
      (call : Call) (req : RoleCreate) (db : AccessDb g)
      → SameGrants db (create_role lib call req db).1
  unfolding create_role
  create_role_grants call req db = ground arith

  pub update_role_grants :
      (call : Call) (id : String) (req : RoleUpdate) (db : AccessDb g)
      → SameGrants db (update_role call id req db).1
  unfolding update_role
  update_role_grants call id req db = ground arith

  pub update_menu_grants :
      (call : Call) (id : String) (req : MenuUpdate) (db : AccessDb g)
      → SameGrants db (update_menu call id req db).1
  unfolding update_menu
  update_menu_grants call id req db = ground arith

  set_cached-IsFresh :
      (up : Bool) (u : String) (ps : List Permission) (db : AccessDb g)
      → get_user_permissions u db ≡ ok ps
      → IsFresh lib db
      → IsFresh lib (record db { cached = set_cached up u (permission_keys lib ps) db.cached })
  unfolding held
  set_cached-IsFresh up u ps db found fresh u' keys e =
      let after = record db { cached = set_cached up u (permission_keys lib ps) db.cached } in
      let same = same_permissions u' db after refl refl refl in
      elim (Bool-cases (up && u == u')) [
        | inl t ↦
            let this : u' ≡ u = ground (arith, eq_iff u u') in
            (ps, same ∙ ap (λ v. get_user_permissions v db) this ∙ found, ground arith)
        | inr t ↦ let (qs, r, k) = fresh u' keys (ground arith) in (qs, same ∙ r, k)
      ]

  -- What the middleware caches is what it read.
  load_keys-IsFresh :
      (up : Bool) (u : String) (db : AccessDb g)
      → IsFresh lib db
      → IsFresh lib (load_keys lib up u db).1
  unfolding load_keys
  load_keys-IsFresh up u db fresh = elim (Option-cases (cached_keys up u db.cached)) [
    | inr (ks, c) ↦
        let e : (load_keys lib up u db).1 ≡ db = ground arith in subst (IsFresh lib) (sym e) fresh
    | inl c ↦ elim (Result-cases (get_user_permissions u db)) [
      | inr (x, r) ↦
          let e : (load_keys lib up u db).1 ≡ db = ground arith in subst (IsFresh lib) (sym e) fresh
      | inl (ps, r) ↦
          let e : (load_keys lib up u db).1
              ≡ record db { cached = set_cached up u (permission_keys lib ps) db.cached } =
            ground arith in
          subst (IsFresh lib) (sym e) (set_cached-IsFresh up u ps db r fresh)
    ]
  ]

  middleware_state :
      (up : Bool) (resource action : String) (now : Scope) (claims : Option Claims)
      (db : AccessDb g)
      → ((permission_middleware lib up resource action now claims db).1 ≡ db)
        ⊎ ((u : String) × ((permission_middleware lib up resource action now claims db).1
              ≡ (load_keys lib up u db).1))
  unfolding permission_middleware
  middleware_state up resource action now none db = inl refl
  middleware_state up resource action now (some c) db =
      elim (Bool-cases (
        trim_space lib c.role == ""
        || trim_space lib c.role == role_super_admin
        || trim_space lib c.user_id == "")) [
          | inl e ↦ inl (ground arith)
          | inr e ↦ inr (trim_space lib c.user_id, ground arith)
        ]

  pub middleware-IsFresh :
      (up : Bool) (resource action : String) (now : Scope) (claims : Option Claims)
      (db : AccessDb g)
      → IsFresh lib db
      → IsFresh lib (permission_middleware lib up resource action now claims db).1
  middleware-IsFresh up resource action now claims db fresh =
      elim (middleware_state up resource action now claims db) [
        | inl e ↦ subst (IsFresh lib) (sym e) fresh
        | inr (u, e) ↦ subst (IsFresh lib) (sym e) (load_keys-IsFresh up u db fresh)
      ]
