-- ===== src/Access/Gate/History.antt =====
-- The permission cache under the requests of internal/services/role, permission and menu and of
-- middlewares/auth.go.
use yourz_gift.Base.{
  ℕ, String, Bool, ◌<◌, Option, some, List, [], ◌∷◌, ◌≡◌, sym, ap, ◌∙◌, ◌⊎◌, inl, inr,
}
use yourz_gift.Base.Text.{TextLib}
use yourz_gift.Auth.{Scope, Claims}
use yourz_gift.Gift.{Call}
use yourz_gift.Access.{AccessGorm, AccessDb, Cache, held, Invalidator}
use yourz_gift.Access.Invalidation.{CacheRedis, delete_all_user_permission_keys, redis_invalidator}
use yourz_gift.Access.Invalidation.Clearing.{Answers, delete_all_lem}
use yourz_gift.Access.Permissions.{
  PermissionCreate, PermissionUpdate, create_permission, update_permission, delete_permission,
}
use yourz_gift.Access.Roles.{
  RoleCreate, RoleUpdate, create_role, update_role, delete_role, assign_permissions,
}
use yourz_gift.Access.Navigation.{MenuUpdate, update_menu}
use yourz_gift.Access.Gate.{permission_middleware}
use yourz_gift.Access.Gate.Passing.{IsFresh}
use yourz_gift.Access.Gate.Fresh.{
  SameGrants-IsFresh, Settled-IsFresh, create_permission_settles, update_permission_settles,
  delete_permission_settles, delete_role_settles, assign_permissions_settles, create_role_grants,
  update_role_grants, update_menu_grants, middleware-IsFresh,
}

-- The writing methods of the role, permission and menu services, and a check of the middleware, with
-- what they take from outside; `up` says whether Redis answers.
pub data AccessRequest : Type 0 where
  creates_permission : Call → PermissionCreate → AccessRequest
  updates_permission : Call → (id : String) → PermissionUpdate → AccessRequest
  deletes_permission : (id : String) → AccessRequest
  creates_role : Call → RoleCreate → AccessRequest
  updates_role : Call → (id : String) → RoleUpdate → AccessRequest
  deletes_role : (id : String) → AccessRequest
  assigns_permissions :
      Scope → (uuids : ℕ → String) (role_id : String) → List String → AccessRequest
  updates_menu : Call → (id : String) → MenuUpdate → AccessRequest
  is_checked : (up : Bool) (resource action : String) (now : Scope) → Option Claims → AccessRequest

module _ {g : AccessGorm} (lib : TextLib) (i : Invalidator) where
  -- The state after a request, whatever the answer.
  unfoldable pub handle : AccessRequest → AccessDb g → AccessDb g
  handle (creates_permission call req) db = (create_permission (some i) lib call req db).1
  handle (updates_permission call id req) db = (update_permission (some i) call id req db).1
  handle (deletes_permission id) db = (delete_permission (some i) id db).1
  handle (creates_role call req) db = (create_role lib call req db).1
  handle (updates_role call id req) db = (update_role call id req db).1
  handle (deletes_role id) db = (delete_role (some i) id db).1
  handle (assigns_permissions s uuids id ids) db =
      (assign_permissions (some i) lib s uuids id ids db).1
  handle (updates_menu call id req) db = (update_menu call id req db).1
  handle (is_checked up resource action now claims) db =
      (permission_middleware lib up resource action now claims db).1

  -- A request keeps a fresh cache fresh, or calls DeleteAll of the invalidator.
  handle-IsFresh :
      (request : AccessRequest) (db : AccessDb g)
      → IsFresh lib db
      → IsFresh lib (handle request db) ⊎ ((handle request db).cached ≡ i.delete_all db.cached)
  unfolding handle
  handle-IsFresh (creates_permission call req) db f =
      Settled-IsFresh lib i db _ (create_permission_settles lib i call req db) f
  handle-IsFresh (updates_permission call id req) db f =
      Settled-IsFresh lib i db _ (update_permission_settles lib i call id req db) f
  handle-IsFresh (deletes_permission id) db f =
      Settled-IsFresh lib i db _ (delete_permission_settles lib i id db) f
  handle-IsFresh (creates_role call req) db f =
      inl (SameGrants-IsFresh lib db _ (create_role_grants lib call req db) f)
  handle-IsFresh (updates_role call id req) db f =
      inl (SameGrants-IsFresh lib db _ (update_role_grants lib call id req db) f)
  handle-IsFresh (deletes_role id) db f =
      Settled-IsFresh lib i db _ (delete_role_settles lib i id db) f
  handle-IsFresh (assigns_permissions s uuids id ids) db f =
      Settled-IsFresh lib i db _ (assign_permissions_settles lib i s uuids id ids db) f
  handle-IsFresh (updates_menu call id req) db f =
      inl (SameGrants-IsFresh lib db _ (update_menu_grants lib call id req db) f)
  handle-IsFresh (is_checked up resource action now claims) db f =
      inl (middleware-IsFresh lib up resource action now claims db f)

  unfoldable pub handle_all : List AccessRequest → AccessDb g → AccessDb g
  unfolding handle
  handle_all [] db = db
  handle_all (r ∷ rs) db = handle_all rs (handle r db)

module _ {g : AccessGorm} (lib : TextLib) (client : CacheRedis) (left : ℕ → ℕ) (fuel : ℕ) where
  emptied-IsFresh :
      (s : Cache) (db : AccessDb g) (a : Answers client left)
      → left 0 < fuel
      → db.cached ≡ delete_all_user_permission_keys client fuel 0 s
      → IsFresh lib db
  emptied-IsFresh s db a enough e u keys h =
      let gone = delete_all_lem client left u fuel s a enough in
      let there : held u (delete_all_user_permission_keys client fuel 0 s) ≡ some keys =
        ap (held u) (sym e) ∙ h in
      absurd (cc)

  -- Where Redis answers SCAN and DEL, and the fuel is more than the rounds of a SCAN: a permission
  -- cache that agrees with the database agrees with it after any sequence of requests to the role,
  -- permission and menu services, with the invalidator over Redis, and of checks of the middleware,
  -- one after the other, whatever they answer.
  pub handle_all-IsFresh :
      (requests : List AccessRequest) (db : AccessDb g) (a : Answers client left)
      → left 0 < fuel
      → IsFresh lib db
      → IsFresh lib (handle_all lib (redis_invalidator client lib fuel) requests db)
  unfolding handle_all
  handle_all-IsFresh [] db a enough f = f
  handle_all-IsFresh (r ∷ rs) db a enough f =
      let next = handle lib (redis_invalidator client lib fuel) r db in
      let fresh : IsFresh lib next =
        elim (handle-IsFresh lib (redis_invalidator client lib fuel) r db f) [
          | inl kept ↦ kept
          | inr cleared ↦ emptied-IsFresh db.cached next a enough cleared
        ] in
      handle_all-IsFresh rs next a enough fresh
