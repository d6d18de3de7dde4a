-- ===== src/Access/Invalidation.antt =====
-- internal/cache/permission/cache.go and invalidator.go: taking permission keys out of Redis.
pub mod Clearing
use yourz_gift.Base.{
  ℕ, zero, suc, ◌<◌, String, ◌≡◌, ◌⊎◌, Bool, true, not, Option, some, none, List, [], ◌∷◌, ◌==◌,
  eqb, map, filter, if◌then◌else◌, Result, ok, err, Exec,
}
use yourz_gift.Base.Text.{TextLib, trim_space}
use yourz_gift.Repo.Columns.{contains}
use yourz_gift.Access.{Cache, held, Invalidator}

-- What the cache takes from github.com/redis/go-redis, for the keys "permission:user:" with a user id
-- behind it, which the id stands for: a parameter. A user id is `ahead` of a cursor where SCAN has
-- still to pass its key: of the cursor 0 each is, and SCAN, where it answers, either returns a key
-- that is there and ahead, or goes on to a cursor that it is ahead of. DEL writes nothing, and
-- where it answers takes out each key that it is given.
pub record CacheRedis : Type 0 where
  pub scan : (cursor : ℕ) → Cache → Result (List String × ℕ)
  pub del : List String → Exec Cache (Unit {0})
  pub ahead : (cursor : ℕ) → String → Bool
  pub ahead-first : (u : String) → ahead 0 u ≡ true
  pub scan-ahead :
      (cursor next : ℕ) (s : Cache) (ids keys : List String) (u : String)
      → scan cursor s ≡ ok (ids, next)
      → ahead cursor u ≡ true
      → held u s ≡ some keys
      → (contains ids u ≡ true) ⊎ ((0 < next) × (ahead next u ≡ true))
  pub del-held :
      (ids : List String) (s : Cache) (u : String)
      → (del ids s).0 ≡ ok tt
      → contains ids u ≡ true
      → held u (del ids s).1 ≡ none
  pub del-none :
      (ids : List String) (s : Cache) (u : String) → held u s ≡ none → held u (del ids s).1 ≡ none

module _ (client : CacheRedis) where
  -- DEL, if there are keys; its error is dropped.
  unfoldable pub delete_keys : List String → Cache → Cache
  delete_keys [] s = s
  delete_keys (id ∷ ids) s = (client.del (id ∷ ids) s).1

  -- The loop of DeleteAllUserPermissionKeys from a cursor; an error of SCAN ends it. Out of fuel, it
  -- stops where it is.
  unfoldable pub delete_all_user_permission_keys : (fuel cursor : ℕ) → Cache → Cache
  unfolding delete_keys
  delete_all_user_permission_keys zero cursor s = s
  delete_all_user_permission_keys (suc fuel) cursor s = elim (client.scan cursor s) [
    | err e ↦ s
    | ok (ids, next) ↦
        let rest = delete_all_user_permission_keys fuel next (delete_keys ids s) in
        if eqb next 0 then delete_keys ids s else rest
  ]

  unfoldable pub delete_user_permission_keys : TextLib → List String → Cache → Cache
  unfolding delete_keys trim_space
  delete_user_permission_keys lib user_ids =
      delete_keys (filter (λ id. not (id == "")) (map (trim_space lib) user_ids))

  -- redisInvalidator
  abbrev pub redis_invalidator : TextLib → (fuel : ℕ) → Invalidator
  redis_invalidator lib fuel = record {
    delete_user = delete_user_permission_keys lib;
    delete_all = delete_all_user_permission_keys fuel 0;
  }
