-- ===== src/Limiter.antt =====
-- pkg/security/login_limiter.go: failed logins are counted for a while, and too many of them block.
pub mod Blocking
use yourz_gift.Base.{
  ℕ, String, Bool, true, false, not, ◌&&◌, ltb, leb, eqb, if◌then◌else◌, ℤ, pos, negsuc, Result, ok,
  err, Exec, redis_nil, pure, gets, ◌>>=◌, ◌>>◌,
}
use yourz_gift.Redis.{Redis, key}

-- The settings of a redisLoginLimiter; NewRedisLoginLimiter gives none where one is not positive.
pub record Limits : Type 0 where
  pub limit : ℕ
  pub window : ℕ
  pub block_duration : ℕ

abbrev pub attempt_key : String → String
attempt_key name = key "login_attempts:" name

abbrev pub block_key : String → String
block_key name = key "login_block:" name

abbrev ttl_or_zero : Result ℤ → ℤ
ttl_or_zero (ok t) = t
ttl_or_zero (err e) = pos 0

-- An error that is redis.Nil is none.
abbrev unless_nil : Result (Unit {0}) → Result (Unit {0})
unless_nil (err redis_nil) = ok tt
unless_nil x = x

module _ (r : Redis) where
  -- Whether the key is blocked, and for how long.
  unfoldable pub is_blocked : String → r.Store → Result (Bool × ℤ)
  is_blocked name s = elim (r.ttl (block_key name) s) [
    | err e ↦ err e
    | ok (pos n) ↦ ok (if ltb 0 n then (true, pos n) else (false, pos 0))
    | ok (negsuc n) ↦ ok (false, pos 0)
  ]

  -- The window of a new counter.
  unfoldable pub start_window : Limits → String → ℕ → Exec r.Store (Unit {0})
  start_window l name count s =
      if eqb count 1 then r.expire (attempt_key name) l.window s else (ok tt, s)

  -- The key is blocked, and the failures are forgotten; the error of DEL is dropped.
  unfoldable pub block : Limits → String → Exec r.Store (Bool × ℤ)
  block l name = do
    r.set (block_key name) "1" l.block_duration
    (λ s. (ok (true, pos l.block_duration), (r.del (attempt_key name) s).1))

  -- The block, from the limit-th failure on.
  unfoldable pub decide : Limits → String → ℕ → Exec r.Store (Bool × ℤ)
  unfolding block
  decide l name count s =
      if leb l.limit count
      then block l name s
      else (ok (false, ttl_or_zero (r.ttl (attempt_key name) s)), s)

  unfoldable pub register_failure : Limits → String → Exec r.Store (Bool × ℤ)
  unfolding start_window decide
  register_failure l name = do
    count ← r.incr (attempt_key name)
    start_window l name count
    decide l name count

  unfoldable pub reset : String → Exec r.Store (Unit {0})
  reset name = do
    (λ s. (unless_nil (r.del (attempt_key name) s).0, (r.del (attempt_key name) s).1))
    (λ s. (unless_nil (r.del (block_key name) s).0, (r.del (block_key name) s).1))
