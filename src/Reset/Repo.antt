-- ===== src/Reset/Repo.antt =====
-- internal/repositories/reset/reset_repo.go: the keys of a token, and the two of an e-mail address.
use yourz_gift.Base.{ℕ, String, ◌≢◌, refl, ℤ, Result, ok, err, Exec}
use yourz_gift.Redis.{Redis, key, apart_at}
use yourz_gift.Otp.Repo.{counted, ttl_or_zero}

abbrev pub reset_token_key : String → String
reset_token_key hash = key "reset:token:" hash

abbrev pub reset_cooldown_key : String → String
reset_cooldown_key email = key "reset:cooldown:" email

abbrev pub reset_rate_key : String → String
reset_rate_key email = key "reset:rate:" email

pub token-cooldown : (a b : String) → reset_token_key a ≢ reset_cooldown_key b
token-cooldown a b = apart_at 6 _ _ refl

pub token-rate : (a b : String) → reset_token_key a ≢ reset_rate_key b
token-rate a b = apart_at 6 _ _ refl

module _ (r : Redis) where
  unfoldable pub set_token : (hash email : String) → ℕ → Exec r.Store (Unit {0})
  set_token hash email ttl = r.set (reset_token_key hash) email ttl

  unfoldable pub get_email_by_token : String → r.Store → Result String
  get_email_by_token hash s = r.get (reset_token_key hash) s

  unfoldable pub delete_token : String → Exec r.Store (Unit {0})
  delete_token hash = r.del (reset_token_key hash)

  unfoldable pub set_reset_cooldown : String → ℕ → Exec r.Store (Unit {0})
  set_reset_cooldown email ttl = r.set (reset_cooldown_key email) "1" ttl

  unfoldable pub get_reset_cooldown_ttl : String → r.Store → Result ℤ
  get_reset_cooldown_ttl email s = r.ttl (reset_cooldown_key email) s

  unfoldable pub clear_reset_cooldown : String → Exec r.Store (Unit {0})
  clear_reset_cooldown email = r.del (reset_cooldown_key email)

  unfoldable pub increment_reset_count : String → ℕ → Exec r.Store (ℕ × ℤ)
  unfolding counted
  increment_reset_count email ttl s =
      let (n, s') = counted r (reset_rate_key email) ttl s in
      elim n [
        | err e ↦ (err e, s')
        | ok count ↦ (ok (count, ttl_or_zero r (r.ttl (reset_rate_key email) s')), s')
      ]

  unfoldable pub clear_reset_count : String → Exec r.Store (Unit {0})
  clear_reset_count email = r.del (reset_rate_key email)
