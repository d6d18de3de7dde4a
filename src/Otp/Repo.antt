-- ===== src/Otp/Repo.antt =====
-- internal/repositories/otp/otp_repo.go: the four kinds of keys of an e-mail address.
use yourz_gift.Base.{
  ℕ, String, ◌≢◌, refl, ◌&&◌, ltb, eqb, if◌then◌else◌, ℤ, pos, Result, ok, err, Exec,
}
use yourz_gift.Redis.{Redis, key, apart_at}

abbrev pub otp_register_key : String → String
otp_register_key email = key "otp:register:" email

abbrev pub otp_attempt_key : String → String
otp_attempt_key email = key "otp:attempt:" email

abbrev pub otp_cooldown_key : String → String
otp_cooldown_key email = key "otp:cooldown:" email

abbrev pub otp_rate_key : String → String
otp_rate_key email = key "otp:rate:" email

pub register-attempt : (a b : String) → otp_register_key a ≢ otp_attempt_key b
register-attempt a b = apart_at 4 _ _ refl

pub register-cooldown : (a b : String) → otp_register_key a ≢ otp_cooldown_key b
register-cooldown a b = apart_at 4 _ _ refl

pub register-rate : (a b : String) → otp_register_key a ≢ otp_rate_key b
register-rate a b = apart_at 5 _ _ refl

attempt-register : (a b : String) → otp_attempt_key a ≢ otp_register_key b
attempt-register a b = apart_at 4 _ _ refl

module _ (r : Redis) where
  unfoldable pub set_otp : String → String → ℕ → Exec r.Store (Unit {0})
  set_otp email hashed ttl = r.set (otp_register_key email) hashed ttl

  unfoldable pub get_otp : String → r.Store → Result String
  get_otp email s = r.get (otp_register_key email) s

  unfoldable pub delete_otp : String → Exec r.Store (Unit {0})
  delete_otp email = r.del (otp_register_key email)

  -- A new counter gets an expiry time; the error of EXPIRE is dropped.
  unfoldable pub counted : String → ℕ → Exec r.Store ℕ
  counted k ttl s =
      let (n, s') = r.incr k s in
      elim n [
        | err e ↦ (err e, s')
        | ok count ↦ (ok count, if eqb count 1 && ltb 0 ttl then (r.expire k ttl s').1 else s')
      ]

  unfoldable pub increment_attempts : String → ℕ → Exec r.Store ℕ
  unfolding counted
  increment_attempts email ttl = counted (otp_attempt_key email) ttl

  unfoldable pub reset_attempts : String → Exec r.Store (Unit {0})
  reset_attempts email = r.del (otp_attempt_key email)

  unfoldable pub set_cooldown : String → ℕ → Exec r.Store (Unit {0})
  set_cooldown email ttl = r.set (otp_cooldown_key email) "1" ttl

  unfoldable pub get_cooldown_ttl : String → r.Store → Result ℤ
  get_cooldown_ttl email s = r.ttl (otp_cooldown_key email) s

  unfoldable pub clear_cooldown : String → Exec r.Store (Unit {0})
  clear_cooldown email = r.del (otp_cooldown_key email)

  -- The time that TTL gives, 0 beside an error.
  abbrev pub ttl_or_zero : Result ℤ → ℤ
  ttl_or_zero (ok t) = t
  ttl_or_zero (err e) = pos 0

  unfoldable pub increment_send_count : String → ℕ → Exec r.Store (ℕ × ℤ)
  unfolding counted
  increment_send_count email ttl s =
      let (n, s') = counted (otp_rate_key email) ttl s in
      elim n [
        | err e ↦ (err e, s')
        | ok count ↦ (ok (count, ttl_or_zero (r.ttl (otp_rate_key email) s')), s')
      ]

  unfoldable pub clear_send_count : String → Exec r.Store (Unit {0})
  clear_send_count email = r.del (otp_rate_key email)
