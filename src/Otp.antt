-- ===== src/Otp.antt =====
-- internal/services/otp: one-time passwords, on a Redis store.
pub mod Repo
pub mod Safety
pub mod Sending
use Prim.Native.Nat.{◌/◌, ◌%◌}
use Prim.Native.String
use yourz_gift.Base.{
  ℕ, zero, suc, ◌+◌, String, Bool, true, false, not, ◌&&◌, ◌||◌, Option, none, some, List, [], ◌∷◌,
  ◌==◌, ltb, leb, eqb, if◌then◌else◌, ℤ, pos, negsuc, Error, fault, otp_invalid,
  otp_too_many_attempt, otp_not_configured, otp_delivery_failed, throttled, redis_nil, Result, ok,
  err, Exec, pure, raise, gets, guard, ◌>>=◌, ◌>>◌,
}
use yourz_gift.Base.Text.{TextLib, sanitize_email, trim_space}
use yourz_gift.Utils.{char_at}
use yourz_gift.Redis.{Redis}
use yourz_gift.Otp.Repo.{
  set_otp, get_otp, delete_otp, increment_attempts, reset_attempts, set_cooldown, get_cooldown_ttl,
  clear_cooldown, increment_send_count, clear_send_count,
}

-- config.OTPConfig; a limit that is not positive is 0.
pub record OtpConfig : Type 0 where
  pub ttl : ℕ
  pub max_attempts : ℕ
  pub rate_limit : ℕ
  pub rate_window : ℕ
  pub cooldown : ℕ
  pub secret : String

pub record Mail : Type 0 where
  pub to_email : String
  pub code : String
  pub app_name : String

-- ServiceOTP, with what it takes from outside: the hexadecimal SHA-256 of a text, and the answer of
-- the mailer to a mail. `repo` and `sender` say that these are not nil.
pub record OtpService : Type 0 where
  pub repo : Bool
  pub sender : Bool
  pub config : OtpConfig
  pub sha256_hex : String → String
  pub deliver : Mail → Result (Unit {0})

-- The Redis store, and the mails that were sent, the latest first.
pub record World (r : Redis) : Type 0 where
  pub store : r.Store
  pub sent : List Mail

-- generateOTP: fmt.Sprintf("%06d", n) of a random n below 1,000,000, nothing where rand.Int fails.
unfoldable pub generate_otp : Option ℕ → Result String
generate_otp none = err (fault "generate otp")
generate_otp (some n) =
    let digit : ℕ → String = λ d. char_at "0123456789" (n / d % 10) in
    ok (
      String.◌++◌ (digit 100000) (
        String.◌++◌ (digit 10000)
          (String.◌++◌ (digit 1000) (String.◌++◌ (digit 100) (String.◌++◌ (digit 10) (digit 1))))))

abbrev pub is_positive : ℤ → Bool
is_positive (pos n) = ltb 0 n
is_positive (negsuc n) = false

-- `_ = op`: an error of op is dropped.
abbrev pub quietly {ℓ} : {S A : Type ℓ} → Exec S A → Exec S (Unit {ℓ})
quietly op s = (ok tt, (op s).1)

-- if err := op; err != nil { undo; return failed(err) }
unfoldable pub or_undo : {S A : Type 0} → Exec S A → Exec S (Unit {0}) → (Error → Error) → Exec S A
or_undo op undo failed s =
    let (a, s') = op s in elim a [ ok x ↦ (ok x, s') | err e ↦ (err (failed e), (undo s').1) ]

module _ (svc : OtpService) where
  unfoldable pub hash_otp : String → String
  hash_otp code = svc.sha256_hex (String.◌++◌ code svc.config.secret)

  -- ConstantTimeCompare is 1 on equal texts.
  unfoldable pub verify_otp : String → String → Bool
  unfolding hash_otp
  verify_otp code hashed = hash_otp code == hashed

-- GetOTP, with redis.Nil as ErrOTPInvalid
abbrev pub stored_otp : Result String → Result String
stored_otp (ok hashed) = ok hashed
stored_otp (err redis_nil) = err otp_invalid
stored_otp (err e) = err e

module _ {r : Redis} where
  -- A command on the store.
  abbrev pub redis : {A : Type 0} → Exec r.Store A → Exec (World r) A
  redis op w = ((op w.store).0, record w { store = (op w.store).1 })

  -- Sender.SendOTP
  unfoldable pub send_mail : OtpService → Mail → Exec (World r) (Unit {0})
  send_mail svc mail w = elim (svc.deliver mail) [
    | ok _ ↦ (ok tt, record w { sent = mail ∷ w.sent })
    | err e ↦ (err e, w)
  ]

  -- DeleteOTP and ResetAttempts, errors dropped
  unfoldable pub forget_code : String → Exec (World r) (Unit {0})
  unfolding delete_otp reset_attempts
  forget_code email = do
    quietly (redis (delete_otp r email))
    quietly (redis (reset_attempts r email))

  -- ClearCooldown and ClearSendCount, errors dropped
  unfoldable pub forget_limits : String → Exec (World r) (Unit {0})
  unfolding clear_cooldown clear_send_count
  forget_limits email = do
    quietly (redis (clear_cooldown r email))
    quietly (redis (clear_send_count r email))

  -- The check of the rate limit in SendRegisterOTP.
  unfoldable pub check_rate : OtpService → String → Exec (World r) (Unit {0})
  unfolding increment_send_count
  check_rate svc email w =
      let counted = (do
        (count, retry_after) ← redis (increment_send_count r email svc.config.rate_window)
        guard (leb count svc.config.rate_limit) (throttled "rate_limit" retry_after)) in
      if ltb 0 svc.config.rate_limit && ltb 0 svc.config.rate_window then counted w else (ok tt, w)

  -- The rest of SendRegisterOTP, once the code is made: it is stored as its hash and mailed.
  unfoldable pub deliver_code :
      OtpService → (address code app_name : String) → Exec (World r) (Unit {0})
  unfolding set_otp set_cooldown clear_send_count or_undo forget_code forget_limits send_mail
      hash_otp reset_attempts
  deliver_code svc address code app_name = do
    or_undo (redis (set_otp r address (hash_otp svc code) svc.config.ttl))
        (quietly (redis (clear_send_count r address))) (λ e. e)
    quietly (redis (reset_attempts r address))
    or_undo (redis (set_cooldown r address svc.config.cooldown))
        (do forget_code address; quietly (redis (clear_send_count r address))) (λ e. e)
    or_undo (send_mail svc (record { to_email = address; code = code; app_name = app_name }))
        (do forget_code address; forget_limits address) (λ _. otp_delivery_failed)

  -- The checks that SendRegisterOTP begins with.
  unfoldable pub check_send : OtpService → (address : String) → Exec (World r) (Unit {0})
  unfolding get_cooldown_ttl check_rate
  check_send svc address = do
    guard (svc.repo && svc.sender) otp_not_configured
    guard (not (address == "")) otp_invalid
    cooldown ← gets (λ w. get_cooldown_ttl r address w.store)
    guard (not (is_positive cooldown)) (throttled "cooldown" cooldown)
    check_rate svc address

  unfoldable pub send_register_otp :
      TextLib → OtpService → (draw : Option ℕ) (email app_name : String) → Exec (World r) (Unit {0})
  unfolding check_send generate_otp deliver_code
  send_register_otp lib svc draw email app_name = do
    check_send svc (sanitize_email lib email)
    code ← gets (λ _. generate_otp draw)
    deliver_code svc (sanitize_email lib email) code app_name

  -- The end of VerifyRegisterOTP, once the attempt is counted.
  unfoldable pub judge : OtpService → String → String → String → ℕ → Exec (World r) (Unit {0})
  unfolding verify_otp forget_code forget_limits
  judge svc address code hashed attempts w =
      let limited = ltb 0 svc.config.max_attempts in
      let drop_code : Result (Unit {0}) × World r =
        (err otp_too_many_attempt, (forget_code address w).1) in
      if limited && ltb svc.config.max_attempts attempts
      then drop_code
      else if not (verify_otp svc code hashed)
      then if limited && leb svc.config.max_attempts attempts
        then drop_code
        else (err otp_invalid, w)
      else (do forget_code address; forget_limits address) w

  unfoldable pub verify_register_otp :
      TextLib → OtpService → (email code : String) → Exec (World r) (Unit {0})
  unfolding get_otp increment_attempts judge
  verify_register_otp lib svc email code = do
    guard svc.repo otp_not_configured
    let address = sanitize_email lib email
    let clean_code = trim_space lib code
    guard (not (address == "" || clean_code == "")) otp_invalid
    hashed ← gets (λ w. stored_otp (get_otp r address w.store))
    attempts ← redis (increment_attempts r address svc.config.ttl)
    judge svc address clean_code hashed attempts
