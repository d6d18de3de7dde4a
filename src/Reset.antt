-- ===== src/Reset.antt =====
-- internal/services/reset: password resets by a token that is mailed, on a Redis store.
pub mod Repo
pub mod Tokens
use Prim.Native.String
use yourz_gift.Base.{
  ℕ, zero, suc, String, Bool, true, false, not, ◌&&◌, Option, none, some, List, ◌∷◌, ◌==◌, ltb, leb,
  if◌then◌else◌, Error, fault, throttled, redis_nil, reset_invalid, reset_not_configured,
  reset_delivery_failed, Result, ok, err, Exec, pure, gets, guard, ◌>>=◌, ◌>>◌,
}
use yourz_gift.Base.Text.{TextLib, sanitize_email, trim_space}
use yourz_gift.Redis.{Redis}
use yourz_gift.Otp.{is_positive, quietly, or_undo}
use yourz_gift.Session.{is_prefix, contains_text}
use yourz_gift.Reset.Repo.{
  set_token, get_email_by_token, delete_token, set_reset_cooldown, get_reset_cooldown_ttl,
  clear_reset_cooldown, increment_reset_count, clear_reset_count,
}

-- config.PasswordResetConfig; a limit that is not positive is 0.
pub record PasswordResetConfig : Type 0 where
  pub ttl : ℕ
  pub cooldown : ℕ
  pub rate_window : ℕ
  pub rate_limit : ℕ
  pub secret : String
  pub url_template : String

-- What PasswordResetSender.SendPasswordReset is given.
pub record ResetMail : Type 0 where
  pub to_email : String
  pub token : String
  pub app_name : String
  pub reset_url : String
  pub ttl : ℕ

-- ServiceReset, with what it takes from outside: the hexadecimal SHA-256 of a text, the unpadded
-- base64 of bytes for URLs, and the answer of the mailer to a mail. `repo` and `sender` say that these
-- are not nil.
pub record ResetService : Type 0 where
  pub repo : Bool
  pub sender : Bool
  pub config : PasswordResetConfig
  pub sha256_hex : String → String
  pub base64_url : List ℕ → String
  pub send_password_reset : ResetMail → Result (Unit {0})

-- The Redis store, and the mails that were sent, the latest first.
pub record ResetWorld (r : Redis) : Type 0 where
  pub store : r.Store
  pub sent : List ResetMail

-- strings.ReplaceAll(template, "{token}", token); the number counts the characters of a placeholder
-- that are still to be left out.
unfoldable pub replace_token : (token : String) → ℕ → String → String
replace_token token n String.[] = String.[]
replace_token token (suc n) (String.◌∷◌ c s) = replace_token token n s
replace_token token zero (String.◌∷◌ c s) =
    let replaced = String.◌++◌ token (replace_token token 6 s) in
    let kept = String.◌∷◌ c (replace_token token 0 s) in
    if is_prefix "{token}" (String.◌∷◌ c s) then replaced else kept

unfoldable pub build_reset_url : TextLib → (template token : String) → String
unfolding trim_space contains_text replace_token
build_reset_url lib template token =
    let clean = trim_space lib template in
    if clean == ""
    then ""
    else if contains_text "{token}" clean
    then replace_token token 0 clean
    else if contains_text "?" clean
    then String.◌++◌ clean (String.◌++◌ "&token=" token)
    else String.◌++◌ clean (String.◌++◌ "?token=" token)

module _ (svc : ResetService) where
  -- generateResetToken, of 32 random bytes; nothing where rand.Read fails
  unfoldable pub generate_reset_token : Option (List ℕ) → Result String
  generate_reset_token none = err (fault "generate token")
  generate_reset_token (some bytes) = ok (svc.base64_url bytes)

  unfoldable pub hash_token : String → String
  hash_token token = svc.sha256_hex (String.◌++◌ token svc.config.secret)

-- The mail that carries the token.
abbrev pub reset_mail : TextLib → ResetService → (address token app_name : String) → ResetMail
reset_mail lib svc address token app_name = record {
  to_email = address;
  token = token;
  app_name = app_name;
  reset_url = build_reset_url lib svc.config.url_template token;
  ttl = svc.config.ttl;
}

-- GetEmailByToken, with redis.Nil as ErrResetInvalid
abbrev pub stored_email : Result String → Result String
stored_email (ok email) = ok email
stored_email (err redis_nil) = err reset_invalid
stored_email (err e) = err e

module _ {r : Redis} where
  -- A command on the store.
  abbrev pub on_store : {A : Type 0} → Exec r.Store A → Exec (ResetWorld r) A
  on_store op w = ((op w.store).0, record w { store = (op w.store).1 })

  unfoldable pub send_reset_mail : ResetService → ResetMail → Exec (ResetWorld r) (Unit {0})
  send_reset_mail svc mail w = elim (svc.send_password_reset mail) [
    | ok _ ↦ (ok tt, record w { sent = mail ∷ w.sent })
    | err e ↦ (err e, w)
  ]

  -- The check of the rate limit in RequestReset.
  unfoldable pub check_reset_rate : ResetService → String → Exec (ResetWorld r) (Unit {0})
  unfolding increment_reset_count
  check_reset_rate svc email w =
      let counted = (do
        (count, retry_after) ← on_store (increment_reset_count r email svc.config.rate_window)
        guard (leb count svc.config.rate_limit) (throttled "rate_limit" retry_after)) in
      if ltb 0 svc.config.rate_limit && ltb 0 svc.config.rate_window then counted w else (ok tt, w)

  -- The checks that RequestReset begins with.
  unfoldable pub check_request : ResetService → (address : String) → Exec (ResetWorld r) (Unit {0})
  unfolding get_reset_cooldown_ttl check_reset_rate
  check_request svc address = do
    guard (svc.repo && svc.sender) reset_not_configured
    guard (not (address == "")) reset_invalid
    cooldown ← gets (λ w. get_reset_cooldown_ttl r address w.store)
    guard (not (is_positive cooldown)) (throttled "cooldown" cooldown)
    check_reset_rate svc address

  -- The rest of RequestReset, once the token is made: its hash is stored, and it is mailed.
  unfoldable pub deliver_token :
      TextLib → ResetService → (address token app_name : String) → Exec (ResetWorld r) (Unit {0})
  unfolding set_token set_reset_cooldown delete_token clear_reset_cooldown clear_reset_count or_undo
      send_reset_mail hash_token build_reset_url
  deliver_token lib svc address token app_name = do
    or_undo (on_store (set_token r (hash_token svc token) address svc.config.ttl))
        (quietly (on_store (clear_reset_count r address))) (λ e. e)
    or_undo (on_store (set_reset_cooldown r address svc.config.cooldown))
        (do
          quietly (on_store (delete_token r (hash_token svc token)))
          quietly (on_store (clear_reset_count r address)))
        (λ e. e)
    or_undo (send_reset_mail svc (reset_mail lib svc address token app_name))
        (do
          quietly (on_store (delete_token r (hash_token svc token)))
          quietly (on_store (clear_reset_cooldown r address))
          quietly (on_store (clear_reset_count r address)))
        (λ _. reset_delivery_failed)

  unfoldable pub request_reset :
      TextLib
      → ResetService
      → (draw : Option (List ℕ)) (email app_name : String) → Exec (ResetWorld r) (Unit {0})
  unfolding check_request generate_reset_token deliver_token
  request_reset lib svc draw email app_name = do
    check_request svc (sanitize_email lib email)
    token ← gets (λ _. generate_reset_token svc draw)
    deliver_token lib svc (sanitize_email lib email) token app_name

  -- What VerifyReset removes, errors dropped.
  unfoldable pub forget_token : (hash email : String) → Exec (ResetWorld r) (Unit {0})
  unfolding delete_token clear_reset_cooldown clear_reset_count
  forget_token hash email = do
    quietly (on_store (delete_token r hash))
    quietly (on_store (clear_reset_cooldown r email))
    quietly (on_store (clear_reset_count r email))

  unfoldable pub verify_reset :
      TextLib → ResetService → (token : String) → Exec (ResetWorld r) String
  unfolding hash_token get_email_by_token forget_token
  verify_reset lib svc token = do
    guard svc.repo reset_not_configured
    let clean = trim_space lib token
    guard (not (clean == "")) reset_invalid
    email ← gets (λ w. stored_email (get_email_by_token r (hash_token svc clean) w.store))
    forget_token (hash_token svc clean) email
    pure email
