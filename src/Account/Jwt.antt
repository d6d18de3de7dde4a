-- ===== src/Account/Jwt.antt =====
-- utils/jwt.go: the claims of a token. golang-jwt, which signs them, is a parameter.
use yourz_gift.Base.{
  ℕ, ◌+◌, ◌*◌, String, Bool, false, Option, none, some, ltb, if◌then◌else◌, ◌==◌, message, Result,
  ok, err,
}
use yourz_gift.Domain.User.{Users}
use yourz_gift.Session.{hour}
use yourz_gift.Account.Text.{byte_length}

-- `id`, `expires_at` and `issued_at` are the registered claims.
pub record AppClaims : Type 0 where
  pub user_id : String
  pub username : String
  pub role : String
  pub token_type : String
  pub is_impersonated : Bool
  pub original_user_id : String
  pub original_username : String
  pub original_role : String
  pub id : String
  pub expires_at : ℕ
  pub issued_at : ℕ

-- JWT_KEY and JWT_EXP, and SignedString of an HS256 token.
pub record Signer : Type 0 where
  pub key : String
  pub hours : ℕ
  pub sign : (secret : String) → AppClaims → Result String

unfoldable pub jwt_secret : Signer → Result String
unfolding byte_length
jwt_secret j =
    if j.key == ""
    then err (message "jwt key is not configured")
    else if ltb (byte_length j.key) 32
    then err (message "jwt key must be at least 32 characters")
    else ok j.key

-- The claims of GenerateJwt.
abbrev pub access_claims : Signer → (now : ℕ) → Users → (log_id : String) → AppClaims
access_claims j now user log_id = record {
  user_id = user.id;
  username = user.name;
  role = user.role;
  token_type = "access";
  is_impersonated = false;
  original_user_id = "";
  original_username = "";
  original_role = "";
  id = log_id;
  expires_at = now + hour * j.hours;
  issued_at = now;
}

-- What an override changes of them.
abbrev pub override : Option AppClaims → AppClaims → AppClaims
override none c = c
override (some o) c = record c {
  token_type = if o.token_type == "" then c.token_type else o.token_type;
  is_impersonated = o.is_impersonated;
  original_user_id = o.original_user_id;
  original_username = o.original_username;
  original_role = o.original_role;
}

unfoldable pub generate_jwt_with_claims :
    Signer → (now : ℕ) → Users → (log_id : String) → Option AppClaims → Result String
unfolding jwt_secret
generate_jwt_with_claims j now user log_id claims_override = elim (jwt_secret j) [
  | err e ↦ err e
  | ok secret ↦ j.sign secret (override claims_override (access_claims j now user log_id))
]

unfoldable pub generate_jwt : Signer → (now : ℕ) → Users → (log_id : String) → Result String
unfolding generate_jwt_with_claims
generate_jwt j now user log_id = generate_jwt_with_claims j now user log_id none
