-- ===== src/Account/Tokens.antt =====
-- internal/services/user/user_service.go: LogoutUser and ResetPassword, over
-- internal/repositories/auth/blacklist.go; the reading of a token in utils/jwt.go.
use yourz_gift.Base.{
  ℕ, ◌*◌, String, Bool, true, not, leb, Option, none, some, ◌==◌, if◌then◌else◌, message, fault,
  Result, ok, err, Exec, gets, guard, ◌>>=◌, ◌>>◌,
}
use yourz_gift.Base.Text.{TextLib}
use yourz_gift.Db.{Driver, to_result}
use yourz_gift.Domain.Auth.{Blacklist, blacklist}
use yourz_gift.Domain.Gift.{is_set}
use yourz_gift.Repo.Generic.{store, get_by_id, update, exists_by_field, writes}
use yourz_gift.Gift.{Call}
use yourz_gift.Access.{AccessGorm, AccessDb}
use yourz_gift.Account.{Bcrypt, write_accounts}
use yourz_gift.Account.Text.{validate_password_strength}
use yourz_gift.Account.Jwt.{Signer, jwt_secret}
use yourz_gift.Account.Changing.{with_password, found_user}

-- The claims that are read of a token: a user id that is a text, and the time of its end in seconds.
pub record ReadClaims : Type 0 where
  pub user_id : Option String
  pub exp : Option ℕ

-- jwt.Parse of a token with a secret, which checks the signature and the times.
abbrev pub Reader : Type 0
Reader = (secret token : String) → Result ReadClaims

-- The accounts and what goes with them, and the tokens that are logged out.
pub record TokenDb (g : AccessGorm) (b : Driver Blacklist blacklist) : Type 0 where
  pub access : AccessDb g
  pub tokens : b.Table

unfoldable pub jwt_claim : Signer → Reader → (token : String) → Result ReadClaims
unfolding jwt_secret
jwt_claim j parse token =
    let read : Result ReadClaims = elim (jwt_secret j) [
      | err e ↦ err e
      | ok secret ↦ parse secret token
    ] in
    if token == "" then err (message "empty token") else read

-- A token that cannot be read is invalid.
abbrev pub or_invalid : Result ReadClaims → Result ReadClaims
or_invalid (ok c) = ok c
or_invalid (err e) = err (message "invalid or expired token")

-- The instant of the end of a token.
abbrev pub end_of : ReadClaims → Result ℕ
end_of c = elim c.exp [
  | none ↦ err (message "token expiry is required")
  | some seconds ↦ ok (seconds * 1000000000)
]

unfoldable pub jwt_expires_at : Signer → Reader → (token : String) → Result ℕ
unfolding jwt_claim
jwt_expires_at j parse token = elim (or_invalid (jwt_claim j parse token)) [
  | err e ↦ err e
  | ok c ↦ end_of c
]

-- claims["user_id"].(string), which panics where there is none
abbrev pub claimed_user : ReadClaims → Result String
claimed_user c = elim c.user_id [ none ↦ err (fault "user_id") | some id ↦ ok id ]

-- Whether a row has ended.
abbrev pub has_ended : ℕ → Blacklist → Bool
has_ended now r = elim r.expires_at [ none ↦ true | some t ↦ leb t now ]

module _ {g : AccessGorm} {b : Driver Blacklist blacklist} where
  abbrev pub write_tokens : (b.Table → Result b.Table) → Exec (TokenDb g b) (Unit {0})
  write_tokens = writes (λ s. s.tokens) (λ t s. record s { tokens = t })

  -- An operation on the accounts.
  abbrev pub on_accounts : {A : Type 0} → Exec (AccessDb g) A → Exec (TokenDb g b) A
  on_accounts op s = ((op s.access).0, record s { access = (op s.access).1 })

  -- DeleteExpired
  unfoldable pub delete_expired : (now : ℕ) → Exec (TokenDb g b) (Unit {0})
  delete_expired now = write_tokens (λ t. to_result (b.delete (has_ended now) t))

  -- Store of the repository
  unfoldable pub store_token : (now : ℕ) → Blacklist → Exec (TokenDb g b) (Unit {0})
  unfolding delete_expired store
  store_token now r = do
    guard (is_set r.expires_at) (message "blacklist expiry is required")
    delete_expired now
    write_tokens (store b r)

  unfoldable pub exists_by_token : TextLib → (token : String) → TokenDb g b → Result Bool
  unfolding exists_by_field
  exists_by_token lib token s = exists_by_field lib b "token" token s.tokens

  -- LogoutUser
  unfoldable pub logout_user :
      Signer → Reader → Call → (token : String) → Exec (TokenDb g b) (Unit {0})
  unfolding jwt_expires_at store_token
  logout_user j parse call token = do
    expires_at ← gets (λ _. jwt_expires_at j parse token)
    store_token call.now (record {
      id = call.uuid;
      token = token;
      created_at = call.now;
      expires_at = some expires_at;
    })

  -- ResetPassword
  unfoldable pub reset_password :
      TextLib
      → Bcrypt
      → Signer
      → Reader
      → Call
      → (token new_password : String) → Exec (TokenDb g b) (Unit {0})
  unfolding validate_password_strength jwt_claim exists_by_token get_by_id logout_user update
  reset_password lib bcrypt j parse call token new_password = do
    gets (λ _. validate_password_strength new_password)
    claims ← gets (λ _. or_invalid (jwt_claim j parse token))
    is_used ← gets (exists_by_token lib token)
    guard (not is_used) (message "invalid or expired token")
    id ← gets (λ _. claimed_user claims)
    user ← gets (λ s. found_user (get_by_id g.accounts id s.access.accounts))
    hashed ← gets (λ _. bcrypt.hash call.random new_password)
    logout_user j parse call token
    on_accounts (write_accounts (update g.accounts (with_password call hashed user)))
