-- ===== src/Account/Google.antt =====
-- internal/services/user/google.go: LoginWithGoogle.
use Prim.Native.Char.{code}
use yourz_gift.Base.{
  String, Bool, true, false, Option, none, some, ◌==◌, eqb, if◌then◌else◌, record_not_found,
  message, Result, ok, err, Exec, pure, gets, ◌>>=◌, ◌>>◌,
}
use yourz_gift.Base.Text.{TextLib, trim_space, sanitize_email}
use yourz_gift.Domain.User.{Users}
use yourz_gift.Repo.Generic.{store, update}
use yourz_gift.Gift.{Call}
use yourz_gift.Access.{AccessGorm, AccessDb}
use yourz_gift.Account.{role_member, Bcrypt, write_accounts, get_by_email, find_role_id_by_name}
use yourz_gift.Account.Creating.{LoginMetadata, required_role}

-- The parts of a token's information that LoginWithGoogle goes on with.
pub record GoogleIdentity : Type 0 where
  pub email : String
  pub name : String
  pub picture : String

-- The account of a Google login that was there before.
abbrev pub google_login : TextLib → Call → LoginMetadata → GoogleIdentity → Users → Users
google_login lib call meta identity user = record user {
  email_verified_at = some call.now;
  last_login_at = some call.now;
  last_login_ip = meta.ip;
  last_login_user_agent = meta.user_agent;
  login_provider = "google";
  avatar_url =
      if trim_space lib identity.picture == ""
      then user.avatar_url
      else trim_space lib identity.picture;
}

-- strings.Split(s, "@")[0]
unfoldable pub before_at : String → String
before_at String.[] = String.[]
before_at (String.◌∷◌ c s) =
    let rest = before_at s in if eqb (code c) 64 then String.[] else String.◌∷◌ c rest

-- The name of a new account of a Google login.
abbrev pub google_name : TextLib → GoogleIdentity → (email : String) → String
google_name lib identity email =
    if trim_space lib identity.name == "" then before_at email else trim_space lib identity.name

-- The account that a first Google login stores.
abbrev pub new_google_user :
    TextLib
    → Call
    → LoginMetadata
    → GoogleIdentity
    → (email password : String) (role_id : Option String) → Users
new_google_user lib call meta identity email password role_id = record {
  id = call.uuid;
  name = lib.title (google_name lib identity email);
  email = email;
  phone = "";
  password = password;
  role = role_member;
  role_id = role_id;
  email_verified_at = some call.now;
  phone_verified_at = none;
  last_login_at = some call.now;
  last_login_ip = meta.ip;
  last_login_user_agent = meta.user_agent;
  locked_until = none;
  password_changed_at = some call.now;
  login_provider = "google";
  avatar_url = trim_space lib identity.picture;
  created_at = call.now;
  updated_at = none;
  deleted_at = none;
}

module _ {g : AccessGorm} (lib : TextLib) (bcrypt : Bcrypt) (call : Call) where
  -- The rest of LoginWithGoogle, where no account has the address.
  unfoldable pub register_google :
      LoginMetadata
      → GoogleIdentity
      → (email password_seed : String) → Exec (AccessDb g) (Users × Bool)
  unfolding find_role_id_by_name store before_at trim_space
  register_google meta identity email password_seed = do
    role_id ← gets (λ s. required_role role_member (find_role_id_by_name lib role_member s))
    hashed ← gets (λ _. bcrypt.hash call.random password_seed)
    let user = new_google_user lib call meta identity email hashed (some role_id)
    write_accounts (store g.accounts user)
    pure (user, true)

  -- LoginWithGoogle, once the token is verified; the flag says whether the account is new.
  unfoldable pub login_with_google :
      Result GoogleIdentity
      → LoginMetadata
      → (allow_registration : Bool) (password_seed : String) → Exec (AccessDb g) (Users × Bool)
  unfolding sanitize_email get_by_email update register_google trim_space
  login_with_google (err e) meta allow password_seed s = (err e, s)
  login_with_google (ok identity) meta allow password_seed s =
      let email = sanitize_email lib identity.email in
      let registered : Result (Users × Bool) × AccessDb g =
        if allow
        then register_google meta identity email password_seed s
        else (err (message "public registration is currently disabled"), s) in
      let renewed : Users → Result (Users × Bool) × AccessDb g = λ user.
        (do
          write_accounts (update g.accounts (google_login lib call meta identity user))
          pure (google_login lib call meta identity user, false))
          s in
      if email == ""
      then (err (message "google account email is not available"), s)
      else elim (get_by_email lib email s) [
        | ok user ↦ if user.id == "" then registered else renewed user
        | err record_not_found ↦ registered
        | err e ↦ (err e, s)
      ]
