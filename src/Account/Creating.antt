-- ===== src/Account/Creating.antt =====
-- internal/services/user/user_service.go: RegisterUser, AdminCreateUser and LoginUser.
use yourz_gift.Base.{
  ℕ, String, Bool, true, not, ◌&&◌, ◌||◌, Option, none, some, ◌==◌, if◌then◌else◌, message, Result,
  ok, err, Exec, pure, gets, guard, ◌>>=◌, ◌>>◌,
}
use yourz_gift.Base.Text.{TextLib, normalize_key, sanitize_email, strip_html}
use yourz_gift.Domain.User.{Users}
use yourz_gift.Domain.Access.{role_super_admin}
use yourz_gift.Repo.Generic.{store, update}
use yourz_gift.Auth.{Scope}
use yourz_gift.Gift.{Call}
use yourz_gift.Session.{contains_text}
use yourz_gift.Access.{AccessGorm, AccessDb}
use yourz_gift.Access.Permissions.{found_id}
use yourz_gift.Account.{
  role_member, role_viewer, Bcrypt, write_accounts, get_by_email, get_by_phone,
  find_role_id_by_name, can_assign_role,
}
use yourz_gift.Account.Text.{
  normalize_phone_to_62, validate_password_strength, Login, resolve_login_identifier,
}
use yourz_gift.Account.Jwt.{Signer, generate_jwt}

-- dto.UserRegister, without the code and the token that the handler checks
pub record UserRegister : Type 0 where
  pub name : String
  pub email : String
  pub phone : String
  pub password : String
  pub email_verified : Bool

pub record AdminCreateUser : Type 0 where
  pub name : String
  pub email : String
  pub phone : String
  pub password : String
  pub role : String

pub record LoginMetadata : Type 0 where
  pub ip : String
  pub user_agent : String

-- The account that RegisterUser and AdminCreateUser store.
abbrev pub new_user :
    TextLib
    → Call
    → (name email phone password role : String) (role_id : Option String) (verified : Option ℕ)
    → Users
new_user lib call name email phone password role role_id verified = record {
  id = call.uuid;
  name = lib.title (strip_html lib name);
  email = email;
  phone = phone;
  password = password;
  role = role;
  role_id = role_id;
  email_verified_at = verified;
  phone_verified_at = none;
  last_login_at = none;
  last_login_ip = "";
  last_login_user_agent = "";
  locked_until = none;
  password_changed_at = some call.now;
  login_provider = "local";
  avatar_url = "";
  created_at = call.now;
  updated_at = none;
  deleted_at = none;
}

-- The account with the marks of a login.
abbrev pub logged_in : Call → LoginMetadata → Users → Users
logged_in call meta user = record user {
  last_login_at = some call.now;
  last_login_ip = meta.ip;
  last_login_user_agent = meta.user_agent;
  login_provider = if user.login_provider == "" then "local" else user.login_provider;
}

-- The id of a role that has to be there.
abbrev pub required_role : (role_name : String) → Option String → Result String
required_role role_name none = err (message "invalid role")
required_role role_name (some id) = ok id

module _ {g : AccessGorm} (lib : TextLib) (bcrypt : Bcrypt) (call : Call) where
  -- The checks that no other account has the address or the phone number, where they are asked for.
  unfoldable pub check_free :
      (email phone : String) (with_phone : Bool) → Exec (AccessDb g) (Unit {0})
  unfolding get_by_email get_by_phone
  check_free email phone with_phone = do
    by_email ← gets (λ s. ok (found_id (λ u. u.id) (get_by_email lib email s)))
    guard (by_email == "") (message "email already exists")
    by_phone ← gets (λ s. ok (found_id (λ u. u.id) (get_by_phone lib phone s)))
    guard (not with_phone || by_phone == "") (message "phone number already exists")

  unfoldable pub register_user : UserRegister → Exec (AccessDb g) Users
  unfolding check_free normalize_phone_to_62 sanitize_email validate_password_strength
      find_role_id_by_name store strip_html
  register_user req = do
    let phone = normalize_phone_to_62 req.phone
    let email = sanitize_email lib req.email
    check_free email phone true
    gets (λ _. validate_password_strength req.password)
    hashed ← gets (λ _. bcrypt.hash call.random req.password)
    role_id ← gets (λ s. ok (find_role_id_by_name lib role_member s))
    let user =
        new_user lib call req.name email phone hashed role_member role_id
          (if req.email_verified then some call.now else none)
    write_accounts (store g.accounts user)
    pure user

  -- The checks on the role of a new account.
  unfoldable pub check_new_role : Scope → (role_name : String) → AccessDb g → Result (Unit {0})
  unfolding can_assign_role
  check_new_role scope role_name db = elim (can_assign_role lib scope db) [
    | err e ↦ err e
    | ok can ↦
        if not (role_name == role_viewer) && not can
        then err (message "access denied: missing permission users:assign_role")
        else if role_name == role_super_admin && not (scope.role == role_super_admin)
        then err (message "only superadmin can create superadmin users")
        else ok tt
  ]

  unfoldable pub admin_create_user : Scope → AdminCreateUser → Exec (AccessDb g) Users
  unfolding check_free normalize_phone_to_62 sanitize_email validate_password_strength normalize_key
      check_new_role find_role_id_by_name store strip_html
  admin_create_user scope req = do
    let phone = normalize_phone_to_62 req.phone
    let email = sanitize_email lib req.email
    let role_name = normalize_key lib req.role
    check_free email phone (not (phone == ""))
    gets (λ _. validate_password_strength req.password)
    hashed ← gets (λ _. bcrypt.hash call.random req.password)
    gets (check_new_role scope role_name)
    role_id ← gets (λ s. required_role role_name (find_role_id_by_name lib role_name s))
    let user = new_user lib call req.name email phone hashed role_name (some role_id) none
    write_accounts (store g.accounts user)
    pure user

  unfoldable pub login_user :
      Signer → Login → (log_id : String) → LoginMetadata → Exec (AccessDb g) String
  unfolding resolve_login_identifier contains_text get_by_email get_by_phone update generate_jwt
  login_user signer req log_id meta = do
    name ← gets (λ _. resolve_login_identifier lib req)
    user ←
        gets
          (λ s. if contains_text "@" name then get_by_email lib name s else get_by_phone lib name s)
    gets (λ _. bcrypt.compare user.password req.password)
    write_accounts (update g.accounts (logged_in call meta user))
    gets (λ _. generate_jwt signer call.now (logged_in call meta user) log_id)
