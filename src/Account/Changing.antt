-- ===== src/Account/Changing.antt =====
-- internal/services/user/user_service.go: the changes of an account, and acting for another user.
use yourz_gift.Base.{
  ℕ, ◌-◌, String, true, false, not, ◌&&◌, Option, some, List, [], ◌∷◌, ◌==◌, if◌then◌else◌, map,
  filter, length, message, Result, ok, err, Exec, pure, gets, guard, ◌>>=◌, ◌>>◌,
}
use yourz_gift.Base.Text.{TextLib, trim_space, normalize_key, sanitize_email, strip_html}
use yourz_gift.Domain.User.{Users}
use yourz_gift.Domain.Access.{role_super_admin}
use yourz_gift.Repo.Generic.{
  BaseParams, QueryOptions, build_search_func, get_all, get_by_id, update, delete,
}
use yourz_gift.Auth.{Scope}
use yourz_gift.Gift.{Call}
use yourz_gift.Gift.Lists.{unless_empty}
use yourz_gift.Access.{AccessGorm, AccessDb, Invalidator}
use yourz_gift.Access.Permissions.{get_user_permissions}
use yourz_gift.Account.{
  Bcrypt, write_accounts, invalidate_users, get_by_email, find_role_id_by_name, can_assign_role,
}
use yourz_gift.Account.Text.{normalize_phone_to_62, validate_password_strength}
use yourz_gift.Account.Jwt.{AppClaims, Signer, generate_jwt, generate_jwt_with_claims}
use yourz_gift.Account.Creating.{required_role}

-- dto.UserUpdate
pub record UserUpdate : Type 0 where
  pub name : String
  pub email : String
  pub phone : String
  pub role : String
  pub avatar_url : String

pub record ChangePassword : Type 0 where
  pub current_password : String
  pub new_password : String

-- The account with the texts of the request.
abbrev pub with_texts : TextLib → UserUpdate → Users → Users
with_texts lib req user = record user {
  name = unless_empty req.name (lib.title (strip_html lib req.name)) user.name;
  phone = unless_empty req.phone (normalize_phone_to_62 req.phone) user.phone;
  email = unless_empty req.email (sanitize_email lib req.email) user.email;
  avatar_url = unless_empty req.avatar_url (trim_space lib req.avatar_url) user.avatar_url;
}

-- The account with a new password.
abbrev pub with_password : Call → (hashed : String) → Users → Users
with_password call hashed user = record user {
  password = hashed;
  password_changed_at = some call.now;
}

-- The accounts that a caller who is not the super admin gets to see, and how many there are.
abbrev pub shown_users : Scope → List Users × ℕ → List Users × ℕ
shown_users s (rows, total) = if s.role == role_super_admin then (rows, total) else (
  filter (λ u. not (u.role == role_super_admin)) rows,
  total - (length rows - length (filter (λ u. not (u.role == role_super_admin)) rows)),
)

-- The claims of an impersonation that override those of the account.
abbrev pub impersonation : Scope → AppClaims
impersonation scope = record {
  user_id = "";
  username = "";
  role = "";
  token_type = "";
  is_impersonated = true;
  original_user_id = scope.user_id;
  original_username = scope.username;
  original_role = scope.role;
  id = "";
  expires_at = 0;
  issued_at = 0;
}

module _ {g : AccessGorm} (lib : TextLib) where
  -- The names of the permissions that GetUserByAuth answers with; none where they cannot be read.
  unfoldable pub get_user_by_auth : String → AccessDb g → Result (Users × List String)
  unfolding get_by_id get_user_permissions
  get_user_by_auth id db = elim (get_by_id g.accounts id db.accounts) [
    | err e ↦ err e
    | ok user ↦ elim (get_user_permissions user.id db) [
      | err e ↦ ok (user, [])
      | ok ps ↦ ok (user, map (λ p. p.name) ps)
    ]
  ]

  -- The role that Update gives; the request's, or the one that the account has.
  unfoldable pub assigned : Scope → UserUpdate → Users → AccessDb g → Result Users
  unfolding can_assign_role find_role_id_by_name normalize_key trim_space
  assigned scope req user db =
      let role_name = normalize_key lib (trim_space lib req.role) in
      let given : Result Users = elim (can_assign_role lib scope db) [
        | err e ↦ err e
        | ok false ↦ err (message "access denied: missing permission users:assign_role")
        | ok true ↦
            if role_name == role_super_admin && not (scope.role == role_super_admin)
            then err (message "cannot assign superadmin role")
            else elim (required_role role_name (find_role_id_by_name lib role_name db)) [
              | err e ↦ err e
              | ok id ↦ ok (record user { role = role_name; role_id = some id })
            ]
      ] in
      if trim_space lib req.role == "" then ok user else given

  -- Update
  unfoldable pub update_user :
      Option Invalidator → Scope → String → UserUpdate → Exec (AccessDb g) Users
  unfolding get_by_id assigned update invalidate_users trim_space strip_html normalize_phone_to_62
      sanitize_email
  update_user cache scope id req = do
    old ← gets (λ s. get_by_id g.accounts id s.accounts)
    guard (not (old.role == role_super_admin && not (scope.role == role_super_admin)))
        (message "cannot modify superadmin users")
    user ← gets (assigned scope req (with_texts lib req old))
    write_accounts (update g.accounts user)
    (if trim_space lib req.role == "" then pure tt else invalidate_users cache (id ∷ []))
    pure user

  -- ForgotPassword: an address that is not there gives an empty token.
  unfoldable pub forgot_password : Signer → Call → (email : String) → AccessDb g → Result String
  unfolding get_by_email generate_jwt sanitize_email
  forgot_password signer call email db = elim (get_by_email lib (sanitize_email lib email) db) [
    | err e ↦ ok ""
    | ok user ↦ generate_jwt signer call.now user "reset_password"
  ]

  unfoldable pub impersonate_user :
      Signer → Call → Scope → (target_id log_id : String) → AccessDb g → Result String
  unfolding get_by_id generate_jwt_with_claims trim_space
  impersonate_user signer call scope target_id log_id db =
      let acted : Result String = elim (get_by_id g.accounts target_id db.accounts) [
        | err e ↦ err e
        | ok target ↦
            if target.role == role_super_admin && not (scope.role == role_super_admin)
            then err (message "cannot impersonate superadmin users")
            else generate_jwt_with_claims signer call.now target log_id (some (impersonation scope))
      ] in
      if scope.is_impersonated
      then err (message "cannot start nested impersonation")
      else if trim_space lib target_id == ""
      then err (message "target user id is required")
      else if target_id == scope.user_id
      then err (message "cannot impersonate your own account")
      else acted

  unfoldable pub stop_impersonation :
      Signer → Call → Scope → (log_id : String) → AccessDb g → Result String
  unfolding get_by_id generate_jwt trim_space
  stop_impersonation signer call scope log_id db =
      let back : Result String = elim (get_by_id g.accounts scope.original_user_id db.accounts) [
        | err e ↦ err e
        | ok user ↦ generate_jwt signer call.now user log_id
      ] in
      if trim_space lib scope.original_user_id == ""
      then err (message "original user id is required")
      else if scope.original_user_id == scope.user_id
      then err (message "current session is not impersonated")
      else back

-- The account of an address; a failure of the read is "user not found".
abbrev pub found_user : Result Users → Result Users
found_user (ok user) = ok user
found_user (err e) = err (message "user not found")

module _ {g : AccessGorm} (bcrypt : Bcrypt) (call : Call) where
  unfoldable pub change_password : String → ChangePassword → Exec (AccessDb g) Users
  unfolding validate_password_strength get_by_id update
  change_password id req = do
    guard (not (req.current_password == req.new_password))
        (message "new password must be different from current password")
    gets (λ _. validate_password_strength req.new_password)
    user ← gets (λ s. get_by_id g.accounts id s.accounts)
    gets (λ _. bcrypt.compare user.password req.current_password)
    hashed ← gets (λ _. bcrypt.hash call.random req.new_password)
    write_accounts (update g.accounts (with_password call hashed user))
    pure (with_password call hashed user)

  unfoldable pub reset_password_by_email :
      TextLib → (email new_password : String) → Exec (AccessDb g) (Unit {0})
  unfolding validate_password_strength get_by_email sanitize_email update
  reset_password_by_email lib email new_password = do
    gets (λ _. validate_password_strength new_password)
    user ← gets (λ s. found_user (get_by_email lib (sanitize_email lib email) s))
    hashed ← gets (λ _. bcrypt.hash call.random new_password)
    write_accounts (update g.accounts (with_password call hashed user))

-- Delete
unfoldable pub delete_user :
    {g : AccessGorm} → Option Invalidator → String → Exec (AccessDb g) (Unit {0})
unfolding delete invalidate_users
delete_user {g} cache id = do
  write_accounts (delete g.accounts id)
  invalidate_users cache (id ∷ [])

-- UserRepo.GetAll
abbrev pub user_options : TextLib → AccessGorm → QueryOptions Users
user_options lib g = record {
  base_query = λ _. true;
  search = λ s r. build_search_func lib g.accounts ("name" ∷ "email" ∷ "phone" ∷ []) s r;
  allowed_filters =
      "id" ∷ "name" ∷ "email" ∷ "phone" ∷ "role" ∷ "role_id" ∷ "created_at" ∷ "updated_at" ∷ [];
  sanitizer = λ v. v;
  allowed_order_columns =
      "name" ∷ "email" ∷ "phone" ∷ "role" ∷ "last_login_at" ∷ "login_provider" ∷ "created_at"
      ∷ "updated_at" ∷ [];
  default_orders = [];
}

unfoldable pub get_all_users :
    {g : AccessGorm} → TextLib → Scope → BaseParams → AccessDb g → Result (List Users × ℕ)
unfolding get_all
get_all_users {g} lib s params db =
    elim (get_all lib g.accounts (user_options lib g) params db.accounts) [
      | err e ↦ err e
      | ok page ↦ ok (shown_users s page)
    ]
