-- ===== src/Account/SuperAdmins.antt =====
-- internal/services/user/user_service.go: who becomes a super admin, and who changes one.
pub mod Rows
use yourz_gift.Base.{
  String, ◌≡◌, ◌≢◌, refl, ap, ◌∙◌, Bool, true, false, not, ◌&&◌, Option, none, some, List, [], ◌∷◌,
  ◌++◌, ◌==◌, eq_iff, if◌then◌else◌, arith, filter, filter-append, append_nil, amend, All, All-map,
  any, ok, inl, inr, Bool-cases, Result-cases, Option-cases, gets, bind-keeps, guard-keeps, pure,
  message,
}
use yourz_gift.Base.Text.{TextLib, trim_space, normalize_key, sanitize_email}
use yourz_gift.Account.Text.{normalize_phone_to_62, validate_password_strength}
use yourz_gift.Base.Keys.{Distinct}
use yourz_gift.Db.{Attempt-cases, done, live, has_key, both}
use yourz_gift.Db.Laws.{first-any, first-only}
use yourz_gift.Domain.User.{Users, users}
use yourz_gift.Domain.Access.{role_super_admin}
use yourz_gift.Repo.Generic.{store, update, get_by_id}
use yourz_gift.Auth.{Scope}
use yourz_gift.Gift.{Call}
use yourz_gift.Access.{AccessGorm, AccessDb, Invalidator}
use yourz_gift.Account.{
  write_accounts, role_member, Bcrypt, invalidate_users, can_assign_role, find_role_id_by_name,
}
use yourz_gift.Account.Creating.{
  UserRegister, AdminCreateUser, new_user, check_new_role, required_role, check_free, register_user,
  admin_create_user,
}
use yourz_gift.Account.Changing.{UserUpdate, with_texts, assigned, update_user}
use yourz_gift.Account.SuperAdmins.Rows.{is_super_admin, super_admins, stored_keeps, saved_keeps}

module _ {g : AccessGorm} (lib : TextLib) (bcrypt : Bcrypt) (call : Call) (db : AccessDb g) where
  -- The role of a new account, where the caller is no super admin.
  checked_role :
      (scope : Scope) (name : String)
      → (scope.role == role_super_admin) ≡ false
      → check_new_role lib bcrypt call scope name db ≡ ok tt
      → (name == role_super_admin) ≡ false
  unfolding check_new_role
  checked_role scope name plain e = elim (Result-cases (can_assign_role lib scope db)) [
    | inr (x, f) ↦ absurd (ground arith)
    | inl (can, f) ↦ elim (Bool-cases (name == role_super_admin)) [
      | inr h ↦ h
      | inl h ↦ absurd (ground arith)
    ]
  ]

module _ {g : AccessGorm} (lib : TextLib) (bcrypt : Bcrypt) (call : Call) (db : AccessDb g) where
  abbrev Kept : AccessDb g → Type 0
  Kept s = super_admins g s.accounts ≡ super_admins g db.accounts

  check_free-state :
      (email phone : String) (with_phone : Bool)
      → (check_free lib bcrypt call email phone with_phone db).1 ≡ db
  unfolding check_free
  check_free-state email phone with_phone = ground arith

  register_keeps : (req : UserRegister) → Kept (register_user lib bcrypt call req db).1
  unfolding register_user
  register_keeps req =
      let phone = normalize_phone_to_62 req.phone in
      let email = sanitize_email lib req.email in
      let s = (check_free lib bcrypt call email phone true db).1 in
      let q : Kept s = ap (λ d. super_admins g d.accounts) (check_free-state email phone true) in
      bind-keeps Kept (check_free lib bcrypt call email phone true) _ db q (λ _ _.
        bind-keeps Kept (gets (λ _. validate_password_strength req.password)) _ s q (λ _ _.
          bind-keeps Kept (gets (λ _. bcrypt.hash call.random req.password)) _ s q (λ hashed _.
            let user =
              new_user lib call req.name email phone hashed role_member
                (find_role_id_by_name lib role_member s)
                (if req.email_verified then some call.now else none) in
            let kept : Kept (write_accounts (store g.accounts user) s).1 =
              stored_keeps g user s refl ∙ q in
            bind-keeps Kept (write_accounts (store g.accounts user)) _ s kept (λ _ _. kept))))

  admin_keeps :
      (scope : Scope) (req : AdminCreateUser)
      → (scope.role == role_super_admin) ≡ false
      → Kept (admin_create_user lib bcrypt call scope req db).1
  unfolding admin_create_user
  admin_keeps scope req plain =
      let name = normalize_key lib req.role in
      let phone = normalize_phone_to_62 req.phone in
      let email = sanitize_email lib req.email in
      let free = check_free-state email phone (not (phone == "")) in
      let s = (check_free lib bcrypt call email phone (not (phone == "")) db).1 in
      let q : Kept s = ap (λ d. super_admins g d.accounts) free in
      bind-keeps Kept (check_free lib bcrypt call email phone (not (phone == ""))) _ db q (λ _ _.
        bind-keeps Kept (gets (λ _. validate_password_strength req.password)) _ s q (λ _ _.
          bind-keeps Kept (gets (λ _. bcrypt.hash call.random req.password)) _ s q (λ hashed _.
            bind-keeps Kept (gets (check_new_role lib bcrypt call scope name)) _ s q (λ _ k.
              bind-keeps Kept (gets (λ d. required_role name (find_role_id_by_name lib name d))) _ s
                q
                (λ id _.
                  let user = new_user lib call req.name email phone hashed name (some id) none in
                  let kept : Kept (write_accounts (store g.accounts user) s).1 =
                    stored_keeps g user s (checked_role lib bcrypt call s scope name plain k) ∙ q in
                  bind-keeps Kept (write_accounts (store g.accounts user)) _ s kept
                    (λ _ _. kept))))))

  -- The account that Update saves is the one that was read, and no super admin's either.
  assigned_plain :
      (scope : Scope) (req : UserUpdate) (old user : Users)
      → (scope.role == role_super_admin) ≡ false
      → is_super_admin old ≡ false
      → assigned lib scope req old db ≡ ok user
      → (is_super_admin user ≡ false) × (user.id ≡ old.id)
  unfolding assigned
  assigned_plain scope req old user plain before e =
      let name = normalize_key lib (trim_space lib req.role) in
      elim (Bool-cases (trim_space lib req.role == "")) [
        | inl h ↦ (ground arith, ground arith)
        | inr h ↦ elim (Result-cases (can_assign_role lib scope db)) [
          | inr (x, f) ↦ absurd (ground arith)
          | inl (can, f) ↦ elim (Option-cases (find_role_id_by_name lib name db)) [
            | inl k ↦ absurd (ground arith)
            | inr (id, k) ↦ (ground arith, ground arith)
          ]
        ]
      ]

  invalidated-accounts :
      (cache : Option Invalidator) (ids : List String) (s : AccessDb g)
      → (invalidate_users cache ids s).1.accounts ≡ s.accounts
  unfolding invalidate_users
  invalidated-accounts none ids s = refl
  invalidated-accounts (some i) ids s = refl

  -- The step of Update that may empty the cache.
  after_role-accounts :
      (no_role : Bool) (cache : Option Invalidator) (ids : List String) (s : AccessDb g)
      → ((if no_role then pure tt else invalidate_users cache ids) s).1.accounts ≡ s.accounts
  after_role-accounts true cache ids s = refl
  after_role-accounts false cache ids s = invalidated-accounts cache ids s

  update_keeps :
      (cache : Option Invalidator) (scope : Scope) (id : String) (req : UserUpdate)
      → (scope.role == role_super_admin) ≡ false
      → Distinct users.key (g.accounts.contents db.accounts)
      → Kept (update_user lib cache scope id req db).1
  unfolding update_user
  update_keeps cache scope id req plain distinct =
      bind-keeps Kept (gets (λ d. get_by_id g.accounts id d.accounts)) _ db refl (λ old f.
        guard-keeps Kept
          (not (old.role == role_super_admin && not (scope.role == role_super_admin)))
          (message "cannot modify superadmin users") _ db refl
          (λ allowed.
            let before : is_super_admin old ≡ false = ground arith in
            bind-keeps Kept (gets (assigned lib scope req (with_texts lib req old))) _ db refl
              (λ user k.
                let (after, same) =
                  assigned_plain scope req (with_texts lib req old) user plain before k in
                let s = (write_accounts (update g.accounts user) db).1 in
                let kept : Kept s = saved_keeps g id old user db f before after same distinct in
                let kept' =
                  ap (super_admins g)
                    (after_role-accounts (trim_space lib req.role == "") cache (id ∷ []) s)
                  ∙ kept in
                bind-keeps Kept (write_accounts (update g.accounts user)) _ db kept (λ _ _.
                  bind-keeps Kept
                    (if trim_space lib req.role == ""
                      then pure tt
                      else invalidate_users cache (id ∷ []))
                    _ s kept' (λ _ _. kept')))))

-- A caller who is no super admin makes no super admin and changes none: the rows of the super admins stay
-- the same under RegisterUser, AdminCreateUser and Update, whatever these answer, where no two accounts
-- have the same id.
pub super_admins_lem :
    {g : AccessGorm} (lib : TextLib) (bcrypt : Bcrypt) (call : Call) (cache : Option Invalidator)
    (scope : Scope) (id : String) (new : UserRegister) (made : AdminCreateUser)
    (changed : UserUpdate) (db : AccessDb g)
    → scope.role ≢ role_super_admin
    → Distinct users.key (g.accounts.contents db.accounts)
    → (super_admins g (register_user lib bcrypt call new db).1.accounts
        ≡ super_admins g db.accounts)
      × (super_admins g (admin_create_user lib bcrypt call scope made db).1.accounts
          ≡ super_admins g db.accounts)
      × (super_admins g (update_user lib cache scope id changed db).1.accounts
          ≡ super_admins g db.accounts)
super_admins_lem lib bcrypt call cache scope id new made changed db other distinct = (
  register_keeps lib bcrypt call db new,
  admin_keeps lib bcrypt call db scope made plain,
  update_keeps lib bcrypt call db cache scope id changed plain distinct,
)
  where
    plain : (scope.role == role_super_admin) ≡ false
    plain = elim (Bool-cases (scope.role == role_super_admin)) [
      | inr h ↦ h
      | inl h ↦ absurd (other ((eq_iff scope.role role_super_admin).0 h))
    ]
