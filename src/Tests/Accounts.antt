-- ===== src/Tests/Accounts.antt =====
-- Accounts on tables in memory. The hash of a password is the password itself here.
use yourz_gift.Base.{
  String, ◌≡◌, ◌≢◌, refl, ap, true, false, some, [], ◌∷◌, ok, err, message, ◌==◌, if◌then◌else◌,
  map,
}
use yourz_gift.Base.Text.{trim_space}
use yourz_gift.Repo.Columns.{validate_column_identifier, is_safe_column_identifier}
use yourz_gift.Domain.User.{Users}
use yourz_gift.Domain.Access.{role_super_admin}
use yourz_gift.Auth.{Scope, new_scope}
use yourz_gift.Access.{AccessDb}
use yourz_gift.Account.{Bcrypt}
use yourz_gift.Account.Text.{
  normalize_phone_to_62, validate_password_strength, resolve_login_identifier,
}
use yourz_gift.Account.Creating.{UserRegister, AdminCreateUser, register_user, admin_create_user}
use yourz_gift.Account.Changing.{UserUpdate, update_user}
use yourz_gift.Account.SuperAdmins.Rows.{super_admins}
use yourz_gift.Account.SuperAdmins.{super_admins_lem}
use yourz_gift.Tests.Access.{memory_access, office, forgets}
use yourz_gift.Tests.Sample.{ascii, ann, now_100, queries}

phone_run : normalize_phone_to_62 "0812-3456-7890" ≡ "6281234567890"
unfolding normalize_phone_to_62
phone_run = refl

plus_run : normalize_phone_to_62 "+62 812" ≡ "62812"
unfolding normalize_phone_to_62
plus_run = refl

weak_run :
    validate_password_strength "Abcdefg1"
    ≡ err (message "password must contain at least 1 symbol (!@#$%^&*...)")
unfolding validate_password_strength
weak_run = refl

strong_run : validate_password_strength "Abcdef1!" ≡ ok tt
unfolding validate_password_strength
strong_run = refl

name_run :
    resolve_login_identifier ascii
      (record { identifier = " "; email = "0812345678"; password = "" })
    ≡ ok "62812345678"
unfolding resolve_login_identifier
name_run = refl

abbrev plain_text : Bcrypt
plain_text = record {
  hash = λ bytes password. ok password;
  compare = λ hashed password. if hashed == password then ok tt else err (message "password");
}

abbrev root : Users
root = record ann { id = "root"; email = "root@x.org"; role = role_super_admin }

abbrev staffed : AccessDb memory_access
staffed = record office { accounts = record office.accounts { rows = ann ∷ root ∷ [] } }

abbrev assigner : Scope
assigner = new_scope ascii "ann" "Ann" "admin" ("users:assign_role" ∷ [])

abbrev zoe : UserRegister
zoe = record {
  name = "Zoe";
  email = "zoe@x.org";
  phone = "0812345678";
  password = "Abcdef1!";
  email_verified = true;
}

abbrev upstart : AdminCreateUser
upstart = record {
  name = "Max";
  email = "max@x.org";
  phone = "";
  password = "Abcdef1!";
  role = "superadmin";
}

abbrev promotion : UserUpdate
promotion = record { name = ""; email = ""; phone = ""; role = "superadmin"; avatar_url = "" }

admin-apart : assigner.role ≢ role_super_admin
unfolding new_scope trim_space
admin-apart e = let b : true ≡ false = ap (λ s. s == "admin") e in absurd (cc)

names-apart : ◌≢◌ {A = String} "root" "ann"
names-apart e = let b : true ≡ false = ap (λ s. s == "root") e in absurd (cc)

-- Neither a new super admin nor a promotion passes, and Zoe becomes a member.
super_admins_lem_example :
    (super_admins memory_access (register_user ascii plain_text now_100 zoe staffed).1.accounts
      ≡ super_admins memory_access staffed.accounts)
    × (super_admins memory_access
          (admin_create_user ascii plain_text now_100 assigner upstart staffed).1.accounts
        ≡ super_admins memory_access staffed.accounts)
    × (super_admins memory_access
          (update_user ascii (some forgets) assigner "ann" promotion staffed).1.accounts
        ≡ super_admins memory_access staffed.accounts)
super_admins_lem_example =
    super_admins_lem ascii plain_text now_100 (some forgets) assigner "ann" zoe upstart promotion
      staffed admin-apart ((names-apart, tt), (tt, tt))

register_run :
    map (λ u. u.role) (register_user ascii plain_text now_100 zoe staffed).1.accounts.rows
    ≡ "member" ∷ role_super_admin ∷ "member" ∷ []
unfolding queries register_user validate_column_identifier is_safe_column_identifier
register_run = refl
