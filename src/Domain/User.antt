-- ===== src/Domain/User.antt =====
-- internal/domain/user/entity.go. Metadata, a JSON object that the services only create empty, is
-- left out.
use yourz_gift.Base.{ℕ, String, true, ◌||◌, Option, none, some, ◌==◌, if◌then◌else◌}
use yourz_gift.Db.{Model}
use yourz_gift.Domain.Gift.{is_set, or_now}

pub record Users : Type 0 where
  pub id : String
  pub name : String
  pub email : String
  pub phone : String
  pub password : String
  pub role : String
  pub role_id : Option String
  pub email_verified_at : Option ℕ
  pub phone_verified_at : Option ℕ
  pub last_login_at : Option ℕ
  pub last_login_ip : String
  pub last_login_user_agent : String
  pub locked_until : Option ℕ
  pub password_changed_at : Option ℕ
  pub login_provider : String
  pub avatar_url : String
  pub created_at : ℕ
  pub updated_at : Option ℕ
  pub deleted_at : Option ℕ

abbrev pub users : Model Users
users = record {
  key = λ r. r.id;
  has_column = λ c.
      c == "id" || c == "name" || c == "email" || c == "phone" || c == "role" || c == "role_id";
  column = λ c r.
      if c == "email"
      then r.email
      else if c == "phone"
      then r.phone
      else if c == "name"
      then r.name
      else if c == "role"
      then r.role
      else if c == "role_id"
      then elim r.role_id [ none ↦ "" | some id ↦ id ]
      else r.id;
  soft_delete = true;
  is_deleted = λ r. is_set r.deleted_at;
  mark_deleted = λ now r. record r { deleted_at = some now };
  stamp = λ now r. record r { updated_at = or_now now r.updated_at };
  touch = λ now r. record r { updated_at = some now };
}
