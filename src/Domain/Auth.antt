-- ===== src/Domain/Auth.antt =====
-- internal/domain/auth/entity.go: the tokens that are logged out. The rows are not deleted softly;
-- an end that is not set is none.
use yourz_gift.Base.{ℕ, String, Option, false, ◌||◌, ◌==◌, if◌then◌else◌}
use yourz_gift.Db.{Model}

pub record Blacklist : Type 0 where
  pub id : String
  pub token : String
  pub created_at : ℕ
  pub expires_at : Option ℕ

abbrev pub blacklist : Model Blacklist
blacklist = record {
  key = λ r. r.id;
  has_column = λ c. c == "id" || c == "token";
  column = λ c r. if c == "token" then r.token else r.id;
  soft_delete = false;
  is_deleted = λ r. false;
  mark_deleted = λ now r. r;
  stamp = λ now r. r;
  touch = λ now r. r;
}
