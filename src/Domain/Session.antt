-- ===== src/Domain/Session.antt =====
-- internal/domain/session.
use yourz_gift.Base.{ℕ, String, Bool}

pub record Session : Type 0 where
  pub session_id : String
  pub user_id : String
  pub username : String
  pub email : String
  pub role : String
  pub access_token : String
  pub refresh_token : String
  pub device_info : String
  pub ip : String
  pub user_agent : String
  pub login_at : ℕ
  pub last_activity : ℕ
  pub expires_at : ℕ

pub record SessionInfo : Type 0 where
  pub session_id : String
  pub device_info : String
  pub ip : String
  pub login_at : ℕ
  pub last_activity : ℕ
  pub is_current_session : Bool

pub record RequestMeta : Type 0 where
  pub ip : String
  pub user_agent : String
  pub device_info : String
