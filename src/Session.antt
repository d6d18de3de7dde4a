-- ===== src/Session.antt =====
-- internal/services/session: sessions in Redis.
pub mod Repo
pub mod Keys
pub mod Tokens
pub mod Rotation
pub mod Ending
pub mod Others
use Prim.Native.Char.{code}
use Prim.Native.String
use yourz_gift.Base.{
  ℕ, ◌+◌, ◌*◌, String, Bool, true, false, ◌&&◌, ◌||◌, ltb, eqb, if◌then◌else◌, ◌==◌, not, List, [],
  ◌∷◌, map, Error, message, Result, ok, err, Exec, gets, raise, pure, ◌>>=◌, ◌>>◌,
}
use yourz_gift.Domain.User.{Users}
use yourz_gift.Domain.Session.{Session, SessionInfo, RequestMeta}
use yourz_gift.Redis.{Redis}
use yourz_gift.Session.Repo.{Codec, create, get_by_token, get_by_user_id, update_activity, delete}

abbrev pub is_prefix : String → String → Bool
is_prefix String.[] text = true
is_prefix (String.◌∷◌ c s) String.[] = false
is_prefix (String.◌∷◌ c s) (String.◌∷◌ d text) = eqb (code c) (code d) && is_prefix s text

-- strings.Contains(text, part)
unfoldable pub contains_text : String → String → Bool
contains_text part String.[] = is_prefix part String.[]
contains_text part (String.◌∷◌ c text) =
    is_prefix part (String.◌∷◌ c text) || contains_text part text

unfoldable pub extract_device_info : String → String
unfolding contains_text
extract_device_info agent =
    let has : String → Bool = λ part. contains_text part agent in
    if has "Mobile" || has "Android" || has "iPhone"
    then if has "Android"
      then "Android Mobile"
      else if has "iPhone"
      then "iOS Mobile"
      else "Mobile Device"
    else if has "iPad" || has "Tablet"
    then "Tablet"
    else if has "Windows"
    then "Windows PC"
    else if has "Macintosh" || has "Mac OS"
    then "Mac"
    else if has "Linux"
    then "Linux"
    else "Unknown Device"

-- The session that CreateSession stores.
unfoldable pub new_session :
    (uuid : String) (now expires_at : ℕ) → Users → (access refresh : String) → RequestMeta → Session
unfolding extract_device_info
new_session uuid now expires_at user access refresh meta = record {
  session_id = uuid;
  user_id = user.id;
  username = user.name;
  email = user.email;
  role = user.role;
  access_token = access;
  refresh_token = refresh;
  device_info =
      if meta.device_info == "" then extract_device_info meta.user_agent else meta.device_info;
  ip = meta.ip;
  user_agent = meta.user_agent;
  login_at = now;
  last_activity = now;
  expires_at = expires_at;
}

-- The entry of GetUserSessions for a session.
abbrev pub session_info : String → Session → SessionInfo
session_info current x = record {
  session_id = x.session_id;
  device_info = x.device_info;
  ip = x.ip;
  login_at = x.login_at;
  last_activity = x.last_activity;
  is_current_session = x.session_id == current;
}

-- One hour, in nanoseconds.
abbrev pub hour : ℕ
hour = 3600 * 1000000000

module _ (r : Redis) (json : Codec) where
  -- CreateSession; `hours` is REFRESH_TOKEN_EXP_HOURS
  unfoldable pub create_session :
      (uuid : String) (now hours : ℕ)
      → Users
      → (access refresh : String) → RequestMeta
      → Exec r.Store Session
  unfolding new_session create
  create_session uuid now hours user access refresh meta = do
    create r json now (new_session uuid now (now + hour * hours) user access refresh meta)
    pure (new_session uuid now (now + hour * hours) user access refresh meta)

  -- ValidateSession: the errors of the deletion and of the update are printed.
  unfoldable pub validate_session : (now : ℕ) → (token : String) → Exec r.Store Session
  unfolding get_by_token delete update_activity
  validate_session now token s = elim (get_by_token r json token s) [
    | err e ↦ (err (message "session not found or expired"), s)
    | ok x ↦
        if ltb x.expires_at now
        then (err (message "session expired"), (delete r json x.session_id s).1)
        else (ok x, (update_activity r json now x.session_id s).1)
  ]

  unfoldable pub get_user_sessions :
      (user_id current_session_id : String) → Exec r.Store (List SessionInfo)
  unfolding get_by_user_id
  get_user_sessions user_id current = do
    xs ← get_by_user_id r json user_id
    pure (map (session_info current) xs)

  unfoldable pub destroy_session_by_token : (token : String) → Exec r.Store (Unit {0})
  unfolding get_by_token delete
  destroy_session_by_token token = do
    x ← gets (get_by_token r json token)
    delete r json x.session_id

  -- The loop of DestroyOtherSessions.
  unfoldable pub delete_others : (current : String) → List Session → Exec r.Store (Unit {0})
  unfolding delete
  delete_others current [] s = (ok tt, s)
  delete_others current (x ∷ xs) s =
      let kept = delete_others current xs s in
      let deleted = (delete r json x.session_id >> delete_others current xs) s in
      if x.session_id == current then kept else deleted

  unfoldable pub destroy_other_sessions :
      (user_id current_session_id : String) → Exec r.Store (Unit {0})
  unfolding get_by_user_id delete_others
  destroy_other_sessions user_id current = do
    xs ← get_by_user_id r json user_id
    delete_others current xs
