-- ===== src/Session/Repo.antt =====
-- internal/repositories/session/session_repo.go: the four kinds of keys of a session.
use yourz_gift.Base.{
  ℕ, ◌-◌, String, ◌≢◌, refl, leb, List, [], ◌∷◌, ℤ, pos, negsuc, message, redis_nil, Result, ok,
  err, Exec, gets, guard, not, ◌>>=◌, ◌>>◌,
}
use yourz_gift.Domain.Session.{Session}
use yourz_gift.Redis.{Redis, key, apart_at, pipeline}

abbrev pub session_key : String → String
session_key id = key "session:" id

abbrev pub user_sessions_key : String → String
user_sessions_key user_id = key "user_sessions:" user_id

abbrev pub access_token_session_key : String → String
access_token_session_key token = key "access_token_session:" token

abbrev pub refresh_token_session_key : String → String
refresh_token_session_key token = key "refresh_token_session:" token

pub session-access : (a b : String) → session_key a ≢ access_token_session_key b
session-access a b = apart_at 0 _ _ refl

pub session-refresh : (a b : String) → session_key a ≢ refresh_token_session_key b
session-refresh a b = apart_at 0 _ _ refl

pub access-session : (a b : String) → access_token_session_key a ≢ session_key b
access-session a b = apart_at 0 _ _ refl

pub access-refresh : (a b : String) → access_token_session_key a ≢ refresh_token_session_key b
access-refresh a b = apart_at 0 _ _ refl

pub refresh-session : (a b : String) → refresh_token_session_key a ≢ session_key b
refresh-session a b = apart_at 0 _ _ refl

pub refresh-access : (a b : String) → refresh_token_session_key a ≢ access_token_session_key b
refresh-access a b = apart_at 0 _ _ refl

pub users-session : (a b : String) → user_sessions_key a ≢ session_key b
users-session a b = apart_at 0 _ _ refl

pub users-access : (a b : String) → user_sessions_key a ≢ access_token_session_key b
users-access a b = apart_at 0 _ _ refl

pub users-refresh : (a b : String) → user_sessions_key a ≢ refresh_token_session_key b
users-refresh a b = apart_at 0 _ _ refl

-- json.Marshal and json.Unmarshal on a session.
pub record Codec : Type 0 where
  pub marshal : Session → Result String
  pub unmarshal : String → Result Session

-- The time that SET takes from TTL: a key that is to have no expiry time for a time that is not positive.
abbrev pub kept_ttl : ℤ → ℕ
kept_ttl (pos n) = n
kept_ttl (negsuc n) = 0

-- redis.Nil as the message that what was read is not there
abbrev pub or_missing : String → Result String → Result String
or_missing text (ok v) = ok v
or_missing text (err redis_nil) = err (message text)
or_missing text (err e) = err e

module _ (r : Redis) (json : Codec) where
  -- The commands of Create.
  abbrev pub create_commands : ℕ → Session → String → List (Exec r.Store (Unit {0}))
  create_commands ttl x text =
      r.set (session_key x.session_id) text ttl
      ∷ r.sadd (user_sessions_key x.user_id) x.session_id
      ∷ r.expire (user_sessions_key x.user_id) ttl
      ∷ r.set (access_token_session_key x.access_token) x.session_id ttl
      ∷ r.set (refresh_token_session_key x.refresh_token) x.session_id ttl
      ∷ []

  -- Create; `now` is the time of the call
  unfoldable pub create : ℕ → Session → Exec r.Store (Unit {0})
  unfolding pipeline
  create now x = do
    text ← gets (λ _. json.marshal x)
    guard (not (leb x.expires_at now)) (message "session already expired")
    pipeline (create_commands (x.expires_at - now) x text)

  unfoldable pub get_by_session_id : String → r.Store → Result Session
  get_by_session_id id s = elim (or_missing "session not found" (r.get (session_key id) s)) [
    | err e ↦ err e
    | ok text ↦ json.unmarshal text
  ]

  -- The sessions of the ids; an id without a session is taken out of the set, errors dropped.
  unfoldable pub collect : (user_id : String) → List String → r.Store → List Session × r.Store
  unfolding get_by_session_id
  collect user_id [] s = ([], s)
  collect user_id (id ∷ ids) s =
      let kept = collect user_id ids s in
      let dropped = collect user_id ids (r.srem (user_sessions_key user_id) id s).1 in
      elim (get_by_session_id id s) [ ok x ↦ (x ∷ kept.0, kept.1) | err e ↦ dropped ]

  unfoldable pub get_by_user_id : String → Exec r.Store (List Session)
  unfolding collect
  get_by_user_id user_id s = elim (r.smembers (user_sessions_key user_id) s) [
    | err e ↦ (err e, s)
    | ok ids ↦ (ok (collect user_id ids s).0, (collect user_id ids s).1)
  ]

  unfoldable pub get_by_token : String → r.Store → Result Session
  unfolding get_by_session_id
  get_by_token token s =
      elim (or_missing "session not found for token" (r.get (access_token_session_key token) s)) [
        | err e ↦ err e
        | ok id ↦ get_by_session_id id s
      ]

  unfoldable pub get_by_refresh_token : String → r.Store → Result Session
  unfolding get_by_session_id
  get_by_refresh_token token s =
      elim (or_missing "session not found for refresh token"
        (r.get (refresh_token_session_key token) s)) [
          | err e ↦ err e
          | ok id ↦ get_by_session_id id s
        ]

  unfoldable pub update_activity : ℕ → String → Exec r.Store (Unit {0})
  unfolding get_by_session_id
  update_activity now id = do
    x ← gets (get_by_session_id id)
    text ← gets (λ _. json.marshal (record x { last_activity = now }))
    ttl ← gets (r.ttl (session_key id))
    r.set (session_key id) text (kept_ttl ttl)

  abbrev pub delete_commands : String → Session → List (Exec r.Store (Unit {0}))
  delete_commands id x =
      r.del (session_key id)
      ∷ r.srem (user_sessions_key x.user_id) id
      ∷ r.del (access_token_session_key x.access_token)
      ∷ r.del (refresh_token_session_key x.refresh_token)
      ∷ []

  unfoldable pub delete : String → Exec r.Store (Unit {0})
  unfolding get_by_session_id pipeline
  delete id = do x ← gets (get_by_session_id id); pipeline (delete_commands id x)

  -- The loop of DeleteByUserID: errors are logged.
  unfoldable pub delete_each : List Session → r.Store → r.Store
  unfolding delete
  delete_each [] s = s
  delete_each (x ∷ xs) s = delete_each xs (delete x.session_id s).1

  unfoldable pub delete_by_user_id : String → Exec r.Store (Unit {0})
  unfolding get_by_user_id delete_each
  delete_by_user_id user_id s =
      let (found, s') = get_by_user_id user_id s in
      elim found [ err e ↦ (err e, s') | ok xs ↦ (ok tt, delete_each xs s') ]

  -- The session that RotateTokens stores.
  abbrev pub rotated : ℕ → (access refresh : String) → (expires_at : ℕ) → Session → Session
  rotated now access refresh expires_at x = record x {
    access_token = access;
    refresh_token = refresh;
    last_activity = now;
    expires_at = expires_at;
  }

  abbrev pub rotate_commands :
      ℕ → String → (old new : Session) → String → List (Exec r.Store (Unit {0}))
  rotate_commands ttl id old new text =
      r.del (access_token_session_key old.access_token)
      ∷ r.del (refresh_token_session_key old.refresh_token)
      ∷ r.set (session_key id) text ttl
      ∷ r.set (access_token_session_key new.access_token) id ttl
      ∷ r.set (refresh_token_session_key new.refresh_token) id ttl
      ∷ r.expire (user_sessions_key new.user_id) ttl
      ∷ []

  unfoldable pub rotate_tokens :
      ℕ → String → (access refresh : String) → (expires_at : ℕ) → Exec r.Store (Unit {0})
  unfolding get_by_session_id pipeline
  rotate_tokens now id access refresh expires_at = do
    x ← gets (get_by_session_id id)
    text ← gets (λ _. json.marshal (rotated now access refresh expires_at x))
    guard (not (leb expires_at now)) (message "session already expired")
    pipeline
        (rotate_commands (expires_at - now) id x (rotated now access refresh expires_at x) text)

  unfoldable pub set_expiration : String → (ttl : ℕ) → Exec r.Store (Unit {0})
  set_expiration id ttl = r.expire (session_key id) ttl
