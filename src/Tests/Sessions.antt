-- ===== src/Tests/Sessions.antt =====
-- Sessions on a Redis in memory, with a JSON of the two sessions below.
use yourz_gift.Base.{
  ◌⊎◌, ◌<◌, Error, ◌≤◌, String, ◌≡◌, ◌↔◌, refl, sym, ap, List, Result, ok, err, arith, ◌==◌,
  message, if◌then◌else◌, fault,
}
use yourz_gift.Domain.Session.{Session, RequestMeta}
use yourz_gift.Redis.Memory.{memory_redis, no_keys, Keys, at_key}
use yourz_gift.Session.Repo.{
  Codec, session_key, create, get_by_session_id, get_by_user_id, get_by_token, get_by_refresh_token,
  rotate_tokens, delete,
}
use yourz_gift.Session.{
  extract_device_info, create_session, validate_session, destroy_other_sessions,
}
use yourz_gift.Session.Tokens.{Answers, ReadsBack, create-validate}
use yourz_gift.Session.Rotation.{IsRotated, rotate_tokens_lem}
use yourz_gift.Session.Ending.{IsEnded, delete_lem, validate_session_iff}
use yourz_gift.Session.Others.{OthersGone, destroy_other_sessions_lem}
use yourz_gift.Tests.Sample.{ann}

abbrev laptop : RequestMeta
laptop = record { ip = "127.0.0.1"; user_agent = "X11; Linux x86_64"; device_info = "" }

agent_run : extract_device_info "X11; Linux x86_64" ≡ "Linux"
unfolding extract_device_info
agent_run = refl

phone_run : extract_device_info "Mozilla/5.0 (Linux; Android 13; Pixel)" ≡ "Android Mobile"
unfolding extract_device_info
phone_run = refl

abbrev first_session : Session
first_session = record {
  session_id = "s1";
  user_id = "ann";
  username = "Ann";
  email = "ann@x.org";
  role = "member";
  access_token = "a1";
  refresh_token = "b1";
  device_info = "Linux";
  ip = "127.0.0.1";
  user_agent = "X11; Linux x86_64";
  login_at = 100;
  last_activity = 100;
  expires_at = 3600000000100;
}

abbrev second_session : Session
second_session = record first_session {
  session_id = "s2";
  access_token = "a2";
  refresh_token = "b2";
}

abbrev decode : String → Result Session
decode text =
    if text == "s1"
    then ok first_session
    else if text == "s2"
    then ok second_session
    else err (fault "json")

abbrev json : Codec
json = record { marshal = λ x. ok x.session_id; unmarshal = decode }

abbrev logged_in : Keys
logged_in = (create_session memory_redis json "s1" 100 1 ann "a1" "b1" laptop no_keys).1

create_run :
    create_session memory_redis json "s1" 100 1 ann "a1" "b1" laptop no_keys
    ≡ (ok first_session, logged_in)
unfolding create_session
create_run = refl

answers : (s : Keys) → Answers memory_redis json s
answers s k v e = ground arith

reads_back : ReadsBack memory_redis json first_session
reads_back text e = let same : "s1" ≡ text = cc in ap decode (sym same)

create-validate_example :
    ((validate_session memory_redis json 200 "a1" logged_in).0 ≡ ok first_session)
    × (get_by_refresh_token memory_redis json "b1" logged_in ≡ ok first_session)
create-validate_example =
    create-validate memory_redis json "s1" 100 200 1 ann "a1" "b1" laptop first_session no_keys
      logged_in create_run (omega arith) reads_back (answers logged_in)

abbrev refreshed : Keys
refreshed = (rotate_tokens memory_redis json 200 "s1" "a3" "b3" 900 logged_in).1

rotate_run : rotate_tokens memory_redis json 200 "s1" "a3" "b3" 900 logged_in ≡ (ok tt, refreshed)
unfolding create_session rotate_tokens at_key
rotate_run = refl

rotate_tokens_lem_example :
    (old : Session) × (get_by_session_id memory_redis json "s1" logged_in ≡ ok old)
    × IsRotated memory_redis json "s1" 200 "a3" "b3" 900 old refreshed
rotate_tokens_lem_example =
    rotate_tokens_lem memory_redis json 200 900 "s1" "a3" "b3" logged_in refreshed rotate_run

abbrev logged_out : Keys
logged_out = (delete memory_redis json "s1" logged_in).1

delete_run : delete memory_redis json "s1" logged_in ≡ (ok tt, logged_out)
unfolding create_session delete at_key
delete_run = refl

delete_lem_example :
    (x : Session) × (get_by_session_id memory_redis json "s1" logged_in ≡ ok x)
    × IsEnded memory_redis json "s1" x logged_in logged_out
delete_lem_example = delete_lem memory_redis json "s1" logged_in logged_out delete_run

validate_session_iff_example :
    (((validate_session memory_redis json 200 "a1" logged_in).0 ≡ ok first_session) ↔ (
      (get_by_token memory_redis json "a1" logged_in ≡ ok first_session)
      × (200 ≤ first_session.expires_at)))
    × (((validate_session memory_redis json 200 "a1" logged_in).0 ≡ err (message "session expired"))
        ↔ ((y : Session) × (get_by_token memory_redis json "a1" logged_in ≡ ok y)
            × (y.expires_at < 200)
            × ((validate_session memory_redis json 200 "a1" logged_in).1
                ≡ (delete memory_redis json y.session_id logged_in).1)))
validate_session_iff_example =
    validate_session_iff memory_redis json 200 "a1" first_session logged_in

-- Two sessions of one user.
abbrev twice : Keys
twice = (create memory_redis json 100 second_session logged_in).1

destroy_other_sessions_lem_example :
    (memory_redis.value
        (session_key "s2")
        (destroy_other_sessions memory_redis json "ann" "s2" twice).1
      ≡ memory_redis.value (session_key "s2") twice)
    × (((e : Error) × ((destroy_other_sessions memory_redis json "ann" "s2" twice).0 ≡ err e))
        ⊎ ((xs : List Session) × ((get_by_user_id memory_redis json "ann" twice).0 ≡ ok xs)
            × OthersGone memory_redis json "s2" xs
                (destroy_other_sessions memory_redis json "ann" "s2" twice).1))
destroy_other_sessions_lem_example = destroy_other_sessions_lem memory_redis json "ann" "s2" twice

destroy_run : (destroy_other_sessions memory_redis json "ann" "s2" twice).0 ≡ ok tt
unfolding create_session create destroy_other_sessions at_key
destroy_run = refl
