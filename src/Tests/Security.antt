-- ===== src/Tests/Security.antt =====
-- One-time passwords, login limits and permissions on a Redis in memory.
use yourz_gift.Base.{
  ◌≤◌, ◌<◌, ◌≡◌, ◌≢◌, ◌⊎◌, refl, ap, true, false, some, List, [], ◌∷◌, ok, arith, ◌==◌, any, pos,
  none,
}
use yourz_gift.Base.Text.{sanitize_email, trim_space, normalize_key}
use yourz_gift.Redis.Memory.{memory_redis, no_keys, at_key}
use yourz_gift.Otp.Repo.{otp_register_key, get_otp, increment_attempts}
use yourz_gift.Otp.{OtpService, World, send_register_otp, verify_register_otp}
use yourz_gift.Otp.Safety.{IsVerified, verify_register_otp_lem, code_once, last_attempt}
use yourz_gift.Otp.Sending.{IsSent, send_register_otp_lem}
use yourz_gift.Limiter.{Limits, attempt_key, block_key, register_failure}
use yourz_gift.Limiter.Blocking.{register_failure_lem}
use yourz_gift.Repo.Columns.{contains}
use yourz_gift.Domain.Access.{Permission, role_super_admin}
use yourz_gift.Auth.{Scope, permission_key, has_permission, new_scope}
use yourz_gift.Auth.Access.{has_permission_lem}
use yourz_gift.Tests.Sample.{ascii}

-- The hash is the text itself here.
abbrev otp : OtpService
otp = record {
  repo = true;
  sender = true;
  config = record {
    ttl = 300;
    max_attempts = 1;
    rate_limit = 5;
    rate_window = 300;
    cooldown = 60;
    secret = "";
  };
  sha256_hex = λ s. s;
  deliver = λ mail. ok tt;
}

abbrev quiet : World memory_redis
quiet = record { store = no_keys; sent = [] }

abbrev mailed : World memory_redis
mailed = (send_register_otp {r = memory_redis} ascii otp (some 1234) "eve@x.org" "Gifts" quiet).1

send_run :
    (send_register_otp {r = memory_redis} ascii otp (some 1234) "eve@x.org" "Gifts" quiet).0 ≡ ok tt
unfolding send_register_otp sanitize_email normalize_key trim_space
send_run = refl

send_register_otp_lem_example :
    IsSent memory_redis ascii otp "eve@x.org" "Gifts" (some 1234) quiet mailed
send_register_otp_lem_example =
    send_register_otp_lem memory_redis ascii otp "eve@x.org" "Gifts" (some 1234) quiet send_run

verify_run :
    (verify_register_otp {r = memory_redis} ascii otp "eve@x.org" "001234" mailed).0 ≡ ok tt
unfolding send_register_otp verify_register_otp sanitize_email normalize_key trim_space at_key
verify_run = refl

verify_register_otp_lem_example : IsVerified memory_redis ascii otp "eve@x.org" "001234" mailed
verify_register_otp_lem_example =
    verify_register_otp_lem memory_redis ascii otp "eve@x.org" "001234" mailed verify_run

code_once_example :
    (verify_register_otp {r = memory_redis} ascii otp "eve@x.org" "001234"
      (verify_register_otp {r = memory_redis} ascii otp "eve@x.org" "001234" mailed).1).0
    ≢ ok tt
code_once_example =
    code_once memory_redis ascii otp "eve@x.org" "001234" "001234" mailed (λ s. refl) verify_run

got_run : get_otp memory_redis (sanitize_email ascii "eve@x.org") mailed.store ≡ ok "001234"
unfolding send_register_otp sanitize_email normalize_key trim_space get_otp at_key
got_run = refl

counted_run :
    (increment_attempts memory_redis (sanitize_email ascii "eve@x.org") 300 mailed.store).0 ≡ ok 1
unfolding send_register_otp sanitize_email normalize_key trim_space increment_attempts at_key
counted_run = refl

address-apart : sanitize_email ascii "eve@x.org" ≢ ""
unfolding sanitize_email normalize_key trim_space
address-apart e = let b : true ≡ false = ap (λ s. s == "eve@x.org") e in absurd (cc)

wrong-apart : trim_space ascii "999999" ≢ ""
unfolding trim_space
wrong-apart e = let b : true ≡ false = ap (λ s. s == "999999") e in absurd (cc)

-- One wrong code, where one attempt is allowed.
last_attempt_example :
    memory_redis.value
      (otp_register_key (sanitize_email ascii "eve@x.org"))
      (verify_register_otp {r = memory_redis} ascii otp "eve@x.org" "999999" mailed).1.store
    ≡ none
last_attempt_example =
    last_attempt memory_redis ascii otp "eve@x.org" "999999" "001234" 1 mailed (λ s. refl) refl
      address-apart wrong-apart got_run counted_run (omega arith) (omega arith)

abbrev one_try : Limits
one_try = record { limit = 1; window = 60; block_duration = 600 }

fail_run : (register_failure memory_redis one_try "eve" no_keys).0 ≡ ok (true, pos 600)
unfolding register_failure
fail_run = refl

register_failure_lem_example :
    ((true ≡ true)
      × (1 ≤ 1)
      × (memory_redis.value
            (block_key "eve")
            (register_failure memory_redis one_try "eve" no_keys).1
          ≡ some "1"))
    ⊎ ((true ≡ false)
        × (1 < 1)
        × (memory_redis.counter
              (attempt_key "eve")
              (register_failure memory_redis one_try "eve" no_keys).1
            ≡ 1))
register_failure_lem_example =
    register_failure_lem memory_redis one_try "eve" no_keys true (pos 600) fail_run

abbrev member : Scope
member = new_scope ascii "eve" "Eve" "member" ("gifts:read" ∷ [])

grant_run : has_permission ascii (λ _. ok []) member "gifts" "read" ≡ ok true
unfolding has_permission new_scope normalize_key trim_space contains
grant_run = refl

has_permission_lem_example :
    (trim_space ascii member.role ≡ role_super_admin)
    ⊎ (contains member.permissions (permission_key ascii "gifts" "read") ≡ true)
    ⊎ ((member.permissions ≡ [])
        × (permissions : List Permission) × (ok [] ≡ ok permissions)
        × (permission_key ascii "gifts" "read" ≢ "")
        × (any
              (λ p. permission_key ascii p.resource p.action == permission_key ascii "gifts" "read")
              permissions
            ≡ true))
has_permission_lem_example = has_permission_lem ascii (λ _. ok []) member "gifts" "read" grant_run
