-- ===== src/Tests/Resets.antt =====
-- Password resets on a Redis in memory. The hash and the base64 are simple texts here.
use yourz_gift.Base.{
  String, ◌≡◌, ◌≢◌, refl, sym, ap, ◌∙◌, true, false, some, [], ◌∷◌, ok, arith, ◌==◌,
}
use yourz_gift.Base.Text.{sanitize_email, trim_space, normalize_key}
use yourz_gift.Redis.Memory.{memory_redis, no_keys, at_key}
use yourz_gift.Reset.{
  ResetService, ResetWorld, build_reset_url, generate_reset_token, request_reset, verify_reset,
}
use yourz_gift.Reset.Tokens.{IsRequested, token_once, request-verify}
use yourz_gift.Tests.Sample.{ascii}

abbrev resets : ResetService
resets = record {
  repo = true;
  sender = true;
  config = record {
    ttl = 900;
    cooldown = 60;
    rate_window = 900;
    rate_limit = 5;
    secret = "";
    url_template = "https://gift.example/reset/{token}";
  };
  sha256_hex = λ s. s;
  base64_url = λ bytes. "AAEC";
  send_password_reset = λ mail. ok tt;
}

abbrev quiet : ResetWorld memory_redis
quiet = record { store = no_keys; sent = [] }

abbrev asked : ResetWorld memory_redis
asked =
    (request_reset {r = memory_redis} ascii resets (some (0 ∷ 1 ∷ 2 ∷ [])) "eve@x.org" "Gifts"
      quiet).1

url_run :
    build_reset_url ascii "https://gift.example/reset/{token}" "AAEC"
    ≡ "https://gift.example/reset/AAEC"
unfolding build_reset_url trim_space
url_run = refl

query_run :
    build_reset_url ascii " https://gift.example/reset?a=1 " "AAEC"
    ≡ "https://gift.example/reset?a=1&token=AAEC"
unfolding build_reset_url trim_space
query_run = refl

request_run :
    request_reset {r = memory_redis} ascii resets (some (0 ∷ 1 ∷ 2 ∷ [])) "eve@x.org" "Gifts" quiet
    ≡ (ok tt, asked)
unfolding request_reset sanitize_email normalize_key trim_space
request_run = refl

clean_token :
    (token : String)
    → generate_reset_token resets (some (0 ∷ 1 ∷ 2 ∷ [])) ≡ ok token
    → (token ≢ "") × (trim_space ascii token ≡ token)
unfolding generate_reset_token trim_space
clean_token token e =
    let same : "AAEC" ≡ token = cc in
    (
      λ empty. let b : true ≡ false = ap (λ t. t == "AAEC") (same ∙ empty) in absurd (cc),
      ap (trim_space ascii) (sym same) ∙ same,
    )

request-verify_example :
    (h : IsRequested memory_redis ascii resets "eve@x.org" "Gifts"
      (some (0 ∷ 1 ∷ 2 ∷ []))
      quiet
      asked)
    × ((verify_reset {r = memory_redis} ascii resets h.token asked).0
        ≡ ok (sanitize_email ascii "eve@x.org"))
request-verify_example =
    request-verify memory_redis ascii resets "eve@x.org" "Gifts" (some (0 ∷ 1 ∷ 2 ∷ [])) quiet asked
      request_run refl (λ k v e. ground arith) clean_token

abbrev spent : ResetWorld memory_redis
spent = (verify_reset {r = memory_redis} ascii resets "AAEC" asked).1

verify_run : verify_reset {r = memory_redis} ascii resets "AAEC" asked ≡ (ok "eve@x.org", spent)
unfolding request_reset verify_reset sanitize_email normalize_key trim_space at_key
verify_run = refl

token_once_example : (verify_reset {r = memory_redis} ascii resets " AAEC" spent).0 ≢ ok "eve@x.org"
unfolding trim_space
token_once_example =
    token_once memory_redis ascii resets "AAEC" " AAEC" "eve@x.org" "eve@x.org" asked spent
      (λ s. refl) verify_run refl
