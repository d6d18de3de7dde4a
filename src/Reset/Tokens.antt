-- ===== src/Reset/Tokens.antt =====
-- internal/services/reset/reset_service.go: what a reset token is good for.
use yourz_gift.Base.{
  ℕ, String, ◌≡◌, ◌≢◌, sym, ap, ◌∙◌, true, Option, some, none, List, ◌∷◌, arith, ok, eq_iff,
  Result-cases, inl, inr, gets, bind-ok,
}
use yourz_gift.Base.Text.{TextLib, sanitize_email, trim_space}
use yourz_gift.Redis.{Redis}
use yourz_gift.Otp.{or_undo}
use yourz_gift.Reset.Repo.{
  reset_token_key, reset_cooldown_key, reset_rate_key, token-cooldown, token-rate, set_token,
  get_email_by_token, delete_token, set_reset_cooldown, clear_reset_cooldown, clear_reset_count,
}
use yourz_gift.Reset.{
  ResetService, ResetWorld, hash_token, generate_reset_token, send_reset_mail, reset_mail,
  check_reset_rate, check_request, deliver_token, request_reset, forget_token, verify_reset,
}

module _ (r : Redis) (lib : TextLib) (svc : ResetService) where
  -- DEL does not fail on the key of the token's hash.
  abbrev pub TokenDeletes : String → Type 0
  TokenDeletes token = (s : r.Store) → (r.del (reset_token_key (hash_token svc token)) s).0 ≡ ok tt

  forget_token-value :
      (token email : String) (w : ResetWorld r)
      → TokenDeletes token
      → r.value
          (reset_token_key (hash_token svc token))
          (forget_token (hash_token svc token) email w).1.store
        ≡ none
  unfolding forget_token delete_token clear_reset_cooldown clear_reset_count
  forget_token-value token email w d =
      let k = reset_token_key (hash_token svc token) in
      let s1 = (r.del k w.store).1 in
      let s2 = (r.del (reset_cooldown_key email) s1).1 in
      r.del-others (reset_rate_key email) s2 k (token-rate _ email)
      ∙ r.del-others (reset_cooldown_key email) s1 k (token-cooldown _ email)
      ∙ r.del-value k w.store (d w.store)

  -- The token was stored, and its removal is the state that VerifyReset leaves.
  verified :
      (token email : String) (w w' : ResetWorld r)
      → verify_reset lib svc token w ≡ (ok email, w')
      → (r.value (reset_token_key (hash_token svc (trim_space lib token))) w.store ≡ some email)
        × (w' ≡ (forget_token (hash_token svc (trim_space lib token)) email w).1)
  unfolding verify_reset get_email_by_token forget_token
  verified token email w w' e =
      let k = reset_token_key (hash_token svc (trim_space lib token)) in
      elim (Result-cases (r.get k w.store)) [
        | inr (x, f) ↦ absurd (ground arith)
        | inl (found, f) ↦ let there = r.get-value k found w.store f in (ground arith, ground arith)
      ]

  -- A reset token that was accepted is not accepted again, where DEL does not fail on its key.
  pub token_once :
      (token again email other : String) (w w' : ResetWorld r)
      → TokenDeletes (trim_space lib token)
      → verify_reset lib svc token w ≡ (ok email, w')
      → trim_space lib again ≡ trim_space lib token
      → (verify_reset lib svc again w').0 ≢ ok other
  token_once token again email other w w' deletes e same e' =
      let (_, after) = verified token email w w' e in
      let (there, _) =
        verified again other w' (verify_reset lib svc again w').1
          (λ i. (e' i, (verify_reset lib svc again w').1)) in
      let gone = forget_token-value (trim_space lib token) email w deletes in
      let gone' : r.value (reset_token_key (hash_token svc (trim_space lib again))) w'.store
          ≡ none =
        ap (λ t. r.value (reset_token_key (hash_token svc t)) w'.store) same
        ∙ ap (λ v. r.value (reset_token_key (hash_token svc (trim_space lib token))) v.store) after
        ∙ gone in
      absurd (cc)

  -- The token that was mailed leads to the address, and the mail is the last one that was sent.
  pub record IsRequested (email app : String) (draw : Option (List ℕ)) (w w' : ResetWorld r)
      : Type 0 where
    pub token : String
    pub drawn : generate_reset_token svc draw ≡ ok token
    pub stored :
        r.value (reset_token_key (hash_token svc token)) w'.store ≡ some (sanitize_email lib email)
    pub mailed : w'.sent ≡ reset_mail lib svc (sanitize_email lib email) token app ∷ w.sent

  delivered-value :
      (address token app : String) (w : ResetWorld r)
      → (deliver_token lib svc address token app w).0 ≡ ok tt
      → r.value
          (reset_token_key (hash_token svc token))
          (deliver_token lib svc address token app w).1.store
        ≡ some address
  unfolding deliver_token or_undo set_token set_reset_cooldown send_reset_mail
  delivered-value address token app w e =
      let k = reset_token_key (hash_token svc token) in
      let s1 = (r.set k address svc.config.ttl w.store).1 in
      let last =
        r.set-others (reset_cooldown_key address) "1" svc.config.cooldown s1 k
          (token-cooldown _ address) in
      elim (Result-cases (r.set k address svc.config.ttl w.store).0) [
        | inr (x, f) ↦ absurd (ground arith)
        | inl (u, f) ↦
            let first = r.set-value k address svc.config.ttl w.store f in
            elim (Result-cases (r.set (reset_cooldown_key address) "1" svc.config.cooldown s1).0) [
              | inr (x, c) ↦ absurd (ground arith)
              | inl (v, c) ↦ ground arith
            ]
      ]

  delivered-sent :
      (address token app : String) (w : ResetWorld r)
      → (deliver_token lib svc address token app w).0 ≡ ok tt
      → (deliver_token lib svc address token app w).1.sent
        ≡ reset_mail lib svc address token app ∷ w.sent
  unfolding deliver_token or_undo set_token set_reset_cooldown send_reset_mail
  delivered-sent address token app w e = ground arith

  checks-sent :
      (address : String) (w : ResetWorld r) → (check_request svc address w).1.sent ≡ w.sent
  unfolding check_request check_reset_rate
  checks-sent address w = ground arith

  delivers :
      (email app : String) (draw : Option (List ℕ)) (w w' : ResetWorld r)
      → request_reset lib svc draw email app w ≡ (ok tt, w')
      → (token : String) × (generate_reset_token svc draw ≡ ok token)
        × (deliver_token lib svc
              (sanitize_email lib email)
              token
              app
              (check_request svc (sanitize_email lib email) w).1
            ≡ (ok tt, w'))
  unfolding request_reset
  delivers email app draw w w' e =
      let (u, f, k) = bind-ok (check_request svc (sanitize_email lib email)) _ w w' tt e in
      bind-ok (gets (λ _. generate_reset_token svc draw)) _
        (check_request svc (sanitize_email lib email) w).1 w' tt k

  -- Where RequestReset succeeds, the address got one mail more, and the hash of the token in it leads
  -- to the address. VerifyReset answers with the address to that token, where GET answers, and the
  -- token is not empty and has no space around it.
  pub request-verify :
      (email app : String) (draw : Option (List ℕ)) (w w' : ResetWorld r)
      → request_reset lib svc draw email app w ≡ (ok tt, w')
      → svc.repo ≡ true
      → ((k v : String) → r.value k w'.store ≡ some v → r.get k w'.store ≡ ok v)
      → ((token : String)
          → generate_reset_token svc draw ≡ ok token
          → (token ≢ "") × (trim_space lib token ≡ token))
      → (h : IsRequested email app draw w w') × ((verify_reset lib svc h.token w').0
          ≡ ok (sanitize_email lib email))
  unfolding verify_reset get_email_by_token
  request-verify email app draw w w' e repo answers clean =
      let address = sanitize_email lib email in
      let (token, drawn, k) = delivers email app draw w w' e in
      let w1 = (check_request svc address w).1 in
      let stored : r.value (reset_token_key (hash_token svc token)) w'.store ≡ some address =
        ap (λ p. r.value (reset_token_key (hash_token svc token)) p.1.store) (sym k)
        ∙ delivered-value address token app w1 (ap (λ p. p.0) k) in
      let (set, trimmed) = clean token drawn in
      let got = answers (reset_token_key (hash_token svc token)) address stored in
      (
        record {
          token = token;
          drawn = drawn;
          stored = stored;
          mailed =
              ap (λ p. p.1.sent) (sym k)
              ∙ delivered-sent address token app w1 (ap (λ p. p.0) k)
              ∙ ap (λ ms. reset_mail lib svc address token app ∷ ms) (checks-sent address w);
        },
        ground (arith, eq_iff token ""),
      )
