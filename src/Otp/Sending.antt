-- ===== src/Otp/Sending.antt =====
-- internal/services/otp/otp_service.go: what SendRegisterOTP leaves behind.
use yourz_gift.Base.{ℕ, String, ◌≡◌, ap, ◌∙◌, Option, some, ◌∷◌, arith, ok, Result-cases, inl, inr}
use yourz_gift.Base.Text.{TextLib, sanitize_email}
use yourz_gift.Redis.{Redis}
use yourz_gift.Otp.Repo.{
  otp_register_key, otp_attempt_key, otp_cooldown_key, register-attempt, register-cooldown, set_otp,
  reset_attempts, set_cooldown,
}
use yourz_gift.Otp.{
  OtpService, World, Mail, hash_otp, generate_otp, send_mail, check_rate, check_send, deliver_code,
  send_register_otp, or_undo,
}

module _ (r : Redis) (svc : OtpService) (address code app : String) where
  delivered-stored :
      (w : World r)
      → (deliver_code {r = r} svc address code app w).0 ≡ ok tt
      → r.value (otp_register_key address) (deliver_code {r = r} svc address code app w).1.store
        ≡ some (hash_otp svc code)
  unfolding deliver_code or_undo set_otp set_cooldown reset_attempts send_mail
  delivered-stored w e =
      let s1 = (r.set (otp_register_key address) (hash_otp svc code) svc.config.ttl w.store).1 in
      let s2 = (r.del (otp_attempt_key address) s1).1 in
      let last =
        r.set-others (otp_cooldown_key address) "1" svc.config.cooldown s2
          (otp_register_key address) (register-cooldown address address) in
      let middle =
        r.del-others (otp_attempt_key address) s1 (otp_register_key address)
          (register-attempt address address) in
      elim (Result-cases
        (r.set (otp_register_key address) (hash_otp svc code) svc.config.ttl w.store).0) [
          | inr (x, f) ↦ absurd (ground arith)
          | inl (u, f) ↦
              let first =
                r.set-value (otp_register_key address) (hash_otp svc code) svc.config.ttl w.store
                  f in
              elim (Result-cases (r.set (otp_cooldown_key address) "1" svc.config.cooldown s2).0) [
                | inr (x, c) ↦ absurd (ground arith)
                | inl (v, c) ↦ ground arith
              ]
        ]

  delivered-sent :
      (w : World r)
      → (deliver_code {r = r} svc address code app w).0 ≡ ok tt
      → (deliver_code {r = r} svc address code app w).1.sent
        ≡ record { to_email = address; code = code; app_name = app } ∷ w.sent
  unfolding deliver_code or_undo set_otp set_cooldown reset_attempts send_mail
  delivered-sent w e = ground arith

module _ (r : Redis) (lib : TextLib) (svc : OtpService) (email app : String) where
  -- What a sent password is: the mail that was sent last carries the code whose hash is stored.
  pub record IsSent (draw : Option ℕ) (w w' : World r) : Type 0 where
    pub code : String
    pub drawn : generate_otp draw ≡ ok code
    pub stored :
        r.value (otp_register_key (sanitize_email lib email)) w'.store ≡ some (hash_otp svc code)
    pub mailed :
        w'.sent
        ≡ record { to_email = sanitize_email lib email; code = code; app_name = app } ∷ w.sent

  checks-sent :
      (w : World r) → (check_send {r = r} svc (sanitize_email lib email) w).1.sent ≡ w.sent
  unfolding check_send check_rate
  checks-sent w = ground arith

  delivers :
      (draw : Option ℕ) (w : World r)
      → (send_register_otp {r = r} lib svc draw email app w).0 ≡ ok tt
      → (code : String) × (generate_otp draw ≡ ok code)
        × (send_register_otp {r = r} lib svc draw email app w
            ≡ deliver_code svc
                (sanitize_email lib email)
                code
                app
                (check_send svc (sanitize_email lib email) w).1)
  unfolding send_register_otp
  delivers draw w e = elim (Result-cases (generate_otp draw)) [
    | inr (x, d) ↦ absurd (ground arith)
    | inl (code, d) ↦ (code, d, ground arith)
  ]

  -- Where SendRegisterOTP succeeds, the address got one mail more, and the code in it is the one
  -- that is stored for the address, as its hash.
  pub send_register_otp_lem :
      (draw : Option ℕ) (w : World r)
      → (send_register_otp {r = r} lib svc draw email app w).0 ≡ ok tt
      → IsSent draw w (send_register_otp lib svc draw email app w).1
  send_register_otp_lem draw w e =
      let (code, drawn, same) = delivers draw w e in
      let w1 = (check_send {r = r} svc (sanitize_email lib email) w).1 in
      let delivered = (rw same at e) in
      let mail : Mail = record {
        to_email = sanitize_email lib email;
        code = code;
        app_name = app;
      } in
      record {
        code = code;
        drawn = drawn;
        stored = rw same (delivered-stored r svc (sanitize_email lib email) code app w1 delivered);
        mailed = rw same (
            delivered-sent r svc (sanitize_email lib email) code app w1 delivered
            ∙ ap (λ ms. mail ∷ ms) (checks-sent w));
      }
