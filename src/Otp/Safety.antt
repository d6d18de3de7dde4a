-- ===== src/Otp/Safety.antt =====
-- internal/services/otp/otp_service.go: what a one-time password is good for.
use yourz_gift.Base.{
  ℕ, suc, ◌≤◌, ◌<◌, String, ◌≡◌, ◌≢◌, ◌⊎◌, refl, ◌∙◌, true, eq_iff, some, none, arith, ok,
  Result-cases, inl, inr,
}
use yourz_gift.Base.Text.{TextLib, sanitize_email, trim_space}
use yourz_gift.Redis.{Redis}
use yourz_gift.Otp.Repo.{
  otp_register_key, otp_attempt_key, register-attempt, register-cooldown, register-rate, get_otp,
  increment_attempts, counted, delete_otp, reset_attempts, clear_cooldown, clear_send_count,
}
use yourz_gift.Otp.{
  OtpService, World, verify_otp, forget_code, forget_limits, judge, verify_register_otp,
}

module _ (r : Redis) where
  -- DEL does not fail on the key of the stored code.
  abbrev pub Deletes : String → Type 0
  Deletes email = (s : r.Store) → (r.del (otp_register_key email) s).0 ≡ ok tt

  forget_code-value :
      (email : String) (w : World r)
      → Deletes email
      → r.value (otp_register_key email) (forget_code email w).1.store ≡ none
  unfolding forget_code delete_otp reset_attempts
  forget_code-value email w d =
      r.del-others _ _ _ (register-attempt email email) ∙ r.del-value _ w.store (d w.store)

  forget_limits-value :
      (email : String) (w : World r)
      → r.value (otp_register_key email) (forget_limits email w).1.store
        ≡ r.value (otp_register_key email) w.store
  unfolding forget_limits clear_cooldown clear_send_count
  forget_limits-value email w =
      r.del-others _ _ _ (register-rate email email)
      ∙ r.del-others _ _ _ (register-cooldown email email)

  forget_code-ok : (email : String) (w : World r) → (forget_code email w).0 ≡ ok tt
  unfolding forget_code
  forget_code-ok email w = refl

  -- An attempt is counted exactly.
  attempts-exact :
      (email : String) (ttl n : ℕ) (s : r.Store)
      → (increment_attempts r email ttl s).0 ≡ ok n
      → n ≡ suc (r.counter (otp_attempt_key email) s)
  unfolding increment_attempts counted
  attempts-exact email ttl n s e = r.incr-ok (otp_attempt_key email) s n (ground arith)

  judged :
      (svc : OtpService) (email code hashed : String) (n : ℕ) (w : World r)
      → (judge svc email code hashed n w).0 ≡ ok tt
      → (verify_otp svc code hashed ≡ true)
        × ((svc.config.max_attempts ≡ 0) ⊎ (n ≤ svc.config.max_attempts))
  unfolding judge
  judged svc email code hashed n w e =
      let k = forget_code-ok email w in (ground arith, ground arith)

  -- After a right code, and after the last attempt, the stored code is gone.
  spent :
      (svc : OtpService) (email code hashed : String) (n : ℕ) (w : World r)
      → Deletes email
      → ((judge svc email code hashed n w).0 ≡ ok tt)
        ⊎ ((0 < svc.config.max_attempts) × (svc.config.max_attempts ≤ n))
      → r.value (otp_register_key email) (judge svc email code hashed n w).1.store ≡ none
  unfolding judge
  spent svc email code hashed n w d e =
      let k = forget_code-ok email w in
      let f = forget_code-value email w d in
      let l = forget_limits-value email (forget_code email w).1 in ground arith

module _ (r : Redis) (lib : TextLib) (svc : OtpService) (email code : String) (w : World r) where
  -- What a right code was: the code that is stored for the address, tried within the limit.
  pub record IsVerified : Type 0 where
    pub hashed : String
    pub stored : r.value (otp_register_key (sanitize_email lib email)) w.store ≡ some hashed
    pub matches : verify_otp svc (trim_space lib code) hashed ≡ true
    pub within :
        (svc.config.max_attempts ≡ 0)
        ⊎ (suc (r.counter (otp_attempt_key (sanitize_email lib email)) w.store)
            ≤ svc.config.max_attempts)

  abbrev counted_world : World r
  counted_world = record w {
    store = (increment_attempts r (sanitize_email lib email) svc.config.ttl w.store).1;
  }

  -- The checks of VerifyRegisterOTP that stand before the judgement, where they pass.
  reaches :
      (hashed : String) (n : ℕ)
      → svc.repo ≡ true
      → sanitize_email lib email ≢ ""
      → trim_space lib code ≢ ""
      → get_otp r (sanitize_email lib email) w.store ≡ ok hashed
      → (increment_attempts r (sanitize_email lib email) svc.config.ttl w.store).0 ≡ ok n
      → verify_register_otp {r = r} lib svc email code w
        ≡ judge svc (sanitize_email lib email) (trim_space lib code) hashed n counted_world
  unfolding verify_register_otp
  reaches hashed n repo address clean got counted =
      ground (arith, eq_iff (sanitize_email lib email) "", eq_iff (trim_space lib code) "")

  -- VerifyRegisterOTP accepts a code only if it is the stored one and, where attempts are limited,
  -- no more than the limit were made, this one included.
  pub verify_register_otp_lem :
      (verify_register_otp {r = r} lib svc email code w).0 ≡ ok tt → IsVerified
  unfolding verify_register_otp get_otp
  verify_register_otp_lem e =
      let address = sanitize_email lib email in
      elim (Result-cases (r.get (otp_register_key address) w.store)) [
        | inr (x, g) ↦ absurd (ground arith)
        | inl (hashed, g) ↦
            elim (Result-cases (increment_attempts r address svc.config.ttl w.store).0) [
              | inr (x, c) ↦ absurd (ground arith)
              | inl (n, c) ↦
                  let right =
                    judged r svc address (trim_space lib code) hashed n counted_world
                      (ground arith) in
                  let exact = attempts-exact r address svc.config.ttl n w.store c in
                  record {
                    hashed = hashed;
                    stored = r.get-value _ hashed w.store g;
                    matches = right.0;
                    within = elim right.1 [ inl z ↦ inl z | inr le ↦ inr (omega arith) ];
                  }
            ]
      ]

  -- An accepted code came to the judgement.
  accepted_at :
      (verify_register_otp {r = r} lib svc email code w).0 ≡ ok tt
      → (hashed : String) × (n : ℕ) × (verify_register_otp {r = r} lib svc email code w
          ≡ judge svc (sanitize_email lib email) (trim_space lib code) hashed n counted_world)
  unfolding verify_register_otp get_otp
  accepted_at e =
      let address = sanitize_email lib email in
      elim (Result-cases (r.get (otp_register_key address) w.store)) [
        | inr (x, g) ↦ absurd (ground arith)
        | inl (hashed, g) ↦
            elim (Result-cases (increment_attempts r address svc.config.ttl w.store).0) [
              | inr (x, c) ↦ absurd (ground arith)
              | inl (n, c) ↦ (hashed, n, ground arith)
            ]
      ]

module _ (r : Redis) (lib : TextLib) (svc : OtpService) (email : String) where
  -- Without a stored code no code is accepted.
  no_code :
      (code : String) (w : World r)
      → r.value (otp_register_key (sanitize_email lib email)) w.store ≡ none
      → (verify_register_otp {r = r} lib svc email code w).0 ≢ ok tt
  no_code code w gone e =
      let stored = (verify_register_otp_lem r lib svc email code w e).stored in absurd (cc)

  -- A code that was accepted is spent: where DEL does not fail on the stored code, no code is
  -- accepted for the address after it, until a new one is stored.
  pub code_once :
      (code code' : String) (w : World r)
      → Deletes r (sanitize_email lib email)
      → (verify_register_otp {r = r} lib svc email code w).0 ≡ ok tt
      → (verify_register_otp lib svc email code'
          (verify_register_otp {r = r} lib svc email code w).1).0
        ≢ ok tt
  code_once code code' w d e =
      let (hashed, n, same) = accepted_at r lib svc email code w e in
      let right = (rw same at e) in
      no_code code' (verify_register_otp lib svc email code w).1 (
        rw same
          (spent r svc (sanitize_email lib email) (trim_space lib code) hashed n _ d (inl right)))

  -- The last attempt that the limit allows, right or wrong, spends the stored code: where the code
  -- was read and the attempt counted, and DEL does not fail on the code, nothing is stored for the
  -- address after it.
  pub last_attempt :
      (code hashed : String) (n : ℕ) (w : World r)
      → Deletes r (sanitize_email lib email)
      → svc.repo ≡ true
      → sanitize_email lib email ≢ ""
      → trim_space lib code ≢ ""
      → get_otp r (sanitize_email lib email) w.store ≡ ok hashed
      → (increment_attempts r (sanitize_email lib email) svc.config.ttl w.store).0 ≡ ok n
      → 0 < svc.config.max_attempts
      → svc.config.max_attempts
        ≤ suc (r.counter (otp_attempt_key (sanitize_email lib email)) w.store)
      → r.value
          (otp_register_key (sanitize_email lib email))
          (verify_register_otp {r = r} lib svc email code w).1.store
        ≡ none
  last_attempt code hashed n w d repo address clean got counted limited last =
      let exact = attempts-exact r (sanitize_email lib email) svc.config.ttl n w.store counted in
      let same = reaches r lib svc email code w hashed n repo address clean got counted in
      rw same (
        spent r svc (sanitize_email lib email) (trim_space lib code) hashed n _ d
          (inr (limited, omega arith)))
