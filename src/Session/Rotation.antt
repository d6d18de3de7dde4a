-- ===== src/Session/Rotation.antt =====
-- internal/repositories/session/session_repo.go: RotateTokens.
use yourz_gift.Base.{
  ℕ, ◌-◌, String, ◌≡◌, ◌≢◌, ◌⊎◌, sym, ap, ◌∙◌, not, leb, ok, gets, bind-ok, guard-ok, message,
}
use yourz_gift.Domain.Session.{Session}
use yourz_gift.Redis.{Redis, pipeline}
use yourz_gift.Session.Repo.{
  Codec, session_key, user_sessions_key, access_token_session_key, refresh_token_session_key,
  access-session, access-refresh, refresh-session, refresh-access, get_by_session_id, get_by_token,
  get_by_refresh_token, rotated, rotate_commands, rotate_tokens,
}
use yourz_gift.Session.Keys.{unless_same, key-apart, pipeline-AllOk, pipeline-run_all}
use yourz_gift.Session.Tokens.{IsStored, sets-IsStored, lost_token, lost_refresh_token}

module _ (r : Redis) (json : Codec) where
  -- The session has the new tokens, and the old ones lead to no session any more.
  pub record IsRotated (id : String) (now : ℕ) (access refresh : String) (expires_at : ℕ)
      (old : Session) (s' : r.Store) : Type 0 where
    pub stored : IsStored r json id (rotated r json now access refresh expires_at old) s'
    pub no_access :
        (access ≡ old.access_token)
        ⊎ ((y : Session) → get_by_token r json old.access_token s' ≢ ok y)
    pub no_refresh :
        (refresh ≡ old.refresh_token)
        ⊎ ((y : Session) → get_by_refresh_token r json old.refresh_token s' ≢ ok y)

  commands-IsRotated :
      (ttl now expires_at : ℕ) (id access refresh text : String) (old : Session) (s : r.Store)
      → json.marshal (rotated r json now access refresh expires_at old) ≡ ok text
      → (pipeline
          (rotate_commands r json ttl id old
            (rotated r json now access refresh expires_at old)
            text)
          s).0
        ≡ ok tt
      → IsRotated id now access refresh expires_at old
          (pipeline
            (rotate_commands r json ttl id old
              (rotated r json now access refresh expires_at old)
              text)
            s).1
  commands-IsRotated ttl now expires_at id access refresh text old s encoded e =
      let new = rotated r json now access refresh expires_at old in
      let (e1, (e2, (e3, (e4, (e5, _))))) =
        pipeline-AllOk (rotate_commands r json ttl id old new text) s e in
      let last = pipeline-run_all (rotate_commands r json ttl id old new text) s in
      let oa = access_token_session_key old.access_token in
      let or = refresh_token_session_key old.refresh_token in
      let ks = session_key id in
      let ka = access_token_session_key access in
      let kr = refresh_token_session_key refresh in
      let ku = user_sessions_key old.user_id in
      let s1 = (r.del oa s).1 in
      let s2 = (r.del or s1).1 in
      let s3 = (r.set ks text ttl s2).1 in
      let s4 = (r.set ka id ttl s3).1 in
      let s5 = (r.set kr id ttl s4).1 in
      let s6 = (r.expire ku ttl s5).1 in
      let stored =
        sets-IsStored r json id text ttl new s3 encoded (r.set-value ks text ttl s2 e3) e4 e5 in
      rw last (record {
        stored = record {
          text = stored.text;
          encoded = stored.encoded;
          by_id = r.expire-values ku ttl s5 ks ∙ stored.by_id;
          by_access = r.expire-values ku ttl s5 ka ∙ stored.by_access;
          by_refresh = r.expire-values ku ttl s5 kr ∙ stored.by_refresh;
        };
        no_access = unless_same access old.access_token (λ apart y.
            lost_token r json old.access_token y s6 (
              r.expire-values ku ttl s5 oa
              ∙ r.set-others kr id ttl s4 oa (access-refresh old.access_token refresh)
              ∙ r.set-others ka id ttl s3 oa
                  (key-apart "access_token_session:" _ _ (λ same. apart (sym same)))
              ∙ r.set-others ks text ttl s2 oa (access-session old.access_token id)
              ∙ r.del-others or s1 oa (access-refresh old.access_token old.refresh_token)
              ∙ r.del-value oa s e1));
        no_refresh = unless_same refresh old.refresh_token (λ apart y.
            lost_refresh_token r json old.refresh_token y s6 (
              r.expire-values ku ttl s5 or
              ∙ r.set-others kr id ttl s4 or
                  (key-apart "refresh_token_session:" _ _ (λ same. apart (sym same)))
              ∙ r.set-others ka id ttl s3 or (refresh-access old.refresh_token access)
              ∙ r.set-others ks text ttl s2 or (refresh-session old.refresh_token id)
              ∙ r.del-value or s1 e2));
      })

  -- Where RotateTokens succeeds, the session of the id stands there with the new tokens, which lead to
  -- it; a token that was replaced by another one leads to no session.
  pub rotate_tokens_lem :
      (now expires_at : ℕ) (id access refresh : String) (s s' : r.Store)
      → rotate_tokens r json now id access refresh expires_at s ≡ (ok tt, s')
      → (old : Session) × (get_by_session_id r json id s ≡ ok old)
        × IsRotated id now access refresh expires_at old s'
  unfolding rotate_tokens
  rotate_tokens_lem now expires_at id access refresh s s' e =
      let (old, f1, k1) = bind-ok (gets (get_by_session_id r json id)) _ s s' tt e in
      let new = rotated r json now access refresh expires_at old in
      let (text, f2, k2) = bind-ok (gets (λ _. json.marshal new)) _ s s' tt k1 in
      let (_, k3) =
        guard-ok (not (leb expires_at now)) (message "session already expired")
          (pipeline (rotate_commands r json (expires_at - now) id old new text)) s s' tt k2 in
      let run =
        commands-IsRotated (expires_at - now) now expires_at id access refresh text old s f2
          (ap (λ p. p.0) k3) in
      (old, f1, rw (sym (ap (λ p. p.1) k3)) run)
