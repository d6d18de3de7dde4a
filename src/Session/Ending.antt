-- ===== src/Session/Ending.antt =====
-- internal/services/session and internal/repositories/session: the end of a session.
use mathlib.Core.Path.{subst}
use yourz_gift.Base.{
  any, false, ℕ, ◌≤◌, ◌<◌, String, ◌≡◌, ◌≢◌, ◌↔◌, ap, ◌∙◌, true, ltb, none, ok, err, inl, inr,
  arith, gets, bind-ok, message, ◌==◌, Result-cases, Bool-cases,
}
use yourz_gift.Domain.Session.{Session}
use yourz_gift.Redis.{Redis, pipeline}
use yourz_gift.Session.Repo.{
  Codec, session_key, user_sessions_key, access_token_session_key, refresh_token_session_key,
  session-access, session-refresh, access-refresh, users-access, users-refresh, get_by_session_id,
  get_by_token, get_by_refresh_token, delete, delete_commands,
}
use yourz_gift.Session.{validate_session}
use yourz_gift.Session.Keys.{pipeline-AllOk, pipeline-run_all}
use yourz_gift.Session.Tokens.{lost_token, lost_refresh_token}

module _ (r : Redis) (json : Codec) where
  pub lost_session :
      (id : String) (y : Session) (s : r.Store)
      → r.value (session_key id) s ≡ none
      → get_by_session_id r json id s ≢ ok y
  unfolding get_by_session_id
  lost_session id y s gone e = elim (Result-cases (r.get (session_key id) s)) [
    | inr (x, f) ↦ ground arith
    | inl (v, f) ↦ let there = r.get-value (session_key id) v s f in absurd (cc)
  ]

  -- Nothing leads to the session any more, its id is not in the set of its user's sessions, and the
  -- text under every other key is as it was.
  pub record IsEnded (id : String) (x : Session) (s s' : r.Store) : Type 0 where
    pub gone : r.value (session_key id) s' ≡ none
    pub no_session : (y : Session) → get_by_session_id r json id s' ≢ ok y
    pub no_access : (y : Session) → get_by_token r json x.access_token s' ≢ ok y
    pub no_refresh : (y : Session) → get_by_refresh_token r json x.refresh_token s' ≢ ok y
    pub unlisted : any (λ y. y == id) (r.members (user_sessions_key x.user_id) s') ≡ false
    pub others :
        (k : String)
        → k ≢ session_key id
        → k ≢ access_token_session_key x.access_token
        → k ≢ refresh_token_session_key x.refresh_token
        → r.value k s' ≡ r.value k s

  -- The commands of Delete write no other key, whatever they answer.
  pub delete_commands-others :
      (id : String) (x : Session) (s : r.Store) (k : String)
      → k ≢ session_key id
      → k ≢ access_token_session_key x.access_token
      → k ≢ refresh_token_session_key x.refresh_token
      → r.value k (pipeline (delete_commands r json id x) s).1 ≡ r.value k s
  delete_commands-others id x s k a b c =
      let s1 = (r.del (session_key id) s).1 in
      let s2 = (r.srem (user_sessions_key x.user_id) id s1).1 in
      let s3 = (r.del (access_token_session_key x.access_token) s2).1 in
      rw (pipeline-run_all (delete_commands r json id x) s) (
        r.del-others (refresh_token_session_key x.refresh_token) s3 k c
        ∙ r.del-others (access_token_session_key x.access_token) s2 k b
        ∙ r.srem-values (user_sessions_key x.user_id) id s1 k
        ∙ r.del-others (session_key id) s k a)

  commands-IsEnded :
      (id : String) (x : Session) (s : r.Store)
      → (pipeline (delete_commands r json id x) s).0 ≡ ok tt
      → IsEnded id x s (pipeline (delete_commands r json id x) s).1
  commands-IsEnded id x s e =
      let (e1, (e2, (e3, (e4, _)))) = pipeline-AllOk (delete_commands r json id x) s e in
      let ks = session_key id in
      let ku = user_sessions_key x.user_id in
      let ka = access_token_session_key x.access_token in
      let kr = refresh_token_session_key x.refresh_token in
      let s1 = (r.del ks s).1 in
      let s2 = (r.srem (user_sessions_key x.user_id) id s1).1 in
      let s3 = (r.del ka s2).1 in
      let s4 = (r.del kr s3).1 in
      let gone : r.value ks s4 ≡ none =
        r.del-others kr s3 ks (session-refresh id x.refresh_token)
        ∙ r.del-others ka s2 ks (session-access id x.access_token)
        ∙ r.srem-values (user_sessions_key x.user_id) id s1 ks
        ∙ r.del-value ks s e1 in
      let set_kept : r.members ku s4 ≡ r.members ku s2 =
        r.del-members kr s3 ku (users-refresh x.user_id x.refresh_token)
        ∙ r.del-members ka s2 ku (users-access x.user_id x.access_token) in
      let same = delete_commands-others id x s in
      let last = pipeline-run_all (delete_commands r json id x) s in
      record {
        gone = rw last gone;
        no_session = λ y. lost_session id y _ (rw last gone);
        no_access = λ y. lost_token r json x.access_token y _ (
            rw last (
              r.del-others kr s3 ka (access-refresh x.access_token x.refresh_token)
              ∙ r.del-value ka s2 e3));
        no_refresh =
            λ y. lost_refresh_token r json x.refresh_token y _ (rw last (r.del-value kr s3 e4));
        unlisted = rw last (ap (any (λ y. y == id)) set_kept ∙ r.srem-members ku id s1 e2);
        others = same;
      }

  -- Where Delete succeeds, the session was there; now neither its id nor its tokens lead to a session,
  -- its id is not in the set of its user's sessions, and the text under every other key is as it was.
  pub delete_lem :
      (id : String) (s s' : r.Store)
      → delete r json id s ≡ (ok tt, s')
      → (x : Session) × (get_by_session_id r json id s ≡ ok x) × IsEnded id x s s'
  unfolding delete
  delete_lem id s s' e =
      let (x, f, k) = bind-ok (gets (get_by_session_id r json id)) _ s s' tt e in
      (x, f, subst (IsEnded id x s) (ap (λ p. p.1) k) (commands-IsEnded id x s (ap (λ p. p.0) k)))

  -- ValidateSession answers with a session exactly where the token leads to it and it has not
  -- expired. It answers that the session has expired exactly where the token leads to one that has; then
  -- it has deleted that one.
  pub validate_session_iff :
      (now : ℕ) (token : String) (x : Session) (s : r.Store)
      → (((validate_session r json now token s).0 ≡ ok x)
          ↔ ((get_by_token r json token s ≡ ok x) × (now ≤ x.expires_at)))
        × (((validate_session r json now token s).0 ≡ err (message "session expired")) ↔ (
            (y : Session) × (get_by_token r json token s ≡ ok y)
            × (y.expires_at < now)
            × ((validate_session r json now token s).1 ≡ (delete r json y.session_id s).1)))
  unfolding validate_session
  validate_session_iff now token x s = (
    (λ e. passes e, λ h. let live = h.1 in let found = h.0 in ground arith),
    (λ e. expires e, λ h. let (y, found, late, _) = h in ground arith),
  )
    where
      passes :
          (validate_session r json now token s).0 ≡ ok x
          → (get_by_token r json token s ≡ ok x) × (now ≤ x.expires_at)
      passes e = elim (Result-cases (get_by_token r json token s)) [
        | inr (y, f) ↦ absurd (ground arith)
        | inl (y, f) ↦ elim (Bool-cases (ltb y.expires_at now)) [
          | inl late ↦ absurd (ground arith)
          | inr early ↦ let same : y ≡ x = ground arith in (ground arith, ground arith)
        ]
      ]

      apart : ◌≢◌ {A = String} "session not found or expired" "session expired"
      apart e = let b : false ≡ true = ap (λ t. t == "session expired") e in absurd (cc)

      expires :
          (validate_session r json now token s).0 ≡ err (message "session expired")
          → (y : Session) × (get_by_token r json token s ≡ ok y)
            × (y.expires_at < now)
            × ((validate_session r json now token s).1 ≡ (delete r json y.session_id s).1)
      expires e = elim (Result-cases (get_by_token r json token s)) [
        | inr (y, f) ↦ absurd (apart (ground arith))
        | inl (y, f) ↦ elim (Bool-cases (ltb y.expires_at now)) [
          | inl late ↦ (y, f, ground arith, ground arith)
          | inr early ↦ absurd (ground arith)
        ]
      ]
