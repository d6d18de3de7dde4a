-- ===== src/Session/Tokens.antt =====
-- internal/services/session and internal/repositories/session: a session and its tokens.
use mathlib.Core.Path.{subst}
use yourz_gift.Base.{
  ℕ, ◌-◌, ◌≤◌, String, ◌≡◌, ◌≢◌, sym, ap, ◌∙◌, true, not, leb, some, none, ok, inl, inr, arith, any,
  ◌==◌, gets, bind-ok, guard-ok, message, Result-cases,
}
use yourz_gift.Domain.User.{Users}
use yourz_gift.Domain.Session.{Session, RequestMeta}
use yourz_gift.Redis.{Redis, pipeline}
use yourz_gift.Session.Repo.{
  Codec, session_key, user_sessions_key, access_token_session_key, refresh_token_session_key,
  session-access, session-refresh, access-refresh, users-access, users-refresh, create,
  create_commands, get_by_session_id, get_by_token, get_by_refresh_token,
}
use yourz_gift.Session.{new_session, create_session, validate_session}
use yourz_gift.Session.Keys.{pipeline-AllOk, pipeline-run_all}

module _ (r : Redis) (json : Codec) where
  -- GET answers with the values that are there.
  abbrev pub Answers : r.Store → Type 0
  Answers s = (k v : String) → r.value k s ≡ some v → r.get k s ≡ ok v

  -- The JSON of the session is read back as the session.
  abbrev pub ReadsBack : Session → Type 0
  ReadsBack x = (text : String) → json.marshal x ≡ ok text → json.unmarshal text ≡ ok x

  -- The session stands under its id, and its tokens lead to the id.
  pub record IsStored (id : String) (x : Session) (s : r.Store) : Type 0 where
    pub text : String
    pub encoded : json.marshal x ≡ ok text
    pub by_id : r.value (session_key id) s ≡ some text
    pub by_access : r.value (access_token_session_key x.access_token) s ≡ some id
    pub by_refresh : r.value (refresh_token_session_key x.refresh_token) s ≡ some id

  found_by_id :
      (id : String) (x : Session) (s : r.Store)
      → IsStored id x s
      → ReadsBack x
      → Answers s
      → get_by_session_id r json id s ≡ ok x
  unfolding get_by_session_id
  found_by_id id x s h back answers =
      let got = answers (session_key id) h.text h.by_id in
      let again = back h.text h.encoded in ground arith

  pub found_by_token :
      (id : String) (x : Session) (s : r.Store)
      → IsStored id x s
      → ReadsBack x
      → Answers s
      → get_by_token r json x.access_token s ≡ ok x
  unfolding get_by_token
  found_by_token id x s h back answers =
      let got = answers (access_token_session_key x.access_token) id h.by_access in
      let again = found_by_id id x s h back answers in ground arith

  pub found_by_refresh_token :
      (id : String) (x : Session) (s : r.Store)
      → IsStored id x s
      → ReadsBack x
      → Answers s
      → get_by_refresh_token r json x.refresh_token s ≡ ok x
  unfolding get_by_refresh_token
  found_by_refresh_token id x s h back answers =
      let got = answers (refresh_token_session_key x.refresh_token) id h.by_refresh in
      let again = found_by_id id x s h back answers in ground arith

  -- A token without a key leads to no session.
  pub lost_token :
      (token : String) (y : Session) (s : r.Store)
      → r.value (access_token_session_key token) s ≡ none
      → get_by_token r json token s ≢ ok y
  unfolding get_by_token
  lost_token token y s gone e = elim (Result-cases (r.get (access_token_session_key token) s)) [
    | inr (x, f) ↦ ground arith
    | inl (v, f) ↦ let there = r.get-value (access_token_session_key token) v s f in absurd (cc)
  ]

  pub lost_refresh_token :
      (token : String) (y : Session) (s : r.Store)
      → r.value (refresh_token_session_key token) s ≡ none
      → get_by_refresh_token r json token s ≢ ok y
  unfolding get_by_refresh_token
  lost_refresh_token token y s gone e =
      elim (Result-cases (r.get (refresh_token_session_key token) s)) [
        | inr (x, f) ↦ ground arith
        | inl (v, f) ↦
            let there = r.get-value (refresh_token_session_key token) v s f in absurd (cc)
      ]

  -- What the last three SET commands of Create and RotateTokens leave.
  pub sets-IsStored :
      (id text : String) (ttl : ℕ) (x : Session) (s : r.Store)
      → json.marshal x ≡ ok text
      → r.value (session_key id) s ≡ some text
      → (r.set (access_token_session_key x.access_token) id ttl s).0 ≡ ok tt
      → (r.set
          (refresh_token_session_key x.refresh_token)
          id
          ttl
          (r.set (access_token_session_key x.access_token) id ttl s).1).0
        ≡ ok tt
      → IsStored id x
          (r.set
            (refresh_token_session_key x.refresh_token)
            id
            ttl
            (r.set (access_token_session_key x.access_token) id ttl s).1).1
  sets-IsStored id text ttl x s encoded here e f =
      let ka = access_token_session_key x.access_token in
      let kr = refresh_token_session_key x.refresh_token in
      let s1 = (r.set ka id ttl s).1 in
      record {
        text = text;
        encoded = encoded;
        by_id =
            r.set-others kr id ttl s1 (session_key id) (session-refresh id x.refresh_token)
            ∙ r.set-others ka id ttl s (session_key id) (session-access id x.access_token)
            ∙ here;
        by_access =
            r.set-others kr id ttl s1 ka (access-refresh x.access_token x.refresh_token)
            ∙ r.set-value ka id ttl s e;
        by_refresh = r.set-value kr id ttl s1 f;
      }

  commands-IsStored :
      (ttl : ℕ) (x : Session) (text : String) (s : r.Store)
      → json.marshal x ≡ ok text
      → (pipeline (create_commands r json ttl x text) s).0 ≡ ok tt
      → IsStored x.session_id x (pipeline (create_commands r json ttl x text) s).1
        × (any
              (λ y. y == x.session_id)
              (r.members
                (user_sessions_key x.user_id)
                (pipeline (create_commands r json ttl x text) s).1)
            ≡ true)
  unfolding pipeline
  commands-IsStored ttl x text s encoded e =
      let ks = session_key x.session_id in
      let ku = user_sessions_key x.user_id in
      let ka = access_token_session_key x.access_token in
      let kr = refresh_token_session_key x.refresh_token in
      let id = x.session_id in
      let s1 = (r.set ks text ttl s).1 in
      let s2 = (r.sadd ku id s1).1 in
      let s3 = (r.expire ku ttl s2).1 in
      let s4 = (r.set ka id ttl s3).1 in
      let s5 = (r.set kr id ttl s4).1 in
      let (e1, (e2, (e3, (e4, (e5, _))))) =
        pipeline-AllOk (create_commands r json ttl x text) s e in
      let last = pipeline-run_all (create_commands r json ttl x text) s in
      let there : r.value ks s3 ≡ some text =
        r.expire-values ku ttl s2 ks ∙ r.sadd-values ku id s1 ks ∙ r.set-value ks text ttl s e1 in
      let set_kept : r.members ku s5 ≡ r.members ku s2 =
        r.set-members kr id ttl s4 ku (users-refresh x.user_id x.refresh_token)
        ∙ r.set-members ka id ttl s3 ku (users-access x.user_id x.access_token)
        ∙ r.expire-members ku ttl s2 ku in
      (
        rw last (sets-IsStored id text ttl x s3 encoded there e4 e5),
        rw last (ap (any (λ y. y == id)) set_kept ∙ r.sadd-members ku id s1 e2),
      )

  -- Where Create of a session succeeds, it stands under its id, its tokens lead to the id, and the id is
  -- in the set of its user.
  pub create-IsStored :
      (now : ℕ) (x : Session) (s s' : r.Store)
      → create r json now x s ≡ (ok tt, s')
      → IsStored x.session_id x s'
        × (any (λ y. y == x.session_id) (r.members (user_sessions_key x.user_id) s') ≡ true)
  unfolding create
  create-IsStored now x s s' e =
      let (text, f1, k1) = bind-ok (gets (λ _. json.marshal x)) _ s s' tt e in
      let (_, k2) =
        guard-ok (not (leb x.expires_at now)) (message "session already expired")
          (pipeline (create_commands r json (x.expires_at - now) x text)) s s' tt k1 in
      let (stored, listed) =
        commands-IsStored (x.expires_at - now) x text s f1 (ap (λ p. p.0) k2) in
      (rw (sym (ap (λ p. p.1) k2)) stored, rw (sym (ap (λ p. p.1) k2)) listed)

  -- A session that CreateSession makes is the one that its tokens give: until it expires, ValidateSession
  -- lets the access token pass and answers with the session, and the refresh token leads to it too,
  -- where GET answers and the JSON of the session is read back.
  pub create-validate :
      (uuid : String) (now later hours : ℕ) (user : Users) (access refresh : String)
      (meta : RequestMeta) (x : Session) (s s' : r.Store)
      → create_session r json uuid now hours user access refresh meta s ≡ (ok x, s')
      → later ≤ x.expires_at
      → ReadsBack x
      → Answers s'
      → ((validate_session r json later access s').0 ≡ ok x)
        × (get_by_refresh_token r json refresh s' ≡ ok x)
  unfolding create_session validate_session new_session
  create-validate uuid now later hours user access refresh meta x s s' e alive back answers =
      let new = new_session uuid now _ user access refresh meta in
      let (_, f, k) = bind-ok (create r json now new) _ s s' x e in
      let made : (create r json now new s) ≡ (ok tt, s') = ground arith in
      let same : new ≡ x = ground arith in
      let stored =
        subst (λ y. IsStored y.session_id y s') same (create-IsStored now new s s' made).0 in
      let named : x.access_token ≡ access = ap (λ y. y.access_token) (sym same) in
      let named' : x.refresh_token ≡ refresh = ap (λ y. y.refresh_token) (sym same) in
      let got = found_by_token x.session_id x s' stored back answers in
      let got' = found_by_refresh_token x.session_id x s' stored back answers in
      (ground arith, rw (sym named') got')
