-- ===== src/Session/Others.antt =====
-- internal/services/session/session_service.go: DestroyOtherSessions.
use yourz_gift.Base.{
  Error, err, ◌⊎◌, String, ◌≡◌, ◌≢◌, refl, sym, ap, ◌∙◌, false, List, [], ◌∷◌, none, ok, inl, inr,
  arith, bind-ok, All, ◌==◌, eq_iff, Result-cases, Bool-cases,
}
use yourz_gift.Domain.Session.{Session}
use yourz_gift.Redis.{Redis}
use yourz_gift.Session.Repo.{
  Codec, session_key, user_sessions_key, session-access, session-refresh, get_by_session_id,
  collect, get_by_user_id, delete,
}
use yourz_gift.Session.{delete_others, destroy_other_sessions}
use yourz_gift.Session.Keys.{key-apart}
use yourz_gift.Session.Ending.{lost_session, delete_commands-others, delete_lem}

module _ (r : Redis) (json : Codec) where
  -- Delete leaves the session of another id, whatever it answers.
  delete-keeps :
      (id current : String) (s : r.Store)
      → current ≢ id
      → r.value (session_key current) (delete r json id s).1 ≡ r.value (session_key current) s
  unfolding delete
  delete-keeps id current s apart = elim (Result-cases (get_by_session_id r json id s)) [
    | inr (x, f) ↦ ground arith
    | inl (x, f) ↦
        let same =
          delete_commands-others r json id x s (session_key current)
            (key-apart "session:" current id apart) (session-access current x.access_token)
            (session-refresh current x.refresh_token) in
        ground arith
  ]

  -- A session that is not there does not come back by a deletion.
  delete-none :
      (id gone : String) (s : r.Store)
      → r.value (session_key gone) s ≡ none
      → r.value (session_key gone) (delete r json id s).1 ≡ none
  unfolding delete
  delete-none id gone s h = elim (Bool-cases (gone == id)) [
    | inr apart ↦ delete-keeps id gone s (λ e. different e apart) ∙ h
    | inl level ↦ elim (Result-cases (get_by_session_id r json id s)) [
      | inr (x, f) ↦ ground arith
      | inl (x, f) ↦ absurd (
          lost_session r json id x s
            (ap (λ k. r.value (session_key k) s) (sym ((eq_iff gone id).0 level)) ∙ h) f)
    ]
  ]
    where
      different : gone ≡ id → (gone == id) ≡ false → ⊥
      different e apart = let t = (eq_iff gone id).1 e in absurd (cc)

  delete_others-keeps :
      (current : String) (xs : List Session) (s : r.Store)
      → r.value (session_key current) (delete_others r json current xs s).1
        ≡ r.value (session_key current) s
  unfolding delete_others
  delete_others-keeps current [] s = refl
  delete_others-keeps current (x ∷ xs) s = elim (Bool-cases (x.session_id == current)) [
    | inl same ↦ let rest = delete_others-keeps current xs s in ground arith
    | inr other ↦
        let kept = delete-keeps x.session_id current s (λ e. apart e other) in
        let rest = delete_others-keeps current xs (delete r json x.session_id s).1 in
        elim (Result-cases (delete r json x.session_id s).0) [
          | inl (u, f) ↦ ground arith
          | inr (y, f) ↦ ground arith
        ]
  ]
    where
      apart : current ≡ x.session_id → (x.session_id == current) ≡ false → ⊥
      apart e other = let t = (eq_iff x.session_id current).1 (sym e) in absurd (cc)

  delete_others-none :
      (current gone : String) (xs : List Session) (s : r.Store)
      → r.value (session_key gone) s ≡ none
      → r.value (session_key gone) (delete_others r json current xs s).1 ≡ none
  unfolding delete_others
  delete_others-none current gone [] s h = h
  delete_others-none current gone (x ∷ xs) s h =
      let kept = delete-none x.session_id gone s h in
      let rest = delete_others-none current gone xs (delete r json x.session_id s).1 kept in
      let rest' = delete_others-none current gone xs s h in
      elim (Bool-cases (x.session_id == current)) [
        | inl same ↦ ground arith
        | inr other ↦ elim (Result-cases (delete r json x.session_id s).0) [
          | inl (u, f) ↦ ground arith
          | inr (y, f) ↦ ground arith
        ]
      ]

  -- The sessions of the list but the current one are not there.
  abbrev pub OthersGone : String → List Session → r.Store → Type 0
  OthersGone current xs s =
      All (λ x. (x.session_id ≡ current) ⊎ (r.value (session_key x.session_id) s ≡ none)) xs

  delete_others-gone :
      (current : String) (xs : List Session) (s s' : r.Store)
      → delete_others r json current xs s ≡ (ok tt, s')
      → OthersGone current xs s'
  unfolding delete_others
  delete_others-gone current [] s s' e = tt
  delete_others-gone current (x ∷ xs) s s' e = elim (Bool-cases (x.session_id == current)) [
    | inl same ↦ (
      inl ((eq_iff x.session_id current).0 same),
      delete_others-gone current xs s s' (ground arith),
    )
    | inr other ↦
        let (u, f, k) =
          bind-ok (delete r json x.session_id) (λ _. delete_others r json current xs) s s' tt
            (ground arith) in
        let (_, _, ended) =
          delete_lem r json x.session_id s (delete r json x.session_id s).1 (ground arith) in
        (
          inr (
              ap (λ p. r.value (session_key x.session_id) p.1) (sym k)
              ∙ delete_others-none current x.session_id xs (delete r json x.session_id s).1
                  ended.gone),
          delete_others-gone current xs (delete r json x.session_id s).1 s' k,
        )
  ]

  collect-values :
      (user_id : String) (ids : List String) (s : r.Store) (k : String)
      → r.value k (collect r json user_id ids s).1 ≡ r.value k s
  unfolding collect
  collect-values user_id [] s k = refl
  collect-values user_id (id ∷ ids) s k =
      let kept = collect-values user_id ids s k in
      let rest = collect-values user_id ids (r.srem (user_sessions_key user_id) id s).1 k in
      let same = r.srem-values (user_sessions_key user_id) id s k in
      elim (Result-cases (get_by_session_id r json id s)) [
        | inl (x, f) ↦ ground arith
        | inr (x, f) ↦ ground arith
      ]

  get_by_user_id-values :
      (user_id : String) (s : r.Store) (k : String)
      → r.value k (get_by_user_id r json user_id s).1 ≡ r.value k s
  unfolding get_by_user_id
  get_by_user_id-values user_id s k =
      elim (Result-cases (r.smembers (user_sessions_key user_id) s)) [
        | inl (ids, f) ↦ ground (arith, collect-values user_id ids s k)
        | inr (x, f) ↦ ground arith
      ]

  -- DestroyOtherSessions leaves the current session, whatever it answers; and it answers with an error, or
  -- every other session that GetByUserID found for the user is gone.
  pub destroy_other_sessions_lem :
      (user_id current : String) (s : r.Store)
      → (r.value (session_key current) (destroy_other_sessions r json user_id current s).1
          ≡ r.value (session_key current) s)
        × (((e : Error) × ((destroy_other_sessions r json user_id current s).0 ≡ err e))
            ⊎ ((xs : List Session) × ((get_by_user_id r json user_id s).0 ≡ ok xs)
                × OthersGone current xs (destroy_other_sessions r json user_id current s).1))
  unfolding destroy_other_sessions
  destroy_other_sessions_lem user_id current s = (keeps, ends)
    where
      keeps :
          r.value (session_key current) (destroy_other_sessions r json user_id current s).1
          ≡ r.value (session_key current) s
      keeps =
          let read = get_by_user_id-values user_id s (session_key current) in
          elim (Result-cases (get_by_user_id r json user_id s).0) [
            | inr (x, f) ↦ ground arith
            | inl (xs, f) ↦
                ground (arith, delete_others-keeps current xs (get_by_user_id r json user_id s).1)
          ]

      done_well :
          (destroy_other_sessions r json user_id current s).0 ≡ ok tt
          → (xs : List Session) × ((get_by_user_id r json user_id s).0 ≡ ok xs)
            × OthersGone current xs (destroy_other_sessions r json user_id current s).1
      done_well e =
          let s' = (destroy_other_sessions r json user_id current s).1 in
          let (xs, f, k) =
            bind-ok (get_by_user_id r json user_id) (delete_others r json current) s s' tt
              (λ i. (e i, s')) in
          (xs, f, delete_others-gone current xs (get_by_user_id r json user_id s).1 s' k)

      ends :
          ((e : Error) × ((destroy_other_sessions r json user_id current s).0 ≡ err e))
          ⊎ ((xs : List Session) × ((get_by_user_id r json user_id s).0 ≡ ok xs)
              × OthersGone current xs (destroy_other_sessions r json user_id current s).1)
      ends = elim (Result-cases (destroy_other_sessions r json user_id current s).0) [
        | inl (tt, f) ↦ inr (done_well f)
        | inr (x, f) ↦ inl (x, f)
      ]
