-- ===== src/Access/Invalidation/Clearing.antt =====
-- internal/cache/permission/cache.go: when DeleteAllUserPermissionKeys leaves no key.
use yourz_gift.Base.{
  ℕ, zero, suc, ◌<◌, String, ◌≡◌, inl, inr, true, none, List, [], ◌∷◌, arith, ok, Option-cases,
  Result-cases,
}
use yourz_gift.Repo.Columns.{contains}
use yourz_gift.Access.{Cache, held}
use yourz_gift.Access.Invalidation.{CacheRedis, delete_keys, delete_all_user_permission_keys}

-- Redis answers: SCAN and DEL do not fail, and each round of a SCAN lowers the rounds that are left.
pub record Answers (client : CacheRedis) (left : ℕ → ℕ) : Type 0 where
  pub scans :
      (cursor : ℕ) (s : Cache)
      → (ids : List String) × (next : ℕ) × (client.scan cursor s ≡ ok (ids, next))
  pub deletes : (ids : List String) (s : Cache) → (client.del ids s).0 ≡ ok tt
  pub nearer :
      (cursor next : ℕ) (s : Cache) (ids : List String)
      → client.scan cursor s ≡ ok (ids, next)
      → 0 < next
      → left next < left cursor

module _ (client : CacheRedis) (u : String) where
  delete_keys-none :
      (ids : List String) (s : Cache) → held u s ≡ none → held u (delete_keys client ids s) ≡ none
  unfolding delete_keys
  delete_keys-none [] s e = e
  delete_keys-none (id ∷ ids) s e = client.del-none (id ∷ ids) s u e

  -- The loop writes no key.
  loop-none :
      (fuel cursor : ℕ) (s : Cache)
      → held u s ≡ none
      → held u (delete_all_user_permission_keys client fuel cursor s) ≡ none
  unfolding delete_all_user_permission_keys
  loop-none zero cursor s e = e
  loop-none (suc fuel) cursor s e = elim (Result-cases (client.scan cursor s)) [
    | inr (x, f) ↦ ground arith
    | inl ((ids, next), f) ↦
        let less = delete_keys-none ids s e in
        let rest = loop-none fuel next (delete_keys client ids s) less in ground arith
  ]

module _ (client : CacheRedis) (left : ℕ → ℕ) (u : String) where
  delete_keys-held :
      (ids : List String) (s : Cache)
      → Answers client left
      → contains ids u ≡ true
      → held u (delete_keys client ids s) ≡ none
  unfolding delete_keys contains
  delete_keys-held [] s a there = absurd (ground arith)
  delete_keys-held (id ∷ ids) s a there =
      client.del-held (id ∷ ids) s u (a.deletes (id ∷ ids) s) there

  loop-held :
      (fuel cursor : ℕ) (s : Cache) (a : Answers client left)
      → left cursor < fuel
      → client.ahead cursor u ≡ true
      → held u (delete_all_user_permission_keys client fuel cursor s) ≡ none
  unfolding delete_all_user_permission_keys
  loop-held zero cursor s a enough there = absurd (omega arith)
  loop-held (suc fuel) cursor s a enough there = elim (Option-cases (held u s)) [
    | inl e ↦ loop-none client u (suc fuel) cursor s e
    | inr (keys, e) ↦
        let (ids, next, f) = a.scans cursor s in
        elim (client.scan-ahead cursor next s ids keys u f there e) [
          | inl found ↦
              let out = delete_keys-held ids s a found in
              let rest = loop-none client u fuel next (delete_keys client ids s) out in ground arith
          | inr (more, later) ↦
              let near = a.nearer cursor next s ids f more in
              let rest = loop-held fuel next (delete_keys client ids s) a (omega arith) later in
              ground arith
        ]
  ]

  -- Where Redis answers, the loop from the first cursor leaves no key, whichever there were.
  pub delete_all_lem :
      (fuel : ℕ) (s : Cache) (a : Answers client left)
      → left 0 < fuel
      → held u (delete_all_user_permission_keys client fuel 0 s) ≡ none
  delete_all_lem fuel s a enough = loop-held fuel 0 s a enough (client.ahead-first u)
