-- ===== src/Limiter/Blocking.antt =====
-- pkg/security/login_limiter.go: when a key is blocked.
use yourz_gift.Base.{
  ℕ, suc, ◌≤◌, ◌<◌, String, ◌≡◌, ◌≢◌, ◌⊎◌, refl, ◌∙◌, Bool, true, false, some, ok, ℤ, arith,
  Result-cases, Bool-cases, inl, inr, leb,
}
use yourz_gift.Redis.{Redis, apart_at}
use yourz_gift.Limiter.{
  Limits, attempt_key, block_key, start_window, block, decide, register_failure,
}

block-attempt : (a b : String) → block_key a ≢ attempt_key b
block-attempt a b = apart_at 6 _ _ refl

module _ (r : Redis) (l : Limits) (name : String) where
  window-counters :
      (n : ℕ) (s : r.Store) (k : String) → r.counter k (start_window r l name n s).1 ≡ r.counter k s
  unfolding start_window
  window-counters n s k = let e = r.expire-counters (attempt_key name) l.window s k in ground arith

  -- What is decided once the failure is counted.
  decided :
      (n : ℕ) (s' s : r.Store) (blocked : Bool) (wait : ℤ)
      → n ≡ suc (r.counter (attempt_key name) s)
      → r.counter (attempt_key name) s' ≡ n
      → (decide r l name n s').0 ≡ ok (blocked, wait)
      → ((blocked ≡ true)
          × (l.limit ≤ suc (r.counter (attempt_key name) s))
          × (r.value (block_key name) (decide r l name n s').1 ≡ some "1"))
        ⊎ ((blocked ≡ false)
            × (suc (r.counter (attempt_key name) s) < l.limit)
            × (r.counter (attempt_key name) (decide r l name n s').1
                ≡ suc (r.counter (attempt_key name) s)))
  unfolding decide block
  decided n s' s blocked wait exact counted e =
      let s3 = (r.set (block_key name) "1" l.block_duration s').1 in
      let others = r.del-others (attempt_key name) s3 (block_key name) (block-attempt name name) in
      elim (Bool-cases (leb l.limit n)) [
        | inr h ↦ inr (ground arith, ground arith, ground arith)
        | inl h ↦ elim (Result-cases (r.set (block_key name) "1" l.block_duration s').0) [
          | inr (x, b) ↦ absurd (ground arith)
          | inl (u, b) ↦
              let stored = r.set-value (block_key name) "1" l.block_duration s' b in
              inl (ground arith, ground arith, ground arith)
        ]
      ]

  -- A failure that is registered blocks the key exactly where it is the limit-th one that is counted,
  -- or a later one. If it does, the block is stored; if not, one failure more is counted.
  pub register_failure_lem :
      (s : r.Store) (blocked : Bool) (wait : ℤ)
      → (register_failure r l name s).0 ≡ ok (blocked, wait)
      → ((blocked ≡ true)
          × (l.limit ≤ suc (r.counter (attempt_key name) s))
          × (r.value (block_key name) (register_failure r l name s).1 ≡ some "1"))
        ⊎ ((blocked ≡ false)
            × (suc (r.counter (attempt_key name) s) < l.limit)
            × (r.counter (attempt_key name) (register_failure r l name s).1
                ≡ suc (r.counter (attempt_key name) s)))
  unfolding register_failure
  register_failure_lem s blocked wait e = elim (Result-cases (r.incr (attempt_key name) s).0) [
    | inr (x, h) ↦ absurd (ground arith)
    | inl (n, h) ↦
        let exact = r.incr-ok (attempt_key name) s n h in
        let counted = r.incr-counter (attempt_key name) s n h in
        let s1 = (r.incr (attempt_key name) s).1 in
        let kept = window-counters n s1 (attempt_key name) in
        let e1 = (rw h at e) in
        rw h (elim (Result-cases (start_window r l name n s1).0) [
          | inr (x, o) ↦ absurd (ground arith)
          | inl (u, o) ↦ rw o (
              decided n (start_window r l name n s1).1 s blocked wait exact (kept ∙ counted)
                (rw o at e1))
        ])
  ]
