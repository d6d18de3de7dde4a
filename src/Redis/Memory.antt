-- ===== src/Redis/Memory.antt =====
-- A Redis in memory that never fails, as functions of the key; a key with a text has a minute left.
use yourz_gift.Base.{
  ℕ, suc, String, true, false, not, any, filter, List, [], ◌∷◌, ◌≡◌, ◌≢◌, refl, ◌∙◌, ◌==◌, eq_iff,
  eq_refl, arith, Option, some, none, Result, ok, err, redis_nil, if◌then◌else◌, ℤ, pos, negsuc,
}
use yourz_gift.Redis.{Redis}

pub record Keys : Type 0 where
  pub texts : String → Option String
  pub counts : String → ℕ
  pub sets : String → List String

abbrev pub no_keys : Keys
no_keys = record { texts = λ _. none; counts = λ _. 0; sets = λ _. [] }

module _ {A : Type 0} where
  -- The function changed at one key.
  unfoldable pub at_key : String → A → (String → A) → String → A
  at_key k v f k' = if k' == k then v else f k'

  pub at_key-same : (k : String) (v : A) (f : String → A) → at_key k v f k ≡ v
  unfolding at_key
  at_key-same k v f = ground (arith, eq_refl k)

  pub at_key-other :
      (k : String) (v : A) (f : String → A) (k' : String) → k' ≢ k → at_key k v f k' ≡ f k'
  unfolding at_key
  at_key-other k v f k' apart = ground (arith, eq_iff k' k)

abbrev get_text : Option String → Result String
get_text none = err redis_nil
get_text (some v) = ok v

pub get_text-some : (m : Option String) (v : String) → get_text m ≡ ok v → m ≡ some v
get_text-some m v e = ground arith

abbrev minute : Option String → ℤ
minute none = negsuc 1
minute (some v) = pos 60

pub added : (k x : String) (s : Keys) → any (λ y. y == x) (at_key k (x ∷ s.sets k) s.sets k) ≡ true
unfolding any
added k x s = rw (at_key-same k (x ∷ s.sets k) s.sets) (ground (arith, eq_refl x))

without :
    (x : String) (xs : List String) → any (λ y. y == x) (filter (λ y. not (y == x)) xs) ≡ false
unfolding any filter
without x [] = refl
without x (y ∷ ys) = ground (arith, without x ys)

pub removed :
    (k x : String) (s : Keys)
    → any (λ y. y == x) (at_key k (filter (λ y. not (y == x)) (s.sets k)) s.sets k) ≡ false
removed k x s =
    rw (at_key-same k (filter (λ y. not (y == x)) (s.sets k)) s.sets) (without x (s.sets k))

abbrev pub memory_redis : Redis
memory_redis = record {
  Store = Keys;
  value = λ k s. s.texts k;
  counter = λ k s. s.counts k;
  get = λ k s. get_text (s.texts k);
  set = λ k v t s. (ok tt, record s { texts = at_key k (some v) s.texts });
  del = λ k s. (
    ok tt,
    record {
      texts = at_key k none s.texts;
      counts = at_key k 0 s.counts;
      sets = at_key k [] s.sets;
    },
  );
  incr = λ k s. (ok (suc (s.counts k)), record s { counts = at_key k (suc (s.counts k)) s.counts });
  expire = λ k t s. (ok tt, s);
  ttl = λ k s. ok (minute (s.texts k));
  members = λ k s. s.sets k;
  sadd = λ k x s. (ok tt, record s { sets = at_key k (x ∷ s.sets k) s.sets });
  srem =
      λ k x s. (ok tt, record s { sets = at_key k (filter (λ y. not (y == x)) (s.sets k)) s.sets });
  smembers = λ k s. ok (s.sets k);
  get-value = λ k v s e. get_text-some (s.texts k) v e;
  set-value = λ k v t s e. at_key-same k (some v) s.texts;
  set-others = λ k v t s k' n. at_key-other k (some v) s.texts k' n;
  set-counters = λ k v t s k' n. refl;
  del-value = λ k s e. at_key-same k none s.texts;
  del-counter = λ k s e. at_key-same k 0 s.counts;
  del-others = λ k s k' n. at_key-other k none s.texts k' n;
  del-counters = λ k s k' n. at_key-other k 0 s.counts k' n;
  incr-ok = λ k s n e. ground arith;
  incr-counter = λ k s n e. at_key-same k (suc (s.counts k)) s.counts ∙ ground arith;
  incr-others = λ k s k' n. refl;
  expire-values = λ k t s k'. refl;
  expire-counters = λ k t s k'. refl;
  sadd-values = λ k x s k'. refl;
  srem-values = λ k x s k'. refl;
  sadd-members = λ k x s e. added k x s;
  srem-members = λ k x s e. removed k x s;
  del-members = λ k s k' n. at_key-other k [] s.sets k' n;
  set-members = λ k v t s k' n. refl;
  expire-members = λ k t s k'. refl;
}
