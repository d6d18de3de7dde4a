-- ===== src/Redis.antt =====
-- What the code takes from github.com/redis/go-redis: a parameter. A command reads or writes one key;
-- a failed command may or may not have written it. Time stands still within a call: keys expire
-- between calls.
pub mod Memory
use Prim.Native.Char.{code}
use Prim.Native.String
use yourz_gift.Base.{
  ℕ, zero, suc, arith, eqb, String, ◌≡◌, ◌≢◌, ap, true, false, ◌==◌, Bool, Option, some, none, List,
  [], ◌∷◌, any, Result, ok, err, Exec, ℤ,
}

pub record Redis : Type 1 where
  pub Store : Type 0
  -- The text of a key, and the number of a counter; 0 where there is none.
  pub value : String → Store → Option String
  pub counter : String → Store → ℕ
  pub get : String → Store → Result String
  pub set : String → String → (ttl : ℕ) → Exec Store (Unit {0})
  pub del : String → Exec Store (Unit {0})
  pub incr : String → Exec Store ℕ
  pub expire : String → (ttl : ℕ) → Exec Store (Unit {0})
  pub ttl : String → Store → Result ℤ
  -- The members of a set; none where there is no set.
  pub members : String → Store → List String
  pub sadd : String → (member : String) → Exec Store (Unit {0})
  pub srem : String → (member : String) → Exec Store (Unit {0})
  pub smembers : String → Store → Result (List String)
  pub get-value : (k v : String) (s : Store) → get k s ≡ ok v → value k s ≡ some v
  pub set-value :
      (k v : String) (t : ℕ) (s : Store)
      → (set k v t s).0 ≡ ok tt
      → value k (set k v t s).1 ≡ some v
  pub set-others :
      (k v : String) (t : ℕ) (s : Store) (k' : String)
      → k' ≢ k
      → value k' (set k v t s).1 ≡ value k' s
  pub set-counters :
      (k v : String) (t : ℕ) (s : Store) (k' : String)
      → k' ≢ k
      → counter k' (set k v t s).1 ≡ counter k' s
  pub del-value : (k : String) (s : Store) → (del k s).0 ≡ ok tt → value k (del k s).1 ≡ none
  pub del-counter : (k : String) (s : Store) → (del k s).0 ≡ ok tt → counter k (del k s).1 ≡ 0
  pub del-others :
      (k : String) (s : Store) (k' : String) → k' ≢ k → value k' (del k s).1 ≡ value k' s
  pub del-counters :
      (k : String) (s : Store) (k' : String) → k' ≢ k → counter k' (del k s).1 ≡ counter k' s
  pub incr-ok : (k : String) (s : Store) (n : ℕ) → (incr k s).0 ≡ ok n → n ≡ suc (counter k s)
  pub incr-counter :
      (k : String) (s : Store) (n : ℕ) → (incr k s).0 ≡ ok n → counter k (incr k s).1 ≡ n
  pub incr-others :
      (k : String) (s : Store) (k' : String) → k' ≢ k → value k' (incr k s).1 ≡ value k' s
  -- EXPIRE with a positive time writes no value.
  pub expire-values :
      (k : String) (t : ℕ) (s : Store) (k' : String) → value k' (expire k t s).1 ≡ value k' s
  pub expire-counters :
      (k : String) (t : ℕ) (s : Store) (k' : String) → counter k' (expire k t s).1 ≡ counter k' s
  pub sadd-values : (k x : String) (s : Store) (k' : String) → value k' (sadd k x s).1 ≡ value k' s
  pub srem-values : (k x : String) (s : Store) (k' : String) → value k' (srem k x s).1 ≡ value k' s
  pub sadd-members :
      (k x : String) (s : Store)
      → (sadd k x s).0 ≡ ok tt
      → any (λ y. y == x) (members k (sadd k x s).1) ≡ true
  pub srem-members :
      (k x : String) (s : Store)
      → (srem k x s).0 ≡ ok tt
      → any (λ y. y == x) (members k (srem k x s).1) ≡ false
  pub del-members :
      (k : String) (s : Store) (k' : String) → k' ≢ k → members k' (del k s).1 ≡ members k' s
  pub set-members :
      (k v : String) (t : ℕ) (s : Store) (k' : String)
      → k' ≢ k
      → members k' (set k v t s).1 ≡ members k' s
  pub expire-members :
      (k : String) (t : ℕ) (s : Store) (k' : String) → members k' (expire k t s).1 ≡ members k' s

-- fmt.Sprintf("%s%s", prefix, name)
abbrev pub key : String → String → String
key String.[] name = name
key (String.◌∷◌ c prefix) name = String.◌∷◌ c (key prefix name)

-- The code of the n-th character, 0 behind the end.
abbrev char_code : ℕ → String → ℕ
char_code n String.[] = 0
char_code zero (String.◌∷◌ c s) = code c
char_code (suc n) (String.◌∷◌ c s) = char_code n s

-- Keys that differ in a character are different keys.
pub apart_at : (n : ℕ) (s t : String) → eqb (char_code n s) (char_code n t) ≡ false → s ≢ t
apart_at n s t e same =
    let level : eqb (char_code n t) (char_code n t) ≡ false = rw same at e in absurd (ground arith)

-- The commands of a pipeline, all of which are run; Exec answers with the first error.
unfoldable pub pipeline : {S : Type 0} → List (Exec S (Unit {0})) → Exec S (Unit {0})
pipeline [] s = (ok tt, s)
pipeline (c ∷ cs) s =
    let rest = pipeline cs (c s).1 in elim (c s).0 [ ok _ ↦ rest | err e ↦ (err e, rest.1) ]
