-- ===== src/Tests/Invalidation.antt =====
-- A permission cache in memory that SCAN passes in two pages, and a day of requests on it.
use yourz_gift.Base.{
  ℕ, zero, suc, sym, ◌<◌, String, ◌≡◌, ◌⊎◌, inl, inr, refl, Bool, true, false, not, none, some,
  List, [], ◌∷◌, ◌==◌, eq_iff, arith, filter, Result, ok, Bool-cases,
}
use yourz_gift.Repo.Columns.{contains}
use yourz_gift.Access.{Cache, held}
use yourz_gift.Access.Invalidation.{CacheRedis, redis_invalidator}
use yourz_gift.Access.Invalidation.Clearing.{Answers}
use yourz_gift.Access.Gate.Passing.{IsFresh}
use yourz_gift.Access.Gate.History.{
  AccessRequest, is_checked, assigns_permissions, handle_all, handle_all-IsFresh,
}
use yourz_gift.Tests.Sample.{ascii}
use yourz_gift.Tests.Access.{office, office-IsFresh, eve, visitor, boss}

-- The user ids of the entries that pass a test.
abbrev ids_where : (String → Bool) → Cache → List String
ids_where p [] = []
ids_where p ((id, keys) ∷ s) =
    let rest = ids_where p s in elim (p id) [ true ↦ id ∷ rest | false ↦ rest ]

ids_where-held :
    (p : String → Bool) (s : Cache) (keys : List String) (u : String)
    → p u ≡ true
    → held u s ≡ some keys
    → contains (ids_where p s) u ≡ true
unfolding held contains
ids_where-held p [] keys u e h = absurd (cc)
ids_where-held p ((id, ks) ∷ s) keys u e h = elim (Bool-cases (id == u)) [
  | inl this ↦
      let same : id ≡ u = ground (arith, eq_iff id u) in
      let passes : p id ≡ true = rw same e in ground (arith, eq_iff id u)
  | inr other ↦
      let rest = ids_where-held p s keys u e (ground arith) in
      elim (Bool-cases (p id)) [ inl t ↦ ground arith | inr t ↦ ground arith ]
]

abbrev without : List String → Cache → Cache
without ids = filter (λ e. not (contains ids e.0))

without-held :
    (ids : List String) (s : Cache) (u : String)
    → contains ids u ≡ true
    → held u (without ids s) ≡ none
unfolding held filter
without-held ids [] u there = refl
without-held ids ((id, ks) ∷ s) u there =
    let rest = without-held ids s u there in
    elim (Bool-cases (id == u)) [
      | inl this ↦
          let same : id ≡ u = ground (arith, eq_iff id u) in
          let out : contains ids id ≡ true = rw same there in ground arith
      | inr other ↦ elim (Bool-cases (contains ids id)) [
        | inl t ↦ ground arith
        | inr t ↦ ground arith
      ]
    ]

without-none :
    (ids : List String) (s : Cache) (u : String) → held u s ≡ none → held u (without ids s) ≡ none
unfolding held filter
without-none ids [] u e = refl
without-none ids ((id, ks) ∷ s) u e =
    let rest = without-none ids s u in
    elim (Bool-cases (id == u)) [
      | inl this ↦ absurd (ground arith)
      | inr other ↦
          let less = rest (ground arith) in
          elim (Bool-cases (contains ids id)) [ inl t ↦ ground arith | inr t ↦ ground arith ]
    ]

-- The first page has the key of ann, the second the others.
abbrev pages : ℕ → Cache → Result (List String × ℕ)
pages zero s = ok (ids_where (λ id. id == "ann") s, 1)
pages (suc n) s = ok (ids_where (λ id. not (id == "ann")) s, 0)

abbrev behind : ℕ → String → Bool
behind zero u = true
behind (suc n) u = not (u == "ann")

pages-ahead :
    (cursor next : ℕ) (s : Cache) (ids keys : List String) (u : String)
    → pages cursor s ≡ ok (ids, next)
    → behind cursor u ≡ true
    → held u s ≡ some keys
    → (contains ids u ≡ true) ⊎ ((0 < next) × (behind next u ≡ true))
pages-ahead zero next s ids keys u e there h = elim (Bool-cases (u == "ann")) [
  | inl this ↦
      let found = ids_where-held (λ id. id == "ann") s keys u this h in
      let same : ids_where (λ id. id == "ann") s ≡ ids = ground arith in inl (rw (sym same) found)
  | inr other ↦ let one : next ≡ 1 = ground arith in inr (omega arith, rw one (ground arith))
]
pages-ahead (suc n) next s ids keys u e there h =
    let found = ids_where-held (λ id. not (id == "ann")) s keys u there h in
    let same : ids_where (λ id. not (id == "ann")) s ≡ ids = ground arith in
    inl (rw (sym same) found)

abbrev two_pages : CacheRedis
two_pages = record {
  scan = pages;
  del = λ ids s. (ok tt, without ids s);
  ahead = behind;
  ahead-first = λ u. refl;
  scan-ahead = pages-ahead;
  del-held = λ ids s u e there. without-held ids s u there;
  del-none = without-none;
}

abbrev distance : ℕ → ℕ
distance zero = 1
distance (suc n) = 0

pages-total :
    (cursor : ℕ) (s : Cache) → (ids : List String) × (next : ℕ) × (pages cursor s ≡ ok (ids, next))
pages-total zero s = (ids_where (λ id. id == "ann") s, 1, refl)
pages-total (suc n) s = (ids_where (λ id. not (id == "ann")) s, 0, refl)

pages-nearer :
    (cursor next : ℕ) (s : Cache) (ids : List String)
    → pages cursor s ≡ ok (ids, next)
    → 0 < next
    → distance next < distance cursor
pages-nearer zero next s ids e more = let one : next ≡ 1 = ground arith in rw one (omega arith)
pages-nearer (suc n) next s ids e more = let last : next ≡ 0 = ground arith in absurd (omega arith)

two_pages-Answers : Answers two_pages distance
two_pages-Answers = record { scans = pages-total; deletes = λ ids s. refl; nearer = pages-nearer }

-- A check caches the keys of ann, her role loses its permission, and she is checked again.
abbrev day : List AccessRequest
day =
    is_checked true "gifts" "read" visitor (some eve)
    ∷ assigns_permissions boss (λ _. "u0") "r1" []
    ∷ is_checked true "gifts" "read" visitor (some eve)
    ∷ []

handle_all-IsFresh_example :
    IsFresh ascii (handle_all ascii (redis_invalidator two_pages ascii 2) day office)
handle_all-IsFresh_example =
    handle_all-IsFresh ascii two_pages distance 2 day office two_pages-Answers (omega arith)
      office-IsFresh
