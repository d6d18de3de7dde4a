-- ===== src/Db.antt =====
-- The storage that the repositories work on: what they take from gorm.io/gorm and PostgreSQL, as a
-- parameter. A driver has the tables of one model, its statements, and the documented effect of a
-- statement that succeeds. The WHERE conditions, sums and orders of the source are functions on the
-- rows that a statement ranges over.
pub mod Laws
pub mod Memory
use yourz_gift.Base.{
  ℕ, String, ◌≡◌, refl, ◌⊎◌, inl, inr, Bool, true, false, not, ◌&&◌, Option, none, some, List, [],
  ◌∷◌, ◌++◌, ◌==◌, if◌then◌else◌, filter, amend, any, length, head?, Error, record_not_found, fault,
  Result, ok, err,
}

-- What gorm reads of a struct's tags: the primary key, the columns that are compared with a text,
-- whether a deletion stamps the row (gorm.DeletedAt) or takes it away, that stamp, and the times
-- that it writes on a create and an update.
pub record Model (R : Type 0) : Type 0 where
  pub key : R → String
  pub has_column : String → Bool
  pub column : String → R → String
  pub soft_delete : Bool
  pub is_deleted : R → Bool
  pub mark_deleted : ℕ → R → R
  pub stamp : ℕ → R → R
  pub touch : ℕ → R → R

-- A statement is done, or the database refuses it with a message.
pub data Attempt (A : Type 0) : Type 0 where
  done : A → Attempt A
  failed : String → Attempt A

abbrev pub to_result : {A : Type 0} → Attempt A → Result A
to_result (done a) = ok a
to_result (failed s) = err (fault s)

pub Attempt-cases :
    {A : Type 0} (m : Attempt A) → ((a : A) × (m ≡ done a)) ⊎ ((s : String) × (m ≡ failed s))
Attempt-cases (done a) = inl (a, refl)
Attempt-cases (failed s) = inr (s, refl)

abbrev pub both : {R : Type 0} → (R → Bool) → (R → Bool) → R → Bool
both p q r = p r && q r

module _ {R : Type 0} (m : Model R) where
  -- A soft-deleted row is not found by a query.
  abbrev pub live : R → Bool
  live r = not (m.is_deleted r)

  abbrev pub has_key : String → R → Bool
  has_key id r = m.key r == id

-- The rows that a deletion leaves.
abbrev pub removed : {R : Type 0} → Model R → ℕ → (R → Bool) → List R → List R
removed m now p rows =
    if m.soft_delete
    then amend (both (live m) p) (m.mark_deleted now) rows
    else filter (λ r. not (p r)) rows

-- `contents` lists every row of a table, the soft-deleted ones too, the oldest first.
pub record Driver (R : Type 0) (m : Model R) : Type 1 where
  pub Table : Type 0
  pub contents : Table → List R
  pub clock : Table → ℕ
  pub read_fault : Table → Option String
  pub create : R → Table → Attempt Table
  pub save : R → Table → Attempt Table
  pub update : (R → Bool) → (R → R) → Table → Attempt (ℕ × Table)
  pub delete : (R → Bool) → Table → Attempt Table
  -- ORDER BY
  pub arrange : List String → List R → List R
  pub count-arrange :
      (terms : List String) (p : R → Bool) (rows : List R)
      → length (filter p (arrange terms rows)) ≡ length (filter p rows)
  pub contents-create :
      (r : R) (t t' : Table)
      → create r t ≡ done t'
      → contents t' ≡ contents t ++ m.stamp (clock t) r ∷ []
  -- The primary key: a row with the key of another one is not inserted.
  pub create-fresh :
      (r : R) (t t' : Table) → create r t ≡ done t' → any (has_key m (m.key r)) (contents t) ≡ false
  -- Save writes all columns of the row with the key; this is about a key that a live row has.
  pub contents-save :
      (r : R) (t t' : Table)
      → any (both (live m) (has_key m (m.key r))) (contents t) ≡ true
      → save r t ≡ done t'
      → contents t'
        ≡ amend (both (live m) (has_key m (m.key r))) (λ _. m.touch (clock t) r) (contents t)
  pub rows-update :
      (p : R → Bool) (f : R → R) (t t' : Table) (n : ℕ)
      → update p f t ≡ done (n, t')
      → n ≡ length (filter (both (live m) p) (contents t))
  pub contents-update :
      (p : R → Bool) (f : R → R) (t t' : Table) (n : ℕ)
      → update p f t ≡ done (n, t')
      → contents t' ≡ amend (both (live m) p) (λ r. m.touch (clock t) (f r)) (contents t)
  pub contents-delete :
      (p : R → Bool) (t t' : Table)
      → delete p t ≡ done t'
      → contents t' ≡ removed m (clock t) p (contents t)

abbrev pub first_row : {R : Type 0} → List R → Result R
first_row [] = err record_not_found
first_row (r ∷ rs) = ok r

module _ {R : Type 0} {m : Model R} (d : Driver R m) where
  -- The rows that a statement on the table ranges over, or the error that it meets.
  unfoldable pub scan : d.Table → Result (List R)
  scan t = elim (d.read_fault t) [ none ↦ ok (d.contents t) | some s ↦ err (fault s) ]

  -- SELECT * WHERE p
  unfoldable pub find : (R → Bool) → d.Table → Result (List R)
  unfolding scan
  find p t = elim (scan t) [ ok rows ↦ ok (filter (both (live m) p) rows) | err e ↦ err e ]

  -- First: the first such row, or gorm.ErrRecordNotFound. The conditions of the source hold of one
  -- live row at most, by a primary key or a unique index, so the order does not matter.
  unfoldable pub first : (R → Bool) → d.Table → Result R
  unfolding find
  first p t = elim (find p t) [ ok rows ↦ first_row rows | err e ↦ err e ]
