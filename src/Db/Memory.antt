-- ===== src/Db/Memory.antt =====
-- A driver in memory, which shows that the laws of a driver can hold. A table may refuse to be read
-- or to be written.
use yourz_gift.Base.{
  ℕ, String, ◌≡◌, refl, Bool, true, false, if◌then◌else◌, Option, none, some, List, [], ◌∷◌, ◌++◌,
  arith, filter, amend, length, any,
}
use yourz_gift.Db.{Model, removed, Driver, Attempt, done, failed, live, has_key, both}

pub record Store (R : Type 0) : Type 0 where
  pub rows : List R
  pub now : ℕ
  pub no_read : Option String
  pub no_write : Option String

module _ {R : Type 0} (m : Model R) where
  abbrev mem_create : R → Store R → Attempt (Store R)
  mem_create r s = elim s.no_write [
    | none ↦
        if any (has_key m (m.key r)) s.rows
        then failed "duplicate key"
        else done (record s { rows = s.rows ++ m.stamp s.now r ∷ [] })
    | some e ↦ failed e
  ]

  abbrev mem_amend : (R → Bool) → (R → R) → Store R → Store R
  mem_amend p f s = record s { rows = amend (both (live m) p) f s.rows }

  abbrev mem_save : R → Store R → Attempt (Store R)
  mem_save r s = elim s.no_write [
    | none ↦ done (mem_amend (has_key m (m.key r)) (λ _. m.touch s.now r) s)
    | some e ↦ failed e
  ]

  abbrev mem_update : (R → Bool) → (R → R) → Store R → Attempt (ℕ × Store R)
  mem_update p f s = elim s.no_write [
    | none ↦
        done (length (filter (both (live m) p) s.rows), mem_amend p (λ r. m.touch s.now (f r)) s)
    | some e ↦ failed e
  ]

  abbrev mem_delete : (R → Bool) → Store R → Attempt (Store R)
  mem_delete p s = elim s.no_write [
    | none ↦ done (record s { rows = removed m s.now p s.rows })
    | some e ↦ failed e
  ]

  pub create_law :
      (r : R) (s s' : Store R) → mem_create r s ≡ done s' → s'.rows ≡ s.rows ++ m.stamp s.now r ∷ []
  create_law r s s' e = ground arith

  pub fresh_law :
      (r : R) (s s' : Store R) → mem_create r s ≡ done s' → any (has_key m (m.key r)) s.rows ≡ false
  fresh_law r s s' e = ground arith

  pub save_law :
      (r : R) (s s' : Store R)
      → any (both (live m) (has_key m (m.key r))) s.rows ≡ true
      → mem_save r s ≡ done s'
      → s'.rows ≡ amend (both (live m) (has_key m (m.key r))) (λ _. m.touch s.now r) s.rows
  save_law r s s' h e = ground arith

  pub rows_law :
      (p : R → Bool) (f : R → R) (s s' : Store R) (n : ℕ)
      → mem_update p f s ≡ done (n, s')
      → n ≡ length (filter (both (live m) p) s.rows)
  rows_law p f s s' n e = ground arith

  pub update_law :
      (p : R → Bool) (f : R → R) (s s' : Store R) (n : ℕ)
      → mem_update p f s ≡ done (n, s')
      → s'.rows ≡ amend (both (live m) p) (λ r. m.touch s.now (f r)) s.rows
  update_law p f s s' n e = ground arith

  pub delete_law :
      (p : R → Bool) (s s' : Store R)
      → mem_delete p s ≡ done s'
      → s'.rows ≡ removed m s.now p s.rows
  delete_law p s s' e = ground arith

  abbrev pub memory : Driver R m
  memory = record {
    Table = Store R;
    contents = λ s. s.rows;
    clock = λ s. s.now;
    read_fault = λ s. s.no_read;
    create = mem_create;
    save = mem_save;
    update = mem_update;
    delete = mem_delete;
    arrange = λ _ rows. rows;
    count-arrange = λ _ _ _. refl;
    contents-create = create_law;
    create-fresh = fresh_law;
    contents-save = save_law;
    rows-update = rows_law;
    contents-update = update_law;
    contents-delete = delete_law;
  }

abbrev pub table : {R : Type 0} → List R → Store R
table rows = record { rows = rows; now = 100; no_read = none; no_write = none }
