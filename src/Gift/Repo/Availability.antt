-- ===== src/Gift/Repo/Availability.antt =====
-- CreateReservationWithAvailability in internal/repositories/gift/gift.go: no gift is given away
-- more often than its quantity, and a refused reservation leaves the database as it was.
use yourz_gift.Base.{
  ℕ, ◌+◌, ◌≤◌, String, ◌≡◌, ◌↔◌, ◌≢◌, ap, ◌∙◌, false, none, List, [], ◌∷◌, ◌++◌, ◌==◌, arith, ltb,
  if◌then◌else◌, filter, sum_by, filter-append, sum_by-append, ok, err, Error, Exec, Result-cases,
  inl, inr, eq_refl, eq_iff, Option-cases,
}
use yourz_gift.Db.{Attempt-cases, done, first, scan}
use yourz_gift.Domain.Gift.{GiftItem, GiftReservation, status_confirmed}
use yourz_gift.Gift.{Gorm, Database, transaction}
use yourz_gift.Gift.Repo.{
  counts_for, reserved_of, is_open_item, store_if_available, reserve_body,
  create_reservation_with_availability,
}
use yourz_gift.Repo.Generic.{store}

pub reserved_of-append :
    (id : String) (rows : List GiftReservation) (r : GiftReservation)
    → reserved_of id (rows ++ r ∷ [])
      ≡ reserved_of id rows + (if counts_for id r then r.quantity else 0)
unfolding reserved_of filter sum_by
reserved_of-append id rows r =
    rw
      (
        filter-append (counts_for id) rows (r ∷ []),
        sum_by-append (λ x. x.quantity) (filter (counts_for id) rows)
            (filter (counts_for id) (r ∷ [])),
      )
      (ground arith)

-- The confirmed quantities of an item in a database.
abbrev pub reserved_in : {g : Gorm} → Database g → String → ℕ
reserved_in {g} db id = reserved_of id (g.reservations.contents db.reservations)

module _ {g : Gorm} where
  -- What a transaction that reserves has read and written.
  pub record IsReserved (r : GiftReservation) (db db' : Database g) : Type 0 where
    pub item : GiftItem
    pub table : g.reservations.Table
    pub found : first g.items (is_open_item r.item_id) db.items ≡ ok item
    pub readable : g.reservations.read_fault db.reservations ≡ none
    pub fits :
        ltb item.quantity
          (reserved_of r.item_id (g.reservations.contents db.reservations) + r.quantity)
        ≡ false
    pub created : g.reservations.create r db.reservations ≡ done table
    pub committed : db.commit ≡ none
    pub after : db' ≡ record db { reservations = table }

  transaction-ok :
      (body : Exec (Database g) (Unit {0})) (db db' : Database g)
      → transaction body db ≡ (ok tt, db')
      → body db ≡ (ok tt, db')
  unfolding transaction
  transaction-ok body db db' e = ground arith

  reserve_body-commit :
      (r : GiftReservation) (db : Database g) → (reserve_body r db).1.commit ≡ db.commit
  unfolding reserve_body store_if_available store scan
  reserve_body-commit r db = ground arith

  transaction-commit :
      (body : Exec (Database g) (Unit {0})) (db db' : Database g)
      → (body db).1.commit ≡ db.commit
      → transaction body db ≡ (ok tt, db')
      → db.commit ≡ none
  unfolding transaction
  transaction-commit body db db' same e = ground arith

  -- An error of a transaction leaves the database as it was.
  pub transaction-err :
      (body : Exec (Database g) (Unit {0})) (db : Database g) (x : Error)
      → (transaction body db).0 ≡ err x
      → (transaction body db).1 ≡ db
  unfolding transaction
  transaction-err body db x e = ground arith

  pub reserve-IsReserved :
      (r : GiftReservation) (db db' : Database g)
      → create_reservation_with_availability r db ≡ (ok tt, db')
      → IsReserved r db db'
  unfolding reserve_body store_if_available store scan create_reservation_with_availability
  reserve-IsReserved r db db' e =
      let b = transaction-ok (reserve_body r) db db' e in
      elim (Result-cases (first g.items (is_open_item r.item_id) db.items)) [
        | inr (x, f) ↦ absurd (ground arith)
        | inl (item, f) ↦ elim (Option-cases (g.reservations.read_fault db.reservations)) [
          | inr (x, q) ↦ absurd (ground arith)
          | inl q ↦ elim (Attempt-cases (g.reservations.create r db.reservations)) [
            | inr (x, c) ↦ absurd (ground arith)
            | inl (t, c) ↦ record {
              item = item;
              table = t;
              found = f;
              readable = q;
              fits = ground arith;
              created = c;
              committed = transaction-commit (reserve_body r) db db' (reserve_body-commit r db) e;
              after = ground arith;
            }
          ]
        ]
      ]

  IsReserved-reserve :
      (r : GiftReservation) (db db' : Database g)
      → IsReserved r db db'
      → create_reservation_with_availability r db ≡ (ok tt, db')
  unfolding create_reservation_with_availability reserve_body store_if_available store scan
  IsReserved-reserve r db db' h = ground arith

  -- A reservation is made exactly when the item is open, the confirmed quantities and the new one
  -- fit into its quantity, and the row is inserted and committed; then only the reservations change.
  pub reserve_iff :
      (r : GiftReservation) (db db' : Database g)
      → (create_reservation_with_availability r db ≡ (ok tt, db')) ↔ IsReserved r db db'
  reserve_iff r db db' = (reserve-IsReserved r db db', IsReserved-reserve r db db')

  reserved_in-IsReserved :
      (r : GiftReservation) (db db' : Database g)
      → r.status ≡ status_confirmed
      → r.deleted_at ≡ none
      → IsReserved r db db'
      → (id : String)
      → reserved_in db' id ≡ reserved_in db id + (if r.item_id == id then r.quantity else 0)
  reserved_in-IsReserved r db db' confirmed kept h id =
      rw
        (
          h.after,
          g.reservations.contents-create r db.reservations h.table h.created,
          reserved_of-append id,
        )
        (rw (confirmed, kept) (ground (arith, eq_refl status_confirmed)))

  -- A confirmed reservation that is made adds its quantity to what is reserved of its item, which
  -- stays within the item's quantity, and to no other item.
  pub reserve-within-stock :
      (r : GiftReservation) (db db' : Database g)
      → r.status ≡ status_confirmed
      → r.deleted_at ≡ none
      → create_reservation_with_availability r db ≡ (ok tt, db')
      → (item : GiftItem) × (first g.items (is_open_item r.item_id) db'.items ≡ ok item)
        × (reserved_in db' r.item_id ≡ reserved_in db r.item_id + r.quantity)
        × (reserved_in db' r.item_id ≤ item.quantity)
        × ((other : String) → other ≢ r.item_id → reserved_in db' other ≡ reserved_in db other)
  reserve-within-stock r db db' confirmed kept e =
      let h = reserve-IsReserved r db db' e in
      let sum = reserved_in-IsReserved r db db' confirmed kept h in
      let fits = h.fits in
      (
        h.item,
        ap (λ s. first g.items (is_open_item r.item_id) s.items) h.after ∙ h.found,
        ground (arith, sum r.item_id, eq_refl r.item_id),
        ground (arith, sum r.item_id, eq_refl r.item_id),
        λ other ne. ground (arith, sum other, eq_iff r.item_id other),
      )
