-- ===== src/Gift/Stock/Reserve.antt =====
-- CreatePublicReservation keeps the reservations within the quantities.
use mathlib.Core.Path.{subst}
use yourz_gift.Base.{String, ◌≡◌, ◌⊎◌, sym, All-map, arith, eq_iff, ok, Result-cases, inl, inr}
use yourz_gift.Base.Text.{TextLib}
use yourz_gift.Base.Keys.{any_mono, any-eq-false}
use yourz_gift.Db.{first}
use yourz_gift.Db.Laws.{first-any, first-holds, first-only}
use yourz_gift.Domain.Gift.{GiftItem, GiftReservation, gift_reservation}
use yourz_gift.Dto.{GiftReservationCreate}
use yourz_gift.Gift.{Gorm, Database, Call}
use yourz_gift.Gift.Repo.{is_open_item, create_reservation_with_availability}
use yourz_gift.Gift.Repo.Availability.{IsReserved, reserve_iff}
use yourz_gift.Gift.Safety.Atomicity.{create_reservation-IsAtomic}
use yourz_gift.Gift.Reservations.{new_reservation, create_public_reservation}
use yourz_gift.Gift.Stock.{HasItem, IsStocked}
use yourz_gift.Gift.Stock.Rows.{append_row-Stocked}

module _ {g : Gorm} where
  -- The open item that a reservation found.
  open_item :
      (r : GiftReservation) (item : GiftItem) (db : Database g)
      → first g.items (is_open_item r.item_id) db.items ≡ ok item
      → (item.id ≡ r.item_id) × HasItem (g.items.contents db.items) r
  open_item r item db e =
      let h = first-holds g.items (is_open_item r.item_id) db.items item e in
      let same : item.id ≡ r.item_id = ground (arith, eq_iff item.id r.item_id) in
      (
        same,
        any_mono _ _ (g.items.contents db.items)
            (λ x k. ground (arith, eq_iff x.id item.id, eq_iff x.id r.item_id))
            (first-any g.items (is_open_item r.item_id) db.items item e),
      )

  IsReserved-IsStocked :
      (r : GiftReservation) (db db' : Database g)
      → IsReserved r db db'
      → IsStocked db
      → IsStocked db'
  IsReserved-IsStocked r db db' h s =
      let (same, has) = open_item r h.item db h.found in
      let fresh =
        any-eq-false _ _ (g.reservations.create-fresh r db.reservations h.table h.created) in
      let fits = h.fits in
      subst IsStocked (sym h.after) (
        rw (g.reservations.contents-create r db.reservations h.table h.created) (
          append_row-Stocked (gift_reservation.stamp (g.reservations.clock db.reservations) r)
            h.item (All-map (λ x e k. absurd (ground (arith, (eq_iff x.id r.id).1 k))) _ fresh) has
            same
            (first-only g.items (is_open_item r.item_id) db.items h.item h.found s.items_distinct)
            (ground arith) s))

  reserve-IsStocked :
      (r : GiftReservation) (db : Database g)
      → IsStocked db
      → IsStocked (create_reservation_with_availability r db).1
  reserve-IsStocked r db s = elim (Result-cases (create_reservation_with_availability r db).0) [
    | inl (u, e) ↦
        IsReserved-IsStocked r db _
          ((reserve_iff r db (create_reservation_with_availability r db).1).0
            (λ i. (e i, (create_reservation_with_availability r db).1)))
          s
    | inr (x, e) ↦ subst IsStocked (sym (create_reservation-IsAtomic r db x e)) s
  ]

  public_state :
      (lib : TextLib) (call : Call) (code id : String) (req : GiftReservationCreate)
      (db : Database g)
      → ((create_public_reservation lib call code id req db).1 ≡ db)
        ⊎ ((create_public_reservation lib call code id req db).1
            ≡ (create_reservation_with_availability (new_reservation lib call id req) db).1)
  unfolding create_public_reservation
  public_state lib call code id req db = ground arith

  pub create_public-IsStocked :
      (lib : TextLib) (call : Call) (code id : String) (req : GiftReservationCreate)
      (db : Database g)
      → IsStocked db
      → IsStocked (create_public_reservation lib call code id req db).1
  create_public-IsStocked lib call code id req db s = elim (public_state lib call code id req db) [
    | inl e ↦ subst IsStocked (sym e) s
    | inr e ↦ subst IsStocked (sym e) (reserve-IsStocked (new_reservation lib call id req) db s)
  ]
