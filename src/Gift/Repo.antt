-- ===== src/Gift/Repo.antt =====
-- internal/repositories/gift/gift.go: the queries of items and of reservations.
pub mod Availability
use yourz_gift.Base.{
  ℕ, String, Bool, true, false, not, ◌&&◌, ◌||◌, ◌+◌, List, [], ◌∷◌, ◌==◌, ltb, leb, eqb,
  if◌then◌else◌, filter, any, sum_by, sort_by, sub_ℕ, record_not_found, insufficient_quantity,
  fault, Result, ok, err, Exec,
}
use yourz_gift.Db.{done, failed, live, scan, find, first}
use yourz_gift.Domain.Gift.{GiftItem, GiftReservation, gift_reservation, status_confirmed}
use yourz_gift.Dto.{GiftItemPriority}
use yourz_gift.Repo.Columns.{contains}
use yourz_gift.Repo.Generic.{store, writes}
use yourz_gift.Gift.{Gorm, Database, transaction}

-- ORDER BY priority ASC, created_at ASC
abbrev by_priority : GiftItem → GiftItem → Bool
by_priority a b =
    ltb a.priority b.priority || (eqb a.priority b.priority && leb a.created_at b.created_at)

-- WHERE item_id = ? AND status = 'confirmed', among the rows that are not deleted
abbrev pub counts_for : String → GiftReservation → Bool
counts_for item_id r =
    live gift_reservation r && (r.item_id == item_id && r.status == status_confirmed)

-- COALESCE(SUM(quantity), 0) over those rows
unfoldable pub reserved_of : String → List GiftReservation → ℕ
reserved_of item_id rows = sum_by (λ r. r.quantity) (filter (counts_for item_id) rows)

-- WHERE id = ? AND is_active = true AND is_archived = false
abbrev pub is_open_item : String → GiftItem → Bool
is_open_item id i = i.id == id && i.is_active && not i.is_archived

module _ {g : Gorm} where
  unfoldable pub get_items_by_list : String → Bool → Database g → Result (List GiftItem)
  get_items_by_list list_id include_archived db =
      elim (find g.items
        (λ i.
          i.list_id == list_id
          && i.is_active
          && (if include_archived then true else not i.is_archived))
        db.items) [ err e ↦ err e | ok items ↦ ok (sort_by by_priority items) ]

  -- The loop of ReorderItems, inside its transaction.
  unfoldable pub reorder_loop : String → List GiftItemPriority → Exec (Database g) (Unit {0})
  reorder_loop list_id [] db = (ok tt, db)
  reorder_loop list_id (item ∷ items) db =
      elim (g.items.update (λ r. r.id == item.id && r.list_id == list_id)
        (λ r. record r { priority = item.priority }) db.items) [
          | failed s ↦ (err (fault s), db)
          | done (n, t) ↦ elim (eqb n 0) [
            | true ↦ (err record_not_found, record db { items = t })
            | false ↦ reorder_loop list_id items (record db { items = t })
          ]
        ]

  unfoldable pub reorder_items : String → List GiftItemPriority → Exec (Database g) (Unit {0})
  unfolding transaction
  reorder_items list_id items = transaction (reorder_loop list_id items)

  -- The map from an item to its reserved quantity, 0 where the query has no row.
  unfoldable pub get_reserved_quantities : List String → Database g → Result (String → ℕ)
  get_reserved_quantities [] db = ok (λ _. 0)
  get_reserved_quantities (id ∷ ids) db = elim (scan g.reservations db.reservations) [
    | err e ↦ err e
    | ok rows ↦ ok (λ item_id. if contains (id ∷ ids) item_id then reserved_of item_id rows else 0)
  ]

  -- The body of the transaction once the item is locked and the sum is read. The source compares
  -- item.Quantity-reserved < reservation.Quantity on `int`.
  unfoldable pub store_if_available : GiftItem → ℕ → GiftReservation → Exec (Database g) (Unit {0})
  unfolding store
  store_if_available item reserved reservation db =
      if ltb item.quantity (reserved + reservation.quantity)
      then (err (insufficient_quantity (sub_ℕ item.quantity reserved)), db)
      else writes (λ s. s.reservations) (λ t s. record s { reservations = t })
          (store g.reservations reservation) db

  unfoldable pub reserve_body : GiftReservation → Exec (Database g) (Unit {0})
  unfolding store_if_available
  reserve_body reservation db = elim (first g.items (is_open_item reservation.item_id) db.items) [
    | err e ↦ (err e, db)
    | ok item ↦ elim (scan g.reservations db.reservations) [
      | err e ↦ (err e, db)
      | ok rows ↦ store_if_available item (reserved_of reservation.item_id rows) reservation db
    ]
  ]

  unfoldable pub create_reservation_with_availability :
      GiftReservation → Exec (Database g) (Unit {0})
  unfolding transaction reserve_body
  create_reservation_with_availability reservation = transaction (reserve_body reservation)

  -- JOIN gift_items: the join reads the items that are deleted too.
  unfoldable pub get_reservations_by_list : String → Database g → Result (List GiftReservation)
  get_reservations_by_list list_id db = elim (scan g.items db.items) [
    | err e ↦ err e
    | ok items ↦
        elim (find g.reservations (λ r. any (λ i. i.id == r.item_id && i.list_id == list_id) items)
          db.reservations) [
            | err e ↦ err e
            | ok rows ↦ ok (sort_by (λ a b. leb b.created_at a.created_at) rows)
          ]
  ]
