-- ===== src/Gift/Responses.antt =====
-- internal/services/gift/service.go: what guests are told of the items, and what a reservation checks.
use yourz_gift.Base.{
  ℕ, ◌<◌, String, ◌≡◌, ◌≢◌, ◌↔◌, refl, ap, sym, ◌∙◌, true, false, List, [], ◌∷◌, ok, err, arith,
  length, filter, ltb, eqb, if◌then◌else◌, eq_iff, Result-cases, inl, inr, insufficient_quantity,
  sub_ℕ, All,
}
use yourz_gift.Base.Text.{TextLib}
use yourz_gift.Base.Keys.{All-amend-intro}
use yourz_gift.Db.{done, Attempt-cases, first, scan, live, has_key, both}
use yourz_gift.Db.Laws.{first-All, first-holds}
use yourz_gift.Domain.Gift.{GiftItem, GiftReservation, GiftList, gift_list}
use yourz_gift.Dto.{GiftItemPublicResponse, GiftListPublicResponse}
use yourz_gift.Repo.Generic.{store, get_by_id}
use yourz_gift.Gift.{Gorm, Database, Call, Service}
use yourz_gift.Repo.Columns.{contains}
use yourz_gift.Gift.Repo.{
  reserved_of, is_open_item, get_reserved_quantities, store_if_available, reserve_body,
  create_reservation_with_availability,
}
use yourz_gift.Gift.Items.{item_response, build_item_responses}
use yourz_gift.Gift.Lists.{get_owner_list, delete_list}
use yourz_gift.Gift.Visibility.{shown_list}
use yourz_gift.Gift.Public.{count_items, get_shown_list, get_public_list, get_public_items}

module _ {g : Gorm} where
  -- The sum that GetReservedQuantities gives for an item is the sum of the transaction.
  sum_read :
      (ids : List String) (reserved : String → ℕ) (id : String) (db : Database g)
      → get_reserved_quantities ids db ≡ ok reserved
      → contains ids id ≡ true
      → (rows : List GiftReservation) × (scan g.reservations db.reservations ≡ ok rows)
        × (reserved id ≡ reserved_of id rows)
  unfolding get_reserved_quantities contains
  sum_read [] reserved id db e there = absurd (ground arith)
  sum_read (i ∷ ids) reserved id db e there =
      elim (Result-cases (scan g.reservations db.reservations)) [
        | inr (x, f) ↦ absurd (ground arith)
        | inl (rows, f) ↦
            let sums : reserved ≡ (λ k. if contains (i ∷ ids) k then reserved_of k rows else 0) =
              ground arith in
            (rows, f, ap (λ h. h id) sums ∙ rw there refl)
      ]

  -- The remaining quantity that the row of an open item shows is exact: where GetReservedQuantities
  -- was asked for the item, CreateReservationWithAvailability on the same database refuses a
  -- reservation of it for want of stock exactly where the reservation asks for more than remains, if
  -- it asks for anything.
  pub quantity_remaining_iff :
      (lib : TextLib) (ids : List String) (reserved : String → ℕ) (item : GiftItem)
      (r : GiftReservation) (db : Database g)
      → get_reserved_quantities ids db ≡ ok reserved
      → contains ids r.item_id ≡ true
      → first g.items (is_open_item r.item_id) db.items ≡ ok item
      → 0 < r.quantity
      → (create_reservation_with_availability r db
          ≡ (err (insufficient_quantity (sub_ℕ item.quantity (reserved r.item_id))), db))
        ↔ ((item_response lib reserved item).quantity_remaining < r.quantity)
  unfolding create_reservation_with_availability reserve_body store_if_available item_response store
  quantity_remaining_iff lib ids reserved item r db e there found asks =
      let (rows, f, sum) = sum_read ids reserved r.item_id db e there in
      let holds = first-holds g.items (is_open_item r.item_id) db.items item found in
      let same : item.id ≡ r.item_id = ground (arith, eq_iff item.id r.item_id) in
      let row : reserved item.id ≡ reserved_of r.item_id rows = ap reserved same ∙ sum in
      (λ k. ground arith, λ k. ground arith)

-- How many rows have something left, and how many have nothing left.
abbrev shown_counts : List GiftItemPublicResponse → ℕ × ℕ
shown_counts rows = (
  length (filter (λ row. ltb 0 row.quantity_remaining) rows),
  length (filter (λ row. eqb row.quantity_remaining 0) rows),
)

count_items_lem : (rows : List GiftItemPublicResponse) → count_items rows ≡ shown_counts rows
unfolding count_items filter
count_items_lem [] = refl
count_items_lem (row ∷ rows) = ground (arith, count_items_lem rows)

module _ {g : Gorm} (lib : TextLib) (call : Call) (svc : Service) where
  items_state : (l : String) (db : Database g) → (build_item_responses lib l false db).1 ≡ db
  unfolding build_item_responses
  items_state l db = ground arith

  counted :
      (code : String) (l : GiftList) (items : List GiftItemPublicResponse) (db db' : Database g)
      (page : GiftListPublicResponse)
      → get_public_list lib call svc code db ≡ (ok page, db')
      → get_shown_list lib call code db ≡ (ok l, db)
      → (build_item_responses lib l.id false db).0 ≡ ok items
      → (page.available_items, page.reserved_items) ≡ count_items items
  unfolding get_public_list
  counted code l items db db' page e seen k = ground arith

  -- The two counts on the page of a list are the numbers of the rows of GetPublicItems, on the same
  -- database, of which something is left and of which nothing is left.
  pub public_counts :
      (code : String) (db db' db'' : Database g) (page : GiftListPublicResponse)
      (rows : List GiftItemPublicResponse)
      → get_public_list lib call svc code db ≡ (ok page, db')
      → get_public_items lib call code db ≡ (ok rows, db'')
      → (page.available_items ≡ length (filter (λ row. ltb 0 row.quantity_remaining) rows))
        × (page.reserved_items ≡ length (filter (λ row. eqb row.quantity_remaining 0) rows))
  unfolding get_public_list get_public_items
  public_counts code db db' db'' page rows e f =
      elim (Result-cases (get_shown_list lib call code db).0) [
        | inr (x, h) ↦ absurd (ground arith)
        | inl (l, h) ↦
            let seen = shown_list lib call code l db h in
            elim (Result-cases (build_item_responses lib l.id false db).0) [
              | inr (x, k) ↦ absurd (ground arith)
              | inl (items, k) ↦
                  let same : items ≡ rows = ground arith in
                  let counts = counted code l items db db' page e seen k in
                  let all = counts ∙ count_items_lem items ∙ ap shown_counts same in
                  (ap (λ n. n.0) all, ap (λ n. n.1) all)
            ]
      ]

module _ {g : Gorm} where
  gone :
      (id : String) (db : Database g) (t : g.lists.Table)
      → g.lists.delete (has_key gift_list id) db.lists ≡ done t
      → All (λ r. both (live gift_list) (has_key gift_list id) r ≡ true → ⊥) (g.lists.contents t)
  gone id db t e =
      rw (g.lists.contents-delete (has_key gift_list id) db.lists t e)
        (All-amend-intro _ _ _ (λ x p k. ground arith) (λ x p k. ground arith))

  -- A list that is deleted is gone: after it, nobody reads the list by its id, so no operation that
  -- begins with the owner's check passes it.
  pub delete_list_lem :
      (u id : String) (db db' : Database g)
      → delete_list u id db ≡ (ok tt, db')
      → (u' : String) (l : GiftList) (s : Database g) → s.lists ≡ db'.lists
      → (get_owner_list u' id s).0 ≢ ok l
  unfolding delete_list get_owner_list get_by_id
  delete_list_lem u id db db' e u' l s same e' =
      elim (Attempt-cases (g.lists.delete (has_key gift_list id) db.lists)) [
        | inr (x, c) ↦ ground arith
        | inl (t, c) ↦
            let table : db'.lists ≡ t = ground arith in
            let read : get_by_id g.lists id s.lists ≡ ok l = ground arith in
            let found : get_by_id g.lists id t ≡ ok l = rw (sym table) (rw (sym same) read) in
            first-All g.lists (has_key gift_list id) t l
              (λ r. both (live gift_list) (has_key gift_list id) r ≡ true → ⊥) found
              (gone id db t c) (first-holds g.lists (has_key gift_list id) t l found)
      ]
