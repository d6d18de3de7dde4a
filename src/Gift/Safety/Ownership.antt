-- ===== src/Gift/Safety/Ownership.antt =====
-- internal/services/gift/service.go: only the owner of a list reads or writes through the owner's
-- operations.
use yourz_gift.Base.{
  String, ◌≡◌, ◌≢◌, Bool, List, arith, eq_iff, forbidden_gift_access, ok, err, Exec,
}
use yourz_gift.Base.Text.{TextLib}
use yourz_gift.Domain.Gift.{GiftList, GiftItem, GiftReservation}
use yourz_gift.Dto.{GiftListUpdate, GiftItemCreate, GiftItemUpdate, GiftItemPriority}
use yourz_gift.Repo.Generic.{get_by_id}
use yourz_gift.Gift.{Gorm, Database, Call}
use yourz_gift.Gift.Lists.{get_owner_list, delete_list, update_list}
use yourz_gift.Gift.Items.{
  get_owner_item, delete_item, update_item, create_item, reorder, get_owner_items,
}
use yourz_gift.Gift.Reservations.{
  get_owner_reservation, get_reservations, mark_reservation_thanked, cancel_reservation,
}

-- The answer to a caller who may not, with nothing changed.
abbrev pub IsRefused : {g : Gorm} {A : Type 0} → Exec (Database g) A → Database g → Type 0
IsRefused op db = op db ≡ (err forbidden_gift_access, db)

module _ {g : Gorm} (user : String) (db : Database g) where
  -- The list is there, and belongs to somebody else.
  pub record IsForeign (list_id : String) : Type 0 where
    pub list : GiftList
    pub found : get_by_id g.lists list_id db.lists ≡ ok list
    pub foreign : list.owner_id ≢ user

  get_owner_list-foreign :
      (list_id : String) → IsForeign list_id → IsRefused (get_owner_list user list_id) db
  unfolding get_owner_list
  get_owner_list-foreign list_id h =
      let f = h.found in let n = h.foreign in ground (arith, eq_iff h.list.owner_id user)

  -- A list of somebody else: every operation on it is refused and changes nothing.
  pub foreign_list-IsRefused :
      (lib : TextLib) (call : Call) (list_id : String)
      → IsForeign list_id
      → IsRefused (delete_list user list_id) db
        × ((req : GiftListUpdate) → IsRefused (update_list lib call user list_id req) db)
        × ((req : GiftItemCreate) → IsRefused (create_item lib call user list_id req) db)
        × ((items : List GiftItemPriority) → IsRefused (reorder user list_id items) db)
        × ((archived : Bool) → IsRefused (get_owner_items lib user list_id archived) db)
        × IsRefused (get_reservations user list_id) db
  unfolding delete_list update_list create_item reorder get_owner_items get_reservations
  foreign_list-IsRefused lib call list_id h =
      let no_list = get_owner_list-foreign list_id h in
      (
        rw no_list,
        λ req. rw no_list,
        λ req. rw no_list,
        λ items. rw no_list,
        λ archived. rw no_list,
        rw no_list,
      )

  -- The item is there, in a list of somebody else.
  pub record IsForeignItem (item_id : String) : Type 0 where
    pub item : GiftItem
    pub found_item : get_by_id g.items item_id db.items ≡ ok item
    pub in_list : IsForeign item.list_id

  -- The reservation is there, of an item in a list of somebody else.
  pub record IsForeignReservation (reservation_id : String) : Type 0 where
    pub reservation : GiftReservation
    pub found_reservation : get_by_id g.reservations reservation_id db.reservations ≡ ok reservation
    pub of_item : IsForeignItem reservation.item_id

  get_owner_item-foreign :
      (item_id : String) → IsForeignItem item_id → IsRefused (get_owner_item user item_id) db
  unfolding get_owner_item
  get_owner_item-foreign item_id h =
      rw h.found_item (rw (get_owner_list-foreign h.item.list_id h.in_list))

  get_owner_reservation-foreign :
      (id : String) → IsForeignReservation id → IsRefused (get_owner_reservation user id) db
  unfolding get_owner_reservation
  get_owner_reservation-foreign id h = rw h.found_reservation (
      rw h.of_item.found_item
        (rw (get_owner_list-foreign h.of_item.item.list_id h.of_item.in_list)))

  -- An item in a list of somebody else: changing it and deleting it are refused and change nothing.
  pub foreign_item-IsRefused :
      (lib : TextLib) (call : Call) (item_id : String)
      → IsForeignItem item_id
      → IsRefused (delete_item user item_id) db
        × ((req : GiftItemUpdate) → IsRefused (update_item lib call user item_id req) db)
  unfolding delete_item update_item
  foreign_item-IsRefused lib call item_id h =
      let no_item = get_owner_item-foreign item_id h in (rw no_item, λ req. rw no_item)

  -- A reservation of an item in a list of somebody else: thanking for it and cancelling it are
  -- refused and change nothing.
  pub foreign_reservation-IsRefused :
      (lib : TextLib) (call : Call) (reservation_id : String)
      → IsForeignReservation reservation_id
      → IsRefused (mark_reservation_thanked lib call user reservation_id) db
        × ((reason : String)
            → IsRefused (cancel_reservation lib call user reservation_id reason) db)
  unfolding mark_reservation_thanked cancel_reservation
  foreign_reservation-IsRefused lib call reservation_id h =
      let no_reservation = get_owner_reservation-foreign reservation_id h in
      (rw no_reservation, λ reason. rw no_reservation)
