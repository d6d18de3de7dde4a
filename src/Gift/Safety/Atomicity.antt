-- ===== src/Gift/Safety/Atomicity.antt =====
-- internal/services/gift/service.go: an operation that answers with an error has changed nothing.
use yourz_gift.Base.{String, ◌≡◌, List, arith, Error, Result, err, Exec}
use yourz_gift.Base.Text.{TextLib}
use yourz_gift.Dto.{
  GiftListCreate, GiftListUpdate, GiftItemCreate, GiftItemUpdate, GiftItemPriority,
  GiftReservationCreate,
}
use yourz_gift.Gift.{Gorm, Database, Call, Service}
use yourz_gift.Gift.Lists.{create_list, delete_list, update_list}
use yourz_gift.Gift.Items.{delete_item, update_item, create_item, reorder}
use yourz_gift.Gift.Reservations.{
  new_reservation, mark_reservation_thanked, cancel_reservation, create_public_reservation,
}
use yourz_gift.Gift.Friends.{
  request_between, request_friend, update_friend_status, accept_friend, reject_friend,
  delete_friend,
}
use yourz_gift.Gift.Repo.{create_reservation_with_availability, reorder_items}
use yourz_gift.Gift.Repo.{reorder_loop, reserve_body}
use yourz_gift.Gift.Repo.Availability.{transaction-err}
use yourz_gift.Domain.Gift.{GiftReservation, GiftFriend, status_accepted, status_rejected}

-- If the operation answers with an error, the database is as it was.
abbrev pub IsAtomic : {g : Gorm} {A : Type 0} → Exec (Database g) A → Type 0
IsAtomic {g} op = (db : Database g) (e : Error) → (op db).0 ≡ err e → (op db).1 ≡ db

module _ {g : Gorm} where
  pub create_reservation-IsAtomic :
      (r : GiftReservation) → IsAtomic {g = g} (create_reservation_with_availability r)
  unfolding create_reservation_with_availability
  create_reservation-IsAtomic r db e h = transaction-err (reserve_body r) db e h

module _ {g : Gorm} (lib : TextLib) (call : Call) where
  create_list-IsAtomic :
      (u : String) (req : GiftListCreate) → IsAtomic {g = g} (create_list lib call u req)
  unfolding create_list
  create_list-IsAtomic u req db e h = ground arith

  update_list-IsAtomic :
      (u id : String) (req : GiftListUpdate) → IsAtomic {g = g} (update_list lib call u id req)
  unfolding update_list
  update_list-IsAtomic u id req db e h = ground arith

  delete_list-IsAtomic : (u id : String) → IsAtomic {g = g} (delete_list u id)
  unfolding delete_list
  delete_list-IsAtomic u id db e h = ground arith

  create_item-IsAtomic :
      (u id : String) (req : GiftItemCreate) → IsAtomic {g = g} (create_item lib call u id req)
  unfolding create_item
  create_item-IsAtomic u id req db e h = ground arith

  update_item-IsAtomic :
      (u id : String) (req : GiftItemUpdate) → IsAtomic {g = g} (update_item lib call u id req)
  unfolding update_item
  update_item-IsAtomic u id req db e h = ground arith

  delete_item-IsAtomic : (u id : String) → IsAtomic {g = g} (delete_item u id)
  unfolding delete_item
  delete_item-IsAtomic u id db e h = ground arith

  reorder_items-IsAtomic :
      (id : String) (items : List GiftItemPriority) → IsAtomic {g = g} (reorder_items id items)
  unfolding reorder_items
  reorder_items-IsAtomic id items db e h = transaction-err (reorder_loop id items) db e h

  reorder-IsAtomic :
      (u id : String) (items : List GiftItemPriority) → IsAtomic {g = g} (reorder u id items)
  unfolding reorder
  reorder-IsAtomic u id items db e h = ground (arith, reorder_items-IsAtomic id items db e)

  -- Whatever an owner's operation on lists and items fails with, the database is as it was; the
  -- new order of the items is all or nothing.
  pub owner_operations-IsAtomic :
      (u id : String)
      → ((req : GiftListCreate) → IsAtomic {g = g} (create_list lib call u req))
        × ((req : GiftListUpdate) → IsAtomic {g = g} (update_list lib call u id req))
        × IsAtomic {g = g} (delete_list u id)
        × ((req : GiftItemCreate) → IsAtomic {g = g} (create_item lib call u id req))
        × ((req : GiftItemUpdate) → IsAtomic {g = g} (update_item lib call u id req))
        × IsAtomic {g = g} (delete_item u id)
        × ((items : List GiftItemPriority) → IsAtomic {g = g} (reorder u id items))
  owner_operations-IsAtomic u id = (
    create_list-IsAtomic u,
    update_list-IsAtomic u id,
    delete_list-IsAtomic u id,
    create_item-IsAtomic u id,
    update_item-IsAtomic u id,
    delete_item-IsAtomic u id,
    reorder-IsAtomic u id,
  )

  mark-IsAtomic : (u id : String) → IsAtomic {g = g} (mark_reservation_thanked lib call u id)
  unfolding mark_reservation_thanked
  mark-IsAtomic u id db e h = ground arith

  cancel-IsAtomic : (u id why : String) → IsAtomic {g = g} (cancel_reservation lib call u id why)
  unfolding cancel_reservation
  cancel-IsAtomic u id why db e h = ground arith

  reserve-IsAtomic :
      (code id : String) (req : GiftReservationCreate)
      → IsAtomic {g = g} (create_public_reservation lib call code id req)
  unfolding create_public_reservation
  reserve-IsAtomic code id req db e h =
      ground (arith, create_reservation-IsAtomic (new_reservation lib call id req) db e)

  -- A guest's reservation that fails, and a failed change of a reservation by the owner, leave the
  -- database as it was.
  pub reservation_operations-IsAtomic :
      (u id : String)
      → IsAtomic {g = g} (mark_reservation_thanked lib call u id)
        × ((why : String) → IsAtomic {g = g} (cancel_reservation lib call u id why))
        × ((code : String) (req : GiftReservationCreate)
            → IsAtomic {g = g} (create_public_reservation lib call code id req))
  reservation_operations-IsAtomic u id =
      (mark-IsAtomic u id, cancel-IsAtomic u id, λ code. reserve-IsAtomic code id)

module _ {g : Gorm} (svc : Service) (call : Call) where
  request_between-IsAtomic :
      (u t : String) (r : Result GiftFriend) → IsAtomic {g = g} (request_between svc call u t r)
  unfolding request_between
  request_between-IsAtomic u t r db e h = ground arith

  request_friend-IsAtomic :
      (lib : TextLib) (u email : String) → IsAtomic {g = g} (request_friend svc call lib u email)
  unfolding request_friend
  request_friend-IsAtomic lib u email db e h = ground arith

  update_friend_status-IsAtomic :
      (u id status : String) → IsAtomic {g = g} (update_friend_status svc call u id status)
  unfolding update_friend_status
  update_friend_status-IsAtomic u id status db e h = ground arith

  delete_friend-IsAtomic : (u id : String) → IsAtomic {g = g} (delete_friend svc call u id)
  unfolding delete_friend
  delete_friend-IsAtomic u id db e h = ground arith

  -- A request for a friendship that fails with an error, an answer to one and the end of one have
  -- changed nothing, with or without the optional repositories.
  pub friend_operations-IsAtomic :
      (lib : TextLib) (u id email : String)
      → IsAtomic {g = g} (request_friend svc call lib u email)
        × IsAtomic {g = g} (accept_friend svc call u id)
        × IsAtomic {g = g} (reject_friend svc call u id)
        × IsAtomic {g = g} (delete_friend svc call u id)
  unfolding accept_friend reject_friend
  friend_operations-IsAtomic lib u id email = (
    request_friend-IsAtomic lib u email,
    update_friend_status-IsAtomic u id status_accepted,
    update_friend_status-IsAtomic u id status_rejected,
    delete_friend-IsAtomic u id,
  )
