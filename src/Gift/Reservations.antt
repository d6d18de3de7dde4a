-- ===== src/Gift/Reservations.antt =====
-- internal/services/gift/service.go: reservations, made by guests and kept by the owner.
use yourz_gift.Base.{
  String, Bool, true, not, ◌&&◌, none, some, List, ◌==◌, gift_list_not_public, Result, Exec, pure,
  gets, guard, ◌>>=◌, ◌>>◌,
}
use yourz_gift.Base.Text.{TextLib, trim_space, strip_html, sanitize_email}
use yourz_gift.Domain.Gift.{GiftList, GiftItem, GiftReservation, status_confirmed, status_canceled}
use yourz_gift.Dto.{GiftReservationCreate}
use yourz_gift.Repo.Generic.{get_by_id, update, writes}
use yourz_gift.Gift.{Gorm, Database, Call}
use yourz_gift.Gift.Repo.{create_reservation_with_availability, get_reservations_by_list}
use yourz_gift.Gift.Lists.{get_owner_list, unless_nil}
use yourz_gift.Gift.Public.{get_shown_list}

-- The reservation that CreatePublicReservation stores.
unfoldable pub new_reservation : TextLib → Call → String → GiftReservationCreate → GiftReservation
new_reservation lib call item_id req = record {
  id = call.uuid;
  item_id = item_id;
  guest_email = sanitize_email lib req.guest_email;
  guest_name = strip_html lib (trim_space lib req.guest_name);
  quantity = req.quantity;
  note = strip_html lib req.note;
  show_name = unless_nil req.show_name true;
  status = status_confirmed;
  thanked_at = none;
  canceled_at = none;
  canceled_by = none;
  cancel_reason = "";
  created_at = call.now;
  updated_at = none;
  deleted_at = none;
}

-- The reservation that MarkReservationThanked saves.
abbrev pub thanked : Call → GiftReservation → GiftReservation
thanked call r = record r { thanked_at = some call.now; updated_at = some call.now }

-- The reservation that CancelReservation saves.
abbrev pub canceled : TextLib → Call → String → String → GiftReservation → GiftReservation
canceled lib call owner_id reason r = record r {
  status = status_canceled;
  canceled_at = some call.now;
  canceled_by = some owner_id;
  cancel_reason = strip_html lib reason;
  updated_at = some call.now;
}

-- item.ListId == list.Id and the item is active and not archived
abbrev pub is_reservable : GiftList → GiftItem → Bool
is_reservable list item = item.list_id == list.id && item.is_active && not item.is_archived

module _ {g : Gorm} where
  abbrev pub write_reservations :
      (g.reservations.Table → Result g.reservations.Table) → Exec (Database g) (Unit {0})
  write_reservations = writes (λ s. s.reservations) (λ t s. record s { reservations = t })

  unfoldable pub get_reservations : String → String → Exec (Database g) (List GiftReservation)
  unfolding get_owner_list get_reservations_by_list
  get_reservations owner_id list_id = do
    get_owner_list owner_id list_id
    gets (get_reservations_by_list list_id)

  -- The checks that MarkReservationThanked and CancelReservation begin with: the reservation, if
  -- its item stands in a list of the owner.
  unfoldable pub get_owner_reservation : String → String → Exec (Database g) GiftReservation
  unfolding get_owner_list
  get_owner_reservation owner_id reservation_id = do
    reservation ← gets (λ s. get_by_id g.reservations reservation_id s.reservations)
    item ← gets (λ s. get_by_id g.items reservation.item_id s.items)
    get_owner_list owner_id item.list_id
    pure reservation

module _ (lib : TextLib) (call : Call) where
  unfoldable pub mark_reservation_thanked :
      {g : Gorm} → String → String → Exec (Database g) GiftReservation
  unfolding get_owner_reservation update
  mark_reservation_thanked {g} owner_id reservation_id = do
    reservation ← get_owner_reservation owner_id reservation_id
    write_reservations (update g.reservations (thanked call reservation))
    pure (thanked call reservation)

  unfoldable pub cancel_reservation :
      {g : Gorm} → String → String → String → Exec (Database g) GiftReservation
  unfolding get_owner_reservation update
  cancel_reservation {g} owner_id reservation_id reason = do
    reservation ← get_owner_reservation owner_id reservation_id
    let reservation' = canceled lib call owner_id reason reservation
    write_reservations (update g.reservations reservation')
    pure reservation'

  unfoldable pub create_public_reservation :
      {g : Gorm} → String → String → GiftReservationCreate → Exec (Database g) GiftReservation
  unfolding get_shown_list new_reservation create_reservation_with_availability
  create_public_reservation {g} share_code item_id req = do
    list ← get_shown_list lib call share_code
    item ← gets (λ s. get_by_id g.items item_id s.items)
    guard (is_reservable list item) gift_list_not_public
    let reservation = new_reservation lib call item_id req
    create_reservation_with_availability reservation
    pure reservation
