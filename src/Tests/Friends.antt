-- ===== src/Tests/Friends.antt =====
-- Friend requests, the visibility of lists, expiry and responses on the sample database.
use yourz_gift.Base.{
  ℕ, ◌<◌, String, ◌≡◌, ◌≢◌, ◌↔◌, refl, inl, true, ◌&&◌, none, List, [], ◌∷◌, ok, err, arith, length,
  ◌==◌, insufficient_quantity, sub_ℕ, if◌then◌else◌, ltb, eqb, filter,
}
use yourz_gift.Base.Text.{trim_space, normalize_upper_key, sanitize_email}
use yourz_gift.Db.Memory.{table}
use yourz_gift.Domain.Gift.{
  GiftFriend, status_pending, status_accepted, status_rejected, visibility_public,
}
use yourz_gift.Domain.User.{Users}
use yourz_gift.Dto.{
  GiftListCreate, GiftListUpdate, GiftReservationCreate, GiftItemPublicResponse,
  GiftListPublicResponse,
}
use yourz_gift.Repo.Generic.{get_by_id, get_one_by_field, check_field}
use yourz_gift.Repo.Columns.{contains, validate_column_identifier, is_safe_column_identifier}
use yourz_gift.Gift.{Database}
use yourz_gift.Db.{first}
use yourz_gift.Gift.Repo.{
  reserved_of, get_reserved_quantities, is_open_item, create_reservation_with_availability,
}
use yourz_gift.Gift.Sharing.{shared_by_friend, is_friend_of, get_list_by_share_code}
use yourz_gift.Gift.Lists.{
  get_owner_list, is_gift_list_available, create_list, update_list, delete_list,
}
use yourz_gift.Gift.Items.{item_response}
use yourz_gift.Gift.Public.{get_shown_list, get_public_list, get_public_items, public_response}
use yourz_gift.Gift.Reservations.{new_reservation, create_public_reservation}
use yourz_gift.Gift.Friends.{answered, accept_friend, reject_friend, request_friend}
use yourz_gift.Gift.Friendship.{IsAnswered, Links, answer_iff, answer_once, request_friend_lem}
use yourz_gift.Gift.Visibility.{
  IsReservedBy, shared_by_friend_lem, get_shown_list_iff, create_public_reservation_iff,
}
use yourz_gift.Gift.Expiry.{IsDatedAll, list_operations-IsDatedAll}
use yourz_gift.Gift.Responses.{quantity_remaining_iff, public_counts, delete_list_lem}
use yourz_gift.Tests.Sample.{
  queries, ascii, memory_gorm, sample, wedding, birthday, kettle, vase, one_kettle, two_kettles,
  friendship, now_100, service,
}

-- Ann has asked Bob.
abbrev asked : Database memory_gorm
asked = record sample { friends = table (record friendship { status = status_pending } ∷ []) }

abbrev accepted : GiftFriend
accepted = answered now_100 status_accepted (record friendship { status = status_pending })

abbrev befriended : Database memory_gorm
befriended = (accept_friend service now_100 "bob" "f1" asked).1

answer_run : accept_friend service now_100 "bob" "f1" asked ≡ (ok accepted, befriended)
unfolding queries get_by_id accept_friend
answer_run = refl

answer_iff_example :
    ((accept_friend service now_100 "bob" "f1" asked ≡ (ok accepted, befriended))
      ↔ IsAnswered now_100 "bob" "f1" status_accepted asked accepted befriended)
    × ((reject_friend service now_100 "bob" "f1" asked ≡ (ok accepted, befriended))
        ↔ IsAnswered now_100 "bob" "f1" status_rejected asked accepted befriended)
answer_iff_example = answer_iff service now_100 "bob" "f1" asked accepted befriended refl

-- Bob has accepted; then a list is deleted.
abbrev later : Database memory_gorm
later = record befriended { lists = table [] }

answer_once_example :
    ((accept_friend service now_100 "bob" "f1" later).0 ≢ ok accepted)
    × ((reject_friend service now_100 "bob" "f1" later).0 ≢ ok accepted)
answer_once_example =
    answer_once service now_100 now_100 "bob" "bob" "f1" asked befriended later accepted accepted
      refl (inl answer_run) refl

asks_run : request_friend service now_100 ascii "ann" "bob@x.org" sample ≡ (ok friendship, sample)
unfolding queries get_one_by_field check_field validate_column_identifier is_safe_column_identifier
    request_friend trim_space sanitize_email
asks_run = refl

request_friend_lem_example :
    (target : Users) × (get_one_by_field ascii memory_gorm.accounts "email"
        (sanitize_email ascii "bob@x.org")
        sample.accounts
      ≡ ok target)
    × (target.id ≢ "ann")
    × Links "ann" target.id friendship
    × (friendship.status ≢ status_rejected)
request_friend_lem_example =
    request_friend_lem service now_100 ascii "ann" "bob@x.org" friendship sample sample asks_run

shared_by_friend_lem_example : shared_by_friend "bob" 100 (friendship ∷ []) wedding ≡ (
    is_friend_of "bob" (friendship ∷ []) "ann"
    && is_gift_list_available wedding 100
    && wedding.visibility == visibility_public)
shared_by_friend_lem_example = shared_by_friend_lem "bob" 100 (friendship ∷ []) wedding

get_shown_list_iff_example :
    (get_shown_list ascii now_100 "ABCD2345" sample ≡ (ok wedding, sample)) ↔ (
      (get_list_by_share_code ascii (normalize_upper_key ascii "ABCD2345") sample ≡ ok wedding)
      × (is_gift_list_available wedding 100 ≡ true)
      × (wedding.visibility ≡ visibility_public)
      × (sample ≡ sample))
get_shown_list_iff_example = get_shown_list_iff ascii now_100 "ABCD2345" wedding sample sample

abbrev guest : GiftReservationCreate
guest = record {
  guest_name = "Ann";
  guest_email = "ann@x.org";
  quantity = 2;
  note = "";
  show_name = none;
}

abbrev reserved : Database memory_gorm
reserved = (create_public_reservation ascii now_100 "ABCD2345" "i1" guest sample).1

create_public_reservation_iff_example :
    (create_public_reservation ascii now_100 "ABCD2345" "i1" guest sample
      ≡ (ok (new_reservation ascii now_100 "i1" guest), reserved))
    ↔ IsReservedBy ascii now_100 "ABCD2345" "i1" guest sample
        (new_reservation ascii now_100 "i1" guest)
        reserved
create_public_reservation_iff_example =
    create_public_reservation_iff ascii now_100 "ABCD2345" "i1" guest sample
      (new_reservation ascii now_100 "i1" guest) reserved

sample-IsDatedAll : IsDatedAll sample
sample-IsDatedAll = (λ e. refl, (λ e. absurd (cc), tt))

list_operations-IsDatedAll_example :
    ((req : GiftListCreate) → IsDatedAll (create_list ascii now_100 "ann" req sample).1)
    × ((req : GiftListUpdate) → IsDatedAll (update_list ascii now_100 "ann" "l1" req sample).1)
    × IsDatedAll (delete_list "ann" "l1" sample).1
list_operations-IsDatedAll_example =
    list_operations-IsDatedAll ascii now_100 "ann" "l1" sample sample-IsDatedAll

-- The sums that a guest of Ann's list is shown.
abbrev sums : String → ℕ
sums id = if contains ("i2" ∷ "i1" ∷ []) id then reserved_of id (one_kettle ∷ []) else 0

sums_run : get_reserved_quantities {g = memory_gorm} ("i2" ∷ "i1" ∷ []) sample ≡ ok sums
unfolding queries get_reserved_quantities
sums_run = refl

listed : contains ("i2" ∷ "i1" ∷ []) "i1" ≡ true
unfolding contains
listed = refl

kettle_run : first memory_gorm.items (is_open_item "i1") sample.items ≡ ok kettle
unfolding queries
kettle_run = refl

quantity_remaining_iff_example :
    (create_reservation_with_availability two_kettles sample
      ≡ (err (insufficient_quantity (sub_ℕ kettle.quantity (sums "i1"))), sample))
    ↔ ((item_response ascii sums kettle).quantity_remaining < 2)
quantity_remaining_iff_example =
    quantity_remaining_iff ascii ("i2" ∷ "i1" ∷ []) sums kettle two_kettles sample sums_run listed
      kettle_run (omega arith)

abbrev kettle_response : GiftItemPublicResponse
kettle_response = item_response ascii (λ _. 1) kettle

abbrev vase_response : GiftItemPublicResponse
vase_response = item_response ascii (λ _. 0) vase

abbrev page : GiftListPublicResponse
page = public_response wedding "Ann" (2, 0)

abbrev rows : List GiftItemPublicResponse
rows = vase_response ∷ kettle_response ∷ []

page_run : get_public_list ascii now_100 service "ABCD2345" sample ≡ (ok page, sample)
unfolding queries get_public_list get_by_id get_one_by_field validate_column_identifier
    is_safe_column_identifier trim_space normalize_upper_key reserved_of contains
page_run = refl

rows_run : get_public_items ascii now_100 "ABCD2345" sample ≡ (ok rows, sample)
unfolding queries get_public_items get_one_by_field validate_column_identifier
    is_safe_column_identifier trim_space normalize_upper_key reserved_of contains
rows_run = refl

public_counts_example :
    (page.available_items ≡ length (filter (λ row. ltb 0 row.quantity_remaining) rows))
    × (page.reserved_items ≡ length (filter (λ row. eqb row.quantity_remaining 0) rows))
public_counts_example =
    public_counts ascii now_100 service "ABCD2345" sample sample sample page rows page_run rows_run

-- Bob deletes his list.
delete_run : delete_list "bob" "l2" sample ≡ (ok tt, (delete_list "bob" "l2" sample).1)
unfolding queries delete_list get_by_id
delete_run = refl

delete_list_lem_example :
    (get_owner_list "bob" "l2" (delete_list "bob" "l2" sample).1).0 ≢ ok birthday
delete_list_lem_example =
    delete_list_lem "bob" "l2" sample (delete_list "bob" "l2" sample).1 delete_run "bob" birthday
      (delete_list "bob" "l2" sample).1 refl
