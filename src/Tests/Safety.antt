-- ===== src/Tests/Safety.antt =====
-- Refusals, failures and the stock invariant on the sample database.
use yourz_gift.Base.{arith, none, ap, ◌==◌, true, false, ◌≡◌, refl, String, Bool, List, ◌≢◌}
use yourz_gift.Repo.Generic.{get_by_id}
use yourz_gift.Repo.Columns.{validate_column_identifier, is_safe_column_identifier}
use yourz_gift.Base.Text.{trim_space, normalize_upper_key}
use yourz_gift.Dto.{
  GiftListUpdate, GiftItemCreate, GiftItemUpdate, GiftItemPriority, GiftReservationCreate,
  GiftListCreate,
}
use yourz_gift.Gift.{Database}
use yourz_gift.Gift.Lists.{create_list, delete_list, update_list}
use yourz_gift.Gift.Items.{create_item, update_item, delete_item, reorder, get_owner_items}
use yourz_gift.Gift.Reservations.{
  get_reservations, mark_reservation_thanked, cancel_reservation, create_public_reservation,
}
use yourz_gift.Gift.Friends.{request_friend, accept_friend, reject_friend, delete_friend}
use yourz_gift.Gift.Repo.{reserved_of, create_reservation_with_availability}
use yourz_gift.Gift.Safety.Ownership.{
  IsRefused, IsForeign, IsForeignItem, IsForeignReservation, foreign_list-IsRefused,
  foreign_item-IsRefused, foreign_reservation-IsRefused,
}
use yourz_gift.Gift.Safety.Atomicity.{
  IsAtomic, owner_operations-IsAtomic, reservation_operations-IsAtomic, friend_operations-IsAtomic,
}
use yourz_gift.Gift.Stock.{IsStocked}
use yourz_gift.Gift.Stock.History.{serve, begin, after, cancels, reserves, History-IsStocked}
use yourz_gift.Tests.Sample.{
  queries, ascii, memory_gorm, sample, wedding, kettle, one_kettle, now_100, service,
}

apart : ◌≢◌ {A = String} "ann" "bob"
apart e = let b : true ≡ false = ap (λ s. s == "ann") e in absurd (cc)

apart_items : ◌≢◌ {A = String} "i2" "i1"
apart_items e = let b : true ≡ false = ap (λ s. s == "i2") e in absurd (cc)

bob_list : IsForeign {g = memory_gorm} "bob" sample "l1"
unfolding queries get_by_id
bob_list = record { list = wedding; found = refl; foreign = apart }

bob_item : IsForeignItem {g = memory_gorm} "bob" sample "i1"
unfolding queries get_by_id
bob_item = record { item = kettle; found_item = refl; in_list = bob_list }

bob_reservation : IsForeignReservation {g = memory_gorm} "bob" sample "r1"
unfolding queries get_by_id
bob_reservation = record { reservation = one_kettle; found_reservation = refl; of_item = bob_item }

foreign_list-IsRefused_example :
    IsRefused (delete_list "bob" "l1") sample
    × ((req : GiftListUpdate) → IsRefused (update_list ascii now_100 "bob" "l1" req) sample)
    × ((req : GiftItemCreate) → IsRefused (create_item ascii now_100 "bob" "l1" req) sample)
    × ((items : List GiftItemPriority) → IsRefused (reorder "bob" "l1" items) sample)
    × ((archived : Bool) → IsRefused (get_owner_items ascii "bob" "l1" archived) sample)
    × IsRefused (get_reservations "bob" "l1") sample
foreign_list-IsRefused_example = foreign_list-IsRefused "bob" sample ascii now_100 "l1" bob_list

foreign_item-IsRefused_example :
    IsRefused (delete_item "bob" "i1") sample
    × ((req : GiftItemUpdate) → IsRefused (update_item ascii now_100 "bob" "i1" req) sample)
foreign_item-IsRefused_example = foreign_item-IsRefused "bob" sample ascii now_100 "i1" bob_item

foreign_reservation-IsRefused_example :
    IsRefused (mark_reservation_thanked ascii now_100 "bob" "r1") sample
    × ((reason : String) → IsRefused (cancel_reservation ascii now_100 "bob" "r1" reason) sample)
foreign_reservation-IsRefused_example =
    foreign_reservation-IsRefused "bob" sample ascii now_100 "r1" bob_reservation

sample-IsStocked : IsStocked sample
unfolding queries reserved_of
sample-IsStocked = record {
  items_distinct = ((apart_items, tt), (tt, tt));
  rows_distinct = (tt, tt);
  references = (refl, tt);
  stocked = (λ l. omega arith, (λ l. omega arith, tt));
}

owner_operations-IsAtomic_example :
    ((req : GiftListCreate) → IsAtomic {g = memory_gorm} (create_list ascii now_100 "ann" req))
    × ((req : GiftListUpdate)
        → IsAtomic {g = memory_gorm} (update_list ascii now_100 "ann" "l1" req))
    × IsAtomic {g = memory_gorm} (delete_list "ann" "l1")
    × ((req : GiftItemCreate)
        → IsAtomic {g = memory_gorm} (create_item ascii now_100 "ann" "l1" req))
    × ((req : GiftItemUpdate)
        → IsAtomic {g = memory_gorm} (update_item ascii now_100 "ann" "l1" req))
    × IsAtomic {g = memory_gorm} (delete_item "ann" "l1")
    × ((items : List GiftItemPriority) → IsAtomic {g = memory_gorm} (reorder "ann" "l1" items))
owner_operations-IsAtomic_example = owner_operations-IsAtomic ascii now_100 "ann" "l1"

reservation_operations-IsAtomic_example :
    IsAtomic {g = memory_gorm} (mark_reservation_thanked ascii now_100 "ann" "r1")
    × ((why : String)
        → IsAtomic {g = memory_gorm} (cancel_reservation ascii now_100 "ann" "r1" why))
    × ((code : String) (req : GiftReservationCreate)
        → IsAtomic {g = memory_gorm} (create_public_reservation ascii now_100 code "r1" req))
reservation_operations-IsAtomic_example = reservation_operations-IsAtomic ascii now_100 "ann" "r1"

friend_operations-IsAtomic_example :
    IsAtomic {g = memory_gorm} (request_friend service now_100 ascii "ann" "bob@x.org")
    × IsAtomic {g = memory_gorm} (accept_friend service now_100 "ann" "f1")
    × IsAtomic {g = memory_gorm} (reject_friend service now_100 "ann" "f1")
    × IsAtomic {g = memory_gorm} (delete_friend service now_100 "ann" "f1")
friend_operations-IsAtomic_example =
    friend_operations-IsAtomic service now_100 ascii "ann" "f1" "bob@x.org"

abbrev guest : GiftReservationCreate
guest = record {
  guest_name = "Ann";
  guest_email = "ann@x.org";
  quantity = 2;
  note = "";
  show_name = none;
}

-- Two kettles more, then one is cancelled.
abbrev served : Database memory_gorm
served =
    serve ascii service now_100 (cancels "ann" "r1" "late")
      (serve ascii service now_100 (reserves "ABCD2345" "i1" guest) sample)

served_run : reserved_of "i1" (memory_gorm.reservations.contents served.reservations) ≡ 2
unfolding queries reserved_of serve get_by_id cancel_reservation create_public_reservation
    validate_column_identifier is_safe_column_identifier trim_space normalize_upper_key
    create_reservation_with_availability
served_run = refl

History-IsStocked_example : IsStocked served
History-IsStocked_example = History-IsStocked ascii service sample served sample-IsStocked (
    after (after begin now_100 (reserves "ABCD2345" "i1" guest) tt refl) now_100
      (cancels "ann" "r1" "late") tt refl)
