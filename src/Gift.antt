-- ===== src/Gift.antt =====
-- The gift service: the state that internal/services/gift/service.go and
-- internal/repositories/gift/gift.go work on, and what a call takes from outside.
pub mod Repo
pub mod Sharing
pub mod Lists
pub mod Items
pub mod Reservations
pub mod Friends
pub mod Public
pub mod Safety
pub mod Stock
pub mod Friendship
pub mod Visibility
pub mod Expiry
pub mod Responses
use yourz_gift.Base.{ℕ, String, Bool, Option, none, some, List, Result, ok, err, fault, Exec}
use yourz_gift.Db.{Driver}
use yourz_gift.Domain.Gift.{
  GiftList, GiftItem, GiftReservation, GiftFriend, gift_list, gift_item, gift_reservation,
  gift_friend,
}
use yourz_gift.Domain.User.{Users, users}

-- The driver of each table that the service reads or writes.
pub record Gorm : Type 1 where
  pub lists : Driver GiftList gift_list
  pub items : Driver GiftItem gift_item
  pub reservations : Driver GiftReservation gift_reservation
  pub friends : Driver GiftFriend gift_friend
  pub accounts : Driver Users users

-- The database; `commit` says whether it would refuse to commit a transaction now.
pub record Database (g : Gorm) : Type 0 where
  pub lists : g.lists.Table
  pub items : g.items.Table
  pub reservations : g.reservations.Table
  pub friends : g.friends.Table
  pub accounts : g.accounts.Table
  pub commit : Option String

-- What a call takes from the clock (time.Now), uuid and crypto/rand: no bytes where rand.Read fails.
pub record Call : Type 0 where
  pub now : ℕ
  pub uuid : String
  pub random : Option (List ℕ)

-- Which optional repositories GiftService has; the code checks for nil.
pub record Service : Type 0 where
  pub friend_repo : Bool
  pub user_repo : Bool

-- gorm's Transaction: an error of the body, or of the commit, rolls everything back.
unfoldable pub transaction :
    {g : Gorm} → Exec (Database g) (Unit {0}) → Exec (Database g) (Unit {0})
transaction body db = elim (body db).0 [
  | err e ↦ (err e, db)
  | ok _ ↦ elim (body db).1.commit [ none ↦ body db | some s ↦ (err (fault s), db) ]
]
