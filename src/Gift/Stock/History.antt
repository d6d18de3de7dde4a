-- ===== src/Gift/Stock/History.antt =====
-- internal/services/gift/service.go: the requests that write the database, in any order.
use mathlib.Core.Path.{subst}
use yourz_gift.Base.{ℕ, ◌≤◌, String, ◌≡◌, sym, some, List, arith}
use yourz_gift.Base.Text.{TextLib}
use yourz_gift.Dto.{
  GiftListCreate, GiftListUpdate, GiftItemCreate, GiftItemUpdate, GiftItemPriority,
  GiftReservationCreate,
}
use yourz_gift.Gift.{Gorm, Database, Call, Service}
use yourz_gift.Gift.Lists.{create_list, update_list, delete_list}
use yourz_gift.Gift.Items.{create_item, update_item, delete_item, reorder}
use yourz_gift.Gift.Reservations.{
  mark_reservation_thanked, cancel_reservation, create_public_reservation,
}
use yourz_gift.Gift.Friends.{
  request_between, request_friend, accept_friend, reject_friend, delete_friend,
}
use yourz_gift.Gift.Repo.Availability.{reserved_in}
use yourz_gift.Gift.Stock.{IsStocked}
use yourz_gift.Gift.Stock.Keeps.{cancel-IsStocked, mark-IsStocked}
use yourz_gift.Gift.Stock.Reserve.{create_public-IsStocked}
use yourz_gift.Gift.Stock.Items.{
  create_item-IsStocked, update_item-IsStocked, delete_item-IsStocked, reorder-IsStocked,
}

-- The methods of GiftService that write, with the user and the arguments of a call.
pub data Request : Type 0 where
  creates_list : (user : String) (req : GiftListCreate) → Request
  updates_list : (user id : String) (req : GiftListUpdate) → Request
  deletes_list : (user id : String) → Request
  creates_item : (user list_id : String) (req : GiftItemCreate) → Request
  updates_item : (user id : String) (req : GiftItemUpdate) → Request
  deletes_item : (user id : String) → Request
  reorders : (user list_id : String) (items : List GiftItemPriority) → Request
  reserves : (share_code item_id : String) (req : GiftReservationCreate) → Request
  cancels : (user id reason : String) → Request
  thanks : (user id : String) → Request
  requests_friend : (user email : String) → Request
  accepts_friend : (user id : String) → Request
  rejects_friend : (user id : String) → Request
  deletes_friend : (user id : String) → Request

module _ {g : Gorm} where
  -- An update of an item asks for no less than is reserved of it.
  abbrev pub LeavesRoom : Request → Database g → Type 0
  LeavesRoom (updates_item user id req) db = (q : ℕ) → req.quantity ≡ some q → reserved_in db id ≤ q
  LeavesRoom _ db = Unit {0}

  module _ (lib : TextLib) (svc : Service) where
    -- The database after the request, whatever the answer.
    unfoldable pub serve : Call → Request → Database g → Database g
    serve call (creates_list u req) db = (create_list lib call u req db).1
    serve call (updates_list u id req) db = (update_list lib call u id req db).1
    serve call (deletes_list u id) db = (delete_list u id db).1
    serve call (creates_item u id req) db = (create_item lib call u id req db).1
    serve call (updates_item u id req) db = (update_item lib call u id req db).1
    serve call (deletes_item u id) db = (delete_item u id db).1
    serve call (reorders u id items) db = (reorder u id items db).1
    serve call (reserves code id req) db = (create_public_reservation lib call code id req db).1
    serve call (cancels u id why) db = (cancel_reservation lib call u id why db).1
    serve call (thanks u id) db = (mark_reservation_thanked lib call u id db).1
    serve call (requests_friend u email) db = (request_friend svc call lib u email db).1
    serve call (accepts_friend u id) db = (accept_friend svc call u id db).1
    serve call (rejects_friend u id) db = (reject_friend svc call u id db).1
    serve call (deletes_friend u id) db = (delete_friend svc call u id db).1

    -- What requests, one after the other, make of a database.
    pub data History (start : Database g) : Database g → Type 0 where
      begin : History start start
      after :
          {db db' : Database g}
          → History start db
          → (call : Call) (request : Request) → LeavesRoom request db
          → db' ≡ serve call request db
          → History start db'

-- The items and the reservations of two databases are the same.
module _ {g : Gorm} where
  abbrev SameGifts : Database g → Database g → Type 0
  SameGifts db db' = (db'.items ≡ db.items) × (db'.reservations ≡ db.reservations)

  SameGifts-IsStocked : (db db' : Database g) → SameGifts db db' → IsStocked db → IsStocked db'
  SameGifts-IsStocked db db' (e, f) s = rw e (rw f s)

module _ {g : Gorm} (lib : TextLib) (call : Call) (db : Database g) where
  create_list_gifts :
      (u : String) (req : GiftListCreate) → SameGifts db (create_list lib call u req db).1
  unfolding create_list
  create_list_gifts u req = ground arith

  update_list_gifts :
      (u id : String) (req : GiftListUpdate) → SameGifts db (update_list lib call u id req db).1
  unfolding update_list
  update_list_gifts u id req = ground arith

  delete_list_gifts : (u id : String) → SameGifts db (delete_list u id db).1
  unfolding delete_list
  delete_list_gifts u id = ground arith

module _ {g : Gorm} (lib : TextLib) (svc : Service) (call : Call) (db : Database g) where
  request_friend_gifts :
      (u email : String) → SameGifts db (request_friend svc call lib u email db).1
  unfolding request_friend request_between
  request_friend_gifts u email = ground arith

  accept_friend_gifts : (u id : String) → SameGifts db (accept_friend svc call u id db).1
  unfolding accept_friend
  accept_friend_gifts u id = ground arith

  reject_friend_gifts : (u id : String) → SameGifts db (reject_friend svc call u id db).1
  unfolding reject_friend
  reject_friend_gifts u id = ground arith

  delete_friend_gifts : (u id : String) → SameGifts db (delete_friend svc call u id db).1
  unfolding delete_friend
  delete_friend_gifts u id = ground arith

module _ {g : Gorm} (lib : TextLib) (svc : Service) where
  serve-IsStocked :
      (call : Call) (request : Request) (db : Database g)
      → LeavesRoom request db
      → IsStocked db
      → IsStocked (serve lib svc call request db)
  unfolding serve
  serve-IsStocked call (creates_list u req) db room s =
      SameGifts-IsStocked db (serve lib svc call (creates_list u req) db)
        (create_list_gifts lib call db u req) s
  serve-IsStocked call (updates_list u id req) db room s =
      SameGifts-IsStocked db (serve lib svc call (updates_list u id req) db)
        (update_list_gifts lib call db u id req) s
  serve-IsStocked call (deletes_list u id) db room s =
      SameGifts-IsStocked db (serve lib svc call (deletes_list u id) db)
        (delete_list_gifts lib call db u id) s
  serve-IsStocked call (creates_item u id req) db room s =
      create_item-IsStocked lib call u id req db s
  serve-IsStocked call (updates_item u id req) db room s =
      update_item-IsStocked lib call u id req db room s
  serve-IsStocked call (deletes_item u id) db room s = delete_item-IsStocked lib call u id db s
  serve-IsStocked call (reorders u id items) db room s = reorder-IsStocked lib call u id items db s
  serve-IsStocked call (reserves code id req) db room s =
      create_public-IsStocked lib call code id req db s
  serve-IsStocked call (cancels u id why) db room s = cancel-IsStocked lib call u id why db s
  serve-IsStocked call (thanks u id) db room s = mark-IsStocked lib call u id db s
  serve-IsStocked call (requests_friend u email) db room s =
      SameGifts-IsStocked db (serve lib svc call (requests_friend u email) db)
        (request_friend_gifts lib svc call db u email) s
  serve-IsStocked call (accepts_friend u id) db room s =
      SameGifts-IsStocked db (serve lib svc call (accepts_friend u id) db)
        (accept_friend_gifts lib svc call db u id) s
  serve-IsStocked call (rejects_friend u id) db room s =
      SameGifts-IsStocked db (serve lib svc call (rejects_friend u id) db)
        (reject_friend_gifts lib svc call db u id) s
  serve-IsStocked call (deletes_friend u id) db room s =
      SameGifts-IsStocked db (serve lib svc call (deletes_friend u id) db)
        (delete_friend_gifts lib svc call db u id) s

  -- Whatever requests follow each other, in whatever order, and whatever answers they get: where
  -- the reservations fit into the quantities at the start, and no UpdateItem asks for less than is
  -- reserved, they fit at the end.
  pub History-IsStocked :
      (start db : Database g) → IsStocked start → History lib svc start db → IsStocked db
  History-IsStocked start _ s begin = s
  History-IsStocked start db' s (after {db} h call request room e) =
      subst IsStocked (sym e)
        (serve-IsStocked call request db room (History-IsStocked start db s h))
