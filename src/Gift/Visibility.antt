-- ===== src/Gift/Visibility.antt =====
-- internal/services/gift/service.go: which lists guests and friends get to see.
use yourz_gift.Base.{
  ℕ, String, ◌≡◌, ◌↔◌, true, false, ◌&&◌, List, ok, arith, eq_iff, ◌==◌, Result-cases, inl, inr,
}
use yourz_gift.Base.Text.{TextLib, normalize_upper_key}
use yourz_gift.Domain.Gift.{GiftList, GiftItem, GiftReservation, GiftFriend, visibility_public}
use yourz_gift.Dto.{GiftReservationCreate}
use yourz_gift.Repo.Generic.{get_by_id}
use yourz_gift.Gift.{Gorm, Database, Call}
use yourz_gift.Gift.Repo.{create_reservation_with_availability}
use yourz_gift.Gift.Sharing.{shared_by_friend, is_friend_of, get_list_by_share_code}
use yourz_gift.Gift.Lists.{is_gift_list_available}
use yourz_gift.Gift.Public.{get_shown_list}
use yourz_gift.Gift.Reservations.{new_reservation, create_public_reservation}

-- The WHERE condition that selects the lists of friends says the same of a list as
-- isGiftListAvailable: active, public and not expired, and the owner is a friend.
pub shared_by_friend_lem :
    (user : String) (now : ℕ) (friends : List GiftFriend) (l : GiftList)
    → shared_by_friend user now friends l ≡ (
        is_friend_of user friends l.owner_id
        && is_gift_list_available l now
        && l.visibility == visibility_public)
unfolding shared_by_friend is_gift_list_available
shared_by_friend_lem user now friends l = ground arith

module _ {g : Gorm} (lib : TextLib) (call : Call) where
  -- A guest gets a list by a share code exactly where the code, trimmed and in upper case, is the
  -- code of a list that is available now and public; reading it changes nothing.
  pub get_shown_list_iff :
      (code : String) (l : GiftList) (db db' : Database g)
      → (get_shown_list lib call code db ≡ (ok l, db')) ↔ (
          (get_list_by_share_code lib (normalize_upper_key lib code) db ≡ ok l)
          × (is_gift_list_available l call.now ≡ true)
          × (l.visibility ≡ visibility_public)
          × (db' ≡ db))
  unfolding get_shown_list
  get_shown_list_iff code l db db' = (to, from)
    where
      to :
          get_shown_list lib call code db ≡ (ok l, db')
          → (get_list_by_share_code lib (normalize_upper_key lib code) db ≡ ok l)
            × (is_gift_list_available l call.now ≡ true)
            × (l.visibility ≡ visibility_public)
            × (db' ≡ db)
      to e = ground (arith, eq_iff l.visibility visibility_public)

      from :
          (get_list_by_share_code lib (normalize_upper_key lib code) db ≡ ok l)
            × (is_gift_list_available l call.now ≡ true)
            × (l.visibility ≡ visibility_public)
            × (db' ≡ db)
          → get_shown_list lib call code db ≡ (ok l, db')
      from (f, a, v, s) = ground (arith, eq_iff l.visibility visibility_public)

-- What a guest's reservation is: the list with the share code is available now and public, the item
-- is one of the list, active and not archived, and the reservation of the request was stored.
pub record IsReservedBy {g : Gorm} (lib : TextLib) (call : Call) (code item_id : String)
    (req : GiftReservationCreate) (db : Database g) (r : GiftReservation) (db' : Database g)
    : Type 0 where
  pub list : GiftList
  pub item : GiftItem
  pub shown : get_shown_list lib call code db ≡ (ok list, db)
  pub found : get_by_id g.items item_id db.items ≡ ok item
  pub in_list : item.list_id ≡ list.id
  pub active : item.is_active ≡ true
  pub current : item.is_archived ≡ false
  pub reservation : r ≡ new_reservation lib call item_id req
  pub stored : create_reservation_with_availability r db ≡ (ok tt, db')

module _ {g : Gorm} (lib : TextLib) (call : Call) where
  pub shown_list :
      (code : String) (l : GiftList) (db : Database g)
      → (get_shown_list lib call code db).0 ≡ ok l
      → get_shown_list lib call code db ≡ (ok l, db)
  unfolding get_shown_list
  shown_list code l db e = ground arith

  -- CreatePublicReservation succeeds exactly as IsReservedBy says.
  pub create_public_reservation_iff :
      (code item_id : String) (req : GiftReservationCreate) (db : Database g) (r : GiftReservation)
      (db' : Database g)
      → (create_public_reservation lib call code item_id req db ≡ (ok r, db'))
        ↔ IsReservedBy lib call code item_id req db r db'
  unfolding create_public_reservation
  create_public_reservation_iff code item_id req db r db' = (to, from)
    where
      to :
          create_public_reservation lib call code item_id req db ≡ (ok r, db')
          → IsReservedBy lib call code item_id req db r db'
      to e = elim (Result-cases (get_shown_list lib call code db).0) [
        | inr (x, h) ↦ absurd (ground arith)
        | inl (l, h) ↦
            let seen = shown_list code l db h in
            elim (Result-cases (get_by_id g.items item_id db.items)) [
              | inr (x, k) ↦ absurd (ground arith)
              | inl (i, k) ↦ record {
                list = l;
                item = i;
                shown = seen;
                found = k;
                in_list = ground (arith, eq_iff i.list_id l.id);
                active = ground arith;
                current = ground arith;
                reservation = ground arith;
                stored = ground arith;
              }
            ]
      ]

      from :
          IsReservedBy lib call code item_id req db r db'
          → create_public_reservation lib call code item_id req db ≡ (ok r, db')
      from h =
          let s = h.shown in
          let f = h.found in
          let l = h.in_list in
          let a = h.active in
          let c = h.current in
          let n = h.reservation in
          let d = (rw n at h.stored) in ground (arith, eq_iff h.item.list_id h.list.id)
