-- ===== src/Gift/Sharing.antt =====
-- internal/repositories/gift/gift.go: the queries of lists and of friends.
use yourz_gift.Base.{
  ℕ, String, Bool, true, false, ◌&&◌, ◌||◌, Option, none, some, List, [], ◌∷◌, ◌++◌, ◌==◌, ltb, leb,
  if◌then◌else◌, length, filter, any, sort_by, Result, ok, err,
}
use yourz_gift.Base.Text.{TextLib}
use yourz_gift.Db.{live, scan, first}
use yourz_gift.Domain.Gift.{
  GiftList, GiftFriend, gift_friend, visibility_public, status_accepted, status_pending,
}
use yourz_gift.Domain.User.{Users}
use yourz_gift.Dto.{GiftFriendResponse}
use yourz_gift.Repo.Generic.{
  BaseParams, QueryOptions, build_search_func, get_one_by_field, get_all, page,
}
use yourz_gift.Gift.{Gorm, Database}

abbrev pub connects : String → String → GiftFriend → Bool
connects a b f =
    (f.requester_id == a && f.addressee_id == b) || (f.requester_id == b && f.addressee_id == a)

-- CASE WHEN requester_id = ? THEN addressee_id ELSE requester_id END
abbrev pub other_party : String → GiftFriend → String
other_party user_id f = if f.requester_id == user_id then f.addressee_id else f.requester_id

abbrev pub takes_part : String → GiftFriend → Bool
takes_part user_id f = f.requester_id == user_id || f.addressee_id == user_id

-- never_expires OR (expires_at IS NOT NULL AND expires_at > NOW())
abbrev pub unexpired : ℕ → GiftList → Bool
unexpired now l = l.never_expires || (elim l.expires_at [ none ↦ false | some t ↦ ltb now t ])

-- The owners that the subquery of GetListsByFriendOwners selects.
unfoldable pub is_friend_of : String → List GiftFriend → String → Bool
is_friend_of user_id friends owner_id =
    any
      (λ f.
        live gift_friend f
        && takes_part user_id f
        && f.status == status_accepted
        && other_party user_id f == owner_id)
      friends

unfoldable pub shared_by_friend : String → ℕ → List GiftFriend → GiftList → Bool
unfolding is_friend_of
shared_by_friend user_id now friends l =
    is_friend_of user_id friends l.owner_id
    && l.is_active
    && l.visibility == visibility_public
    && unexpired now l

-- The users that the JOIN of getFriendUsers gives for one friendship.
unfoldable pub joined : String → GiftFriend → List Users → List GiftFriendResponse
joined user_id f [] = []
joined user_id f (u ∷ us) =
    let rest = joined user_id f us in
    let row : GiftFriendResponse = record {
      id = f.id;
      user_id = u.id;
      name = u.name;
      email = u.email;
      avatar_url = u.avatar_url;
      status = f.status;
    } in
    if u.id == other_party user_id f then row ∷ rest else rest

unfoldable pub join_users : String → List Users → List GiftFriend → List GiftFriendResponse
unfolding joined
join_users user_id accounts [] = []
join_users user_id accounts (f ∷ fs) = joined user_id f accounts ++ join_users user_id accounts fs

-- params.Limit <= 0 becomes 20.
abbrev friend_limit : Option ℕ → ℕ
friend_limit none = 20
friend_limit (some n) = if ltb 0 n then n else 20

module _ (lib : TextLib) where
  unfoldable pub get_list_by_share_code : {g : Gorm} → String → Database g → Result GiftList
  unfolding get_one_by_field
  get_list_by_share_code {g} code db = get_one_by_field lib g.lists "share_code" code db.lists

  abbrev list_options : Gorm → (GiftList → Bool) → QueryOptions GiftList
  list_options g base = record {
    base_query = base;
    search = λ s l. build_search_func lib g.lists ("title" ∷ "description" ∷ "share_code" ∷ []) s l;
    allowed_filters = [];
    sanitizer = λ v. v;
    allowed_order_columns = "created_at" ∷ "title" ∷ [];
    default_orders = "created_at DESC" ∷ [];
  }

  unfoldable pub get_lists_by_owner :
      {g : Gorm} → String → BaseParams → Database g → Result (List GiftList × ℕ)
  get_lists_by_owner {g} owner_id params db =
      get_all lib g.lists (list_options g (λ l. l.owner_id == owner_id)) params db.lists

  unfoldable pub get_lists_by_friend_owners :
      {g : Gorm} → String → ℕ → BaseParams → Database g → Result (List GiftList × ℕ)
  unfolding shared_by_friend
  get_lists_by_friend_owners {g} user_id now params db = elim (scan g.friends db.friends) [
    | err e ↦ err e
    | ok friends ↦
        get_all lib g.lists (list_options g (shared_by_friend user_id now friends)) params db.lists
  ]

  -- getFriendUsers, with the condition on the status; the search runs over the joined users.
  unfoldable pub get_friend_users :
      {g : Gorm}
      → String
      → BaseParams
      → (GiftFriend → Bool)
      → Database g
      → Result (List GiftFriendResponse × ℕ)
  unfolding join_users page
  get_friend_users {g} user_id params status_where db = elim (scan g.friends db.friends) [
    | err e ↦ err e
    | ok friends ↦ elim (scan g.accounts db.accounts) [
      | err e ↦ err e
      | ok accounts ↦
          let rows =
            filter
              (λ r.
                if params.search == ""
                then true
                else lib.like r.name params.search || lib.like r.email params.search)
              (join_users user_id accounts (
                sort_by (λ a b. leb b.created_at a.created_at)
                  (filter (λ f. takes_part user_id f && live gift_friend f && status_where f)
                    friends))) in
          ok (page (some (friend_limit params.limit)) params.offset rows, length rows)
    ]
  ]

  unfoldable pub get_friends :
      {g : Gorm} → String → BaseParams → Database g → Result (List GiftFriendResponse × ℕ)
  unfolding get_friend_users
  get_friends user_id params = get_friend_users user_id params (λ f. f.status == status_accepted)

  unfoldable pub get_pending_requests :
      {g : Gorm} → String → BaseParams → Database g → Result (List GiftFriendResponse × ℕ)
  unfolding get_friend_users
  get_pending_requests user_id params =
      get_friend_users user_id params (λ f. f.addressee_id == user_id && f.status == status_pending)

module _ {g : Gorm} where
  unfoldable pub find_between_users : String → String → Database g → Result GiftFriend
  find_between_users user_id other_user_id db =
      first g.friends (connects user_id other_user_id) db.friends
