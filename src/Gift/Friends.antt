-- ===== src/Gift/Friends.antt =====
-- internal/services/gift/service.go: friend requests and their answers.
use yourz_gift.Base.{
  ℕ, String, Bool, not, ◌&&◌, none, some, List, ◌==◌, if◌then◌else◌, record_not_found,
  forbidden_gift_access, friend_self, friend_user_not_found, friend_service_config, Result, ok, err,
  Exec, pure, raise, gets, guard, ◌>>=◌, ◌>>◌,
}
use yourz_gift.Base.Text.{TextLib, sanitize_email}
use yourz_gift.Domain.Gift.{GiftFriend, status_pending, status_accepted, status_rejected}
use yourz_gift.Domain.User.{Users}
use yourz_gift.Dto.{GiftFriendResponse}
use yourz_gift.Repo.Generic.{BaseParams, store, get_by_id, get_one_by_field, update, delete, writes}
use yourz_gift.Gift.{Gorm, Database, Call, Service}
use yourz_gift.Gift.Sharing.{takes_part, find_between_users, get_friends, get_pending_requests}

abbrev pub new_friend : Call → String → String → GiftFriend
new_friend call user_id target_id = record {
  id = call.uuid;
  requester_id = user_id;
  addressee_id = target_id;
  status = status_pending;
  created_at = call.now;
  updated_at = none;
  deleted_at = none;
}

-- A rejected request is opened again, from the user who asks now.
abbrev pub reopened : Call → String → String → GiftFriend → GiftFriend
reopened call user_id target_id f = record f {
  requester_id = user_id;
  addressee_id = target_id;
  status = status_pending;
  updated_at = some call.now;
}

-- gorm.ErrRecordNotFound becomes ErrFriendUserNotFound.
abbrev named_target : Result Users → Result Users
named_target (ok u) = ok u
named_target (err record_not_found) = err friend_user_not_found
named_target (err e) = err e

module _ {g : Gorm} where
  abbrev pub write_friends :
      (g.friends.Table → Result g.friends.Table) → Exec (Database g) (Unit {0})
  write_friends = writes (λ s. s.friends) (λ t s. record s { friends = t })

  -- FriendRepo.Update, and the friendship that was saved.
  unfoldable pub save_friend : GiftFriend → Exec (Database g) GiftFriend
  unfolding update
  save_friend friend = do write_friends (update g.friends friend); pure friend

abbrev pub may_answer : String → GiftFriend → Bool
may_answer user_id f = f.addressee_id == user_id && f.status == status_pending

-- The request that AcceptFriend or RejectFriend saves.
abbrev pub answered : Call → String → GiftFriend → GiftFriend
answered call status f = record f { status = status; updated_at = some call.now }

module _ (svc : Service) (call : Call) where
  -- The rest of RequestFriend, once FindBetweenUsers has answered. Where the update of a reopened
  -- request fails, the source returns the request beside the error.
  unfoldable pub request_between :
      {g : Gorm} → String → String → Result GiftFriend → Exec (Database g) GiftFriend
  unfolding store save_friend
  request_between {g} user_id target_id (ok existing) =
      if existing.status == status_rejected
      then save_friend (reopened call user_id target_id existing)
      else pure existing
  request_between {g} user_id target_id (err record_not_found) = do
    write_friends (store g.friends (new_friend call user_id target_id))
    pure (new_friend call user_id target_id)
  request_between user_id target_id (err e) = raise e

  unfoldable pub request_friend :
      {g : Gorm} → TextLib → String → String → Exec (Database g) GiftFriend
  unfolding get_one_by_field find_between_users request_between
  request_friend {g} lib user_id email = do
    guard (svc.friend_repo && svc.user_repo) friend_service_config
    target ← gets (λ s.
        named_target
          (get_one_by_field lib g.accounts "email" (sanitize_email lib email) s.accounts))
    guard (not (target.id == user_id)) friend_self
    found ← gets (λ s. ok (find_between_users user_id target.id s))
    request_between user_id target.id found

  unfoldable pub update_friend_status :
      {g : Gorm} → String → String → String → Exec (Database g) GiftFriend
  unfolding save_friend
  update_friend_status {g} user_id friend_id status = do
    guard svc.friend_repo friend_service_config
    friend ← gets (λ s. get_by_id g.friends friend_id s.friends)
    guard (may_answer user_id friend) forbidden_gift_access
    save_friend (answered call status friend)

  unfoldable pub accept_friend : {g : Gorm} → String → String → Exec (Database g) GiftFriend
  unfolding update_friend_status
  accept_friend user_id friend_id = update_friend_status user_id friend_id status_accepted

  unfoldable pub reject_friend : {g : Gorm} → String → String → Exec (Database g) GiftFriend
  unfolding update_friend_status
  reject_friend user_id friend_id = update_friend_status user_id friend_id status_rejected

  unfoldable pub delete_friend : {g : Gorm} → String → String → Exec (Database g) (Unit {0})
  unfolding delete
  delete_friend {g} user_id friend_id = do
    guard svc.friend_repo friend_service_config
    friend ← gets (λ s. get_by_id g.friends friend_id s.friends)
    guard (takes_part user_id friend) forbidden_gift_access
    write_friends (delete g.friends friend_id)

  unfoldable pub friends_of :
      {g : Gorm} → TextLib → String → BaseParams → Exec (Database g) (List GiftFriendResponse × ℕ)
  unfolding get_friends
  friends_of lib user_id params = do
    guard svc.friend_repo friend_service_config
    gets (get_friends lib user_id params)

  unfoldable pub pending_friend_requests :
      {g : Gorm} → TextLib → String → BaseParams → Exec (Database g) (List GiftFriendResponse × ℕ)
  unfolding get_pending_requests
  pending_friend_requests lib user_id params = do
    guard svc.friend_repo friend_service_config
    gets (get_pending_requests lib user_id params)
