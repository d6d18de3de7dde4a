-- ===== src/Gift/Friendship.antt =====
-- internal/services/gift/service.go: the life of a friend request, from pending to its answer.
use mathlib.Core.Path.{subst}
use yourz_gift.Base.{
  String, ◌≡◌, ◌≢◌, ◌↔◌, ◌⊎◌, inl, inr, refl, ap, sym, ◌∙◌, true, false, ◌&&◌, ok, arith, eq_iff,
  ◌==◌, All, Result-cases, Bool-cases,
}
use yourz_gift.Base.Text.{TextLib}
use yourz_gift.Base.Keys.{All-amend-intro}
use yourz_gift.Db.{done, Attempt-cases, live, has_key, both}
use yourz_gift.Db.Laws.{first-any, first-holds, first-All}
use yourz_gift.Domain.Gift.{
  GiftFriend, gift_friend, status_pending, status_accepted, status_rejected,
}
use yourz_gift.Domain.User.{Users}
use yourz_gift.Base.Text.{sanitize_email}
use yourz_gift.Repo.Generic.{get_by_id, get_one_by_field, update}
use yourz_gift.Gift.{Gorm, Database, Call, Service}
use yourz_gift.Gift.Sharing.{connects, find_between_users}
use yourz_gift.Gift.Friends.{
  save_friend, answered, reopened, new_friend, request_between, request_friend,
  update_friend_status, accept_friend, reject_friend,
}

-- What an answer to a friend request is: the request was found, it was pending, it was addressed to
-- the user who answers, and the row with its key was saved with the new status.
pub record IsAnswered {g : Gorm} (call : Call) (user id status : String) (db : Database g)
    (friend : GiftFriend) (db' : Database g) : Type 0 where
  pub request : GiftFriend
  pub table : g.friends.Table
  pub found : get_by_id g.friends id db.friends ≡ ok request
  pub addressed : request.addressee_id ≡ user
  pub pending : request.status ≡ status_pending
  pub saved : g.friends.save (answered call status request) db.friends ≡ done table
  pub answer : friend ≡ answered call status request
  pub after : db' ≡ record db { friends = table }

module _ {g : Gorm} (svc : Service) (call : Call) where
  update_friend_status_iff :
      (user id status : String) (db : Database g) (friend : GiftFriend) (db' : Database g)
      → svc.friend_repo ≡ true
      → (update_friend_status svc call user id status db ≡ (ok friend, db'))
        ↔ IsAnswered call user id status db friend db'
  unfolding update_friend_status save_friend update
  update_friend_status_iff user id status db friend db' has_repo = (to, from)
    where
      to :
          update_friend_status svc call user id status db ≡ (ok friend, db')
          → IsAnswered call user id status db friend db'
      to e = elim (Result-cases (get_by_id g.friends id db.friends)) [
        | inr (x, f) ↦ ground arith
        | inl (r, f) ↦ elim (Attempt-cases (g.friends.save (answered call status r) db.friends)) [
          | inr (x, c) ↦ ground arith
          | inl (t, c) ↦ record {
            request = r;
            table = t;
            found = f;
            addressed = ground (arith, eq_iff r.addressee_id user);
            pending = ground (arith, eq_iff r.status status_pending);
            saved = c;
            answer = ground arith;
            after = ground arith;
          }
        ]
      ]

      from :
          IsAnswered call user id status db friend db'
          → update_friend_status svc call user id status db ≡ (ok friend, db')
      from h =
          let f = h.found in
          let c = h.saved in
          let a = h.addressed in
          let q = h.pending in
          let e = h.answer in
          let x = h.after in
          ground (arith, eq_iff h.request.addressee_id user, eq_iff h.request.status status_pending)

  -- With a friend repository, AcceptFriend and RejectFriend succeed exactly as IsAnswered says, the
  -- one with the status "accepted" and the other with "rejected": only the user that a pending
  -- request is addressed to accepts or rejects it.
  pub answer_iff :
      (user id : String) (db : Database g) (friend : GiftFriend) (db' : Database g)
      → svc.friend_repo ≡ true
      → ((accept_friend svc call user id db ≡ (ok friend, db'))
          ↔ IsAnswered call user id status_accepted db friend db')
        × ((reject_friend svc call user id db ≡ (ok friend, db'))
            ↔ IsAnswered call user id status_rejected db friend db')
  unfolding accept_friend reject_friend
  answer_iff user id db friend db' has_repo = (
    update_friend_status_iff user id status_accepted db friend db' has_repo,
    update_friend_status_iff user id status_rejected db friend db' has_repo,
  )

  -- The rows with the key of a saved request have the status that it was saved with.
  saved_status :
      (id status : String) (r : GiftFriend) (db : Database g) (t : g.friends.Table)
      → get_by_id g.friends id db.friends ≡ ok r
      → g.friends.save (answered call status r) db.friends ≡ done t
      → All
          (λ f. both (live gift_friend) (has_key gift_friend id) f ≡ true → f.status ≡ status)
          (g.friends.contents t)
  unfolding get_by_id
  saved_status id status r db t found saved =
      let key = has_key gift_friend id in
      let h = first-holds g.friends key db.friends r found in
      let same : r.id ≡ id = ground (arith, eq_iff r.id id) in
      let here = first-any g.friends key db.friends r found in
      rw (g.friends.contents-save (answered call status r) db.friends t here saved)
        (All-amend-intro _ _ _ (λ x e k. refl) (λ x e k. absurd (ground arith)))

accepted-apart : ◌≢◌ {A = String} status_accepted status_pending
accepted-apart e = let b : true ≡ false = ap (λ s. s == status_accepted) e in absurd (cc)

rejected-apart : ◌≢◌ {A = String} status_rejected status_pending
rejected-apart e = let b : true ≡ false = ap (λ s. s == status_rejected) e in absurd (cc)

module _ {g : Gorm} (svc : Service) where
  -- While the table of friend requests is as an answer left it, the request is not pending.
  not_again :
      (call later : Call) (user user' id status status' : String) (db db' s s' : Database g)
      (friend friend' : GiftFriend)
      → status ≢ status_pending
      → IsAnswered call user id status db friend db'
      → s.friends ≡ db'.friends
      → IsAnswered later user' id status' s friend' s'
      → ⊥
  unfolding get_by_id
  not_again call later user user' id status status' db db' s s' friend friend' answers h same h' =
      let key = has_key gift_friend id in
      let table : s.friends ≡ h.table = same ∙ ap (λ d. d.friends) h.after in
      let found = h'.found in
      let found' = (rw table at found) in
      let now =
        first-All g.friends key h.table h'.request _ found'
          (saved_status svc call id status h.request db h.table h.found h.saved)
          (first-holds g.friends key h.table h'.request found') in
      answers (sym now ∙ h'.pending)

  -- Once AcceptFriend or RejectFriend has answered a request, then, while the table of friend
  -- requests is as the answer left it, nobody accepts or rejects the request again, whatever else
  -- has changed.
  pub answer_once :
      (call later : Call) (user user' id : String) (db db' s : Database g)
      (friend friend' : GiftFriend)
      → svc.friend_repo ≡ true
      → (accept_friend svc call user id db ≡ (ok friend, db'))
        ⊎ (reject_friend svc call user id db ≡ (ok friend, db'))
      → s.friends ≡ db'.friends
      → ((accept_friend svc later user' id s).0 ≢ ok friend')
        × ((reject_friend svc later user' id s).0 ≢ ok friend')
  answer_once call later user user' id db db' s friend friend' has_repo e same = (
    λ a. again status_accepted (accept_friend svc later user' id s).1 (
        (answer_iff svc later user' id s friend' _ has_repo).0.0
          (λ i. (a i, (accept_friend svc later user' id s).1))),
    λ a. again status_rejected (reject_friend svc later user' id s).1 (
        (answer_iff svc later user' id s friend' _ has_repo).1.0
          (λ i. (a i, (reject_friend svc later user' id s).1))),
  )
    where
      again :
          (status' : String) (s' : Database g) → IsAnswered later user' id status' s friend' s' → ⊥
      again status' s' h' = elim e [
        | inl a ↦
            not_again call later user user' id status_accepted status' db db' s s' friend friend'
              accepted-apart ((answer_iff svc call user id db friend db' has_repo).0.0 a) same h'
        | inr r ↦
            not_again call later user user' id status_rejected status' db db' s s' friend friend'
              rejected-apart ((answer_iff svc call user id db friend db' has_repo).1.0 r) same h'
      ]

-- The two are the requester and the addressee, in either order.
abbrev pub Links : String → String → GiftFriend → Type 0
Links a b f =
    ((f.requester_id ≡ a) × (f.addressee_id ≡ b)) ⊎ ((f.requester_id ≡ b) × (f.addressee_id ≡ a))

-- So linked, and not rejected.
abbrev Open : String → String → GiftFriend → Type 0
Open a b f = Links a b f × (f.status ≢ status_rejected)

pending-apart : ◌≢◌ {A = String} status_pending status_rejected
pending-apart e = let b : true ≡ false = ap (λ s. s == status_pending) e in absurd (cc)

connects-Links : (a b : String) (f : GiftFriend) → connects a b f ≡ true → Links a b f
connects-Links a b f e = elim (Bool-cases (f.requester_id == a && f.addressee_id == b)) [
  | inl h ↦ inl (ground (arith, eq_iff f.requester_id a), ground (arith, eq_iff f.addressee_id b))
  | inr h ↦ inr (ground (arith, eq_iff f.requester_id b), ground (arith, eq_iff f.addressee_id a))
]

module _ {g : Gorm} (svc : Service) (call : Call) where
  -- What is answered once FindBetweenUsers has answered.
  request_between-Links :
      (u t : String) (f : GiftFriend) (db db' : Database g)
      → request_between svc call u t (find_between_users u t db) db ≡ (ok f, db')
      → Open u t f
  unfolding request_between find_between_users save_friend
  request_between-Links u t f db db' e = elim (Result-cases (find_between_users u t db)) [
    | inr (x, h) ↦
        let same : f ≡ new_friend call u t = ground arith in
        subst (Open u t) (sym same) (inl (refl, refl), pending-apart)
    | inl (r, h) ↦ elim (Bool-cases (r.status == status_rejected)) [
      | inl k ↦
          let same : f ≡ reopened call u t r = ground arith in
          subst (Open u t) (sym same) (inl (refl, refl), pending-apart)
      | inr k ↦
          let same : f ≡ r = ground arith in
          let holds = first-holds g.friends (connects u t) db.friends r h in
          subst (Open u t) (sym same) (
            connects-Links u t r (ground arith),
            λ q. absurd (ground (arith, eq_iff r.status status_rejected)),
          )
    ]
  ]

  -- A friend request that succeeds is to another user, found by the e-mail; the row that it answers
  -- with links the two, whoever asked first, and is not a rejected one.
  pub request_friend_lem :
      (lib : TextLib) (user email : String) (friend : GiftFriend) (db db' : Database g)
      → request_friend svc call lib user email db ≡ (ok friend, db')
      → (target : Users) × (get_one_by_field lib g.accounts "email"
            (sanitize_email lib email)
            db.accounts
          ≡ ok target)
        × (target.id ≢ user)
        × Links user target.id friend
        × (friend.status ≢ status_rejected)
  unfolding request_friend
  request_friend_lem lib user email friend db db' e =
      elim (Result-cases
        (get_one_by_field lib g.accounts "email" (sanitize_email lib email) db.accounts)) [
          | inr (x, h) ↦ ground arith
          | inl (t, h) ↦ elim (Bool-cases (t.id == user)) [
            | inl self ↦ ground arith
            | inr other ↦
                let (links, not_rejected) =
                  request_between-Links user t.id friend db db' (ground arith) in
                (t, h, λ q. absurd (ground (arith, eq_iff t.id user)), links, not_rejected)
          ]
        ]
