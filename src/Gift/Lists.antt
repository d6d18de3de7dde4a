-- ===== src/Gift/Lists.antt =====
-- internal/services/gift/service.go: the owner's gift lists, and who may touch what.
use yourz_gift.Base.{
  ℕ, String, Bool, true, false, not, Option, none, some, List, ◌==◌, ltb, if◌then◌else◌,
  forbidden_gift_access, Result, ok, err, Exec, pure, gets, ◌>>=◌, ◌>>◌,
}
use yourz_gift.Base.Text.{TextLib, string_or_default, strip_html, strip_html_preserve_newlines}
use yourz_gift.Utils.{random_code, share_alphabet}
use yourz_gift.Domain.Gift.{GiftList, visibility_public}
use yourz_gift.Dto.{GiftListCreate, GiftListUpdate}
use yourz_gift.Repo.Generic.{BaseParams, store, get_by_id, update, delete, writes}
use yourz_gift.Gift.{Gorm, Database, Call}
use yourz_gift.Gift.Sharing.{get_lists_by_owner, get_lists_by_friend_owners}

abbrev or_true : Option Bool → Bool
or_true none = true
or_true (some b) = b

-- The list that CreateList stores.
unfoldable pub new_list : TextLib → Call → String → GiftListCreate → GiftList
unfolding random_code
new_list lib call owner_id req = record {
  id = call.uuid;
  owner_id = owner_id;
  title = lib.title (strip_html lib req.title);
  description = strip_html_preserve_newlines lib req.description;
  occasion_type = string_or_default lib req.occasion_type "custom";
  share_code = random_code lib 8 share_alphabet call.uuid call.random;
  cover_image_url = req.cover_image_url;
  shipping_note = strip_html lib req.shipping_note;
  visibility = string_or_default lib req.visibility visibility_public;
  reservation_visibility = string_or_default lib req.reservation_visibility "immediately";
  is_active = true;
  never_expires = or_true req.never_expires;
  expires_at = if or_true req.never_expires then none else req.expires_at;
  created_at = call.now;
  updated_at = none;
  deleted_at = none;
}

-- if value != "" { field = value }
abbrev pub unless_empty : String → String → String → String
unless_empty value new old = if value == "" then old else new

-- if value != nil { field = *value }
abbrev pub unless_nil {ℓ} : {A : Type ℓ} → Option A → A → A
unless_nil none old = old
unless_nil (some new) old = new

-- The three expiry statements of UpdateList, on (NeverExpires, ExpiresAt).
unfoldable pub update_expiry : GiftListUpdate → Bool × Option ℕ → Bool × Option ℕ
update_expiry req (never, at) =
    let first : Bool × Option ℕ = elim req.never_expires [
      | none ↦ (never, at)
      | some b ↦ (b, if b then none else at)
    ] in
    elim req.expires_at [ none ↦ first | some t ↦ (false, some t) ]

-- The list that UpdateList saves.
unfoldable pub updated_list : TextLib → Call → GiftListUpdate → GiftList → GiftList
unfolding update_expiry
updated_list lib call req list =
    let expiry = update_expiry req (list.never_expires, list.expires_at) in
    record list {
      title = unless_empty req.title (lib.title (strip_html lib req.title)) list.title;
      description =
          unless_empty req.description (strip_html_preserve_newlines lib req.description)
            list.description;
      occasion_type = unless_empty req.occasion_type req.occasion_type list.occasion_type;
      cover_image_url = unless_empty req.cover_image_url req.cover_image_url list.cover_image_url;
      shipping_note =
          unless_empty req.shipping_note (strip_html lib req.shipping_note) list.shipping_note;
      visibility = unless_empty req.visibility req.visibility list.visibility;
      reservation_visibility =
          unless_empty req.reservation_visibility req.reservation_visibility
            list.reservation_visibility;
      is_active = unless_nil req.is_active list.is_active;
      never_expires = expiry.0;
      expires_at = expiry.1;
      updated_at = some call.now;
    }

-- isGiftListAvailable
unfoldable pub is_gift_list_available : GiftList → ℕ → Bool
is_gift_list_available list now =
    if not list.is_active
    then false
    else if list.never_expires
    then true
    else elim list.expires_at [ none ↦ false | some t ↦ ltb now t ]

-- The list, if it belongs to the owner.
abbrev pub owned : String → GiftList → Result GiftList
owned owner_id list = if list.owner_id == owner_id then ok list else err forbidden_gift_access

module _ {g : Gorm} where
  abbrev pub write_lists : (g.lists.Table → Result g.lists.Table) → Exec (Database g) (Unit {0})
  write_lists = writes (λ s. s.lists) (λ t s. record s { lists = t })

  unfoldable pub get_owner_list : String → String → Exec (Database g) GiftList
  get_owner_list owner_id list_id = do
    list ← gets (λ s. get_by_id g.lists list_id s.lists)
    gets (λ _. owned owner_id list)

  unfoldable pub delete_list : String → String → Exec (Database g) (Unit {0})
  unfolding get_owner_list delete
  delete_list owner_id list_id = do
    get_owner_list owner_id list_id
    write_lists (delete g.lists list_id)

module _ (lib : TextLib) (call : Call) where
  unfoldable pub create_list : {g : Gorm} → String → GiftListCreate → Exec (Database g) GiftList
  unfolding new_list store
  create_list {g} owner_id req = do
    let list = new_list lib call owner_id req
    write_lists (store g.lists list)
    pure list

  unfoldable pub update_list :
      {g : Gorm} → String → String → GiftListUpdate → Exec (Database g) GiftList
  unfolding get_owner_list updated_list update
  update_list {g} owner_id list_id req = do
    list ← get_owner_list owner_id list_id
    let list' = updated_list lib call req list
    write_lists (update g.lists list')
    pure list'

  unfoldable pub get_owner_lists :
      {g : Gorm} → String → BaseParams → Exec (Database g) (List GiftList × ℕ)
  unfolding get_lists_by_owner
  get_owner_lists owner_id params = gets (get_lists_by_owner lib owner_id params)

  unfoldable pub get_friend_lists :
      {g : Gorm} → String → BaseParams → Exec (Database g) (List GiftList × ℕ)
  unfolding get_lists_by_friend_owners
  get_friend_lists owner_id params = gets (get_lists_by_friend_owners lib owner_id call.now params)
