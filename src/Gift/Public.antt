-- ===== src/Gift/Public.antt =====
-- internal/services/gift/service.go: what a guest reads by a share code.
use yourz_gift.Base.{
  ℕ, ◌+◌, String, false, not, ◌||◌, List, [], ◌∷◌, ◌==◌, ltb, if◌then◌else◌, gift_list_not_public,
  Result, ok, err, Exec, pure, gets, ◌>>=◌,
}
use yourz_gift.Base.Text.{TextLib, normalize_upper_key}
use yourz_gift.Domain.Gift.{GiftList, visibility_public}
use yourz_gift.Dto.{GiftListPublicResponse, GiftItemPublicResponse}
use yourz_gift.Repo.Generic.{get_by_id}
use yourz_gift.Gift.{Gorm, Database, Call, Service}
use yourz_gift.Gift.Sharing.{get_list_by_share_code}
use yourz_gift.Gift.Lists.{is_gift_list_available}
use yourz_gift.Gift.Items.{build_item_responses}

-- The list, if a guest may see it now.
abbrev pub shown : ℕ → GiftList → Result GiftList
shown now list =
    if not (is_gift_list_available list now) || not (list.visibility == visibility_public)
    then err gift_list_not_public
    else ok list

-- The loop of GetPublicList that counts (available, reserved).
unfoldable pub count_items : List GiftItemPublicResponse → ℕ × ℕ
count_items [] = (0, 0)
count_items (item ∷ items) =
    let (available, reserved) = count_items items in
    if ltb 0 item.quantity_remaining then (available + 1, reserved) else (available, reserved + 1)

abbrev pub public_response : GiftList → String → ℕ × ℕ → GiftListPublicResponse
public_response list owner_name counts = record {
  id = list.id;
  title = list.title;
  owner_name = owner_name;
  description = list.description;
  occasion_type = list.occasion_type;
  share_code = list.share_code;
  cover_image_url = list.cover_image_url;
  shipping_note = list.shipping_note;
  reservation_visibility = list.reservation_visibility;
  never_expires = list.never_expires;
  expires_at = list.expires_at;
  available_items = counts.0;
  reserved_items = counts.1;
}

-- The owner's name, "" without a user repository.
unfoldable pub owner_name_of : {g : Gorm} → Service → GiftList → Database g → Result String
owner_name_of {g} svc list db =
    let found : Result String = elim (get_by_id g.accounts list.owner_id db.accounts) [
      | ok owner ↦ ok owner.name
      | err e ↦ err e
    ] in
    if svc.user_repo then found else ok ""

module _ (lib : TextLib) (call : Call) where
  -- The share code is trimmed and put in upper case.
  unfoldable pub get_shown_list : {g : Gorm} → String → Exec (Database g) GiftList
  unfolding get_list_by_share_code is_gift_list_available
  get_shown_list share_code = do
    list ← gets (get_list_by_share_code lib (normalize_upper_key lib share_code))
    gets (λ _. shown call.now list)

  unfoldable pub get_public_list :
      {g : Gorm} → Service → String → Exec (Database g) GiftListPublicResponse
  unfolding get_shown_list build_item_responses count_items owner_name_of
  get_public_list svc share_code = do
    list ← get_shown_list share_code
    owner_name ← gets (owner_name_of svc list)
    items ← build_item_responses lib list.id false
    pure (public_response list owner_name (count_items items))

  unfoldable pub get_public_items :
      {g : Gorm} → String → Exec (Database g) (List GiftItemPublicResponse)
  unfolding get_shown_list build_item_responses
  get_public_items share_code = do
    list ← get_shown_list share_code
    build_item_responses lib list.id false
