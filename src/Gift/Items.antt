-- ===== src/Gift/Items.antt =====
-- internal/services/gift/service.go: the items of a list.
use yourz_gift.Base.{
  ℕ, ◌-◌, String, Bool, true, false, not, ◌&&◌, List, ltb, eqb, map, Result, Exec, pure, gets,
  ◌>>=◌, ◌>>◌,
}
use yourz_gift.Base.Text.{
  TextLib, string_or_default, strip_html, strip_html_preserve_newlines, url_host,
}
use yourz_gift.Base.{Option, none, some}
use yourz_gift.Domain.Gift.{GiftItem}
use yourz_gift.Dto.{GiftItemCreate, GiftItemUpdate, GiftItemPriority, GiftItemPublicResponse}
use yourz_gift.Repo.Generic.{store, get_by_id, update, delete, writes}
use yourz_gift.Gift.{Gorm, Database, Call}
use yourz_gift.Gift.Repo.{get_items_by_list, get_reserved_quantities, reorder_items}
use yourz_gift.Gift.Lists.{get_owner_list, unless_empty, unless_nil}

-- The item that CreateItem stores.
unfoldable pub new_item : TextLib → Call → String → GiftItemCreate → GiftItem
new_item lib call list_id req = record {
  id = call.uuid;
  list_id = list_id;
  name = lib.title (strip_html lib req.name);
  description = strip_html_preserve_newlines lib req.description;
  product_url = req.product_url;
  image_url = req.image_url;
  price = req.price;
  currency = string_or_default lib req.currency "IDR";
  quantity = req.quantity;
  priority = req.priority;
  is_active = true;
  is_archived = false;
  created_at = call.now;
  updated_at = none;
  deleted_at = none;
}

abbrev or_keep : Option ℕ → Option ℕ → Option ℕ
or_keep none old = old
or_keep (some new) old = some new

-- The item that UpdateItem saves.
unfoldable pub updated_item : TextLib → Call → GiftItemUpdate → GiftItem → GiftItem
updated_item lib call req item = record item {
  name = unless_empty req.name (lib.title (strip_html lib req.name)) item.name;
  description =
      unless_empty req.description (strip_html_preserve_newlines lib req.description)
        item.description;
  product_url = unless_empty req.product_url req.product_url item.product_url;
  image_url = unless_empty req.image_url req.image_url item.image_url;
  price = or_keep req.price item.price;
  currency = unless_empty req.currency req.currency item.currency;
  quantity = unless_nil req.quantity item.quantity;
  priority = unless_nil req.priority item.priority;
  is_active = unless_nil req.is_active item.is_active;
  is_archived = unless_nil req.is_archived item.is_archived;
  updated_at = some call.now;
}

-- item.Quantity - reserved, raised to 0 where it is negative; `-` on ℕ does both.
abbrev pub remaining_of : ℕ → ℕ → ℕ
remaining_of quantity reserved = quantity - reserved

-- One round of the second loop of buildItemResponses.
unfoldable pub item_response : TextLib → (String → ℕ) → GiftItem → GiftItemPublicResponse
item_response lib reserved item =
    let remaining = remaining_of item.quantity (reserved item.id) in
    record {
      id = item.id;
      name = item.name;
      description = item.description;
      product_url = item.product_url;
      url_host = url_host lib item.product_url;
      image_url = item.image_url;
      price = item.price;
      currency = item.currency;
      quantity = item.quantity;
      quantity_remaining = remaining;
      priority = item.priority;
      created_at = item.created_at;
      can_reserve = ltb 0 remaining && item.is_active && not item.is_archived;
      is_reserved = eqb remaining 0;
      is_archived = item.is_archived;
    }

module _ {g : Gorm} where
  abbrev pub write_items : (g.items.Table → Result g.items.Table) → Exec (Database g) (Unit {0})
  write_items = writes (λ s. s.items) (λ t s. record s { items = t })

  unfoldable pub get_owner_item : String → String → Exec (Database g) GiftItem
  unfolding get_owner_list
  get_owner_item owner_id item_id = do
    item ← gets (λ s. get_by_id g.items item_id s.items)
    get_owner_list owner_id item.list_id
    pure item

  unfoldable pub delete_item : String → String → Exec (Database g) (Unit {0})
  unfolding get_owner_item delete
  delete_item owner_id item_id = do
    get_owner_item owner_id item_id
    write_items (delete g.items item_id)

  -- ReorderItems
  unfoldable pub reorder : String → String → List GiftItemPriority → Exec (Database g) (Unit {0})
  unfolding get_owner_list reorder_items
  reorder owner_id list_id items = do get_owner_list owner_id list_id; reorder_items list_id items

module _ (lib : TextLib) where
  unfoldable pub build_item_responses :
      {g : Gorm} → String → Bool → Exec (Database g) (List GiftItemPublicResponse)
  unfolding get_items_by_list get_reserved_quantities item_response
  build_item_responses list_id include_archived = do
    items ← gets (get_items_by_list list_id include_archived)
    reserved ← gets (get_reserved_quantities (map (λ i. i.id) items))
    pure (map (item_response lib reserved) items)

  unfoldable pub get_owner_items :
      {g : Gorm} → String → String → Bool → Exec (Database g) (List GiftItemPublicResponse)
  unfolding get_owner_list build_item_responses
  get_owner_items owner_id list_id include_archived = do
    get_owner_list owner_id list_id
    build_item_responses list_id include_archived

module _ (lib : TextLib) (call : Call) where
  unfoldable pub create_item :
      {g : Gorm} → String → String → GiftItemCreate → Exec (Database g) GiftItem
  unfolding get_owner_list new_item store
  create_item {g} owner_id list_id req = do
    get_owner_list owner_id list_id
    let item = new_item lib call list_id req
    write_items (store g.items item)
    pure item

  unfoldable pub update_item :
      {g : Gorm} → String → String → GiftItemUpdate → Exec (Database g) GiftItem
  unfolding get_owner_item updated_item update
  update_item {g} owner_id item_id req = do
    item ← get_owner_item owner_id item_id
    let item' = updated_item lib call req item
    write_items (update g.items item')
    pure item'
