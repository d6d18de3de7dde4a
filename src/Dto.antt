-- ===== src/Dto.antt =====
-- internal/dto/gift.go: the bodies of requests, after binding, and of responses. A pointer field is
-- an Option. The binding tags keep quantities between 1 and 999 and priorities non-negative.
use yourz_gift.Base.{ℕ, String, Bool, Option}

pub record GiftListCreate : Type 0 where
  pub title : String
  pub description : String
  pub occasion_type : String
  pub cover_image_url : String
  pub shipping_note : String
  pub visibility : String
  pub reservation_visibility : String
  pub never_expires : Option Bool
  pub expires_at : Option ℕ

pub record GiftListUpdate : Type 0 where
  pub title : String
  pub description : String
  pub occasion_type : String
  pub cover_image_url : String
  pub shipping_note : String
  pub visibility : String
  pub reservation_visibility : String
  pub is_active : Option Bool
  pub never_expires : Option Bool
  pub expires_at : Option ℕ

pub record GiftItemCreate : Type 0 where
  pub name : String
  pub description : String
  pub product_url : String
  pub image_url : String
  pub price : Option ℕ
  pub currency : String
  pub quantity : ℕ
  pub priority : ℕ

pub record GiftItemUpdate : Type 0 where
  pub name : String
  pub description : String
  pub product_url : String
  pub image_url : String
  pub price : Option ℕ
  pub currency : String
  pub quantity : Option ℕ
  pub priority : Option ℕ
  pub is_active : Option Bool
  pub is_archived : Option Bool

pub record GiftItemPriority : Type 0 where
  pub id : String
  pub priority : ℕ

pub record GiftReservationCreate : Type 0 where
  pub guest_email : String
  pub guest_name : String
  pub quantity : ℕ
  pub note : String
  pub show_name : Option Bool

pub record GiftFriendResponse : Type 0 where
  pub id : String
  pub user_id : String
  pub name : String
  pub email : String
  pub avatar_url : String
  pub status : String

pub record GiftListPublicResponse : Type 0 where
  pub id : String
  pub title : String
  pub owner_name : String
  pub description : String
  pub occasion_type : String
  pub share_code : String
  pub cover_image_url : String
  pub shipping_note : String
  pub reservation_visibility : String
  pub never_expires : Bool
  pub expires_at : Option ℕ
  pub available_items : ℕ
  pub reserved_items : ℕ

-- DisplayQuantity, a text made of QuantityRemaining and Quantity, is left out.
pub record GiftItemPublicResponse : Type 0 where
  pub id : String
  pub name : String
  pub description : String
  pub product_url : String
  pub url_host : String
  pub image_url : String
  pub price : Option ℕ
  pub currency : String
  pub quantity : ℕ
  pub quantity_remaining : ℕ
  pub priority : ℕ
  pub created_at : ℕ
  pub can_reserve : Bool
  pub is_reserved : Bool
  pub is_archived : Bool
