-- ===== src/Domain/Gift.antt =====
-- internal/domain/gift/entity.go
use yourz_gift.Base.{ℕ, String, Bool, true, false, ◌||◌, Option, none, some, ◌==◌, if◌then◌else◌}
use yourz_gift.Db.{Model}

abbrev pub visibility_public : String
visibility_public = "public"

abbrev pub status_confirmed : String
status_confirmed = "confirmed"

abbrev pub status_canceled : String
status_canceled = "canceled"

abbrev pub status_pending : String
status_pending = "pending"

abbrev pub status_accepted : String
status_accepted = "accepted"

abbrev pub status_rejected : String
status_rejected = "rejected"

pub record GiftList : Type 0 where
  pub id : String
  pub owner_id : String
  pub title : String
  pub description : String
  pub occasion_type : String
  pub share_code : String
  pub cover_image_url : String
  pub shipping_note : String
  pub visibility : String
  pub reservation_visibility : String
  pub is_active : Bool
  pub never_expires : Bool
  pub expires_at : Option ℕ
  pub created_at : ℕ
  pub updated_at : Option ℕ
  pub deleted_at : Option ℕ

pub record GiftItem : Type 0 where
  pub id : String
  pub list_id : String
  pub name : String
  pub description : String
  pub product_url : String
  pub image_url : String
  pub price : Option ℕ
  pub currency : String
  pub quantity : ℕ
  pub priority : ℕ
  pub is_active : Bool
  pub is_archived : Bool
  pub created_at : ℕ
  pub updated_at : Option ℕ
  pub deleted_at : Option ℕ

pub record GiftReservation : Type 0 where
  pub id : String
  pub item_id : String
  pub guest_email : String
  pub guest_name : String
  pub quantity : ℕ
  pub note : String
  pub show_name : Bool
  pub status : String
  pub thanked_at : Option ℕ
  pub canceled_at : Option ℕ
  pub canceled_by : Option String
  pub cancel_reason : String
  pub created_at : ℕ
  pub updated_at : Option ℕ
  pub deleted_at : Option ℕ

pub record GiftFriend : Type 0 where
  pub id : String
  pub requester_id : String
  pub addressee_id : String
  pub status : String
  pub created_at : ℕ
  pub updated_at : Option ℕ
  pub deleted_at : Option ℕ

-- DeletedAt.Valid
abbrev pub is_set : Option ℕ → Bool
is_set none = false
is_set (some t) = true

-- gorm writes UpdatedAt on a create if it is nil, and on every update.
abbrev pub or_now : ℕ → Option ℕ → Option ℕ
or_now now none = some now
or_now now (some t) = some t

abbrev pub gift_list : Model GiftList
gift_list = record {
  key = λ r. r.id;
  has_column = λ c.
      c == "id"
      || c == "share_code"
      || c == "title"
      || c == "description"
      || c == "owner_id"
      || c == "visibility"
      || c == "occasion_type";
  column = λ c r.
      if c == "share_code"
      then r.share_code
      else if c == "title"
      then r.title
      else if c == "description"
      then r.description
      else if c == "owner_id"
      then r.owner_id
      else if c == "visibility"
      then r.visibility
      else if c == "occasion_type"
      then r.occasion_type
      else r.id;
  soft_delete = true;
  is_deleted = λ r. is_set r.deleted_at;
  mark_deleted = λ now r. record r { deleted_at = some now };
  stamp = λ now r. record r { updated_at = or_now now r.updated_at };
  touch = λ now r. record r { updated_at = some now };
}

abbrev pub gift_item : Model GiftItem
gift_item = record {
  key = λ r. r.id;
  has_column = λ c. c == "id" || c == "list_id";
  column = λ c r. if c == "list_id" then r.list_id else r.id;
  soft_delete = true;
  is_deleted = λ r. is_set r.deleted_at;
  mark_deleted = λ now r. record r { deleted_at = some now };
  stamp = λ now r. record r { updated_at = or_now now r.updated_at };
  touch = λ now r. record r { updated_at = some now };
}

abbrev pub gift_reservation : Model GiftReservation
gift_reservation = record {
  key = λ r. r.id;
  has_column = λ c. c == "id" || c == "item_id" || c == "status";
  column = λ c r. if c == "item_id" then r.item_id else if c == "status" then r.status else r.id;
  soft_delete = true;
  is_deleted = λ r. is_set r.deleted_at;
  mark_deleted = λ now r. record r { deleted_at = some now };
  stamp = λ now r. record r { updated_at = or_now now r.updated_at };
  touch = λ now r. record r { updated_at = some now };
}

abbrev pub gift_friend : Model GiftFriend
gift_friend = record {
  key = λ r. r.id;
  has_column = λ c. c == "id" || c == "status";
  column = λ c r. if c == "status" then r.status else r.id;
  soft_delete = true;
  is_deleted = λ r. is_set r.deleted_at;
  mark_deleted = λ now r. record r { deleted_at = some now };
  stamp = λ now r. record r { updated_at = or_now now r.updated_at };
  touch = λ now r. record r { updated_at = some now };
}
