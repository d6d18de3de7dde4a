-- ===== src/Tests/Sample.antt =====
-- A database in memory with two lists, and the text functions restricted to ASCII.
use Prim.Native.Char.{code}
use yourz_gift.Base.{
  true, false, ◌||◌, none, some, [], ◌∷◌, eqb, ◌==◌, filter, amend, any, sum_by, sort_by,
}
use yourz_gift.Base.Text.{TextLib}
use yourz_gift.Db.{first, find, scan}
use yourz_gift.Db.Memory.{memory, table}
use yourz_gift.Domain.Gift.{
  GiftList, GiftItem, GiftReservation, GiftFriend, gift_list, gift_item, gift_reservation,
  gift_friend, status_confirmed, status_accepted,
}
use yourz_gift.Domain.User.{Users, users}
use yourz_gift.Gift.{Gorm, Database, Call, Service}

abbrev pub ascii : TextLib
ascii = record {
  is_space = λ c. eqb (code c) 32 || eqb (code c) 10 || eqb (code c) 9;
  to_upper = λ c. c;
  to_lower = λ c. c;
  title = λ s. s;
  strip_tags = λ s. s;
  parse_address = λ s. some s;
  url_hostname = λ s. s;
  like = λ s t. s == t;
}

abbrev pub memory_gorm : Gorm
memory_gorm = record {
  lists = memory gift_list;
  items = memory gift_item;
  reservations = memory gift_reservation;
  friends = memory gift_friend;
  accounts = memory users;
}

abbrev pub wedding : GiftList
wedding = record {
  id = "l1";
  owner_id = "ann";
  title = "Wedding";
  description = "";
  occasion_type = "custom";
  share_code = "ABCD2345";
  cover_image_url = "";
  shipping_note = "";
  visibility = "public";
  reservation_visibility = "immediately";
  is_active = true;
  never_expires = true;
  expires_at = none;
  created_at = 1;
  updated_at = none;
  deleted_at = none;
}

abbrev pub birthday : GiftList
birthday = record wedding {
  id = "l2";
  owner_id = "bob";
  share_code = "BIRTH234";
  never_expires = false;
  expires_at = some 500;
}

abbrev pub kettle : GiftItem
kettle = record {
  id = "i1";
  list_id = "l1";
  name = "Kettle";
  description = "";
  product_url = "";
  image_url = "";
  price = none;
  currency = "IDR";
  quantity = 3;
  priority = 1;
  is_active = true;
  is_archived = false;
  created_at = 2;
  updated_at = none;
  deleted_at = none;
}

abbrev pub vase : GiftItem
vase = record kettle { id = "i2"; name = "Vase"; quantity = 1; priority = 0 }

abbrev pub one_kettle : GiftReservation
one_kettle = record {
  id = "r1";
  item_id = "i1";
  guest_email = "eve@x.org";
  guest_name = "Eve";
  quantity = 1;
  note = "";
  show_name = true;
  status = status_confirmed;
  thanked_at = none;
  canceled_at = none;
  canceled_by = none;
  cancel_reason = "";
  created_at = 3;
  updated_at = none;
  deleted_at = none;
}

abbrev pub two_kettles : GiftReservation
two_kettles = record one_kettle { id = "r2"; quantity = 2 }

abbrev pub friendship : GiftFriend
friendship = record {
  id = "f1";
  requester_id = "ann";
  addressee_id = "bob";
  status = status_accepted;
  created_at = 4;
  updated_at = none;
  deleted_at = none;
}

abbrev pub ann : Users
ann = record {
  id = "ann";
  name = "Ann";
  email = "ann@x.org";
  phone = "";
  password = "";
  role = "member";
  role_id = none;
  email_verified_at = none;
  phone_verified_at = none;
  last_login_at = none;
  last_login_ip = "";
  last_login_user_agent = "";
  locked_until = none;
  password_changed_at = none;
  login_provider = "local";
  avatar_url = "";
  created_at = 0;
  updated_at = none;
  deleted_at = none;
}

abbrev pub bob : Users
bob = record ann { id = "bob"; name = "Bob"; email = "bob@x.org" }

abbrev pub sample : Database memory_gorm
sample = record {
  lists = table (wedding ∷ birthday ∷ []);
  items = table (kettle ∷ vase ∷ []);
  reservations = table (one_kettle ∷ []);
  friends = table (friendship ∷ []);
  accounts = table (ann ∷ bob ∷ []);
  commit = none;
}

abbrev pub now_100 : Call
now_100 = record { now = 100; uuid = "n1"; random = some (0 ∷ 1 ∷ 2 ∷ 3 ∷ 4 ∷ 5 ∷ 6 ∷ 7 ∷ []) }

abbrev pub service : Service
service = record { friend_repo = true; user_repo = true }

-- Opened by the tests: what a query on tables in memory computes with.
unfoldable pub queries : Unit {0}
unfolding filter amend any sum_by sort_by first find scan
queries = tt
