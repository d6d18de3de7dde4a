-- ===== src/Gift/Stock.antt =====
-- The invariant of the gift tables: the confirmed reservations of an item fit into its quantity.
-- The rows are those of the tables of items and reservations, whichever driver holds them.
pub mod Rows
pub mod Keeps
pub mod Reserve
pub mod Items
pub mod History
use yourz_gift.Base.{ℕ, ◌≤◌, String, ◌≡◌, Bool, true, List, any, All, ◌==◌}
use yourz_gift.Base.Keys.{Distinct}
use yourz_gift.Db.{live}
use yourz_gift.Domain.Gift.{GiftItem, GiftReservation, gift_item}
use yourz_gift.Gift.Repo.{reserved_of}
use yourz_gift.Gift.{Gorm, Database}

-- An item that is not deleted has its reservations within its quantity.
abbrev pub Fits : List GiftReservation → GiftItem → Type 0
Fits rows i = live gift_item i ≡ true → reserved_of i.id rows ≤ i.quantity

-- The item of a reservation is one of the items, as the foreign key says.
abbrev pub HasItem : List GiftItem → GiftReservation → Type 0
HasItem items r = any (λ i. i.id == r.item_id) items ≡ true

pub record Stocked (items : List GiftItem) (rows : List GiftReservation) : Type 0 where
  pub items_distinct : Distinct (λ i. i.id) items
  pub rows_distinct : Distinct (λ r. r.id) rows
  pub references : All (HasItem items) rows
  pub stocked : All (Fits rows) items

abbrev pub IsStocked : {g : Gorm} → Database g → Type 0
IsStocked {g} db = Stocked (g.items.contents db.items) (g.reservations.contents db.reservations)
