-- ===== src/Gift/Stock/Items.antt =====
-- The owner's operations on items and the reservations within the quantities: a quantity may be
-- raised, or lowered to what is reserved.
use mathlib.Core.Path.{subst}
use yourz_gift.Base.{
  ℕ, ◌≤◌, String, ◌≡◌, ◌⊎◌, refl, sym, Bool, ◌&&◌, some, List, [], ◌∷◌, ◌==◌, eqb, arith, eq_iff,
  ok, Result-cases, Option-cases, Bool-cases, inl, inr,
}
use yourz_gift.Base.Text.{TextLib}
use yourz_gift.Base.Keys.{All-intro}
use yourz_gift.Db.{done, Attempt-cases, has_key}
use yourz_gift.Db.Laws.{first-any, first-holds, first-All}
use yourz_gift.Domain.Gift.{GiftItem, gift_item}
use yourz_gift.Dto.{GiftItemCreate, GiftItemUpdate, GiftItemPriority}
use yourz_gift.Repo.Generic.{get_by_id}
use yourz_gift.Gift.{Gorm, Database, Call, transaction}
use yourz_gift.Gift.Repo.{reorder_loop, reorder_items}
use yourz_gift.Gift.Lists.{get_owner_list}
use yourz_gift.Gift.Items.{
  get_owner_item, create_item, update_item, delete_item, reorder, new_item, updated_item,
}
use yourz_gift.Gift.Repo.Availability.{reserved_in}
use yourz_gift.Gift.Stock.{Fits, Stocked, IsStocked}
use yourz_gift.Gift.Stock.Rows.{amend_items-Stocked, append_item-Stocked}

module _ {g : Gorm} where
  at_state : (db db' : Database g) → db' ≡ db → IsStocked db → IsStocked db'
  at_state db db' e s = subst IsStocked (sym e) s

  owner_item :
      (u id : String) (i : GiftItem) (db : Database g)
      → (get_owner_item u id db).0 ≡ ok i
      → (get_by_id g.items id db.items ≡ ok i) × ((get_owner_item u id db).1 ≡ db)
  unfolding get_owner_item
  owner_item u id i db e = ground arith

  save_item-Stocked :
      (id : String) (i i' : GiftItem) (db : Database g) (t : g.items.Table)
      → get_by_id g.items id db.items ≡ ok i
      → i'.id ≡ i.id
      → reserved_in db i.id ≤ i'.quantity
      → g.items.save i' db.items ≡ done t
      → IsStocked db
      → Stocked (g.items.contents t) (g.reservations.contents db.reservations)
  unfolding get_by_id
  save_item-Stocked id i i' db t found same_id room saved s =
      rw
        (g.items.contents-save i' db.items t
          (rw same_id (first-any g.items (has_key gift_item id) db.items i found)) saved)
        (amend_items-Stocked _ _ (λ x p. ground (arith, eq_iff x.id i'.id))
          (All-intro (λ x p fits l. rw same_id room) _) s)

  delete_items-Stocked :
      (p : GiftItem → Bool) (db : Database g) (t : g.items.Table)
      → g.items.delete p db.items ≡ done t
      → IsStocked db
      → Stocked (g.items.contents t) (g.reservations.contents db.reservations)
  delete_items-Stocked p db t deleted s =
      rw (g.items.contents-delete p db.items t deleted)
        (amend_items-Stocked _ _ (λ x p. refl) (All-intro (λ x p fits l. absurd (cc)) _) s)

  create_items-Stocked :
      (i : GiftItem) (db : Database g) (t : g.items.Table)
      → g.items.create i db.items ≡ done t
      → IsStocked db
      → Stocked (g.items.contents t) (g.reservations.contents db.reservations)
  create_items-Stocked i db t created s =
      rw (g.items.contents-create i db.items t created)
        (append_item-Stocked _ (g.items.create-fresh i db.items t created) s)

  reprioritise-Stocked :
      (p : GiftItem → Bool) (n priority : ℕ) (db : Database g) (t : g.items.Table)
      → g.items.update p (λ r. record r { priority = priority }) db.items ≡ done (n, t)
      → IsStocked db
      → Stocked (g.items.contents t) (g.reservations.contents db.reservations)
  reprioritise-Stocked p n priority db t updated s =
      rw (g.items.contents-update p (λ r. record r { priority = priority }) db.items t n updated)
        (amend_items-Stocked _ _ (λ x h. refl) (All-intro (λ x h fits l. fits l) _) s)

  reorder_loop-IsStocked :
      (list_id : String) (items : List GiftItemPriority) (db : Database g)
      → IsStocked db
      → IsStocked (reorder_loop list_id items db).1
  unfolding reorder_loop
  reorder_loop-IsStocked list_id [] db s = s
  reorder_loop-IsStocked list_id (item ∷ items) db s =
      elim (Attempt-cases (
        g.items.update (λ r. r.id == item.id && r.list_id == list_id)
          (λ r. record r { priority = item.priority }) db.items)) [
            | inr (x, e) ↦ at_state db (reorder_loop list_id (item ∷ items) db).1 (ground arith) s
            | inl ((n, t), e) ↦ elim (Bool-cases (eqb n 0)) [
              | inl none_hit ↦
                  at_state (record db { items = t }) (reorder_loop list_id (item ∷ items) db).1
                    (ground arith) (reprioritise-Stocked _ n item.priority db t e s)
              | inr hit ↦
                  at_state (reorder_loop list_id items (record db { items = t })).1
                    (reorder_loop list_id (item ∷ items) db).1 (ground arith)
                    (reorder_loop-IsStocked list_id items (record db { items = t })
                      (reprioritise-Stocked _ n item.priority db t e s))
            ]
          ]

module _ {g : Gorm} (lib : TextLib) (call : Call) where
  -- The item that UpdateItem saves has room, if the quantity asked for has.
  updated_room :
      (id : String) (req : GiftItemUpdate) (i : GiftItem) (db : Database g)
      → get_by_id g.items id db.items ≡ ok i
      → ((q : ℕ) → req.quantity ≡ some q → reserved_in db id ≤ q)
      → IsStocked db
      → reserved_in db i.id ≤ (updated_item lib call req i).quantity
  unfolding get_by_id updated_item
  updated_room id req i db e room s =
      let h = first-holds g.items (has_key gift_item id) db.items i e in
      let same : i.id ≡ id = ground (arith, eq_iff i.id id) in
      let fits = first-All g.items (has_key gift_item id) db.items i (Fits _) e s.stocked in
      elim (Option-cases req.quantity) [
        | inl none_asked ↦ rw none_asked (fits (ground arith))
        | inr (q, asked) ↦ rw asked (rw same (room q asked))
      ]

  pub update_item-IsStocked :
      (u id : String) (req : GiftItemUpdate) (db : Database g)
      → ((q : ℕ) → req.quantity ≡ some q → reserved_in db id ≤ q)
      → IsStocked db
      → IsStocked (update_item lib call u id req db).1
  unfolding update_item
  update_item-IsStocked u id req db room s = elim (Result-cases (get_owner_item u id db).0) [
    | inr (x, e) ↦ at_state db (update_item lib call u id req db).1 (ground arith) s
    | inl (i, e) ↦
        let (found, same) = owner_item u id i db e in
        elim (Attempt-cases (g.items.save (updated_item lib call req i) db.items)) [
          | inr (x, c) ↦ at_state db (update_item lib call u id req db).1 (ground arith) s
          | inl (t, c) ↦
              at_state (record db { items = t }) (update_item lib call u id req db).1 (ground arith)
                (save_item-Stocked id i _ db t found refl (updated_room id req i db found room s) c
                  s)
        ]
  ]

  pub create_item-IsStocked :
      (u id : String) (req : GiftItemCreate) (db : Database g)
      → IsStocked db
      → IsStocked (create_item lib call u id req db).1
  unfolding create_item
  create_item-IsStocked u id req db s =
      let item = new_item lib call id req in
      elim (Result-cases (get_owner_list u id db).0) [
        | inr (x, e) ↦ at_state db (create_item lib call u id req db).1 (ground arith) s
        | inl (l, e) ↦ elim (Attempt-cases (g.items.create item db.items)) [
          | inr (x, c) ↦ at_state db (create_item lib call u id req db).1 (ground arith) s
          | inl (t, c) ↦
              at_state (record db { items = t }) (create_item lib call u id req db).1 (ground arith)
                (create_items-Stocked item db t c s)
        ]
      ]

  pub delete_item-IsStocked :
      (u id : String) (db : Database g) → IsStocked db → IsStocked (delete_item u id db).1
  unfolding delete_item
  delete_item-IsStocked u id db s = elim (Result-cases (get_owner_item u id db).0) [
    | inr (x, e) ↦ at_state db (delete_item u id db).1 (ground arith) s
    | inl (i, e) ↦ elim (Attempt-cases (g.items.delete (has_key gift_item id) db.items)) [
      | inr (x, c) ↦ at_state db (delete_item u id db).1 (ground arith) s
      | inl (t, c) ↦
          at_state (record db { items = t }) (delete_item u id db).1 (ground arith)
            (delete_items-Stocked (has_key gift_item id) db t c s)
    ]
  ]

  reorder_state :
      (u id : String) (items : List GiftItemPriority) (db : Database g)
      → ((reorder u id items db).1 ≡ db)
        ⊎ ((reorder u id items db).1 ≡ (reorder_loop id items db).1)
  unfolding reorder reorder_items transaction
  reorder_state u id items db = ground arith

  pub reorder-IsStocked :
      (u id : String) (items : List GiftItemPriority) (db : Database g)
      → IsStocked db
      → IsStocked (reorder u id items db).1
  reorder-IsStocked u id items db s = elim (reorder_state u id items db) [
    | inl e ↦ at_state _ _ e s
    | inr e ↦ at_state _ _ e (reorder_loop-IsStocked id items db s)
  ]
