-- ===== src/Gift/Stock/Rows.antt =====
-- What a change of the rows of items or reservations does to the invariant.
use yourz_gift.Base.{
  ℕ, ◌+◌, ◌≤◌, String, ◌≡◌, ◌≢◌, refl, sym, ap, ◌∙◌, Bool-cases, inl, inr, Bool, true, false, List,
  [], ◌∷◌, ◌++◌, any, All, All-map, All-amend_at, All-map₂, All-append, ◌==◌, arith, eq_iff, amend,
  filter, sum_by, sum_by-filter, if◌then◌else◌,
}
use mathlib.Core.Path.{subst}
use native.Mathlib.Nat.{le_trans}
use yourz_gift.Base.Keys.{
  Distinct-amend, Distinct-append, sum_by-amend-le, any-amend, any-append, any-eq-false,
}
use yourz_gift.Domain.Gift.{GiftItem, GiftReservation}
use yourz_gift.Gift.Repo.{counts_for, reserved_of}
use yourz_gift.Gift.Repo.Availability.{reserved_of-append}
use yourz_gift.Gift.Stock.{Fits, HasItem, Stocked}

-- What a reservation takes of an item.
abbrev pub weight : String → GiftReservation → ℕ
weight id r = if counts_for id r then r.quantity else 0

reserved_of-weight :
    (id : String) (rows : List GiftReservation) → reserved_of id rows ≡ sum_by (weight id) rows
unfolding reserved_of
reserved_of-weight id rows = sum_by-filter (λ r. r.quantity) (counts_for id) rows

new_id :
    (items : List GiftItem) (i : GiftItem)
    → any (λ x. x.id == i.id) items ≡ false
    → All (λ x. x.id ≢ i.id) items
new_id items i fresh =
    All-map (λ x e k. absurd (ground (arith, (eq_iff x.id i.id).1 k))) items
      (any-eq-false _ items fresh)

module _ (items : List GiftItem) (id : String) where
  -- Nothing is reserved of an item that is not there.
  reserved_of-new :
      (rows : List GiftReservation)
      → any (λ x. x.id == id) items ≡ false
      → All (HasItem items) rows
      → reserved_of id rows ≡ 0
  unfolding reserved_of filter sum_by
  reserved_of-new [] fresh h = refl
  reserved_of-new (r ∷ rows) fresh (h, hs) = elim (Bool-cases (r.item_id == id)) [
    | inl e ↦
        absurd (clash (subst (λ k. any (λ i. i.id == k) items ≡ true) ((eq_iff _ _).0 e) h) fresh)
    | inr e ↦ ground (arith, reserved_of-new rows fresh hs)
  ]
    where
      clash : {b : Bool} → b ≡ true → b ≡ false → ⊥
      clash p q = cc

module _ {items : List GiftItem} {rows : List GiftReservation} where
  -- Reservations that are changed, keep their id and item and take no more.
  pub amend_rows-Stocked :
      (p : GiftReservation → Bool) (f : GiftReservation → GiftReservation)
      → ((r : GiftReservation) → p r ≡ true → (f r).id ≡ r.id)
      → All (λ r. p r ≡ true → (f r).item_id ≡ r.item_id) rows
      → ((id : String) → All (λ r. p r ≡ true → weight id (f r) ≤ weight id r) rows)
      → Stocked items rows
      → Stocked items (amend p f rows)
  amend_rows-Stocked p f same_id same_item lighter s = record {
    items_distinct = s.items_distinct;
    rows_distinct = Distinct-amend (λ r. r.id) p f rows same_id s.rows_distinct;
    references =
        All-amend_at (HasItem items) p f rows
          (All-map (λ r e pr h. subst (λ id. any (λ i. i.id == id) items ≡ true) (sym (e pr)) h)
            rows same_item)
          s.references;
    stocked = All-map (λ i fits l. le_trans (lighter_sum i.id) (fits l)) items s.stocked;
  }
    where
      lighter_sum : (id : String) → reserved_of id (amend p f rows) ≤ reserved_of id rows
      lighter_sum id =
          rw (reserved_of-weight id (amend p f rows), reserved_of-weight id rows)
            (sum_by-amend-le (weight id) p f rows (lighter id))

  -- One more reservation, of an open item that has room for it.
  pub append_row-Stocked :
      (r : GiftReservation) (item : GiftItem)
      → All (λ y. y.id ≢ r.id) rows
      → HasItem items r
      → item.id ≡ r.item_id
      → All (λ i. i.id ≡ item.id → i ≡ item) items
      → reserved_of r.item_id rows + r.quantity ≤ item.quantity
      → Stocked items rows
      → Stocked items (rows ++ r ∷ [])
  append_row-Stocked r item fresh has named only room s = record {
    items_distinct = s.items_distinct;
    rows_distinct = Distinct-append (λ y. y.id) rows r fresh s.rows_distinct;
    references = All-append (HasItem items) rows (r ∷ []) s.references (has, tt);
    stocked = All-map₂ (λ i same fits l. with_room i same (fits l)) items only s.stocked;
  }
    where
      with_room :
          (i : GiftItem)
          → (i.id ≡ item.id → i ≡ item)
          → reserved_of i.id rows ≤ i.quantity
          → reserved_of i.id (rows ++ r ∷ []) ≤ i.quantity
      with_room i same fits =
          rw (reserved_of-append i.id rows r) (elim (Bool-cases (r.item_id == i.id)) [
            | inl e ↦
                let k : i.id ≡ r.item_id = sym ((eq_iff _ _).0 e) in
                ground (
                  arith,
                  ap (λ x. reserved_of x rows) k,
                  ap (λ x. x.quantity) (same (k ∙ sym named)),
                )
            | inr e ↦ ground arith
          ])

  -- Items that are changed, keep their id, come back from no deletion and have room for their
  -- reservations.
  pub amend_items-Stocked :
      (p : GiftItem → Bool) (f : GiftItem → GiftItem)
      → ((i : GiftItem) → p i ≡ true → (f i).id ≡ i.id)
      → All (λ i. p i ≡ true → Fits rows i → Fits rows (f i)) items
      → Stocked items rows
      → Stocked (amend p f items) rows
  amend_items-Stocked p f same_id room s = record {
    items_distinct = Distinct-amend (λ i. i.id) p f items same_id s.items_distinct;
    rows_distinct = s.rows_distinct;
    references =
        All-map (λ r h. any-amend _ p f items (λ i pi. rw (same_id i pi)) ∙ h) rows s.references;
    stocked = All-amend_at (Fits rows) p f items room s.stocked;
  }

  -- One more item, with a new id.
  pub append_item-Stocked :
      (i : GiftItem)
      → any (λ x. x.id == i.id) items ≡ false
      → Stocked items rows
      → Stocked (items ++ i ∷ []) rows
  append_item-Stocked i fresh s = record {
    items_distinct = Distinct-append (λ x. x.id) items i (new_id items i fresh) s.items_distinct;
    rows_distinct = s.rows_distinct;
    references = All-map (λ r h. any-append _ items (i ∷ []) h) rows s.references;
    stocked =
        All-append (Fits rows) items (i ∷ []) s.stocked
          ((λ l. omega (arith, reserved_of-new items i.id rows fresh s.references)), tt);
  }
