-- ===== src/Gift/Stock/Keeps.antt =====
-- internal/services/gift/service.go: which operations keep the reservations within the quantities.
use mathlib.Core.Path.{subst}
use yourz_gift.Base.{
  Error, ◌≤◌, String, ◌≡◌, refl, sym, ap, ◌∙◌, true, All-map, arith, eq_iff, ok, err, Exec,
  Result-cases, inl, inr,
}
use yourz_gift.Base.Text.{TextLib}
use yourz_gift.Db.{done, failed, Attempt-cases, live, has_key, both}
use yourz_gift.Db.Laws.{first-any, first-only}
use yourz_gift.Domain.Gift.{GiftReservation, gift_reservation}
use yourz_gift.Repo.Generic.{get_by_id}
use yourz_gift.Gift.{Gorm, Database, Call}
use yourz_gift.Gift.Reservations.{
  get_owner_reservation, mark_reservation_thanked, cancel_reservation, canceled, thanked,
}
use yourz_gift.Gift.Stock.{Stocked, IsStocked}
use yourz_gift.Gift.Stock.Rows.{weight, amend_rows-Stocked}

module _ {g : Gorm} where
  save_reservation-Stocked :
      (id : String) (r r' : GiftReservation) (db : Database g) (t : g.reservations.Table)
      → get_by_id g.reservations id db.reservations ≡ ok r
      → r'.id ≡ r.id
      → r'.item_id ≡ r.item_id
      → ((k : String) → weight k r' ≤ weight k r)
      → g.reservations.save r' db.reservations ≡ done t
      → IsStocked db
      → Stocked (g.items.contents db.items) (g.reservations.contents t)
  unfolding get_by_id
  save_reservation-Stocked id r r' db t found same_id same_item lighter saved s =
      let key = has_key gift_reservation id in
      let only = first-only g.reservations key db.reservations r found s.rows_distinct in
      let here = first-any g.reservations key db.reservations r found in
      rw (g.reservations.contents-save r' db.reservations t (rw same_id here) saved) (
        amend_rows-Stocked _ _ (λ x p. ground (arith, eq_iff x.id r'.id))
          (All-map (λ x o p. same_item ∙ sym (ap (λ y. y.item_id) (row x o p))) _ only)
          (λ k. All-map (λ x o p. rw (row x o p) (lighter k)) _ only) s)
    where
      row :
          (x : GiftReservation)
          → (x.id ≡ r.id → x ≡ r)
          → both (live gift_reservation) (has_key gift_reservation r'.id) x ≡ true
          → x ≡ r
      row x o p = o (ground (arith, eq_iff x.id r'.id))

  -- What was read before an owner's change of a reservation.
  owner_reservation :
      (u id : String) (r : GiftReservation) (db : Database g)
      → (get_owner_reservation u id db).0 ≡ ok r
      → (get_by_id g.reservations id db.reservations ≡ ok r)
        × ((get_owner_reservation u id db).1 ≡ db)
  unfolding get_owner_reservation
  owner_reservation u id r db e = ground arith

  at_state : {db db' : Database g} → db' ≡ db → IsStocked db → IsStocked db'
  at_state e s = subst IsStocked (sym e) s

  -- A change of a reservation that the owner may make, and that takes no more of the item.
  change-IsStocked :
      (op : Exec (Database g) GiftReservation) (f : GiftReservation → GiftReservation)
      (u id : String) (db : Database g)
      → ((x : Error) → (get_owner_reservation u id db).0 ≡ err x → (op db).1 ≡ db)
      → ((r : GiftReservation) (x : String)
          → (get_owner_reservation u id db).0 ≡ ok r
          → g.reservations.save (f r) db.reservations ≡ failed x
          → (op db).1 ≡ db)
      → ((r : GiftReservation) (t : g.reservations.Table)
          → (get_owner_reservation u id db).0 ≡ ok r
          → g.reservations.save (f r) db.reservations ≡ done t
          → (op db).1 ≡ record db { reservations = t })
      → ((r : GiftReservation)
          → ((f r).id ≡ r.id)
            × ((f r).item_id ≡ r.item_id)
            × ((k : String) → weight k (f r) ≤ weight k r))
      → IsStocked db
      → IsStocked (op db).1
  change-IsStocked op f u id db refused unsaved saved light s =
      elim (Result-cases (get_owner_reservation u id db).0) [
        | inr (x, e) ↦ at_state (refused x e) s
        | inl (r, e) ↦ elim (Attempt-cases (g.reservations.save (f r) db.reservations)) [
          | inr (x, c) ↦ at_state (unsaved r x e c) s
          | inl (t, c) ↦ at_state (saved r t e c) (
              save_reservation-Stocked id r (f r) db t (owner_reservation u id r db e).0 (light r).0
                (light r).1 (light r).2 c s)
        ]
      ]

module _ {g : Gorm} (lib : TextLib) (call : Call) where
  pub cancel-IsStocked :
      (u id why : String) (db : Database g)
      → IsStocked db
      → IsStocked (cancel_reservation lib call u id why db).1
  unfolding cancel_reservation
  cancel-IsStocked u id why db s =
      change-IsStocked (cancel_reservation lib call u id why) (canceled lib call u why) u id db
        (λ x e. ground arith) (λ r x e c. ground arith) (λ r t e c. ground arith)
        (λ r. (refl, refl, λ k. ground arith)) s

  pub mark-IsStocked :
      (u id : String) (db : Database g)
      → IsStocked db
      → IsStocked (mark_reservation_thanked lib call u id db).1
  unfolding mark_reservation_thanked
  mark-IsStocked u id db s =
      change-IsStocked (mark_reservation_thanked lib call u id) (thanked call) u id db
        (λ x e. ground arith) (λ r x e c. ground arith) (λ r t e c. ground arith)
        (λ r. (refl, refl, λ k. ground arith)) s
