-- ===== src/Gift/Expiry.antt =====
-- internal/services/gift/service.go: NeverExpires and ExpiresAt of the stored lists agree.
use yourz_gift.Base.{
  String, ◌≡◌, refl, true, none, ok, arith, All, All-amend, All-append, Result-cases, inl, inr,
}
use yourz_gift.Base.Text.{TextLib}
use yourz_gift.Db.{done, Attempt-cases, has_key}
use yourz_gift.Db.Laws.{first-any, first-All}
use yourz_gift.Domain.Gift.{GiftList, gift_list}
use yourz_gift.Dto.{GiftListCreate, GiftListUpdate}
use yourz_gift.Repo.Generic.{get_by_id}
use yourz_gift.Gift.{Gorm, Database, Call}
use yourz_gift.Gift.Lists.{
  new_list, updated_list, update_expiry, get_owner_list, create_list, update_list, delete_list,
}

-- A list that never expires has no expiry time.
abbrev pub IsDated : GiftList → Type 0
IsDated l = l.never_expires ≡ true → l.expires_at ≡ none

abbrev pub IsDatedAll : {g : Gorm} → Database g → Type 0
IsDatedAll {g} db = All IsDated (g.lists.contents db.lists)

new_list-IsDated :
    (lib : TextLib) (call : Call) (u : String) (req : GiftListCreate)
    → IsDated (new_list lib call u req)
unfolding new_list
new_list-IsDated lib call u req e = ground arith

updated_list-IsDated :
    (lib : TextLib) (call : Call) (req : GiftListUpdate) (l : GiftList)
    → IsDated l
    → IsDated (updated_list lib call req l)
unfolding updated_list update_expiry
updated_list-IsDated lib call req l h e = ground arith

module _ {g : Gorm} where
  -- The lists of a database are the rows of a table.
  in_table :
      (db : Database g) (t : g.lists.Table)
      → db.lists ≡ t
      → All IsDated (g.lists.contents t)
      → IsDatedAll db
  in_table db t e h = rw e h

  save_list-IsDated :
      (id : String) (l l' : GiftList) (db : Database g) (t : g.lists.Table)
      → get_by_id g.lists id db.lists ≡ ok l
      → l'.id ≡ l.id
      → (IsDated l → IsDated l')
      → g.lists.save l' db.lists ≡ done t
      → IsDatedAll db
      → All IsDated (g.lists.contents t)
  unfolding get_by_id
  save_list-IsDated id l l' db t found same_id keeps saved h =
      let dated = keeps (first-All g.lists (has_key gift_list id) db.lists l IsDated found h) in
      rw
        (g.lists.contents-save l' db.lists t
          (rw same_id (first-any g.lists (has_key gift_list id) db.lists l found)) saved)
        (All-amend IsDated _ _ _ (λ x p k. dated) h)

  owner_list :
      (u id : String) (l : GiftList) (db : Database g)
      → (get_owner_list u id db).0 ≡ ok l
      → get_by_id g.lists id db.lists ≡ ok l
  unfolding get_owner_list
  owner_list u id l db e = ground arith

  delete_list-IsDated :
      (u id : String) (db : Database g) → IsDatedAll db → IsDatedAll (delete_list u id db).1
  unfolding delete_list
  delete_list-IsDated u id db h = elim (Result-cases (get_owner_list u id db).0) [
    | inr (x, k) ↦ in_table (delete_list u id db).1 db.lists (ground arith) h
    | inl (l, k) ↦ elim (Attempt-cases (g.lists.delete (has_key gift_list id) db.lists)) [
      | inr (x, e) ↦ in_table (delete_list u id db).1 db.lists (ground arith) h
      | inl (t, e) ↦ in_table (delete_list u id db).1 t (ground arith) (
          rw (g.lists.contents-delete (has_key gift_list id) db.lists t e)
            (All-amend IsDated _ _ _ (λ x p d. d) h))
    ]
  ]

module _ {g : Gorm} (lib : TextLib) (call : Call) where
  create_list-IsDated :
      (u : String) (req : GiftListCreate) (db : Database g)
      → IsDatedAll db
      → IsDatedAll (create_list lib call u req db).1
  unfolding create_list
  create_list-IsDated u req db h =
      let new = new_list lib call u req in
      elim (Attempt-cases (g.lists.create new db.lists)) [
        | inr (x, e) ↦ in_table (create_list lib call u req db).1 db.lists (ground arith) h
        | inl (t, e) ↦ in_table (create_list lib call u req db).1 t (ground arith) (
            rw (g.lists.contents-create new db.lists t e)
              (All-append IsDated _ _ h (new_list-IsDated lib call u req, tt)))
      ]

  update_list-IsDated :
      (u id : String) (req : GiftListUpdate) (db : Database g)
      → IsDatedAll db
      → IsDatedAll (update_list lib call u id req db).1
  unfolding update_list
  update_list-IsDated u id req db h = elim (Result-cases (get_owner_list u id db).0) [
    | inr (x, k) ↦ in_table (update_list lib call u id req db).1 db.lists (ground arith) h
    | inl (l, k) ↦ elim (Attempt-cases (g.lists.save (updated_list lib call req l) db.lists)) [
      | inr (x, e) ↦ in_table (update_list lib call u id req db).1 db.lists (ground arith) h
      | inl (t, e) ↦ in_table (update_list lib call u id req db).1 t (ground arith) (
          save_list-IsDated id l (updated_list lib call req l) db t (owner_list u id l db k) refl
            (updated_list-IsDated lib call req l) e h)
    ]
  ]

  -- Where no stored list that never expires has an expiry time, the same holds after CreateList,
  -- UpdateList and DeleteList, whatever their arguments and whatever they answer.
  pub list_operations-IsDatedAll :
      (u id : String) (db : Database g)
      → IsDatedAll db
      → ((req : GiftListCreate) → IsDatedAll (create_list lib call u req db).1)
        × ((req : GiftListUpdate) → IsDatedAll (update_list lib call u id req db).1)
        × IsDatedAll (delete_list u id db).1
  list_operations-IsDatedAll u id db h = (
    λ req. create_list-IsDated u req db h,
    λ req. update_list-IsDated u id req db h,
    delete_list-IsDated u id db h,
  )
