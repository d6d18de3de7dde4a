-- ===== src/Access/Roles/Assigning.antt =====
-- internal/services/role/service.go and internal/repositories/role/role.go: the permissions of a role
-- after AssignPermissions.
use yourz_gift.Base.{
  append_nil, ℕ, suc, String, ◌≡◌, ◌≢◌, refl, sym, ap, ◌∙◌, not, Option, some, none, List, [], ◌∷◌,
  ◌++◌, map, ◌==◌, eq_iff, eq_refl, arith, filter, filter-append, gets, bind-ok, ok, inl, inr,
  Bool-cases, Result-cases,
}
use yourz_gift.Base.Text.{TextLib}
use yourz_gift.Db.{Attempt-cases, find, scan, live, both}
use yourz_gift.Domain.Access.{RolePermission, role_permissions}
use yourz_gift.Repo.Generic.{get_by_id}
use yourz_gift.Auth.{Scope}
use yourz_gift.Access.{AccessGorm, AccessDb, Invalidator, in_transaction, invalidate_all}
use yourz_gift.Access.Roles.{
  check_system_role, check_permission_ids, insert_permissions, replace_permissions,
  store_permissions, get_role_permissions, assign_permissions,
}

map-append : {A B : Type 0} (f : A → B) (xs ys : List A) → map f (xs ++ ys) ≡ map f xs ++ map f ys
map-append f [] ys = refl
map-append f (x ∷ xs) ys = ap (λ zs. f x ∷ zs) (map-append f xs ys)

append_assoc : {A : Type 0} (xs ys zs : List A) → (xs ++ ys) ++ zs ≡ xs ++ (ys ++ zs)
append_assoc [] ys zs = refl
append_assoc (x ∷ xs) ys zs = ap (λ l. x ∷ l) (append_assoc xs ys zs)

-- The permission ids that the rows hold for a role.
abbrev pub ids_of : String → List RolePermission → List String
ids_of role rows = map (λ rp. rp.permission_id) (filter (λ rp. rp.role_id == role) rows)

ids_of-removed :
    (role : String) (rows : List RolePermission)
    → ids_of role (filter (λ rp. not (rp.role_id == role)) rows) ≡ []
unfolding filter
ids_of-removed role [] = refl
ids_of-removed role (x ∷ xs) = ground (arith, ids_of-removed role xs)

ids_of-others :
    (role other : String) (rows : List RolePermission)
    → other ≢ role
    → ids_of other (filter (λ rp. not (rp.role_id == role)) rows) ≡ ids_of other rows
unfolding filter
ids_of-others role other [] apart = refl
ids_of-others role other (x ∷ xs) apart =
    let rest = ids_of-others role other xs apart in
    elim (Bool-cases (x.role_id == role)) [
      | inr t ↦ elim (Bool-cases (x.role_id == other)) [
        | inl u ↦ ground arith
        | inr u ↦ ground arith
      ]
      | inl t ↦ elim (Bool-cases (x.role_id == other)) [
        | inl u ↦ absurd (apart (sym ((eq_iff x.role_id other).0 u) ∙ (eq_iff x.role_id role).0 t))
        | inr u ↦ ground arith
      ]
    ]

appended :
    (r : String) (rows more : List RolePermission)
    → ids_of r (rows ++ more) ≡ ids_of r rows ++ ids_of r more
appended r rows more =
    ap (map (λ rp. rp.permission_id)) (filter-append (λ rp. rp.role_id == r) rows more)
    ∙ map-append (λ rp. rp.permission_id) (filter (λ rp. rp.role_id == r) rows)
        (filter (λ rp. rp.role_id == r) more)

all_live :
    (rows : List RolePermission) (r : String)
    → filter (both (live role_permissions) (λ rp. rp.role_id == r)) rows
      ≡ filter (λ rp. rp.role_id == r) rows
unfolding filter
all_live [] r = refl
all_live (x ∷ xs) r = ground (arith, all_live xs r)

module _ (role : String) where
  abbrev row : String → String → RolePermission
  row uuid id = record { id = uuid; role_id = role; permission_id = id; created_at = 0 }

  row-own :
      (n : ℕ) (uuid id : String)
      → ids_of role (role_permissions.stamp n (row uuid id) ∷ []) ≡ id ∷ []
  unfolding filter
  row-own n uuid id = ground (arith, eq_refl role)

  row-other :
      (other : String) (n : ℕ) (uuid id : String)
      → other ≢ role
      → ids_of other (role_permissions.stamp n (row uuid id) ∷ []) ≡ []
  unfolding filter
  row-other other n uuid id apart = elim (Bool-cases (role == other)) [
    | inl t ↦ absurd (apart (sym ((eq_iff role other).0 t)))
    | inr t ↦ ground arith
  ]

module _ {g : AccessGorm} (role : String) where
  -- The ids of a role in the state.
  abbrev held : String → AccessDb g → List String
  held r db = ids_of r (g.role_permissions.contents db.role_permissions)

  -- A round of the loop adds one row.
  round :
      (uuids : ℕ → String) (id : String) (ids : List String) (db db' : AccessDb g)
      → insert_permissions role uuids (id ∷ ids) db ≡ (ok tt, db')
      → (db1 : AccessDb g) × (insert_permissions role (λ n. uuids (suc n)) ids db1 ≡ (ok tt, db'))
        × (g.role_permissions.contents db1.role_permissions
            ≡ g.role_permissions.contents db.role_permissions
              ++ role_permissions.stamp
                  (g.role_permissions.clock db.role_permissions)
                  (row role (uuids 0) id)
                ∷ [])
  unfolding insert_permissions
  round uuids id ids db db' e =
      elim (Attempt-cases (g.role_permissions.create (row role (uuids 0) id) db.role_permissions)) [
        | inr (s, f) ↦ absurd (ground arith)
        | inl (t, f) ↦ (
          record db { role_permissions = t },
          ground arith,
          g.role_permissions.contents-create (row role (uuids 0) id) db.role_permissions t f,
        )
      ]

  inserted-own :
      (uuids : ℕ → String) (ids : List String) (db db' : AccessDb g)
      → insert_permissions role uuids ids db ≡ (ok tt, db')
      → held role db' ≡ held role db ++ ids
  unfolding insert_permissions
  inserted-own uuids [] db db' e =
      ap (held role) (sym (ap (λ p. p.1) e)) ∙ sym (append_nil (held role db))
  inserted-own uuids (id ∷ ids) db db' e =
      let (db1, f, c) = round uuids id ids db db' e in
      let n = g.role_permissions.clock db.role_permissions in
      let new = role_permissions.stamp n (row role (uuids 0) id) ∷ [] in
      let one : held role db1 ≡ held role db ++ (id ∷ []) =
        ap (ids_of role) c
        ∙ appended role (g.role_permissions.contents db.role_permissions) new
        ∙ ap (λ l. held role db ++ l) (row-own role n (uuids 0) id) in
      inserted-own (λ n. uuids (suc n)) ids db1 db' f
      ∙ ap (λ l. l ++ ids) one
      ∙ append_assoc (held role db) (id ∷ []) ids

  inserted-other :
      (other : String) (uuids : ℕ → String) (ids : List String) (db db' : AccessDb g)
      → other ≢ role
      → insert_permissions role uuids ids db ≡ (ok tt, db')
      → held other db' ≡ held other db
  unfolding insert_permissions
  inserted-other other uuids [] db db' apart e = ap (held other) (sym (ap (λ p. p.1) e))
  inserted-other other uuids (id ∷ ids) db db' apart e =
      let (db1, f, c) = round uuids id ids db db' e in
      let n = g.role_permissions.clock db.role_permissions in
      let new = role_permissions.stamp n (row role (uuids 0) id) ∷ [] in
      inserted-other other (λ n. uuids (suc n)) ids db1 db' apart f
      ∙ ap (ids_of other) c
      ∙ appended other (g.role_permissions.contents db.role_permissions) new
      ∙ ap (λ l. held other db ++ l) (row-other role other n (uuids 0) id apart)
      ∙ append_nil (held other db)

  -- What AssignPermissions runs first: the deletion of the role's rows.
  cleared :
      (uuids : ℕ → String) (ids : List String) (db db' : AccessDb g)
      → store_permissions role uuids ids db ≡ (ok tt, db')
      → (db1 : AccessDb g) × (insert_permissions role uuids ids db1 ≡ (ok tt, db'))
        × (g.role_permissions.contents db1.role_permissions
            ≡ filter
                (λ rp. not (rp.role_id == role))
                (g.role_permissions.contents db.role_permissions))
  unfolding store_permissions in_transaction replace_permissions
  cleared uuids ids db db' e =
      elim (Attempt-cases
        (g.role_permissions.delete (λ rp. rp.role_id == role) db.role_permissions)) [
          | inr (s, f) ↦ absurd (ground arith)
          | inl (t, f) ↦
              elim (Result-cases
                (insert_permissions {g = g} role uuids ids
                  (record db { role_permissions = t })).0) [
                    | inr (x, k) ↦ absurd (ground arith)
                    | inl (u, k) ↦ (
                      record db { role_permissions = t },
                      ground arith,
                      g.role_permissions.contents-delete (λ rp. rp.role_id == role)
                          db.role_permissions t f,
                    )
                  ]
        ]

  invalidated-rows :
      (cache : Option Invalidator) (db : AccessDb g)
      → (invalidate_all cache db).1.role_permissions ≡ db.role_permissions
  unfolding invalidate_all
  invalidated-rows none db = refl
  invalidated-rows (some i) db = refl

  stored :
      (cache : Option Invalidator) (lib : TextLib) (s : Scope) (uuids : ℕ → String)
      (ids : List String) (db db' : AccessDb g)
      → assign_permissions cache lib s uuids role ids db ≡ (ok tt, db')
      → (db1 : AccessDb g) × (store_permissions role uuids ids db ≡ (ok tt, db1))
        × (db'.role_permissions ≡ db1.role_permissions)
  unfolding assign_permissions
  stored cache lib s uuids ids db db' e =
      let (r, f1, k1) = bind-ok (gets (λ d. get_by_id g.roles role d.roles)) _ db db' tt e in
      let (_, f2, k2) = bind-ok (gets (check_system_role lib s r)) _ db db' tt k1 in
      let (_, f3, k3) = bind-ok (gets (check_permission_ids ids)) _ db db' tt k2 in
      let (u, f4, k4) = bind-ok (store_permissions role uuids ids) _ db db' tt k3 in
      (
        (store_permissions role uuids ids db).1,
        ground arith,
        sym (ap (λ d. d.1.role_permissions) k4)
            ∙ invalidated-rows cache (store_permissions role uuids ids db).1,
      )

-- What a role has, by a read of it and in the rows.
pub record IsAssigned {g : AccessGorm} (role : String) (ids : List String) (db db' : AccessDb g)
    : Type 0 where
  pub own : ids_of role (g.role_permissions.contents db'.role_permissions) ≡ ids
  pub read : get_role_permissions role db' ≡ ok ids
  pub others :
      (other : String)
      → other ≢ role
      → ids_of other (g.role_permissions.contents db'.role_permissions)
        ≡ ids_of other (g.role_permissions.contents db.role_permissions)

-- Where AssignPermissions succeeds, the role has exactly the permissions of the request, in their order,
-- and every other role has those that it had; GetRolePermissions then gives them, where the storage
-- does not refuse the read.
pub assign_permissions_lem :
    {g : AccessGorm} (cache : Option Invalidator) (lib : TextLib) (s : Scope) (uuids : ℕ → String)
    (role : String) (ids : List String) (db db' : AccessDb g)
    → assign_permissions cache lib s uuids role ids db ≡ (ok tt, db')
    → g.role_permissions.read_fault db'.role_permissions ≡ none
    → IsAssigned role ids db db'
unfolding get_role_permissions find scan
assign_permissions_lem {g} cache lib s uuids role ids db db' e reads =
    let (db1, f, same) = stored role cache lib s uuids ids db db' e in
    let (db0, k, c) = cleared role uuids ids db db1 f in
    let own =
      ap (λ t. ids_of role (g.role_permissions.contents t)) same
      ∙ inserted-own role uuids ids db0 db1 k
      ∙ ap (λ l. l ++ ids)
          (ap (ids_of role) c
            ∙ ids_of-removed role (g.role_permissions.contents db.role_permissions)) in
    record {
      own = own;
      read = read_ids reads own;
      others = λ other apart.
          ap (λ t. ids_of other (g.role_permissions.contents t)) same
          ∙ inserted-other role other uuids ids db0 db1 apart k
          ∙ ap (ids_of other) c
          ∙ ids_of-others role other (g.role_permissions.contents db.role_permissions) apart;
    }
  where
    read_ids :
        g.role_permissions.read_fault db'.role_permissions ≡ none
        → ids_of role (g.role_permissions.contents db'.role_permissions) ≡ ids
        → get_role_permissions role db' ≡ ok ids
    read_ids reads same =
        let alive = all_live (g.role_permissions.contents db'.role_permissions) role in ground arith
