-- ===== src/Access/Roles/Deleting.antt =====
-- internal/services/role/service.go: what DeleteRole leaves behind.
use yourz_gift.Base.{String, ◌≡◌, ◌≢◌, true, false, Option, ok, arith, All, gets, bind-ok, inl, inr}
use yourz_gift.Base.Keys.{All-amend-intro}
use yourz_gift.Db.{Attempt-cases, done, live, has_key, both}
use yourz_gift.Db.Laws.{first-holds, first-All}
use yourz_gift.Domain.Access.{Role, roles}
use yourz_gift.Repo.Generic.{get_by_id}
use yourz_gift.Access.{AccessGorm, AccessDb, Invalidator, invalidate_all}
use yourz_gift.Access.Permissions.{get_user_permissions}
use yourz_gift.Access.Roles.{delete_role}
use yourz_gift.Access.Gate.Fresh.{same_permissions}

-- The role was there and is no system role; it is not found any more; and every user is granted the
-- permissions that were granted before.
pub record IsDeleted {g : AccessGorm} (id : String) (db db' : AccessDb g) : Type 0 where
  pub role : Role
  pub found : get_by_id g.roles id db.roles ≡ ok role
  pub ordinary : role.is_system ≡ false
  pub gone : (r : Role) → get_by_id g.roles id db'.roles ≢ ok r
  pub grants : (u : String) → get_user_permissions u db' ≡ get_user_permissions u db

module _ {g : AccessGorm} where
  deleted :
      (cache : Option Invalidator) (id : String) (db db' : AccessDb g)
      → delete_role cache id db ≡ (ok tt, db')
      → (role : Role) × (get_by_id g.roles id db.roles ≡ ok role)
        × (role.is_system ≡ false)
        × (g.roles.delete (has_key roles id) db.roles ≡ done db'.roles)
        × (db'.accounts ≡ db.accounts)
        × (db'.role_permissions ≡ db.role_permissions)
        × (db'.permissions ≡ db.permissions)
  unfolding delete_role invalidate_all
  deleted cache id db db' e =
      let (r, f1, k1) = bind-ok (gets (λ d. get_by_id g.roles id d.roles)) _ db db' tt e in
      elim (Attempt-cases (g.roles.delete (has_key roles id) db.roles)) [
        | inr (x, c) ↦ absurd (ground arith)
        | inl (t, c) ↦ (r, f1, ground arith, ground arith, ground arith, ground arith, ground arith)
      ]

  -- Where DeleteRole succeeds, the role was no system role and is not found any more. The rows that
  -- join it with its permissions stay, and so do the permissions of every user, also of those who
  -- have the deleted role.
  pub delete_role_lem :
      (cache : Option Invalidator) (id : String) (db db' : AccessDb g)
      → delete_role cache id db ≡ (ok tt, db')
      → IsDeleted id db db'
  unfolding get_by_id
  delete_role_lem cache id db db' e =
      let (r, found, ordinary, d, a, rp, p) = deleted cache id db db' e in
      let key = has_key roles id in
      let none_left : All (λ x. both (live roles) key x ≡ true → ⊥) (g.roles.contents db'.roles) =
        rw (g.roles.contents-delete key db.roles db'.roles d)
          (All-amend-intro _ _ _ (λ x h k. ground arith) (λ x h k. ground arith)) in
      record {
        role = r;
        found = found;
        ordinary = ordinary;
        gone = λ r' e'.
            first-All g.roles key db'.roles r' (λ x. both (live roles) key x ≡ true → ⊥) e'
              none_left (first-holds g.roles key db'.roles r' e');
        grants = λ u. same_permissions u db db' a rp p;
      }
