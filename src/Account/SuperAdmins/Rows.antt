-- ===== src/Account/SuperAdmins/Rows.antt =====
-- The rows of the super admins, under a statement that stores or saves another account.
use yourz_gift.Base.{
  String, ◌≡◌, refl, ap, ◌∙◌, Bool, true, false, List, [], ◌∷◌, ◌++◌, ◌==◌, eq_iff, arith, filter,
  filter-append, append_nil, amend, All, All-map, any, ok, inl, inr, Bool-cases,
}
use yourz_gift.Base.Keys.{Distinct}
use yourz_gift.Db.{Attempt-cases, done, live, has_key, both}
use yourz_gift.Db.Laws.{first-any, first-only}
use yourz_gift.Domain.User.{Users, users}
use yourz_gift.Domain.Access.{role_super_admin}
use yourz_gift.Repo.Generic.{store, update, get_by_id}
use yourz_gift.Access.{AccessGorm, AccessDb}
use yourz_gift.Account.{write_accounts}

abbrev pub is_super_admin : Users → Bool
is_super_admin u = u.role == role_super_admin

filter-amend :
    {A : Type 0} (q p : A → Bool) (f : A → A) (xs : List A)
    → All (λ x. p x ≡ true → (q x ≡ false) × (q (f x) ≡ false)) xs
    → filter q (amend p f xs) ≡ filter q xs
unfolding filter amend
filter-amend q p f [] h = refl
filter-amend q p f (x ∷ xs) (h, hs) =
    let rest = filter-amend q p f xs hs in
    elim (Bool-cases (p x)) [ inr e ↦ ground arith | inl e ↦ let (a, b) = h e in ground arith ]

-- The rows of the super admins.
abbrev pub super_admins : (g : AccessGorm) → g.accounts.Table → List Users
super_admins g t = filter is_super_admin (g.accounts.contents t)

module _ (g : AccessGorm) where
  -- A new account that is no super admin's.
  pub created :
      (user : Users) (t t' : g.accounts.Table)
      → is_super_admin user ≡ false
      → g.accounts.create user t ≡ done t'
      → super_admins g t' ≡ super_admins g t
  unfolding filter
  created user t t' plain e = rw (g.accounts.contents-create user t t' e) (
      filter-append is_super_admin (g.accounts.contents t)
        (users.stamp (g.accounts.clock t) user ∷ [])
      ∙ ap (λ l. super_admins g t ++ l) none_new
      ∙ append_nil (super_admins g t))
    where
      none_new : filter is_super_admin (users.stamp (g.accounts.clock t) user ∷ []) ≡ []
      none_new = ground arith

  -- A saved account that neither was nor is a super admin's.
  pub saved :
      (id : String) (old user : Users) (t t' : g.accounts.Table)
      → get_by_id g.accounts id t ≡ ok old
      → is_super_admin old ≡ false
      → is_super_admin user ≡ false
      → user.id ≡ old.id
      → Distinct users.key (g.accounts.contents t)
      → g.accounts.save user t ≡ done t'
      → super_admins g t' ≡ super_admins g t
  unfolding get_by_id
  saved id old user t t' found before after same distinct e =
      let here = first-any g.accounts (has_key users id) t old found in
      let here' : any (both (live users) (has_key users user.id)) (g.accounts.contents t) ≡ true =
        ap (λ k. any (both (live users) (has_key users k)) (g.accounts.contents t)) same ∙ here in
      rw (g.accounts.contents-save user t t' here' e) (
        filter-amend is_super_admin (both (live users) (has_key users user.id))
          (λ _. users.touch (g.accounts.clock t) user) (g.accounts.contents t)
          (All-map (λ x only p. (ap is_super_admin (only (key_of x p ∙ same)) ∙ before, after))
            (g.accounts.contents t)
            (first-only g.accounts (has_key users id) t old found distinct)))
    where
      key_of : (x : Users) → both (live users) (has_key users user.id) x ≡ true → x.id ≡ user.id
      key_of x p = (eq_iff x.id user.id).0 (ground arith)

  pub stored_keeps :
      (user : Users) (s : AccessDb g)
      → is_super_admin user ≡ false
      → super_admins g (write_accounts (store g.accounts user) s).1.accounts
        ≡ super_admins g s.accounts
  unfolding store
  stored_keeps user s plain = elim (Attempt-cases (g.accounts.create user s.accounts)) [
    | inr (x, c) ↦ ground arith
    | inl (t, c) ↦ let kept = created user s.accounts t plain c in ground arith
  ]

  pub saved_keeps :
      (id : String) (old user : Users) (s : AccessDb g)
      → get_by_id g.accounts id s.accounts ≡ ok old
      → is_super_admin old ≡ false
      → is_super_admin user ≡ false
      → user.id ≡ old.id
      → Distinct users.key (g.accounts.contents s.accounts)
      → super_admins g (write_accounts (update g.accounts user) s).1.accounts
        ≡ super_admins g s.accounts
  unfolding update
  saved_keeps id old user s found before after same distinct =
      elim (Attempt-cases (g.accounts.save user s.accounts)) [
        | inr (x, c) ↦ ground arith
        | inl (t, c) ↦
            let kept = saved id old user s.accounts t found before after same distinct c in
            ground arith
      ]
