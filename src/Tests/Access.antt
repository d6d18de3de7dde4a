-- ===== src/Tests/Access.antt =====
-- Roles, permissions and menus on tables in memory.
use yourz_gift.Base.{
  ℕ, ◌<◌, String, ◌≡◌, ◌≢◌, ◌⊎◌, ◌↔◌, inl, inr, refl, sym, ◌∙◌, ap, if◌then◌else◌, true, false,
  none, some, List, [], ◌∷◌, ok, arith, ◌==◌,
}
use yourz_gift.Base.Text.{trim_space, normalize_key}
use yourz_gift.Db.Memory.{memory, table}
use yourz_gift.Repo.Columns.{contains}
use yourz_gift.Domain.Access.{
  Role, RolePermission, Permission, MenuItem, roles, role_permissions, permissions, menu_items,
  role_super_admin,
}
use yourz_gift.Domain.User.{users}
use yourz_gift.Auth.{Scope, Claims, new_scope, new_from_claims, has}
use yourz_gift.Access.{AccessGorm, AccessDb, held, Invalidator}
use yourz_gift.Access.Menus.{last_of, parent_of, menu_by_name, resolve_accessible_menus}
use yourz_gift.Access.Menus.Closure.{Has, Accessible}
use yourz_gift.Access.Menus.Exact.{resolve_iff}
use yourz_gift.Access.Menus.Ending.{IsForest, resolve_ends, resolve_circles}
use yourz_gift.Access.Permissions.{get_user_permissions}
use yourz_gift.Access.Roles.{assign_permissions, delete_role}
use yourz_gift.Access.Roles.Assigning.{IsAssigned, assign_permissions_lem}
use yourz_gift.Access.Roles.Deleting.{IsDeleted, delete_role_lem}
use yourz_gift.Access.Navigation.{MenuUpdate, get_active_menus, update_menu}
use yourz_gift.Access.Navigation.Circles.{own_parent}
use yourz_gift.Access.Gate.{permission_keys, permission_middleware, passed}
use yourz_gift.Access.Gate.Passing.{IsFresh, permission_middleware_lem}
use yourz_gift.Tests.Sample.{ascii, queries, ann, now_100}

abbrev pub memory_access : AccessGorm
memory_access = record {
  roles = memory roles;
  role_permissions = memory role_permissions;
  permissions = memory permissions;
  menus = memory menu_items;
  accounts = memory users;
}

abbrev pub editor : Role
editor = record {
  id = "r1";
  name = "editor";
  display_name = "Editor";
  description = "";
  is_system = false;
  created_at = 1;
  updated_at = none;
  deleted_at = none;
}

abbrev pub reads_gifts : Permission
reads_gifts = record {
  id = "p1";
  name = "read_gifts";
  display_name = "Read gifts";
  description = "";
  resource = "gifts";
  action = "read";
  created_at = 1;
  updated_at = none;
  deleted_at = none;
}

abbrev pub edits_gifts : RolePermission
edits_gifts = record { id = "rp1"; role_id = "r1"; permission_id = "p1"; created_at = 1 }

abbrev pub shop : MenuItem
shop = record {
  id = "m1";
  name = "shop";
  display_name = "Shop";
  path = "/shop";
  icon = "";
  parent_id = none;
  order_index = 1;
  is_active = true;
  created_at = 1;
  updated_at = none;
  deleted_at = none;
}

abbrev pub gifts : MenuItem
gifts = record shop { id = "m2"; name = "gifts"; parent_id = some "m1"; order_index = 2 }

abbrev pub office : AccessDb memory_access
office = record {
  roles = table (editor ∷ []);
  role_permissions = table (edits_gifts ∷ []);
  permissions = table (reads_gifts ∷ []);
  menus = table (shop ∷ gifts ∷ []);
  accounts = table (record ann { role = "editor"; role_id = some "r1" } ∷ []);
  commit = none;
  cached = [];
}

abbrev pub forgets : Invalidator
forgets = record { delete_user = λ users cache. cache; delete_all = λ cache. [] }

-- The menu of gifts, and the shop above it.
resolve_run :
    resolve_accessible_menus 3 (shop ∷ gifts ∷ []) ("gifts" ∷ []) ≡ some (shop ∷ gifts ∷ [])
unfolding resolve_accessible_menus queries contains
resolve_run = refl

resolve_iff_example : Has shop (shop ∷ gifts ∷ []) ↔ (
    Has shop (shop ∷ gifts ∷ [])
    × ((y : MenuItem) × Accessible (shop ∷ gifts ∷ []) ("gifts" ∷ []) y × (y.id ≡ shop.id)))
resolve_iff_example =
    resolve_iff 3 (shop ∷ gifts ∷ []) ("gifts" ∷ []) (shop ∷ gifts ∷ []) shop resolve_run

-- The shop stands below its child, as far as a number of the ids is asked for.
abbrev depth : String → ℕ
depth id = if id == "m1" then 0 else 1

forest : IsForest depth (shop ∷ gifts ∷ [])
unfolding parent_of last_of
forest m p (inl e) f =
    let k : none ≡ some p = sym (ap (parent_of (shop ∷ gifts ∷ [])) e) ∙ f in absurd (cc)
forest m p (inr (inl e)) f =
    let k : some shop ≡ some p = sym (ap (parent_of (shop ∷ gifts ∷ [])) e) ∙ f in
    let above : shop ≡ p = cc in
    let low : 0 ≡ depth p.id = ap (λ x. depth x.id) above in
    let high : depth m.id ≡ 1 = ap (λ x. depth x.id) e in omega arith
forest m p (inr (inr h)) f = elim h [ ]

shallow : (m : MenuItem) → Has m (shop ∷ gifts ∷ []) → depth m.id < 2
shallow m h = ground arith

resolve_ends_example :
    (answer : List MenuItem) × (resolve_accessible_menus 2 (shop ∷ gifts ∷ []) ("gifts" ∷ [])
      ≡ some answer)
resolve_ends_example = resolve_ends depth (shop ∷ gifts ∷ []) ("gifts" ∷ []) 2 forest shallow

abbrev below_itself : MenuUpdate
below_itself = record {
  display_name = "";
  path = "";
  icon = "";
  parent_id = some "m1";
  order_index = none;
  is_active = none;
}

abbrev circular : MenuItem
circular = record shop { parent_id = some "m1"; updated_at = some 100 }

abbrev circular_office : AccessDb memory_access
circular_office = record office { menus = table (circular ∷ gifts ∷ []) }

update_run : update_menu now_100 "m1" below_itself office ≡ (ok circular, circular_office)
unfolding queries update_menu
update_run = refl

active_run : get_active_menus circular_office ≡ ok (circular ∷ gifts ∷ [])
unfolding queries get_active_menus
active_run = refl

named_run : menu_by_name (circular ∷ gifts ∷ []) "shop" ≡ some circular
unfolding menu_by_name
named_run = refl

m1-apart : ◌≢◌ {A = String} "m1" ""
m1-apart e = let b : true ≡ false = ap (λ s. s == "m1") e in absurd (cc)

granted_run : contains ("shop" ∷ []) "shop" ≡ true
unfolding contains
granted_run = refl

own_parent_example : resolve_accessible_menus 1000 (circular ∷ gifts ∷ []) ("shop" ∷ []) ≡ none
own_parent_example =
    own_parent now_100 "m1" below_itself circular circular office circular_office
      (circular ∷ gifts ∷ []) ("shop" ∷ []) "shop" 1000 m1-apart refl update_run active_run
      granted_run named_run refl

circular-round :
    (x : MenuItem)
    → x ≡ circular
    → (p : MenuItem) × (parent_of (circular ∷ gifts ∷ []) x ≡ some p) × (p ≡ circular)
unfolding parent_of last_of
circular-round x e = (circular, ap (parent_of (circular ∷ gifts ∷ [])) e, refl)

resolve_circles_example : resolve_accessible_menus 1000 (circular ∷ gifts ∷ []) ("shop" ∷ []) ≡ none
resolve_circles_example =
    resolve_circles (circular ∷ gifts ∷ []) ("shop" ∷ []) (λ x. x ≡ circular) "shop" circular 1000
      circular-round granted_run named_run refl

abbrev pub boss : Scope
boss = new_scope ascii "root" "Root" role_super_admin []

abbrev regranted : AccessDb memory_access
regranted = record office {
  role_permissions =
      table (record { id = "u0"; role_id = "r1"; permission_id = "p1"; created_at = 100 } ∷ []);
}

assign_run :
    assign_permissions (some forgets) ascii boss (λ _. "u0") "r1" ("p1" ∷ []) office
    ≡ (ok tt, regranted)
unfolding queries assign_permissions
assign_run = refl

assign_permissions_lem_example : IsAssigned "r1" ("p1" ∷ []) office regranted
assign_permissions_lem_example =
    assign_permissions_lem (some forgets) ascii boss (λ _. "u0") "r1" ("p1" ∷ []) office regranted
      assign_run refl

abbrev no_editors : AccessDb memory_access
no_editors = record office { roles = table (record editor { deleted_at = some 100 } ∷ []) }

delete_run : delete_role (some forgets) "r1" office ≡ (ok tt, no_editors)
unfolding queries delete_role
delete_run = refl

delete_role_lem_example : IsDeleted "r1" office no_editors
delete_role_lem_example = delete_role_lem (some forgets) "r1" office no_editors delete_run

-- The account of the deleted role still has its permission.
still_granted : get_user_permissions "ann" no_editors ≡ ok (reads_gifts ∷ [])
unfolding queries get_user_permissions
still_granted = refl

pub office-IsFresh : IsFresh ascii office
unfolding held
office-IsFresh u keys e = absurd (cc)

abbrev pub eve : Claims
eve = record {
  user_id = "ann";
  username = "Ann";
  role = "editor";
  is_impersonated = false;
  original_user_id = "";
  original_username = "";
  original_role = "";
}

abbrev pub visitor : Scope
visitor = new_scope ascii "" "" "" []

abbrev checked : AccessDb memory_access
checked = (permission_middleware ascii true "gifts" "read" visitor (some eve) office).1

pass_run :
    permission_middleware ascii true "gifts" "read" visitor (some eve) office
    ≡ (passed (new_from_claims ascii eve ("gifts:read" ∷ [])), checked)
unfolding queries permission_middleware trim_space normalize_key contains held
pass_run = refl

permission_middleware_lem_example :
    (trim_space ascii eve.role ≡ role_super_admin)
    ⊎ ((ps : List Permission) × (get_user_permissions (trim_space ascii eve.user_id) office ≡ ok ps)
        × (new_from_claims ascii eve ("gifts:read" ∷ [])
            ≡ new_from_claims ascii eve (permission_keys ascii ps))
        × (has ascii
              (new_from_claims ascii eve ("gifts:read" ∷ []))
              (trim_space ascii "gifts")
              (trim_space ascii "read")
            ≡ true))
permission_middleware_lem_example =
    permission_middleware_lem ascii true "gifts" "read" visitor
      (new_from_claims ascii eve ("gifts:read" ∷ [])) eve office checked office-IsFresh pass_run
