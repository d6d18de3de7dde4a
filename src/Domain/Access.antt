-- ===== src/Domain/Access.antt =====
-- internal/domain: role/entity.go, permission/entity.go, menu/entity.go. Roles, permissions and menu
-- items are deleted softly; the rows that join a role with its permissions are not.
use yourz_gift.Base.{ℕ, String, Bool, true, false, ◌||◌, Option, none, some, ◌==◌, if◌then◌else◌}
use yourz_gift.Db.{Model}
use yourz_gift.Domain.Gift.{is_set, or_now}

abbrev pub role_super_admin : String
role_super_admin = "superadmin"

-- A Boolean column, as the database compares it with a text.
abbrev bool_text : Bool → String
bool_text b = if b then "true" else "false"

pub record Role : Type 0 where
  pub id : String
  pub name : String
  pub display_name : String
  pub description : String
  pub is_system : Bool
  pub created_at : ℕ
  pub updated_at : Option ℕ
  pub deleted_at : Option ℕ

pub record RolePermission : Type 0 where
  pub id : String
  pub role_id : String
  pub permission_id : String
  pub created_at : ℕ

pub record Permission : Type 0 where
  pub id : String
  pub name : String
  pub display_name : String
  pub description : String
  pub resource : String
  pub action : String
  pub created_at : ℕ
  pub updated_at : Option ℕ
  pub deleted_at : Option ℕ

pub record MenuItem : Type 0 where
  pub id : String
  pub name : String
  pub display_name : String
  pub path : String
  pub icon : String
  pub parent_id : Option String
  pub order_index : ℕ
  pub is_active : Bool
  pub created_at : ℕ
  pub updated_at : Option ℕ
  pub deleted_at : Option ℕ

abbrev pub roles : Model Role
roles = record {
  key = λ r. r.id;
  has_column = λ c.
      c == "id" || c == "name" || c == "display_name" || c == "description" || c == "is_system";
  column = λ c r.
      if c == "is_system"
      then bool_text r.is_system
      else if c == "name"
      then r.name
      else if c == "display_name"
      then r.display_name
      else if c == "description"
      then r.description
      else r.id;
  soft_delete = true;
  is_deleted = λ r. is_set r.deleted_at;
  mark_deleted = λ now r. record r { deleted_at = some now };
  stamp = λ now r. record r { updated_at = or_now now r.updated_at };
  touch = λ now r. record r { updated_at = some now };
}

abbrev pub role_permissions : Model RolePermission
role_permissions = record {
  key = λ r. r.id;
  has_column = λ c. c == "id" || c == "role_id" || c == "permission_id";
  column = λ c r.
      if c == "role_id" then r.role_id else if c == "permission_id" then r.permission_id else r.id;
  soft_delete = false;
  is_deleted = λ r. false;
  mark_deleted = λ now r. r;
  stamp = λ now r. record r { created_at = now };
  touch = λ now r. r;
}

abbrev pub permissions : Model Permission
permissions = record {
  key = λ r. r.id;
  has_column = λ c.
      c == "id"
      || c == "name"
      || c == "display_name"
      || c == "description"
      || c == "resource"
      || c == "action";
  column = λ c r.
      if c == "name"
      then r.name
      else if c == "display_name"
      then r.display_name
      else if c == "description"
      then r.description
      else if c == "resource"
      then r.resource
      else if c == "action"
      then r.action
      else r.id;
  soft_delete = true;
  is_deleted = λ r. is_set r.deleted_at;
  mark_deleted = λ now r. record r { deleted_at = some now };
  stamp = λ now r. record r { updated_at = or_now now r.updated_at };
  touch = λ now r. record r { updated_at = some now };
}

abbrev pub menu_items : Model MenuItem
menu_items = record {
  key = λ r. r.id;
  has_column = λ c.
      c == "id"
      || c == "name"
      || c == "display_name"
      || c == "path"
      || c == "parent_id"
      || c == "is_active";
  column = λ c r.
      if c == "name"
      then r.name
      else if c == "display_name"
      then r.display_name
      else if c == "path"
      then r.path
      else if c == "parent_id"
      then elim r.parent_id [ none ↦ "" | some id ↦ id ]
      else if c == "is_active"
      then bool_text r.is_active
      else r.id;
  soft_delete = true;
  is_deleted = λ r. is_set r.deleted_at;
  mark_deleted = λ now r. record r { deleted_at = some now };
  stamp = λ now r. record r { updated_at = or_now now r.updated_at };
  touch = λ now r. record r { updated_at = some now };
}
