-- ===== src/Repo/Generic.antt =====
-- internal/repositories/generic: GenericRepository[T] over the driver of T's table. A read is a
-- function of the table; a write returns the new table or an error.
use yourz_gift.Base.{
  ℕ, String, Bool, true, not, ◌&&◌, Option, none, some, List, [], ◌∷◌, ◌==◌, ltb, if◌then◌else◌,
  length, take, drop, any, fault, Result, ok, err, Exec,
}
use yourz_gift.Base.Text.{TextLib, trim_space}
use yourz_gift.Db.{Model, Driver, to_result, has_key, find, first}
use yourz_gift.Repo.Columns.{
  contains, is_safe_column_identifier, validate_column_identifier, safe_column_identifiers,
  apply_ordering,
}

-- A statement that writes one table of a larger state.
abbrev pub writes : {S T : Type 0} → (S → T) → (T → S → S) → (T → Result T) → Exec S (Unit {0})
writes get put f s = elim (f (get s)) [ ok t ↦ (ok tt, put t s) | err e ↦ (err e, s) ]

-- A value of the request's `filters`: nil, a string, a slice, or another value by its text.
pub data FilterValue : Type 0 where
  nil : FilterValue
  text : String → FilterValue
  slice : List String → FilterValue
  other : String → FilterValue

-- filter.BaseParams; no limit stands for the limit -1.
pub record BaseParams : Type 0 where
  pub search : String
  pub filters : List (String × FilterValue)
  pub order_by : String
  pub order_direction : String
  pub limit : Option ℕ
  pub offset : ℕ

-- filter.WhitelistFilter, and WhitelistStringFilter, which makes every value a text.
unfoldable pub whitelist_transform :
    (FilterValue → FilterValue)
    → List (String × FilterValue)
    → List String
    → List (String × FilterValue)
unfolding contains
whitelist_transform transform [] allowed = []
whitelist_transform transform ((key, value) ∷ filters) allowed =
    let rest = whitelist_transform transform filters allowed in
    if contains allowed key then (key, transform value) ∷ rest else rest

unfoldable pub page {ℓ} : {A : Type ℓ} → Option ℕ → ℕ → List A → List A
page none offset rows = drop offset rows
page (some limit) offset rows = take limit (drop offset rows)

module _ {R : Type 0} {m : Model R} (d : Driver R m) where
  unfoldable pub store : R → d.Table → Result d.Table
  store r t = to_result (d.create r t)

  unfoldable pub get_by_id : String → d.Table → Result R
  get_by_id id t = first d (has_key m id) t

  unfoldable pub update : R → d.Table → Result d.Table
  update r t = to_result (d.save r t)

  unfoldable pub delete : String → d.Table → Result d.Table
  delete id t = to_result (d.delete (has_key m id) t)

module _ (lib : TextLib) {R : Type 0} {m : Model R} (d : Driver R m) where
  -- The checks that stand before a query on `field`: the name is validated, and the database
  -- refuses a column that the table does not have.
  unfoldable pub check_field : String → Result (Unit {0})
  check_field field = elim (validate_column_identifier lib field) [
    | err e ↦ err e
    | ok _ ↦ if m.has_column field then ok tt else err (fault field)
  ]

  abbrev pub field_is : String → String → R → Bool
  field_is field value r = m.column field r == value

  unfoldable pub get_one_by_field : String → String → d.Table → Result R
  unfolding check_field
  get_one_by_field field value t = elim (check_field field) [
    | err e ↦ err e
    | ok _ ↦ first d (field_is field value) t
  ]

  unfoldable pub get_many_by_field : String → String → d.Table → Result (List R)
  unfolding check_field
  get_many_by_field field value t = elim (check_field field) [
    | err e ↦ err e
    | ok _ ↦ find d (field_is field value) t
  ]

  unfoldable pub exists_by_field : String → String → d.Table → Result Bool
  unfolding check_field
  exists_by_field field value t = elim (check_field field) [
    | err e ↦ err e
    | ok _ ↦ elim (find d (field_is field value) t) [
      | err e ↦ err e
      | ok rows ↦ ok (ltb 0 (length rows))
    ]
  ]

  -- applyFilter: the condition that one entry adds to the query.
  unfoldable pub apply_filter : String × FilterValue → R → Bool
  apply_filter (key, nil) r = true
  apply_filter (key, text v) r =
      if not (is_safe_column_identifier lib key)
      then true
      else if trim_space lib v == ""
      then true
      else m.column key r == v
  apply_filter (key, slice vs) r =
      if not (is_safe_column_identifier lib key) then true else any (λ v. m.column key r == v) vs
  apply_filter (key, other v) r =
      if not (is_safe_column_identifier lib key) then true else m.column key r == v

  unfoldable pub conditions : List (String × FilterValue) → R → Bool
  unfolding apply_filter
  conditions [] r = true
  conditions (f ∷ fs) r = apply_filter f r && conditions fs r

  -- BuildSearchFunc
  unfoldable pub build_search_func : List String → String → R → Bool
  unfolding safe_column_identifiers
  build_search_func columns search r = elim (safe_column_identifiers lib columns) [
    | [] ↦ true
    | c ∷ cs ↦ any (λ column. lib.like (m.column column r) search) (c ∷ cs)
  ]

-- QueryOptions: the base query and the search are conditions on a row.
pub record QueryOptions (R : Type 0) : Type 0 where
  pub base_query : R → Bool
  pub search : String → R → Bool
  pub allowed_filters : List String
  pub sanitizer : FilterValue → FilterValue
  pub allowed_order_columns : List String
  pub default_orders : List String

module _ (lib : TextLib) {R : Type 0} {m : Model R} (d : Driver R m) (opts : QueryOptions R) where
  -- applyFilters
  unfoldable pub apply_filters : List (String × FilterValue) → R → Bool
  unfolding conditions whitelist_transform
  apply_filters filters r = elim opts.allowed_filters [
    | [] ↦ true
    | c ∷ cs ↦ conditions lib d (whitelist_transform opts.sanitizer filters (c ∷ cs)) r
  ]

  -- The WHERE clause that GetAll builds.
  unfoldable pub selected : BaseParams → R → Bool
  unfolding apply_filters
  selected params r =
      opts.base_query r
      && (if params.search == "" then true else opts.search params.search r)
      && apply_filters params.filters r

  -- GetAll: a page of the rows, and how many there are in all.
  unfoldable pub get_all : BaseParams → d.Table → Result (List R × ℕ)
  unfolding selected apply_ordering page
  get_all params t = elim (find d (selected params) t) [
    | err e ↦ err e
    | ok rows ↦
        elim (apply_ordering lib params.order_by params.order_direction opts.allowed_order_columns
          opts.default_orders) [
            | err e ↦ err e
            | ok terms ↦ ok (page params.limit params.offset (d.arrange terms rows), length rows)
          ]
  ]
