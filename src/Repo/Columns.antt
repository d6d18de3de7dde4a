-- ===== src/Repo/Columns.antt =====
-- internal/repositories/generic/helper.go: which column names and orders may be put into a query.
use Prim.Native.Char.{code}
use Prim.Native.String
use yourz_gift.Base.{
  ℕ, String, Bool, true, false, ◌&&◌, ◌||◌, List, [], ◌∷◌, ◌==◌, if◌then◌else◌, leb, eqb,
  invalid_column, invalid_order, Result, ok, err,
}
use yourz_gift.Base.Text.{TextLib, push, trim_space, fields_from, normalize_upper_key}

unfoldable pub is_ascii_letter : ℕ → Bool
is_ascii_letter c = (leb b'a' c && leb c b'z') || (leb b'A' c && leb c b'Z')

unfoldable pub is_ascii_digit : ℕ → Bool
is_ascii_digit c = leb b'0' c && leb c b'9'

-- The loop of isSafeColumnSegment from its second character on.
unfoldable pub is_safe_rest : String → Bool
unfolding is_ascii_letter is_ascii_digit
is_safe_rest String.[] = true
is_safe_rest (String.◌∷◌ c s) =
    (is_ascii_letter (code c) || is_ascii_digit (code c) || eqb (code c) b'_') && is_safe_rest s

unfoldable pub is_safe_column_segment : String → Bool
unfolding is_safe_rest
is_safe_column_segment String.[] = false
is_safe_column_segment (String.◌∷◌ c s) =
    (is_ascii_letter (code c) || eqb (code c) b'_') && is_safe_rest s

-- strings.Split(s, ".")
unfoldable pub split_dots : String → String → List String
split_dots cur String.[] = cur ∷ []
split_dots cur (String.◌∷◌ c s) =
    let closed = cur ∷ split_dots "" s in
    let longer = split_dots (push cur c) s in if eqb (code c) b'.' then closed else longer

unfoldable pub all_segments : List String → Bool
unfolding is_safe_column_segment
all_segments [] = true
all_segments (part ∷ parts) = is_safe_column_segment part && all_segments parts

unfoldable pub contains : List String → String → Bool
contains [] target = false
contains (value ∷ values) target = value == target || contains values target

module _ (lib : TextLib) where
  unfoldable pub is_safe_column_identifier : String → Bool
  unfolding split_dots all_segments
  is_safe_column_identifier column =
      let column' = trim_space lib column in
      if column' == "" then false else all_segments (split_dots "" column')

  unfoldable pub validate_column_identifier : String → Result (Unit {0})
  validate_column_identifier column =
      if is_safe_column_identifier column then ok tt else err (invalid_column column)

  unfoldable pub validate_column_identifiers : List String → Result (Unit {0})
  unfolding validate_column_identifier
  validate_column_identifiers [] = ok tt
  validate_column_identifiers (c ∷ cs) = elim (validate_column_identifier c) [
    | ok _ ↦ validate_column_identifiers cs
    | err e ↦ err e
  ]

  unfoldable pub safe_column_identifiers : List String → List String
  safe_column_identifiers [] = []
  safe_column_identifiers (c ∷ cs) =
      let rest = safe_column_identifiers cs in
      if is_safe_column_identifier c then c ∷ rest else rest

  unfoldable pub normalize_order_direction : String → Result String
  normalize_order_direction direction =
      let normalized = normalize_upper_key lib direction in
      if normalized == "ASC" || normalized == "DESC"
      then ok normalized
      else err (invalid_order direction)

  -- fmt.Sprintf("%s %s", column, direction)
  abbrev pub order_text : String → String → String
  order_text column direction = String.◌++◌ column (String.◌++◌ " " direction)

  -- The body of safeOrderClause once strings.Fields has split the order.
  unfoldable pub order_of_parts : String → List String → Result String
  unfolding validate_column_identifier normalize_order_direction
  order_of_parts order (column ∷ direction ∷ []) = elim (validate_column_identifier column) [
    | err e ↦ err e
    | ok _ ↦ elim (normalize_order_direction direction) [
      | err e ↦ err e
      | ok normalized ↦ ok (order_text column normalized)
    ]
  ]
  order_of_parts order parts = err (invalid_order order)

  unfoldable pub safe_order_clause : String → Result String
  unfolding order_of_parts fields_from
  safe_order_clause order = order_of_parts order (fields_from lib "" order)

  -- The ORDER BY terms that applyOrdering adds for DefaultOrders.
  unfoldable pub default_ordering : List String → Result (List String)
  unfolding safe_order_clause
  default_ordering [] = ok []
  default_ordering (order ∷ orders) = elim (safe_order_clause order) [
    | err e ↦ err e
    | ok clause ↦ elim (default_ordering orders) [
      | err e ↦ err e
      | ok clauses ↦ ok (clause ∷ clauses)
    ]
  ]

  -- applyOrdering: the ORDER BY terms for the request's column and direction, or the defaults.
  unfoldable pub apply_ordering :
      (order_by direction : String) (allowed defaults : List String) → Result (List String)
  unfolding contains validate_column_identifier normalize_order_direction default_ordering
  apply_ordering order_by direction allowed defaults =
      if order_by == "" || direction == ""
      then default_ordering defaults
      else if contains allowed order_by
      then (elim (validate_column_identifier order_by) [
        | err e ↦ err e
        | ok _ ↦ elim (normalize_order_direction direction) [
          | err e ↦ err e
          | ok normalized ↦ ok (order_text order_by normalized ∷ [])
        ]
      ])
      else err (invalid_order order_by)
