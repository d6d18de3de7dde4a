-- ===== src/Base/Text.antt =====
-- The text functions of utils/string.go and utils/regex.go on Go strings. Character classes and
-- case, the regular expressions, mail.ParseAddress and x/text's title case are parameters.
use Prim.Native.Char.{Char, code}
use Prim.Native.String
use Prim.Native.String.{String}
use mathlib.Core.Bool.{Bool, true, false}
use mathlib.Core.Option.{Option, none, some}
use mathlib.Core.List.{List, [], ◌∷◌, ◌++◌, map}
use text.Mathlib.Text.{◌==◌}
use yourz_gift.Base.Tests.{if◌then◌else◌, eqb}

-- What the code takes from `unicode`, `regexp`, `html`, `net/mail`, `net/url` and x/text.
pub record TextLib : Type 0 where
  pub is_space : Char → Bool
  pub to_upper : Char → Char
  pub to_lower : Char → Char
  -- cases.Title(language.English).String
  pub title : String → String
  -- the three regular expressions of stripHTMLTags, and html.UnescapeString
  pub strip_tags : String → String
  -- the address of mail.ParseAddress
  pub parse_address : String → Option String
  -- the host name of url.Parse, "" where it fails
  pub url_hostname : String → String
  -- LOWER(text) LIKE LOWER('%' || search || '%')
  pub like : String → String → Bool

abbrev pub map_chars : (Char → Char) → String → String
map_chars f String.[] = String.[]
map_chars f (String.◌∷◌ c s) = String.◌∷◌ (f c) (map_chars f s)

abbrev pub push : String → Char → String
push s c = String.◌++◌ s (String.◌∷◌ c String.[])

-- strings.Join
unfoldable pub join : String → List String → String
join sep [] = ""
join sep (x ∷ []) = x
join sep (x ∷ y ∷ ys) = String.◌++◌ x (String.◌++◌ sep (join sep (y ∷ ys)))

-- "\r\n" and "\r" become "\n"; the flag says that the last character was a "\r".
unfoldable pub unix_newlines : Bool → String → String
unix_newlines after_cr String.[] = String.[]
unix_newlines after_cr (String.◌∷◌ c s) =
    let cr = String.◌++◌ "\n" (unix_newlines true s) in
    let skip = unix_newlines false s in
    let keep = String.◌∷◌ c (unix_newlines false s) in
    if eqb (code c) 13
    then cr
    else if eqb (code c) 10
    then (if after_cr then skip else keep)
    else keep

-- strings.Split(s, "\n")
unfoldable pub lines_from : String → String → List String
lines_from cur String.[] = cur ∷ []
lines_from cur (String.◌∷◌ c s) =
    let closed = cur ∷ lines_from "" s in
    let longer = lines_from (push cur c) s in if eqb (code c) 10 then closed else longer

-- One round of the loop of StripHTMLPreserveNewlines over its variables cleanLines and blankLine.
unfoldable pub clean_line : List String × Bool → String → List String × Bool
clean_line (clean, blank) line =
    if line == ""
    then (clean, elim clean [ [] ↦ blank | _ ∷ _ ↦ true ])
    else if blank
    then (clean ++ "" ∷ line ∷ [], false)
    else (clean ++ line ∷ [], false)

unfoldable pub clean_lines : List String × Bool → List String → List String
clean_lines acc [] = acc.0
clean_lines acc (line ∷ lines) = clean_lines (clean_line acc line) lines

module _ (lib : TextLib) where
  open lib use {is_space, to_upper, to_lower, strip_tags, parse_address, url_hostname}

  -- Without the spaces at the front.
  unfoldable pub trim_left : String → String
  trim_left String.[] = String.[]
  trim_left (String.◌∷◌ c s) = let rest = trim_left s in if is_space c then rest else String.◌∷◌ c s

  -- Without the spaces at the end: a space is dropped if nothing is left behind it.
  unfoldable pub trim_right : String → String
  trim_right String.[] = String.[]
  trim_right (String.◌∷◌ c s) =
      let rest = trim_right s in
      if is_space c then (if rest == "" then "" else String.◌∷◌ c rest) else String.◌∷◌ c rest

  -- strings.TrimSpace
  unfoldable pub trim_space : String → String
  unfolding trim_left trim_right
  trim_space s = trim_right (trim_left s)

  -- strings.Fields, with the word that is being read
  unfoldable pub fields_from : String → String → List String
  fields_from cur String.[] = if cur == "" then [] else cur ∷ []
  fields_from cur (String.◌∷◌ c s) =
      let next = fields_from "" s in
      let longer = fields_from (push cur c) s in
      if is_space c then (if cur == "" then next else cur ∷ next) else longer

  -- utils.NormalizeKey
  unfoldable pub normalize_key : String → String
  unfolding trim_space
  normalize_key s = map_chars to_lower (trim_space s)

  -- utils.NormalizeUpperKey
  unfoldable pub normalize_upper_key : String → String
  unfolding trim_space
  normalize_upper_key s = map_chars to_upper (trim_space s)

  -- utils.StringOrDefault
  unfoldable pub string_or_default : String → String → String
  unfolding trim_space
  string_or_default value fallback =
      let value' = trim_space value in if value' == "" then fallback else value'

  -- utils.StripHTML
  unfoldable pub strip_html : String → String
  unfolding fields_from join
  strip_html s = join " " (fields_from "" (strip_tags s))

  -- utils.StripHTMLPreserveNewlines
  unfoldable pub strip_html_preserve_newlines : String → String
  unfolding fields_from join trim_space unix_newlines lines_from clean_lines clean_line
  strip_html_preserve_newlines s =
      let lines = lines_from "" (unix_newlines false (strip_tags s)) in
      trim_space
        (join "\n" (clean_lines ([], false) (map (λ l. join " " (fields_from "" l)) lines)))

  -- utils.SanitizeEmail
  unfoldable pub sanitize_email : String → String
  unfolding normalize_key
  sanitize_email email =
      let email' = normalize_key email in
      if email' == "" then "" else elim (parse_address email') [
        | none ↦ ""
        | some address ↦ (if address == email' then address else "")
      ]

  -- utils.URLHost
  unfoldable pub url_host : String → String
  unfolding trim_space
  url_host raw = if trim_space raw == "" then "" else url_hostname raw
