-- ===== src/Account/Text.antt =====
-- utils/regex.go, and the checks of a password and of a login name in internal/services/user/helper.go.
use Prim.Native.Char.{Char, code}
use Prim.Native.String
use yourz_gift.Base.{
  ℕ, ◌+◌, String, Bool, false, not, ◌&&◌, ◌||◌, ltb, leb, eqb, if◌then◌else◌, ◌==◌, none, some,
  message, Result, ok, err,
}
use yourz_gift.Base.Text.{TextLib, trim_space, sanitize_email}
use yourz_gift.Session.{contains_text}

abbrev in_range : ℕ → ℕ → Char → Bool
in_range low high c = leb low (code c) && leb (code c) high

abbrev pub is_digit : Char → Bool
is_digit c = in_range 48 57 c

abbrev pub is_lower : Char → Bool
is_lower c = in_range 97 122 c

abbrev pub is_upper : Char → Bool
is_upper c = in_range 65 90 c

-- Whether a regular expression of one character class matches.
unfoldable pub any_char : (Char → Bool) → String → Bool
any_char p String.[] = false
any_char p (String.◌∷◌ c s) = p c || any_char p s

-- len(s): the bytes of the UTF-8 text
unfoldable pub byte_length : String → ℕ
byte_length String.[] = 0
byte_length (String.◌∷◌ c s) =
    let rest = byte_length s in
    (if ltb (code c) 128
      then 1
      else if ltb (code c) 2048
      then 2
      else if ltb (code c) 65536
      then 3
      else 4)
    + rest

-- nonDigitRemover
unfoldable pub digits_of : String → String
digits_of String.[] = String.[]
digits_of (String.◌∷◌ c s) =
    let rest = digits_of s in if is_digit c then String.◌∷◌ c rest else rest

-- ^0 becomes 62
abbrev pub without_zero : String → String
without_zero String.[] = String.[]
without_zero (String.◌∷◌ c s) = if eqb (code c) 48 then String.◌++◌ "62" s else String.◌∷◌ c s

-- ^\+62 becomes 62, for a text that begins with a +
abbrev pub country_code : String → String
country_code (String.◌∷◌ a (String.◌∷◌ b s)) =
    if eqb (code a) 54 && eqb (code b) 50
    then String.◌∷◌ a (String.◌∷◌ b s)
    else String.◌++◌ "+" (String.◌∷◌ a (String.◌∷◌ b s))
country_code String.[] = "+"
country_code (String.◌∷◌ a String.[]) = String.◌++◌ "+" (String.◌∷◌ a String.[])

-- A text that begins with a + keeps it, unless 62 follows; another one has no + to take away.
unfoldable pub normalize_phone_to_62 : String → String
unfolding digits_of
normalize_phone_to_62 String.[] = ""
normalize_phone_to_62 (String.◌∷◌ c s) =
    if eqb (code c) 43
    then country_code (digits_of s)
    else without_zero (digits_of (String.◌∷◌ c s))

unfoldable pub validate_password_strength : String → Result (Unit {0})
unfolding byte_length any_char
validate_password_strength password =
    if ltb (byte_length password) 8
    then err (message "password must be at least 8 characters long")
    else if not (any_char is_lower password)
    then err (message "password must contain at least 1 lowercase letter (a-z)")
    else if not (any_char is_upper password)
    then err (message "password must contain at least 1 uppercase letter (A-Z)")
    else if not (any_char is_digit password)
    then err (message "password must contain at least 1 number (0-9)")
    else if not (any_char (λ c. not (is_lower c || is_upper c || is_digit c)) password)
    then err (message "password must contain at least 1 symbol (!@#$%^&*...)")
    else ok tt

-- dto.Login
pub record Login : Type 0 where
  pub identifier : String
  pub email : String
  pub password : String

module _ (lib : TextLib) where
  -- The name that ResolveLoginIdentifier goes on with.
  abbrev pub login_name : Login → String
  login_name req =
      if trim_space lib req.identifier == ""
      then trim_space lib req.email
      else trim_space lib req.identifier

  unfoldable pub resolve_login_identifier : Login → Result String
  unfolding trim_space contains_text sanitize_email normalize_phone_to_62 byte_length
  resolve_login_identifier req =
      let name = login_name req in
      let address = sanitize_email lib name in
      let phone = normalize_phone_to_62 name in
      let invalid : Result String =
        err (message "identifier must be a valid email or phone number") in
      let by_address : Result String = elim (lib.parse_address address) [
        | none ↦ invalid
        | some parsed ↦ ok address
      ] in
      if name == ""
      then err (message "identifier or email is required")
      else if contains_text "@" name
      then by_address
      else if ltb (byte_length phone) 9 || ltb 15 (byte_length phone)
      then invalid
      else ok phone
