-- ===== src/Utils.antt =====
-- utils/string.go: RandomCode.
use Prim.Native.Char.{code}
use Prim.Native.Nat.{◌%◌}
use Prim.Native.String
use yourz_gift.Base.{
  ℕ, zero, suc, String, ◌||◌, Option, none, some, List, [], ◌∷◌, ◌==◌, eqb, if◌then◌else◌,
}
use yourz_gift.Base.Text.{TextLib, map_chars}

abbrev pub share_alphabet : String
share_alphabet = "ABCDEFGHJKLMNPQRSTUVWXYZ23456789"

-- The number of characters: of bytes, for the alphabets and UUIDs used here.
abbrev pub count_chars : String → ℕ
count_chars String.[] = 0
count_chars (String.◌∷◌ c s) = suc (count_chars s)

-- alphabet[i], an empty text where i is out of range
abbrev pub char_at : String → ℕ → String
char_at String.[] i = ""
char_at (String.◌∷◌ c s) zero = String.◌∷◌ c ""
char_at (String.◌∷◌ c s) (suc i) = char_at s i

-- s[:n]
abbrev pub prefix : ℕ → String → String
prefix zero s = ""
prefix (suc n) String.[] = ""
prefix (suc n) (String.◌∷◌ c s) = String.◌∷◌ c (prefix n s)

-- strings.ReplaceAll(s, "-", "")
unfoldable pub without_dashes : String → String
without_dashes String.[] = ""
without_dashes (String.◌∷◌ c s) =
    let rest = without_dashes s in if eqb (code c) b'-' then rest else String.◌∷◌ c rest

-- out[i] = alphabet[int(b)%len(alphabet)] for the first `length` bytes
unfoldable pub code_of_bytes : ℕ → String → List ℕ → String
code_of_bytes zero alphabet bytes = ""
code_of_bytes (suc n) alphabet [] = ""
code_of_bytes (suc n) alphabet (b ∷ bytes) =
    String.◌++◌ (char_at alphabet (b % count_chars alphabet)) (code_of_bytes n alphabet bytes)

-- `uuid` is the text of a new UUID, and `bytes` what rand.Read gives, nothing where it fails.
unfoldable pub random_code :
    TextLib → (len : ℕ) (alphabet uuid : String) → (bytes : Option (List ℕ)) → String
unfolding without_dashes code_of_bytes
random_code lib len alphabet uuid none =
    if eqb len 0 || alphabet == ""
    then ""
    else prefix len (map_chars lib.to_upper (without_dashes uuid))
random_code lib len alphabet uuid (some bytes) =
    if eqb len 0 || alphabet == "" then "" else code_of_bytes len alphabet bytes
