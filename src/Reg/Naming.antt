-- ===== src/Reg/Naming.antt =====
-- The names that v2/lens3/utility.go accepts; its regular expressions as tests on the code points.
use Prim.Native.Char.{code}
use lens.Prelude.{ℕ, ◌+◌, String, Bool, true, false, not, ◌&&◌, ◌||◌, leb, eqb, ◌==◌}

is_digit : ℕ → Bool
is_digit c = leb b'0' c && leb c b'9'

is_lower : ℕ → Bool
is_lower c = leb b'a' c && leb c b'z'

is_upper : ℕ → Bool
is_upper c = leb b'A' c && leb c b'Z'

-- [a-h0-9]
is_pool_char : ℕ → Bool
is_pool_char c = (leb b'a' c && leb c b'h') || is_digit c

-- [a-z0-9-]
is_bucket_char : ℕ → Bool
is_bucket_char c = is_lower c || is_digit c || eqb c b'-'

-- [0-9.]
is_number_char : ℕ → Bool
is_number_char c = is_digit c || eqb c b'.'

module _ (is_good : ℕ → Bool) where
  -- All characters are good ones.
  abbrev all_chars : String → Bool
  all_chars String.[] = true
  all_chars (String.◌∷◌ c s) = is_good (code c) && all_chars s

-- The number of characters, which is the one of bytes for the texts that are accepted.
abbrev char_count : String → ℕ
char_count String.[] = 0
char_count (String.◌∷◌ c s) = char_count s + 1

-- ^[a-h0-9]{16}$
unfoldable pub check_pool_naming : String → Bool
unfolding is_pool_char is_digit
check_pool_naming name = eqb (char_count name) 16 && all_chars is_pool_char name

abbrev starts_with : String → String → Bool
starts_with s String.[] = true
starts_with String.[] (String.◌∷◌ d t) = false
starts_with (String.◌∷◌ c s) (String.◌∷◌ d t) = eqb (code c) (code d) && starts_with s t

abbrev ends_with : String → String → Bool
ends_with String.[] t = String.[] == t
ends_with (String.◌∷◌ c s) t = (String.◌∷◌ c s == t) || ends_with s t

forbidden_names : String → Bool
unfolding is_number_char is_digit
forbidden_names name =
    all_chars is_number_char name
    || ends_with name "-"
    || starts_with name "xn--"
    || ends_with name "-s3alias"
    || ends_with name "--ol-s3"
    || (name == "aws")
    || (name == "amazon")
    || starts_with name "goog"
    || starts_with name "g00g"
    || (name == "minio")

unfoldable pub check_bucket_naming : String → Bool
unfolding is_bucket_char is_lower is_digit forbidden_names
check_bucket_naming name =
    leb 3 (char_count name)
    && leb (char_count name) 63
    && all_chars is_bucket_char name
    && not (forbidden_names name)

-- ^[a-zA-Z][a-zA-Z0-9]*$
secret_form : String → Bool
unfolding is_lower is_upper is_digit
secret_form String.[] = false
secret_form (String.◌∷◌ c s) =
    (is_lower (code c) || is_upper (code c))
    && all_chars (λ d. is_lower d || is_upper d || is_digit d) s

abbrev access_key_length : ℕ
access_key_length = 20

unfoldable pub check_secret_naming : String → Bool
unfolding secret_form
check_secret_naming s = eqb (char_count s) access_key_length && secret_form s
