-- ===== src/Js/Json.antt =====
-- `JSON.stringify` without indentation.
use Prim.Native.String.{◌++◌}
use lens.Prelude.{ℕ, ◌/◌, ◌%◌, Char, code, String, true, false, ltb, eqb, if◌then◌else◌}
use lens.Js.Number.{digit, decimal}
use lens.Js.Value.{
  Value, undefined, null, bool, num, str, arr, obj, Values, no_items, item, Fields, no_fields,
  field,
}

abbrev hex_digit : ℕ → Char
hex_digit n =
    if ltb n 10
    then digit n
    else if eqb n 10
    then "a"
    else if eqb n 11
    then "b"
    else if eqb n 12
    then "c"
    else if eqb n 13
    then "d"
    else if eqb n 14
    then "e"
    else "f"

-- One character inside a quoted text, before the rest of the text.
escape_char : Char → String → String
escape_char c rest =
    let n = code c in
    if eqb n 34
    then "\\\"" ++ rest
    else if eqb n 92
    then "\\\\" ++ rest
    else if eqb n 8
    then "\\b" ++ rest
    else if eqb n 9
    then "\\t" ++ rest
    else if eqb n 10
    then "\\n" ++ rest
    else if eqb n 12
    then "\\f" ++ rest
    else if eqb n 13
    then "\\r" ++ rest
    else if ltb n 32
    then "\\u00" ++ String.◌∷◌ (hex_digit (n / 16)) (String.◌∷◌ (hex_digit (n % 16)) rest)
    else String.◌∷◌ c rest

escape : String → String → String
escape String.[] rest = rest
escape (String.◌∷◌ c s) rest = escape_char c (escape s rest)

unfoldable pub quote : String → String
unfolding escape escape_char digit
quote s = "\"" ++ escape s "\""

-- In an array `undefined` is written as `null`, and in an object such a property is left out. The text
-- `undefined` at the top is what the language's `+` makes of the missing result.
unfoldable mutual
  unfolding quote decimal

  pub stringify : Value → String
  stringify undefined = "undefined"
  stringify null = "null"
  stringify (bool true) = "true"
  stringify (bool false) = "false"
  stringify (num n) = decimal n
  stringify (str s) = quote s
  stringify (arr vs) = "[" ++ stringify_items vs
  stringify (obj fs) = "{" ++ stringify_fields fs

  pub stringify_item : Value → String
  stringify_item undefined = "null"
  stringify_item null = "null"
  stringify_item (bool true) = "true"
  stringify_item (bool false) = "false"
  stringify_item (num n) = decimal n
  stringify_item (str s) = quote s
  stringify_item (arr vs) = "[" ++ stringify_items vs
  stringify_item (obj fs) = "{" ++ stringify_fields fs

  pub stringify_items : Values → String
  stringify_items no_items = "]"
  stringify_items (item v vs) = stringify_item v ++ stringify_more_items vs

  pub stringify_more_items : Values → String
  stringify_more_items no_items = "]"
  stringify_more_items (item v vs) = "," ++ (stringify_item v ++ stringify_more_items vs)

  pub stringify_fields : Fields → String
  stringify_fields no_fields = "}"
  stringify_fields (field k undefined fs) = stringify_fields fs
  stringify_fields (field k v fs) =
      quote k ++ (":" ++ (stringify_item v ++ stringify_more_fields fs))

  pub stringify_more_fields : Fields → String
  stringify_more_fields no_fields = "}"
  stringify_more_fields (field k undefined fs) = stringify_more_fields fs
  stringify_more_fields (field k v fs) =
      "," ++ (quote k ++ (":" ++ (stringify_item v ++ stringify_more_fields fs)))
