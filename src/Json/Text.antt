-- ===== src/Json/Text.antt =====
-- `canonical_json` of reference/py/src/atf/_signing.py: `json.dumps` with sorted keys, no white
-- space and `ensure_ascii=False`, encoded as UTF-8. A text is a sequence of Unicode scalar values, so
-- that every one can be encoded.
use Prim.Native.String.{[] as nil_text, ◌∷◌ as ◌∷ˢ◌, char_at}
use agent_trust_fabric.Prelude.{
  ℕ, zero, suc, ◌+◌, ◌-◌, ◌/◌, ◌%◌, ◌≡◌, refl, Bool, true, false, List, [], ◌∷◌, ◌++◌, String, code,
  ltb, ◌==◌, if◌then◌else◌,
}
use agent_trust_fabric.Prelude.Int.{ℤ, pos, negsuc}
use agent_trust_fabric.Json.Value.{
  Json, Items, Fields, null, bool, num, str, arr, obj, nil, cons, end, field, dict, items,
}
use agent_trust_fabric.Json.Keys.{sort_keys, insert}

-- `str.encode("utf-8")` of one code point.
unfoldable pub utf8_char : ℕ → List ℕ
utf8_char c =
    if ltb c 128
    then c ∷ []
    else if ltb c 2048
    then (192 + c / 64) ∷ (128 + c % 64) ∷ []
    else if ltb c 65536
    then (224 + c / 4096) ∷ (128 + (c / 64) % 64) ∷ (128 + c % 64) ∷ []
    else (240 + c / 262144) ∷ (128 + (c / 4096) % 64) ∷ (128 + (c / 64) % 64) ∷ (128 + c % 64) ∷ []

unfoldable pub utf8 : String → List ℕ
unfolding utf8_char
utf8 nil_text = []
utf8 (c ∷ˢ s) = utf8_char (code c) ++ utf8 s

unfoldable pub hex_digit : ℕ → ℕ
hex_digit d = if ltb d 10 then b'0' + d else b'a' + (d - 10)

abbrev backslash : ℕ
backslash = 92

-- A character of a string literal: the two that delimit, the short escapes, `\u00XX` below 32.
unfoldable pub escape : ℕ → List ℕ
unfolding utf8_char hex_digit
escape c =
    if c == b'"'
    then backslash ∷ b'"' ∷ []
    else if c == backslash
    then backslash ∷ backslash ∷ []
    else if c == 10
    then backslash ∷ b'n' ∷ []
    else if c == 13
    then backslash ∷ b'r' ∷ []
    else if c == 9
    then backslash ∷ b't' ∷ []
    else if c == 8
    then backslash ∷ b'b' ∷ []
    else if c == 12
    then backslash ∷ b'f' ∷ []
    else if ltb c 32
    then backslash ∷ b'u' ∷ b'0' ∷ b'0' ∷ hex_digit (c / 16) ∷ hex_digit (c % 16) ∷ []
    else utf8_char c

unfoldable pub escaped : String → List ℕ
unfolding escape
escaped nil_text = []
escaped (c ∷ˢ s) = escape (code c) ++ escaped s

unfoldable pub quoted : String → List ℕ
unfolding escaped
quoted s = b'"' ∷ escaped s ++ b'"' ∷ []

-- The decimal digits of a number, in front of what follows; fuel above the number is enough.
unfoldable pub decimal_onto : ℕ → ℕ → List ℕ → List ℕ
decimal_onto zero n rest = rest
decimal_onto (suc f) n rest =
    let onto = (b'0' + n % 10) ∷ rest in
    let more = decimal_onto f (n / 10) onto in if ltb n 10 then onto else more

unfoldable pub decimal : ℤ → List ℕ
unfolding decimal_onto
decimal (pos n) = decimal_onto (suc n) n []
decimal (negsuc n) = b'-' ∷ decimal_onto (suc (suc n)) (suc n) []

-- The text of a sign and digits, given by their codes.
digits_text : List ℕ → String
digits_text [] = nil_text
digits_text (d ∷ ds) = char_at "-./0123456789" (d - b'-') ∷ˢ digits_text ds

-- `str(n)`.
unfoldable pub decimal_text : ℤ → String
unfolding digits_text decimal
decimal_text z = digits_text (decimal z)

unfoldable pub bool_literal : Bool → List ℕ
bool_literal true = utf8 "true"
bool_literal false = utf8 "false"

-- A value, the items of a list and the entries of a `dict`; a comma stands between two.
unfoldable mutual
  unfolding quoted decimal bool_literal utf8

  pub dumps : Json → List ℕ
  dumps null = utf8 "null"
  dumps (bool b) = bool_literal b
  dumps (num z) = decimal z
  dumps (str s) = quoted s
  dumps (arr xs) = b'[' ∷ dumps_items xs
  dumps (obj fs) = b'{' ∷ dumps_fields fs

  pub dumps_items : Items → List ℕ
  dumps_items nil = b']' ∷ []
  dumps_items (cons x nil) = dumps x ++ b']' ∷ []
  dumps_items (cons x (cons y ys)) = dumps x ++ b',' ∷ dumps_items (cons y ys)

  pub dumps_fields : Fields → List ℕ
  dumps_fields end = b'}' ∷ []
  dumps_fields (field k v end) = quoted k ++ (b':' ∷ (dumps v ++ (b'}' ∷ [])))
  dumps_fields (field k v (field j w fs)) =
      quoted k ++ (b':' ∷ (dumps v ++ (b',' ∷ dumps_fields (field j w fs))))

unfoldable pub canonical_json : Json → List ℕ
unfolding dumps sort_keys
canonical_json v = dumps (sort_keys v)

abbrev sample : Json
sample = dict (("b", str "é\"") ∷ ("a", arr (items (num (negsuc 41) ∷ null ∷ bool true ∷ []))) ∷ [])

canonical_json-sample : canonical_json sample ≡ utf8 "{\"a\":[-42,null,true],\"b\":\"é\\\"\"}"
unfolding canonical_json utf8 insert
canonical_json-sample = refl
