-- ===== src/Json/Bytes.antt =====
-- Every element of `canonical_json v` is a byte.
use Prim.Native.Char.{char}
use Prim.Native.String.{[] as nil_text, ◌∷◌ as ◌∷ˢ◌}
use agent_trust_fabric.Prelude.{
  ℕ, zero, suc, ◌+◌, ◌/◌, ◌%◌, ◌<◌, ◌≡◌, ap, Bool, true, false, List, [], ◌∷◌, ◌++◌, String, Char,
  code, arith, All, All-append, IsByte,
}
use agent_trust_fabric.Prelude.Int.{ℤ, pos, negsuc}
use agent_trust_fabric.Json.Value.{
  Json, Items, Fields, null, bool, num, str, arr, obj, nil, cons, end, field,
}
use agent_trust_fabric.Json.Keys.{sort_keys}
use agent_trust_fabric.Json.Keys.Idempotent.{sort_keys_idem}
use agent_trust_fabric.Json.Text.{
  utf8_char, utf8, hex_digit, escape, escaped, quoted, decimal_onto, decimal, bool_literal, dumps,
  dumps_items, dumps_fields, canonical_json,
}

abbrev Bytes : List ℕ → Type 0
Bytes = All IsByte

code-lt : (c : Char) → code c < 1114112
code-lt (char n h) = ground arith

utf8_char-Bytes : (n : ℕ) → n < 1114112 → Bytes (utf8_char n)
unfolding utf8_char
utf8_char-Bytes n h = ground arith

pub utf8-Bytes : (s : String) → Bytes (utf8 s)
unfolding utf8
utf8-Bytes nil_text = tt
utf8-Bytes (c ∷ˢ s) =
    All-append IsByte (utf8_char (code c)) (utf8 s) (utf8_char-Bytes (code c) (code-lt c))
      (utf8-Bytes s)

hex_digit-IsByte : (d : ℕ) → d < 16 → IsByte (hex_digit d)
unfolding hex_digit
hex_digit-IsByte d h = ground arith

escape-Bytes : (n : ℕ) → n < 1114112 → Bytes (escape n)
unfolding escape
escape-Bytes n h =
    ground (arith, utf8_char-Bytes n h, hex_digit-IsByte (n / 16), hex_digit-IsByte (n % 16))

escaped-Bytes : (s : String) → Bytes (escaped s)
unfolding escaped
escaped-Bytes nil_text = tt
escaped-Bytes (c ∷ˢ s) =
    All-append IsByte (escape (code c)) (escaped s) (escape-Bytes (code c) (code-lt c))
      (escaped-Bytes s)

quoted-Bytes : (s : String) → Bytes (quoted s)
unfolding quoted
quoted-Bytes s =
    (omega arith, All-append IsByte (escaped s) (b'"' ∷ []) (escaped-Bytes s) (omega arith, tt))

decimal_onto-Bytes : (f n : ℕ) (rest : List ℕ) → Bytes rest → Bytes (decimal_onto f n rest)
unfolding decimal_onto
decimal_onto-Bytes zero n rest h = h
decimal_onto-Bytes (suc f) n rest h =
    ground (arith, decimal_onto-Bytes f (n / 10) ((b'0' + n % 10) ∷ rest))

decimal-Bytes : (z : ℤ) → Bytes (decimal z)
unfolding decimal
decimal-Bytes (pos n) = decimal_onto-Bytes (suc n) n [] tt
decimal-Bytes (negsuc n) = (omega arith, decimal_onto-Bytes (suc (suc n)) (suc n) [] tt)

bool_literal-Bytes : (b : Bool) → Bytes (bool_literal b)
unfolding bool_literal
bool_literal-Bytes true = utf8-Bytes "true"
bool_literal-Bytes false = utf8-Bytes "false"

join : (xs ys : List ℕ) → Bytes xs → Bytes ys → Bytes (xs ++ ys)
join xs ys h k = All-append IsByte xs ys h k

mutual
  unfolding dumps dumps_items dumps_fields

  dumps-Bytes : (v : Json) → Bytes (dumps v)
  dumps-Bytes null = utf8-Bytes "null"
  dumps-Bytes (bool b) = bool_literal-Bytes b
  dumps-Bytes (num z) = decimal-Bytes z
  dumps-Bytes (str s) = quoted-Bytes s
  dumps-Bytes (arr xs) = (omega arith, dumps_items-Bytes xs)
  dumps-Bytes (obj fs) = (omega arith, dumps_fields-Bytes fs)

  dumps_items-Bytes : (xs : Items) → Bytes (dumps_items xs)
  dumps_items-Bytes nil = (omega arith, tt)
  dumps_items-Bytes (cons x nil) = join (dumps x) (b']' ∷ []) (dumps-Bytes x) (omega arith, tt)
  dumps_items-Bytes (cons x (cons y ys)) =
      join (dumps x) (b',' ∷ dumps_items (cons y ys)) (dumps-Bytes x)
        (omega arith, dumps_items-Bytes (cons y ys))

  dumps_fields-Bytes : (fs : Fields) → Bytes (dumps_fields fs)
  dumps_fields-Bytes end = (omega arith, tt)
  dumps_fields-Bytes (field k v end) =
      join (quoted k) (b':' ∷ (dumps v ++ (b'}' ∷ []))) (quoted-Bytes k)
        (omega arith, join (dumps v) (b'}' ∷ []) (dumps-Bytes v) (omega arith, tt))
  dumps_fields-Bytes (field k v (field j w fs)) =
      join (quoted k) (b':' ∷ (dumps v ++ (b',' ∷ dumps_fields (field j w fs)))) (quoted-Bytes k) (
        omega arith,
        join (dumps v) (b',' ∷ dumps_fields (field j w fs)) (dumps-Bytes v)
            (omega arith, dumps_fields-Bytes (field j w fs)),
      )

pub canonical_json-Bytes : (v : Json) → Bytes (canonical_json v)
unfolding canonical_json
canonical_json-Bytes v = dumps-Bytes (sort_keys v)

-- A value and the same value with sorted keys, as it is read back from its own JSON text, have the
-- same canonical bytes.
pub canonical_json-sort_keys : (v : Json) → canonical_json (sort_keys v) ≡ canonical_json v
unfolding canonical_json
canonical_json-sort_keys v = ap dumps (sort_keys_idem v)
