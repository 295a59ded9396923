-- ===== src/Base64/Decoder.antt =====
-- `b64url_decode`.
use Prim.Native.String.{[] as nil, ◌∷◌ as ◌∷ˢ◌, ◌++◌ as ◌++ˢ◌}
use agent_trust_fabric.Prelude.{
  ℕ, zero, suc, ◌+◌, ◌-◌, ◌*◌, ◌/◌, ◌%◌, ◌≡◌, refl, Bool, false, ◌&&◌, not, List, [], ◌∷◌, ◌++◌,
  String, code, ltb, leb, ◌==◌, if◌then◌else◌,
}
use agent_trust_fabric.Prelude.Text.{count, is_ascii}
use agent_trust_fabric.Errors.{Result, ok, err, ◌>>=◌, ◌>>◌, raise_if, value_error, binascii_error}

-- The six bits of a character, after `-` and `_` are translated to `+` and `/`; 64 for a
-- character that is not in the alphabet.
unfoldable pub sextet : ℕ → ℕ
sextet c =
    if leb b'A' c && leb c b'Z'
    then c - b'A'
    else if leb b'a' c && leb c b'z'
    then c - b'a' + 26
    else if leb b'0' c && leb c b'9'
    then c - b'0' + 52
    else if c == b'-'
    then 62
    else if c == b'+'
    then 62
    else if c == b'_'
    then 63
    else if c == b'/'
    then 63
    else 64

-- Where the decoder stands in a group of four characters, the bits left over, and the padding
-- characters since the last character of data.
pub record Quad : Type 0 where
  pub position : ℕ
  pub left : ℕ
  pub pads : ℕ

-- What a character does: the next state, the bytes that it completes, and whether it ends the text.
pub record Step : Type 0 where
  pub next : Quad
  pub out : List ℕ
  pub done : Bool

unfoldable pub pad_step : Quad → Step
pad_step q = if ltb q.position 2 then record { next = q; out = []; done = false } else record {
  next = record q { pads = q.pads + 1 };
  out = [];
  done = leb 4 (q.position + (q.pads + 1));
}

abbrev pub data_step : ℕ → ℕ → ℕ → Step
data_step zero left v = record {
  next = record { position = 1; left = v; pads = 0 };
  out = [];
  done = false;
}
data_step (suc zero) left v = record {
  next = record { position = 2; left = v % 16; pads = 0 };
  out = (left * 4 + v / 16) ∷ [];
  done = false;
}
data_step (suc (suc zero)) left v = record {
  next = record { position = 3; left = v % 4; pads = 0 };
  out = (left * 16 + v / 4) ∷ [];
  done = false;
}
data_step (suc (suc (suc _))) left v = record {
  next = record { position = 0; left = 0; pads = 0 };
  out = (left * 64 + v) ∷ [];
  done = false;
}

unfoldable pub step : Quad → ℕ → Step
unfolding pad_step sextet
step q c =
    if c == b'='
    then pad_step q
    else if leb 64 (sextet c)
    then record { next = q; out = []; done = false }
    else data_step q.position q.left (sextet c)

abbrev pub start : Quad
start = record { position = 0; left = 0; pads = 0 }

-- The loop of `a2b_base64`: an end of input inside a group is an error.
unfoldable pub a2b_base64 : Quad → String → Result (List ℕ)
unfolding step
a2b_base64 q nil = if q.position == 0 then ok [] else err binascii_error
a2b_base64 q (c ∷ˢ s) =
    let st = step q (code c) in
    let rest = a2b_base64 st.next s in
    if st.done then ok st.out else rest >>= λ bytes. ok (st.out ++ bytes)

-- `base64.urlsafe_b64decode` of a `str`.
unfoldable pub urlsafe_b64decode : String → Result (List ℕ)
unfolding a2b_base64
urlsafe_b64decode s = raise_if (not (is_ascii s)) value_error >> a2b_base64 start s

abbrev pub equals_signs : ℕ → String
equals_signs zero = nil
equals_signs (suc n) = "=" ++ˢ equals_signs n

-- `-len(s) % 4` is `(4 - len(s) % 4) % 4`.
unfoldable pub b64url_decode : String → Result (List ℕ)
unfolding urlsafe_b64decode
b64url_decode s = urlsafe_b64decode (s ++ˢ equals_signs ((4 - count s % 4) % 4))

decodes : b64url_decode "aGn__g" ≡ ok (104 ∷ 105 ∷ 255 ∷ 254 ∷ [])
unfolding b64url_decode
decodes = refl

-- The lenient mode: characters outside the alphabet are skipped.
skips : b64url_decode "aG!n_.._g" ≡ b64url_decode "aGn__g"
unfolding b64url_decode
skips = refl

one_too_many : b64url_decode "aGn__" ≡ err binascii_error
unfolding b64url_decode
one_too_many = refl
