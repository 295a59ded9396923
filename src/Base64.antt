-- ===== src/Base64.antt =====
-- reference/py/src/atf/_b64.py, over Python's `base64.urlsafe_b64encode` and `urlsafe_b64decode`.
-- The decoder is that of `binascii.a2b_base64` in its lenient mode: it skips a character that is
-- not in the alphabet, and stops at the padding that completes a group.
pub mod Decoder
pub mod Digits
pub mod RoundTrip
use Prim.Native.String.{[] as nil, ◌∷◌ as ◌∷ˢ◌, char_at, ◌++◌ as ◌++ˢ◌}
use agent_trust_fabric.Prelude.{
  ℕ, suc, ◌+◌, ◌-◌, ◌*◌, ◌/◌, ◌%◌, ◌≡◌, refl, Bool, List, [], ◌∷◌, String, Char,
}
use agent_trust_fabric.Prelude.Text.{count, rstrip, is_ascii}

abbrev alphabet : String
alphabet = "ABCDEFGHIJKLMNOPQRSTUVWXYZabcdefghijklmnopqrstuvwxyz0123456789-_"

-- The character of six bits.
unfoldable pub digit : ℕ → Char
digit n = char_at alphabet n

-- `base64.urlsafe_b64encode`: four characters for three bytes, the last group padded.
unfoldable pub urlsafe_b64encode : List ℕ → String
unfolding digit
urlsafe_b64encode [] = nil
urlsafe_b64encode (a ∷ []) = digit (a / 4) ∷ˢ digit (a % 4 * 16) ∷ˢ "=="
urlsafe_b64encode (a ∷ b ∷ []) =
    digit (a / 4) ∷ˢ digit (a % 4 * 16 + b / 16) ∷ˢ digit (b % 16 * 4) ∷ˢ "="
urlsafe_b64encode (a ∷ b ∷ c ∷ rest) =
    digit (a / 4)
    ∷ˢ digit (a % 4 * 16 + b / 16)
    ∷ˢ digit (b % 16 * 4 + c / 64)
    ∷ˢ digit (c % 64)
    ∷ˢ urlsafe_b64encode rest

unfoldable pub b64url_encode : List ℕ → String
unfolding urlsafe_b64encode rstrip
b64url_encode bytes = rstrip b'=' (urlsafe_b64encode bytes)

hello : b64url_encode (104 ∷ 105 ∷ 255 ∷ 254 ∷ []) ≡ "aGn__g"
unfolding b64url_encode
hello = refl
