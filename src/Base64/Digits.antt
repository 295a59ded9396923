-- ===== src/Base64/Digits.antt =====
-- The characters of the alphabet, and the text of the first bytes of a sequence.
use Prim.Native.String.{[] as nil, ◌∷◌ as ◌∷ˢ◌}
use agent_trust_fabric.Prelude.{
  ℕ, ◌+◌, ◌*◌, ◌/◌, ◌%◌, ◌<◌, ◌≡◌, refl, Bool, true, false, not, ◌&&◌, List, [], ◌∷◌, String, code,
  arith, ltb, ◌==◌, all_below, all_below_sound,
}
use agent_trust_fabric.Prelude.Text.{rstrip}
use agent_trust_fabric.Base64.Decoder.{sextet, Quad, data_step, step}
use agent_trust_fabric.Base64.{digit, b64url_encode}

-- What every character of the alphabet satisfies.
abbrev good_digit : ℕ → Bool
good_digit n =
    let c = code (digit n) in (sextet c == n) && not (c == b'=') && not (c == b'.') && ltb c 128

good_digits : all_below 64 good_digit ≡ true
unfolding digit sextet all_below
good_digits = refl

good : (n : ℕ) → n < 64 → good_digit n ≡ true
good n h = all_below_sound 64 good_digit n good_digits h

sextet-digit : (n : ℕ) → n < 64 → sextet (code (digit n)) ≡ n
sextet-digit n h = ground (arith, good n h)

digit-ne-equals : (n : ℕ) → n < 64 → (code (digit n) == b'=') ≡ false
digit-ne-equals n h = ground (arith, good n h)

pub digit-ne-dot : (n : ℕ) → n < 64 → (code (digit n) == b'.') ≡ false
digit-ne-dot n h = ground (arith, good n h)

pub digit-ascii : (n : ℕ) → n < 64 → ltb (code (digit n)) 128 ≡ true
digit-ascii n h = ground (arith, good n h)

pub step-digit :
    (q : Quad) (n : ℕ) → n < 64 → step q (code (digit n)) ≡ data_step q.position q.left n
unfolding step
step-digit q n h = rw (digit-ne-equals n h, sextet-digit n h) (ground arith)

rstrip-digit : (n : ℕ) (s : String) → n < 64 → rstrip b'=' (digit n ∷ˢ s) ≡ digit n ∷ˢ rstrip b'=' s
unfolding rstrip
rstrip-digit n s h = ground (arith, digit-ne-equals n h)

-- The bytes that the decoder puts together.
pub first_byte : (a b : ℕ) → a < 256 → b < 256 → a / 4 * 4 + (a % 4 * 16 + b / 16) / 16 ≡ a
first_byte a b h k = omega arith

pub second_byte :
    (a b c : ℕ)
    → b < 256
    → c < 256
    → (a % 4 * 16 + b / 16) % 16 * 16 + (b % 16 * 4 + c / 64) / 4 ≡ b
second_byte a b c h k = omega arith

pub third_byte : (b c : ℕ) → c < 256 → (b % 16 * 4 + c / 64) % 4 * 64 + c % 64 ≡ c
third_byte b c h = omega arith

-- Stripping the padding of the last group, group by group.
pub b64url_encode-cons :
    (a b c : ℕ) (rest : List ℕ)
    → a < 256
    → b < 256
    → c < 256
    → b64url_encode (a ∷ b ∷ c ∷ rest)
      ≡ digit (a / 4)
        ∷ˢ digit (a % 4 * 16 + b / 16)
        ∷ˢ digit (b % 16 * 4 + c / 64)
        ∷ˢ digit (c % 64)
        ∷ˢ b64url_encode rest
unfolding b64url_encode
b64url_encode-cons a b c rest ha hb hc = rw (
  rstrip-digit (a / 4) _ (omega arith),
  rstrip-digit (a % 4 * 16 + b / 16) _ (omega arith),
  rstrip-digit (b % 16 * 4 + c / 64) _ (omega arith),
  rstrip-digit (c % 64) _ (omega arith),
)

pub b64url_encode-two :
    (a b : ℕ)
    → a < 256
    → b < 256
    → b64url_encode (a ∷ b ∷ [])
      ≡ digit (a / 4) ∷ˢ digit (a % 4 * 16 + b / 16) ∷ˢ digit (b % 16 * 4) ∷ˢ nil
unfolding b64url_encode
b64url_encode-two a b ha hb = rw (
  rstrip-digit (a / 4) _ (omega arith),
  rstrip-digit (a % 4 * 16 + b / 16) _ (omega arith),
  rstrip-digit (b % 16 * 4) _ (omega arith),
)

pub b64url_encode-one :
    (a : ℕ) → a < 256 → b64url_encode (a ∷ []) ≡ digit (a / 4) ∷ˢ digit (a % 4 * 16) ∷ˢ nil
unfolding b64url_encode
b64url_encode-one a ha =
    rw (rstrip-digit (a / 4) _ (omega arith), rstrip-digit (a % 4 * 16) _ (omega arith))
