-- ===== src/Base64/RoundTrip.antt =====
-- `b64url_decode` undoes `b64url_encode`, whose output holds neither a dot nor padding.
use Prim.Native.String.{◌∷◌ as ◌∷ˢ◌, ◌++◌ as ◌++ˢ◌}
use text.Mathlib.TextLemmas.{cons-append, nil-append}
use agent_trust_fabric.Prelude.{
  ℕ, ◌+◌, ◌-◌, ◌*◌, ◌/◌, ◌%◌, ◌<◌, ◌≡◌, refl, true, List, [], ◌∷◌, ◌++◌, String, Char, arith, All,
  IsByte, if◌then◌else◌, ap, ◌∙◌,
}
use agent_trust_fabric.Prelude.Text.{count, is_ascii, lacks}
use agent_trust_fabric.Errors.{Result, ok, err, ◌>>=◌}
use agent_trust_fabric.Base64.Decoder.{
  Quad, data_step, start, a2b_base64, equals_signs, b64url_decode,
}
use agent_trust_fabric.Base64.{digit, urlsafe_b64encode, b64url_encode}
use agent_trust_fabric.Base64.Digits.{
  digit-ne-dot, digit-ascii, step-digit, first_byte, second_byte, third_byte, b64url_encode-cons,
  b64url_encode-two, b64url_encode-one,
}

-- The padding that the decoder computes from the length of a text.
abbrev padding : String → String
padding s = equals_signs ((4 - count s % 4) % 4)

padding-four : (c d e f : Char) (s : String) → padding (c ∷ˢ d ∷ˢ e ∷ˢ f ∷ˢ s) ≡ padding s
padding-four c d e f s = ap (λ (n : ℕ). equals_signs n) (omega arith)

-- The decoder restores the padding that the encoder stripped.
repad :
    (bytes : List ℕ)
    → All IsByte bytes
    → b64url_encode bytes ++ˢ padding (b64url_encode bytes) ≡ urlsafe_b64encode bytes
unfolding urlsafe_b64encode
repad [] h = unfold b64url_encode in refl
repad (a ∷ []) h = rw (b64url_encode-one a h.0) (simp (cons-append, nil-append))
repad (a ∷ b ∷ []) h = rw (b64url_encode-two a b h.0 h.1.0) (simp (cons-append, nil-append))
repad (a ∷ b ∷ c ∷ rest) h =
    rw (b64url_encode-cons a b c rest h.0 h.1.0 h.1.1.0, padding-four)
      (simp (cons-append, repad rest h.1.1.1))

-- The decoder on a character of the alphabet.
a2b_base64-digit :
    (q : Quad) (n : ℕ) (s : String)
    → n < 64
    → a2b_base64 q (digit n ∷ˢ s) ≡ (
        let st = data_step q.position q.left n in
        if st.done then ok st.out else a2b_base64 st.next s >>= λ bytes. ok (st.out ++ bytes))
unfolding a2b_base64
a2b_base64-digit q n s h = rw (step-digit q n h)

abbrev onto : List ℕ → Result (List ℕ) → Result (List ℕ)
onto bytes r = r >>= λ rest. ok (bytes ++ rest)

onto-four :
    (a b c : ℕ) (r : Result (List ℕ))
    → onto [] (onto (a ∷ []) (onto (b ∷ []) (onto (c ∷ []) r))) ≡ onto (a ∷ b ∷ c ∷ []) r
onto-four a b c (ok bytes) = refl
onto-four a b c (err e) = refl

-- The decoder on the four characters of a whole group.
a2b_base64-group :
    (a b c : ℕ) (s : String)
    → a < 256
    → b < 256
    → c < 256
    → a2b_base64 start (
        digit (a / 4)
        ∷ˢ digit (a % 4 * 16 + b / 16)
        ∷ˢ digit (b % 16 * 4 + c / 64)
        ∷ˢ digit (c % 64)
        ∷ˢ s)
      ≡ onto (a ∷ b ∷ c ∷ []) (a2b_base64 start s)
a2b_base64-group a b c s ha hb hc =
    rw
      (
        a2b_base64-digit start (a / 4) _ (omega arith),
        a2b_base64-digit _ (a % 4 * 16 + b / 16) _ (omega arith),
        a2b_base64-digit _ (b % 16 * 4 + c / 64) _ (omega arith),
        a2b_base64-digit _ (c % 64) _ (omega arith),
        first_byte a b ha hb,
        second_byte a b c hb hc,
        third_byte b c hc,
      )
      (onto-four a b c (a2b_base64 start s))

-- The decoder on a last group of one byte, and of two.
a2b_base64-one :
    (a : ℕ) → a < 256 → a2b_base64 start (digit (a / 4) ∷ˢ digit (a % 4 * 16) ∷ˢ "==") ≡ ok (a ∷ [])
a2b_base64-one a ha =
    rw
      (
        a2b_base64-digit start (a / 4) _ (omega arith),
        a2b_base64-digit _ (a % 4 * 16) _ (omega arith),
      )
      (unfold a2b_base64 in ap (λ (n : ℕ). ok (n ∷ [])) (omega arith))

a2b_base64-two :
    (a b : ℕ)
    → a < 256
    → b < 256
    → a2b_base64 start (digit (a / 4) ∷ˢ digit (a % 4 * 16 + b / 16) ∷ˢ digit (b % 16 * 4) ∷ˢ "=")
      ≡ ok (a ∷ b ∷ [])
a2b_base64-two a b ha hb =
    rw
      (
        a2b_base64-digit start (a / 4) _ (omega arith),
        a2b_base64-digit _ (a % 4 * 16 + b / 16) _ (omega arith),
        a2b_base64-digit _ (b % 16 * 4) _ (omega arith),
        first_byte a b ha hb,
      )
      (unfold a2b_base64 in ap (λ (n : ℕ). ok (a ∷ n ∷ [])) (omega arith))

a2b_base64-encode :
    (bytes : List ℕ) → All IsByte bytes → a2b_base64 start (urlsafe_b64encode bytes) ≡ ok bytes
unfolding urlsafe_b64encode
a2b_base64-encode [] h = unfold a2b_base64 in refl
a2b_base64-encode (a ∷ []) h = a2b_base64-one a h.0
a2b_base64-encode (a ∷ b ∷ []) h = a2b_base64-two a b h.0 h.1.0
a2b_base64-encode (a ∷ b ∷ c ∷ rest) h =
    a2b_base64-group a b c (urlsafe_b64encode rest) h.0 h.1.0 h.1.1.0
    ∙ ap (onto (a ∷ b ∷ c ∷ [])) (a2b_base64-encode rest h.1.1.1)

is_ascii-encode : (bytes : List ℕ) → All IsByte bytes → is_ascii (urlsafe_b64encode bytes) ≡ true
unfolding urlsafe_b64encode
is_ascii-encode [] h = refl
is_ascii-encode (a ∷ []) h =
    rw (digit-ascii (a / 4) (omega arith), digit-ascii (a % 4 * 16) (omega arith))
is_ascii-encode (a ∷ b ∷ []) h = rw (
  digit-ascii (a / 4) (omega arith),
  digit-ascii (a % 4 * 16 + b / 16) (omega arith),
  digit-ascii (b % 16 * 4) (omega arith),
)
is_ascii-encode (a ∷ b ∷ c ∷ rest) h =
    rw
      (
        digit-ascii (a / 4) (omega arith),
        digit-ascii (a % 4 * 16 + b / 16) (omega arith),
        digit-ascii (b % 16 * 4 + c / 64) (omega arith),
        digit-ascii (c % 64) (omega arith),
      )
      (is_ascii-encode rest h.1.1.1)

-- Decoding the unpadded base64url text of any sequence of bytes gives back the bytes.
pub b64url_decode-encode :
    (bytes : List ℕ) → All IsByte bytes → b64url_decode (b64url_encode bytes) ≡ ok bytes
unfolding b64url_decode
b64url_decode-encode bytes h =
    rw (repad bytes h, is_ascii-encode bytes h, a2b_base64-encode bytes h)

-- The text holds no dot, whatever the bytes.
pub lacks-b64url_encode :
    (bytes : List ℕ) → All IsByte bytes → lacks b'.' (b64url_encode bytes) ≡ true
lacks-b64url_encode [] h = unfold b64url_encode in refl
lacks-b64url_encode (a ∷ []) h =
    rw (b64url_encode-one a h.0)
      (rw (digit-ne-dot (a / 4) (omega arith), digit-ne-dot (a % 4 * 16) (omega arith)))
lacks-b64url_encode (a ∷ b ∷ []) h = rw (b64url_encode-two a b h.0 h.1.0) (
    rw (
      digit-ne-dot (a / 4) (omega arith),
      digit-ne-dot (a % 4 * 16 + b / 16) (omega arith),
      digit-ne-dot (b % 16 * 4) (omega arith),
    ))
lacks-b64url_encode (a ∷ b ∷ c ∷ rest) h = rw (b64url_encode-cons a b c rest h.0 h.1.0 h.1.1.0) (
    rw
      (
        digit-ne-dot (a / 4) (omega arith),
        digit-ne-dot (a % 4 * 16 + b / 16) (omega arith),
        digit-ne-dot (b % 16 * 4 + c / 64) (omega arith),
        digit-ne-dot (c % 64) (omega arith),
      )
      (lacks-b64url_encode rest h.1.1.1))

-- Nor a character that is not ASCII.
pub is_ascii-b64url_encode :
    (bytes : List ℕ) → All IsByte bytes → is_ascii (b64url_encode bytes) ≡ true
is_ascii-b64url_encode [] h = unfold b64url_encode in refl
is_ascii-b64url_encode (a ∷ []) h =
    rw (b64url_encode-one a h.0)
      (rw (digit-ascii (a / 4) (omega arith), digit-ascii (a % 4 * 16) (omega arith)))
is_ascii-b64url_encode (a ∷ b ∷ []) h = rw (b64url_encode-two a b h.0 h.1.0) (
    rw (
      digit-ascii (a / 4) (omega arith),
      digit-ascii (a % 4 * 16 + b / 16) (omega arith),
      digit-ascii (b % 16 * 4) (omega arith),
    ))
is_ascii-b64url_encode (a ∷ b ∷ c ∷ rest) h = rw (b64url_encode-cons a b c rest h.0 h.1.0 h.1.1.0) (
    rw
      (
        digit-ascii (a / 4) (omega arith),
        digit-ascii (a % 4 * 16 + b / 16) (omega arith),
        digit-ascii (b % 16 * 4 + c / 64) (omega arith),
        digit-ascii (c % 64) (omega arith),
      )
      (is_ascii-b64url_encode rest h.1.1.1))
