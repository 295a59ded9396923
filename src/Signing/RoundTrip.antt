-- ===== src/Signing/RoundTrip.antt =====
-- What is signed is accepted.
use Prim.Native.String.{◌∷◌ as ◌∷ˢ◌, ◌++◌ as ◌++ˢ◌}
use text.Mathlib.TextLemmas.{cons-append, nil-append, append_assoc}
use agent_trust_fabric.Prelude.{ℕ, ◌≡◌, ◌∙◌, true, some, List, [], ◌∷◌, String, ap}
use agent_trust_fabric.Prelude.Text.{split, is_ascii, lacks}
use agent_trust_fabric.Prelude.Text.Laws.{is_ascii-append, split-lacks, split-append}
use agent_trust_fabric.Errors.{ok, ◌>>=◌}
use agent_trust_fabric.Json.{Json, canonical_json, sort_keys}
use agent_trust_fabric.Json.Keys.{insert}
use agent_trust_fabric.Json.Bytes.{canonical_json-Bytes}
use agent_trust_fabric.Base64.{b64url_encode}
use agent_trust_fabric.Base64.RoundTrip.{
  b64url_decode-encode, lacks-b64url_encode, is_ascii-b64url_encode,
}
use agent_trust_fabric.Runtime.{Runtime, IsSignatureScheme}
use agent_trust_fabric.Signing.{
  KeyPair, codes, encode_ascii, dotted, header, sign_compact, loads_b64, check_signature,
  verify_compact, sign_envelope, verify_envelope,
}

dot-append : (s : String) → "." ++ˢ s ≡ "." ∷ˢ s
dot-append s = cons-append "." "" s ∙ ap (λ (t : String). "." ∷ˢ t) (nil-append s)

split-dot : (s t : String) → lacks b'.' s ≡ true → split b'.' (s ++ˢ ("." ∷ˢ t)) ≡ s ∷ split b'.' t
split-dot s t h = split-append "." s t h

split-dotted :
    (a b c : String)
    → lacks b'.' a ≡ true
    → lacks b'.' b ≡ true
    → lacks b'.' c ≡ true
    → split b'.' (dotted (dotted a b) c) ≡ a ∷ b ∷ c ∷ []
split-dotted a b c ha hb hc = rw (
  append_assoc a ("." ++ˢ b) ("." ++ˢ c),
  append_assoc "." b ("." ++ˢ c),
  dot-append c,
  dot-append (b ++ˢ ("." ∷ˢ c)),
  split-dot a (b ++ˢ ("." ∷ˢ c)) ha,
  split-dot b c hb,
  split-lacks b'.' c hc,
)

encode_ascii-dotted :
    (a b : String)
    → is_ascii a ≡ true
    → is_ascii b ≡ true
    → encode_ascii (dotted a b) ≡ ok (codes (dotted a b))
unfolding encode_ascii
encode_ascii-dotted a b ha hb = rw (is_ascii-append, is_ascii-append, ha, hb)

ascii : (v : Json) → is_ascii (b64url_encode (canonical_json v)) ≡ true
ascii v = is_ascii-b64url_encode (canonical_json v) (canonical_json-Bytes v)

no_dot : (v : Json) → lacks b'.' (b64url_encode (canonical_json v)) ≡ true
no_dot v = lacks-b64url_encode (canonical_json v) (canonical_json-Bytes v)

module _ ⦃rt : Runtime⦄ where
  -- The JSON parser reads back what the program serialises, with its keys sorted.
  abbrev pub LoadsBack : Json → Type 0
  LoadsBack v = rt.json_loads (canonical_json v) ≡ some (sort_keys v)

  loads_b64-encode :
      (v : Json) → LoadsBack v → loads_b64 (b64url_encode (canonical_json v)) ≡ ok (sort_keys v)
  unfolding loads_b64
  loads_b64-encode v h = rw (b64url_decode-encode (canonical_json v) (canonical_json-Bytes v), h)

  -- The value that `sign_compact` returns.
  abbrev pub compact : Json → KeyPair → String
  compact payload kp =
      let head = b64url_encode (canonical_json (header kp)) in
      let body = b64url_encode (canonical_json payload) in
      dotted (dotted head body) (b64url_encode (rt.sign kp.private_key (codes (dotted head body))))

  -- Signing never fails: the signing input is always ASCII.
  pub sign_compact_lem :
      (payload : Json) (kp : KeyPair) → sign_compact payload kp ≡ ok (compact payload kp)
  unfolding sign_compact
  sign_compact_lem payload kp = rw (encode_ascii-dotted _ _ (ascii (header kp)) (ascii payload))

  module _ (scheme : IsSignatureScheme rt) (kp : KeyPair)
      (own : kp.public_key ≡ rt.public_key kp.private_key) where
    check_signature-sign :
        (input : List ℕ)
        → check_signature kp.public_key (b64url_encode (rt.sign kp.private_key input)) input ≡ ok tt
    unfolding check_signature
    check_signature-sign input = rw (
      b64url_decode-encode (rt.sign kp.private_key input) (scheme.sign-IsByte kp.private_key input),
      own,
      scheme.verify-sign kp.private_key input,
    )

    pub verify_compact-compact :
        (payload : Json)
        → LoadsBack (header kp)
        → LoadsBack payload
        → verify_compact (compact payload kp) kp.public_key
          ≡ ok (sort_keys (header kp), sort_keys payload)
    unfolding verify_compact sort_keys insert
    verify_compact-compact payload hh hp = rw (
      split-dotted _ _ _ (no_dot (header kp)) (no_dot payload)
          (lacks-b64url_encode _ (scheme.sign-IsByte _ _)),
      loads_b64-encode (header kp) hh,
      loads_b64-encode payload hp,
      encode_ascii-dotted _ _ (ascii (header kp)) (ascii payload),
      check_signature-sign,
    )

    -- A token that a key pair signs is accepted with its public key and gives back header and
    -- payload with sorted keys, for any payload that the JSON parser reads back. Assumed: the
    -- signature scheme, that the key pair is one, and that the parser also reads back the header.
    pub verify_compact-sign_compact :
        (payload : Json)
        → LoadsBack (header kp)
        → LoadsBack payload
        → (sign_compact payload kp >>= λ token. verify_compact token kp.public_key)
          ≡ ok (sort_keys (header kp), sort_keys payload)
    verify_compact-sign_compact payload hh hp =
        rw (sign_compact_lem payload kp) (verify_compact-compact payload hh hp)

    -- An envelope that a key pair signs is accepted with its public key, for the content that was
    -- signed and for any content with the same canonical bytes. Assumed: the signature scheme and
    -- that the key pair is one.
    pub verify_envelope-sign_envelope :
        (content other : Json) (signed_by : String)
        → canonical_json other ≡ canonical_json content
        → verify_envelope other (sign_envelope content kp signed_by) kp.public_key ≡ ok tt
    unfolding verify_envelope sign_envelope
    verify_envelope-sign_envelope content other signed_by e =
        rw (e, check_signature-sign (canonical_json content))
