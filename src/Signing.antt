-- ===== src/Signing.antt =====
-- reference/py/src/atf/_signing.py: compact JWS tokens and detached signature envelopes.
pub mod RoundTrip
pub mod Accepts
use Prim.Native.String.{[] as nil_text, ◌∷◌ as ◌∷ˢ◌, ◌++◌ as ◌++ˢ◌}
use agent_trust_fabric.Prelude.{
  ℕ, ◌≡◌, refl, Bool, true, false, not, Option, none, some, List, [], ◌∷◌, String, code,
  if◌then◌else◌,
}
use agent_trust_fabric.Prelude.Text.{split, is_ascii}
use agent_trust_fabric.Errors.{
  Result, ok, err, ◌>>=◌, ◌>>◌, raise_if, or_raise, atf_error, value_error, json_decode_error,
}
use agent_trust_fabric.Json.{
  Json, null, str, dict, get, subscript, text, is_str, or_else, canonical_json,
}
use agent_trust_fabric.Base64.{b64url_encode}
use agent_trust_fabric.Base64.Decoder.{b64url_decode}
use agent_trust_fabric.Runtime.{Runtime}

-- `ALG`, the one algorithm that is signed with and accepted.
abbrev pub alg : String
alg = "EdDSA"

-- The key id, the private and the public key of `identity.KeyPair`.
pub record KeyPair : Type 0 where
  pub kid : String
  pub private_key : List ℕ
  pub public_key : List ℕ

abbrev pub codes : String → List ℕ
codes nil_text = []
codes (c ∷ˢ s) = code c ∷ codes s

-- `s.encode("ascii")`; a `UnicodeEncodeError` is a `ValueError`.
unfoldable pub encode_ascii : String → Result (List ℕ)
encode_ascii s = if is_ascii s then ok (codes s) else err value_error

-- What `split(".")` has to give: exactly three parts.
abbrev pub three : List String → Option (String × String × String)
three (a ∷ b ∷ c ∷ []) = some (a, b, c)
three _ = none

-- `f"{a}.{b}"`.
abbrev pub dotted : String → String → String
dotted a b = a ++ˢ "." ++ˢ b

abbrev pub header : KeyPair → Json
header kp = dict (("alg", str alg) ∷ ("kid", str kp.kid) ∷ ("typ", str "atf+jws") ∷ [])

-- `h.get("alg") != ALG`.
abbrev pub wrong_alg : Option Json → Bool
wrong_alg found = not (is_str (or_else found null) alg)

module _ ⦃rt : Runtime⦄ where
  unfoldable pub sign_compact : Json → KeyPair → Result String
  sign_compact payload kp = do
    let header_b = b64url_encode (canonical_json (header kp))
    let payload_b = b64url_encode (canonical_json payload)
    signing_input ← encode_ascii (dotted header_b payload_b)
    let sig = rt.sign kp.private_key signing_input
    ok (dotted (dotted header_b payload_b) (b64url_encode sig))

  -- `json.loads(b64url_decode(s))`.
  unfoldable pub loads_b64 : String → Result Json
  loads_b64 s = do bytes ← b64url_decode s; or_raise (rt.json_loads bytes) json_decode_error

  -- `public_key.verify(b64url_decode(value), signing_input)`, an invalid signature re-raised.
  unfoldable pub check_signature : List ℕ → String → List ℕ → Result (Unit {0})
  check_signature key value signing_input = do
    sig ← b64url_decode value
    raise_if (not (rt.verify key sig signing_input)) atf_error

  unfoldable pub verify_compact : String → List ℕ → Result (Json × Json)
  unfolding loads_b64 check_signature
  verify_compact jws key = do
    (header_b, payload_b, sig_b) ← or_raise (three (split b'.' jws)) atf_error
    head ← loads_b64 header_b
    found ← get head "alg"
    raise_if (wrong_alg found) atf_error
    payload ← loads_b64 payload_b
    signing_input ← encode_ascii (dotted header_b payload_b)
    check_signature key sig_b signing_input
    ok (head, payload)

  unfoldable pub sign_envelope : Json → KeyPair → String → Json
  sign_envelope content kp signed_by = dict (
      ("alg", str alg)
      ∷ ("kid", str kp.kid)
      ∷ ("signed_by", str signed_by)
      ∷ ("value", str (b64url_encode (rt.sign kp.private_key (canonical_json content))))
      ∷ [])

  unfoldable pub verify_envelope : Json → Json → List ℕ → Result (Unit {0})
  unfolding check_signature
  verify_envelope content signature key = do
    found ← get signature "alg"
    raise_if (wrong_alg found) atf_error
    value ← text (← subscript signature "value")
    check_signature key value (canonical_json content)
