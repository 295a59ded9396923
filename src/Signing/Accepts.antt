-- ===== src/Signing/Accepts.antt =====
-- Exactly which tokens and envelopes are accepted.
use agent_trust_fabric.Prelude.{
  ℕ, ◌≡◌, refl, ◌↔◌, true, false, Option, none, some, List, [], ◌∷◌, String, eq_iff, arith,
}
use agent_trust_fabric.Prelude.Text.{split}
use agent_trust_fabric.Errors.{
  ok, >>=-eq-ok, bind_ok, raise_if-eq-ok, or_raise-eq-ok, not-eq-false, raise_if, or_raise,
  atf_error,
}
use agent_trust_fabric.Json.{Json, str, get, subscript, text, canonical_json}
use agent_trust_fabric.Base64.Decoder.{b64url_decode}
use agent_trust_fabric.Runtime.{Runtime}
use agent_trust_fabric.Signing.{
  alg, three, encode_ascii, dotted, wrong_alg, loads_b64, check_signature, verify_compact,
  verify_envelope,
}

-- Only the one algorithm passes.
wrong_alg-false : (found : Option Json) → wrong_alg found ≡ false → found ≡ some (str alg)
wrong_alg-false none h = cc
wrong_alg-false (some (str s)) h = ground (arith, eq_iff s alg)
wrong_alg-false (some _) h = cc

wrong_alg-alg : wrong_alg (some (str alg)) ≡ false
wrong_alg-alg = refl

three-eq-some :
    (parts : List String) (a b c : String) → three parts ≡ some (a, b, c) → parts ≡ a ∷ b ∷ c ∷ []
three-eq-some (x ∷ y ∷ z ∷ []) a b c h = cc
three-eq-some _ a b c h = cc

text-eq-ok : (v : Json) (s : String) → text v ≡ ok s → v ≡ str s
text-eq-ok (str t) s h = cc
text-eq-ok _ s h = cc

module _ ⦃rt : Runtime⦄ where
  -- The signature that a text encodes verifies the bytes.
  pub record IsSignedBy (key : List ℕ) (value : String) (input : List ℕ) : Type 0 where
    pub signature : List ℕ
    pub decoded : b64url_decode value ≡ ok signature
    pub verified : rt.verify key signature input ≡ true

  pub check_signature_iff :
      (key : List ℕ) (value : String) (input : List ℕ)
      → (check_signature key value input ≡ ok tt) ↔ IsSignedBy key value input
  unfolding check_signature
  check_signature_iff key value input = (
    λ h.
        let (sig, decoded, checked) = >>=-eq-ok (b64url_decode value) _ h in
        record {
          signature = sig;
          decoded = decoded;
          verified = not-eq-false _ (raise_if-eq-ok _ atf_error checked);
        },
    λ s. rw (s.decoded, s.verified),
  )

  -- What an accepted token is: three parts, a header with the fixed algorithm, and a signature of
  -- the first two parts as they stand.
  pub record IsToken (jws : String) (key : List ℕ) (head payload : Json) : Type 0 where
    pub header_b : String
    pub payload_b : String
    pub sig_b : String
    pub input : List ℕ
    pub parts : split b'.' jws ≡ header_b ∷ payload_b ∷ sig_b ∷ []
    pub header_read : loads_b64 header_b ≡ ok head
    pub alg_fixed : get head "alg" ≡ ok (some (str alg))
    pub payload_read : loads_b64 payload_b ≡ ok payload
    pub signing_input : encode_ascii (dotted header_b payload_b) ≡ ok input
    pub signed : IsSignedBy key sig_b input

  IsToken-of_accepted :
      (jws : String) (key : List ℕ) (head payload : Json)
      → verify_compact jws key ≡ ok (head, payload)
      → IsToken jws key head payload
  unfolding verify_compact
  IsToken-of_accepted jws key head payload h =
      bind_ok (or_raise (three (split b'.' jws)) atf_error) _ h λ parts parts_ok h₁.
        bind_ok (loads_b64 parts.0) _ h₁ λ hd head_ok h₂.
          bind_ok (get hd "alg") _ h₂ λ found found_ok h₃.
            bind_ok (raise_if (wrong_alg found) atf_error) _ h₃ λ _ alg_ok h₄.
              bind_ok (loads_b64 parts.1) _ h₄ λ pl payload_ok h₅.
                bind_ok (encode_ascii (dotted parts.0 parts.1)) _ h₅ λ input input_ok h₆.
                  bind_ok (check_signature key parts.2 input) _ h₆ λ _ sig_ok h₇. record {
                    header_b = parts.0;
                    payload_b = parts.1;
                    sig_b = parts.2;
                    input = input;
                    parts =
                        three-eq-some _ parts.0 parts.1 parts.2
                          (or_raise-eq-ok _ atf_error parts_ok);
                    header_read = cc;
                    alg_fixed = cc (wrong_alg-false found (raise_if-eq-ok _ atf_error alg_ok));
                    payload_read = cc;
                    signing_input = input_ok;
                    signed = (check_signature_iff key parts.2 input).0 sig_ok;
                  }

  -- verify_compact returns a header and a payload exactly when the token has three parts that
  -- decode to them, the header's alg is EdDSA, and the key verifies the third part as a signature
  -- of the first two as they stand.
  pub verify_compact_iff :
      (jws : String) (key : List ℕ) (head payload : Json)
      → (verify_compact jws key ≡ ok (head, payload)) ↔ IsToken jws key head payload
  unfolding verify_compact
  verify_compact_iff jws key head payload = (
    IsToken-of_accepted jws key head payload,
    λ t. rw (
      t.parts,
      t.header_read,
      t.alg_fixed,
      t.payload_read,
      t.signing_input,
      (check_signature_iff key t.sig_b t.input).1 t.signed,
    ),
  )

  -- What an accepted envelope is.
  pub record IsEnvelope (content signature : Json) (key : List ℕ) : Type 0 where
    pub value : String
    pub alg_fixed : get signature "alg" ≡ ok (some (str alg))
    pub value_read : subscript signature "value" ≡ ok (str value)
    pub signed : IsSignedBy key value (canonical_json content)

  IsEnvelope-of_accepted :
      (content signature : Json) (key : List ℕ)
      → verify_envelope content signature key ≡ ok tt
      → IsEnvelope content signature key
  unfolding verify_envelope
  IsEnvelope-of_accepted content signature key h =
      bind_ok (get signature "alg") _ h λ found found_ok h₁.
        bind_ok (raise_if (wrong_alg found) atf_error) _ h₁ λ _ alg_ok h₂.
          bind_ok (subscript signature "value") _ h₂ λ v v_ok h₃.
            bind_ok (text v) _ h₃ λ value value_ok h₄. record {
              value = value;
              alg_fixed = cc (wrong_alg-false found (raise_if-eq-ok _ atf_error alg_ok));
              value_read = cc (text-eq-ok v value value_ok);
              signed = (check_signature_iff key value (canonical_json content)).0 h₄;
            }

  -- verify_envelope accepts a signature envelope exactly when its alg is EdDSA and its value is a
  -- text that decodes to a signature of the content's canonical bytes under the key.
  pub verify_envelope_iff :
      (content signature : Json) (key : List ℕ)
      → (verify_envelope content signature key ≡ ok tt) ↔ IsEnvelope content signature key
  unfolding verify_envelope
  verify_envelope_iff content signature key = (
    IsEnvelope-of_accepted content signature key,
    λ t. rw (
      t.alg_fixed,
      t.value_read,
      (check_signature_iff key t.value (canonical_json content)).1 t.signed,
    ),
  )
