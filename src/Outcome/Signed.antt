-- ===== src/Outcome/Signed.antt =====
-- The delegator accepts a signed outcome, and refuses one that was changed.
use agent_trust_fabric.Prelude.{
  ◌≡◌, ◌≢◌, refl, ap, false, Option, some, List, String, str_eq, eq_iff, arith, ℕ,
}
use agent_trust_fabric.Errors.{ok, err, outcome_schema_mismatch}
use agent_trust_fabric.Json.{Json, str, get, subscript}
use agent_trust_fabric.Runtime.{Runtime, IsSignatureScheme}
use agent_trust_fabric.Signing.{KeyPair, sign_envelope}
use agent_trust_fabric.Signing.RoundTrip.{verify_envelope-sign_envelope}
use agent_trust_fabric.Signing.Accepts.{IsEnvelope, verify_envelope_iff}
use agent_trust_fabric.Outcome.{
  Outcome, outcome_content, sign_outcome, payload_hash, check_schema, outcome_of, check_hash,
  verify_outcome,
}
use agent_trust_fabric.Outcome.Verified.{HasSchema, check_schema_iff, verify_outcome_iff}

not_equal : (s t : String) → s ≢ t → str_eq s t ≡ false
not_equal s t h = ground (arith, eq_iff s t)

other_schema :
    (content : Json) (named expected : String)
    → get content "schema_id" ≡ ok (some (str named))
    → named ≢ expected
    → check_schema content (some expected) ≡ err outcome_schema_mismatch
unfolding check_schema
other_schema content named expected read other = rw (read, not_equal named expected other)

module _ ⦃rt : Runtime⦄ (scheme : IsSignatureScheme rt) (kp : KeyPair)
    (own : kp.public_key ≡ rt.public_key kp.private_key) where
  -- Any schema may be expected that the content has.
  pub verify_outcome-signed :
      (o : Outcome) (signed_by : String) (expected : Option String)
      → HasSchema (outcome_content o) expected
      → verify_outcome (sign_outcome o kp signed_by) kp.public_key expected ≡ ok (outcome_content o)
  unfolding sign_outcome outcome_content outcome_of
  verify_outcome-signed o signed_by expected named =
      let content = outcome_content o in
      let envelope = sign_outcome o kp signed_by in
      (verify_outcome_iff envelope kp.public_key expected content).1 (record {
        signature = sign_envelope content kp signed_by;
        content_read = refl;
        signature_read = refl;
        signed =
            (verify_envelope_iff content (sign_envelope content kp signed_by) kp.public_key).0
              (verify_envelope-sign_envelope scheme kp own content content signed_by refl);
        schema = named;
        hash = record { outcome = o; read = refl; hash_read = refl };
      })

  -- The delegator accepts an outcome that the delegatee signs, and gets its content, if it expects
  -- the schema that the outcome names. Assumed: the signature scheme and that the delegatee's key
  -- pair is one.
  pub verify_outcome-sign_outcome :
      (o : Outcome) (signed_by expected : String)
      → o.schema_id ≡ str expected
      → verify_outcome (sign_outcome o kp signed_by) kp.public_key (some expected)
        ≡ ok (outcome_content o)
  unfolding outcome_content
  verify_outcome-sign_outcome o signed_by expected named =
      verify_outcome-signed o signed_by (some expected) (ap (λ s. ok (some s)) named)

module _ ⦃rt : Runtime⦄ where
  -- Why the content of a signed envelope is refused.
  pub data IsMismatch (content : Json) : Option String → Type 0 where
    schema :
        (named expected : String)
        → get content "schema_id" ≡ ok (some (str named))
        → named ≢ expected
        → IsMismatch content (some expected)
    hash :
        {expected : Option String} (o : Outcome) (found : String)
        → HasSchema content expected
        → outcome_of content ≡ ok o
        → subscript content "payload_hash" ≡ ok (str found)
        → found ≢ payload_hash o
        → IsMismatch content expected

  -- A properly signed outcome is refused as a schema mismatch if it names another schema than the
  -- one expected, and also if its payload_hash is not the hash of its payload.
  pub verify_outcome-mismatch :
      (envelope content signature : Json) (key : List ℕ) {expected : Option String}
      → subscript envelope "outcome" ≡ ok content
      → subscript envelope "signature" ≡ ok signature
      → IsEnvelope content signature key
      → IsMismatch content expected
      → verify_outcome envelope key expected ≡ err outcome_schema_mismatch
  unfolding verify_outcome check_hash
  verify_outcome-mismatch envelope content signature key content_read signature_read signed
        (schema named expected read other) =
      rw (
        content_read,
        signature_read,
        (verify_envelope_iff content signature key).1 signed,
        other_schema content named expected read other,
      )
  verify_outcome-mismatch envelope content signature key {expected} content_read signature_read
        signed (hash o found has read hash_read other) =
      rw (
        content_read,
        signature_read,
        (verify_envelope_iff content signature key).1 signed,
        (check_schema_iff content expected).1 has,
        read,
        hash_read,
        not_equal found (payload_hash o) other,
      )
