-- ===== src/Outcome.antt =====
-- reference/py/src/atf/outcome.py: signed outcomes.
pub mod Verified
pub mod Signed
use Prim.Native.String.{◌++◌ as ◌++ˢ◌}
use agent_trust_fabric.Prelude.{ℕ, ◌≡◌, refl, Bool, not, Option, none, some, List, [], ◌∷◌, String}
use agent_trust_fabric.Errors.{
  Result, ok, ◌>>=◌, ◌>>◌, raise_if, raise_as, key_error_as, outcome_invalid_signature,
  outcome_schema_mismatch,
}
use agent_trust_fabric.Json.{Json, null, str, dict, get, subscript, is_str, or_else, canonical_json}
use agent_trust_fabric.Runtime.{Runtime}
use agent_trust_fabric.Signing.{KeyPair, sign_envelope, verify_envelope}

-- The attributes may hold any value: `verify_outcome` fills them from a received content.
pub record Outcome : Type 0 where
  pub token_jti : Json
  pub status : Json
  pub payload : Json
  pub schema_id : Json
  pub executed_at : Json
  pub reason : Json

-- `content.get("schema_id") != expected_schema_id`, unless no schema is expected.
unfoldable pub check_schema : Json → Option String → Result (Unit {0})
check_schema content none = ok tt
check_schema content (some expected) = do
  found ← get content "schema_id"
  raise_if (not (is_str (or_else found null) expected)) outcome_schema_mismatch

-- The `Outcome` that is built again from the content.
unfoldable pub outcome_of : Json → Result Outcome
outcome_of content = do
  token_jti ← subscript content "token_jti"
  status ← subscript content "status"
  payload ← subscript content "payload"
  schema_id ← subscript content "schema_id"
  executed_at ← subscript content "executed_at"
  reason ← get content "reason"
  ok (record {
    token_jti = token_jti;
    status = status;
    payload = payload;
    schema_id = schema_id;
    executed_at = executed_at;
    reason = or_else reason null;
  })

module _ ⦃rt : Runtime⦄ where
  unfoldable pub payload_hash : Outcome → String
  payload_hash o = "sha256:" ++ˢ rt.sha256_hex (canonical_json o.payload)

  -- `Outcome.to_content`.
  unfoldable pub outcome_content : Outcome → Json
  unfolding payload_hash
  outcome_content o = dict (
      ("token_jti", o.token_jti)
      ∷ ("status", o.status)
      ∷ ("payload", o.payload)
      ∷ ("payload_hash", str (payload_hash o))
      ∷ ("schema_id", o.schema_id)
      ∷ ("executed_at", o.executed_at)
      ∷ ("reason", o.reason)
      ∷ [])

  unfoldable pub sign_outcome : Outcome → KeyPair → String → Json
  unfolding outcome_content
  sign_outcome o kp signed_by =
      let content = outcome_content o in
      dict (("outcome", content) ∷ ("signature", sign_envelope content kp signed_by) ∷ [])

  unfoldable pub check_hash : Json → Result (Unit {0})
  unfolding outcome_of payload_hash
  check_hash content = do
    o ← outcome_of content
    found ← subscript content "payload_hash"
    raise_if (not (is_str found (payload_hash o))) outcome_schema_mismatch

  unfoldable pub verify_outcome : Json → List ℕ → Option String → Result Json
  unfolding check_schema check_hash
  verify_outcome envelope key expected_schema_id = do
    content ← key_error_as outcome_invalid_signature (subscript envelope "outcome")
    signature ← key_error_as outcome_invalid_signature (subscript envelope "signature")
    raise_as outcome_invalid_signature (verify_envelope content signature key)
    check_schema content expected_schema_id
    check_hash content
    ok content
