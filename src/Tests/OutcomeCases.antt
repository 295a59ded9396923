-- ===== src/Tests/OutcomeCases.antt =====
-- The theorems on outcomes and identities at concrete inputs.
use agent_trust_fabric.Prelude.{
  ◌≡◌, ◌≢◌, refl, ◌↔◌, ℕ, zero, suc, List, [], ◌∷◌, none, some, String, arith, eq_iff, All, IsByte,
}
use agent_trust_fabric.Prelude.Int.{pos}
use agent_trust_fabric.Errors.{ok, err, outcome_schema_mismatch}
use agent_trust_fabric.Json.{str, num, null}
use agent_trust_fabric.Signing.{KeyPair, sign_envelope}
use agent_trust_fabric.Signing.Accepts.{IsEnvelope, verify_envelope_iff}
use agent_trust_fabric.Signing.RoundTrip.{verify_envelope-sign_envelope}
use agent_trust_fabric.Outcome.{Outcome, outcome_content, sign_outcome, verify_outcome}
use agent_trust_fabric.Outcome.Verified.{IsVerified, verify_outcome_iff}
use agent_trust_fabric.Outcome.Signed.{IsMismatch, schema, verify_outcome-mismatch}
use agent_trust_fabric.Identity.Uri.{agent_uri, parse_agent_uri}
use agent_trust_fabric.Identity.RoundTrip.{parse_agent_uri-agent_uri, agent_uri-parse_agent_uri}
use agent_trust_fabric.Tests.Toy.{toy, toy-IsSignatureScheme, bob, bob_id}

abbrev outcome : Outcome
outcome = record {
  token_jti = str "tkn_1";
  status = str "ok";
  payload = num (pos 5);
  schema_id = str "image.v1";
  executed_at = num (pos 1010);
  reason = null;
}

verify_outcome_iff_example :
    (verify_outcome (sign_outcome outcome bob bob_id) bob.public_key none
      ≡ ok (outcome_content outcome))
    ↔ IsVerified (sign_outcome outcome bob bob_id) bob.public_key none (outcome_content outcome)
verify_outcome_iff_example =
    verify_outcome_iff (sign_outcome outcome bob bob_id) bob.public_key none
      (outcome_content outcome)

signed :
    IsEnvelope
      (outcome_content outcome)
      (sign_envelope (outcome_content outcome) bob bob_id)
      bob.public_key
signed =
    (verify_envelope_iff (outcome_content outcome)
        (sign_envelope (outcome_content outcome) bob bob_id) bob.public_key).0
      (verify_envelope-sign_envelope toy-IsSignatureScheme bob refl (outcome_content outcome)
        (outcome_content outcome) bob_id refl)

abbrev version_1 : String
version_1 = "image.v1"

abbrev version_2 : String
version_2 = "image.v2"

other_name : version_1 ≢ version_2
other_name = λ e. absurd (cc ((eq_iff version_1 version_2).1 e))

mismatch : IsMismatch (outcome_content outcome) (some "image.v2")
unfolding outcome_content
mismatch = schema "image.v1" "image.v2" refl other_name

verify_outcome-mismatch_example :
    verify_outcome (sign_outcome outcome bob bob_id) bob.public_key (some "image.v2")
    ≡ err outcome_schema_mismatch
unfolding sign_outcome
verify_outcome-mismatch_example =
    verify_outcome-mismatch (sign_outcome outcome bob bob_id) (outcome_content outcome)
      (sign_envelope (outcome_content outcome) bob bob_id) bob.public_key refl refl signed mismatch

abbrev zeros : ℕ → List ℕ
zeros zero = []
zeros (suc n) = 0 ∷ zeros n

abbrev a_key_pair : KeyPair
a_key_pair = record { kid = "1"; private_key = []; public_key = zeros 32 }

zeros-IsByte : (n : ℕ) → All IsByte (zeros n)
zeros-IsByte zero = tt
zeros-IsByte (suc n) = (omega arith, zeros-IsByte n)

parse_agent_uri-agent_uri_example :
    parse_agent_uri (agent_uri "example.com" "coding" "1") ≡ ok ("example.com", "coding", "1")
parse_agent_uri-agent_uri_example =
    parse_agent_uri-agent_uri "example.com" "coding" "1" refl refl refl

parsed : parse_agent_uri "agent://example.com/coding#1" ≡ ok ("example.com", "coding", "1")
unfolding parse_agent_uri
parsed = refl

agent_uri-parse_agent_uri_example :
    agent_uri "example.com" "coding" "1" ≡ "agent://example.com/coding#1"
agent_uri-parse_agent_uri_example = agent_uri-parse_agent_uri "agent://example.com/coding#1" parsed
