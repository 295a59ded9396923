-- ===== src/Tests/CompletesCases.antt =====
-- The theorems on the run of both parties at concrete inputs.
use agent_trust_fabric.Prelude.{◌≡◌, ◌≢◌, refl, some, [], ◌∷◌, String, arith, eq_iff, true, false}
use agent_trust_fabric.Prelude.Int.{◌+ℤ◌}
use agent_trust_fabric.Errors.{Result, ok, err, atf_error, outcome_invalid_signature}
use agent_trust_fabric.Json.{canonical_json, Json, str, dict}
use agent_trust_fabric.Json.Keys.{insert}
use agent_trust_fabric.Base64.{b64url_encode}
use agent_trust_fabric.Base64.Decoder.{b64url_decode}
use agent_trust_fabric.Signing.{sign_compact, encode_ascii, verify_envelope}
use agent_trust_fabric.Identity.Uri.{agent_uri}
use agent_trust_fabric.Manifest.{manifest_content}
use agent_trust_fabric.Delegation.{claims_of}
use agent_trust_fabric.Delegation.Claims.{to_dict}
use agent_trust_fabric.Audit.Event.{Stamp}
use agent_trust_fabric.Audit.Log.Columns.{Row}
use agent_trust_fabric.Agent.{Agent, PeerRecord, own_id, peer}
use agent_trust_fabric.Agent.Delegation.{issue_delegation}
use agent_trust_fabric.Wire.{routed, route}
use agent_trust_fabric.Wire.Server.{invoke, with_log}
use agent_trust_fabric.Wire.Client.{
  HttpRequest, HttpResponse, Call, failed, invoke_request, client_invoke,
}
use agent_trust_fabric.Wire.Client.Safe.{client_invoke-IsJournaled}
use agent_trust_fabric.Wire.Client.Returned.{IsReturned, client_invoke-eq-ok}
use agent_trust_fabric.Wire.Client.Disputed.{client_invoke_disputed}
use agent_trust_fabric.Wire.Safe.{IsJournaled}
use agent_trust_fabric.Wire.Completes.{received}
use agent_trust_fabric.Wire.Completes.Ends.{delegation_completes}
use agent_trust_fabric.Wire.Completes.Issued.{request_for}
use agent_trust_fabric.Tests.Toy.{
  toy, toy-IsSignatureScheme, bob, alice_agent, bob_agent, alice_record, request,
}
use agent_trust_fabric.Tests.AgentCases.{alice_known}
use agent_trust_fabric.Tests.WireCases.{clock, image, handlers}

abbrev stamp : Stamp
stamp = record { ts = 1005; uuid = "i" }

abbrev dispute_stamp : Stamp
dispute_stamp = record { ts = 1012; uuid = "d" }

abbrev bob_record : PeerRecord
bob_record = record {
  agent_id = own_id bob_agent;
  public_key = bob.public_key;
  manifest_content = dict [];
}

-- The delegator knows the delegatee.
abbrev met_alice : Agent
met_alice = record alice_agent { peers = (own_id bob_agent, bob_record) ∷ [] }

abbrev pair_of : Result (String × Agent) → String × Agent
pair_of (ok p) = p
pair_of (err _) = ("", met_alice)

abbrev issued : String × Agent
issued = pair_of (issue_delegation request stamp met_alice)

abbrev call : Call
call = record {
  base_url = "http://b";
  token = issued.0;
  payload = dict (("action", str "image.generate") ∷ []);
  expected_schema_id = some "image.v1";
  delegatee_id = own_id bob_agent;
  cosign = true;
}

abbrev sent : Json
sent = (request_for call request met_alice).json

-- Every request is answered as that of the call.
abbrev post : HttpRequest → Result HttpResponse
post r = ok (received (invoke clock handlers (some call.token) (some sent) bob_agent).0)

bob_known : peer (str (own_id bob_agent)) met_alice ≡ ok bob_record
unfolding peer agent_uri
bob_known = refl

two_parties : own_id met_alice ≢ own_id bob_agent
unfolding agent_uri
two_parties = λ e. absurd (cc ((eq_iff (own_id met_alice) (own_id bob_agent)).1 e))

sends : invoke_request call ≡ ok (str "tkn_1", request_for call request met_alice)
unfolding invoke_request issue_delegation sign_compact encode_ascii b64url_encode canonical_json
    insert agent_uri ◌+ℤ◌ b64url_decode to_dict claims_of
sends = refl

passes : route handlers (some call.token) (some sent) ≡ routed call.token image sent
unfolding route issue_delegation sign_compact encode_ascii b64url_encode canonical_json insert
    agent_uri ◌+ℤ◌ b64url_decode to_dict claims_of
passes = refl

answered : (invoke clock handlers (some call.token) (some sent) bob_agent).0.status ≡ 200
unfolding invoke issue_delegation b64url_encode canonical_json insert to_dict claims_of ◌+ℤ◌
    b64url_decode agent_uri encode_ascii manifest_content sign_compact
answered = refl

client_invoke-IsJournaled_example :
    IsJournaled met_alice (client_invoke dispute_stamp "" call post met_alice).agent
client_invoke-IsJournaled_example = client_invoke-IsJournaled dispute_stamp "" call met_alice post

returned :
    (client_invoke dispute_stamp "" call post met_alice).result
    ≡ ok (invoke clock handlers (some call.token) (some sent) bob_agent).0.body
returned =
    let done =
      delegation_completes toy-IsSignatureScheme met_alice bob_agent refl refl two_parties
        dispute_stamp "" call post clock image sent (str "tkn_1")
        (request_for call request met_alice) alice_record bob_record refl refl refl sends bob_known
        refl alice_known refl refl handlers passes answered refl in
    done.returned

client_invoke-eq-ok_example :
    IsReturned call post met_alice
      (invoke clock handlers (some call.token) (some sent) bob_agent).0.body
      (client_invoke dispute_stamp "" call post met_alice)
client_invoke-eq-ok_example =
    client_invoke-eq-ok dispute_stamp "" call post met_alice
      (invoke clock handlers (some call.token) (some sent) bob_agent).0.body returned

-- A response whose outcome carries a signature that is none of the delegatee's.
abbrev forged_outcome : Json
forged_outcome =
    dict (
      ("outcome", str "o")
      ∷ ("signature", dict (("alg", str "none") ∷ ("value", str "") ∷ []))
      ∷ [])

abbrev forged : Json
forged = dict (("outcome", forged_outcome) ∷ [])

abbrev forging_post : HttpRequest → Result HttpResponse
forging_post r = ok (record { status_code = 200; json = some forged })

is_forged :
    verify_envelope (str "o") (dict (("alg", str "none") ∷ ("value", str "") ∷ [])) bob.public_key
    ≡ err atf_error
unfolding verify_envelope
is_forged = refl

client_invoke_disputed_example :
    (row : Row) × (client_invoke dispute_stamp "bad" call forging_post met_alice
      ≡ failed (err outcome_invalid_signature) (with_log met_alice (row ∷ [])))
    × (row.type ≡ "delegation.disputed")
    × (row.token_jti ≡ some "tkn_1")
    × (row.pending_peer ≡ false)
client_invoke_disputed_example =
    client_invoke_disputed dispute_stamp "bad" "tkn_1" call forging_post met_alice
      (request_for call request met_alice) (record { status_code = 200; json = some forged }) forged
      forged_outcome (str "o") (dict (("alg", str "none") ∷ ("value", str "") ∷ [])) bob_record
      atf_error sends refl (omega arith) refl refl bob_known refl refl is_forged refl refl
