-- ===== src/Wire/Client/Accepts.antt =====
-- A response whose outcome verifies and whose event can be stored is returned by the client.
use agent_trust_fabric.Prelude.{◌≡◌, some, String}
use agent_trust_fabric.Errors.{Result, ok}
use agent_trust_fabric.Json.{Json, str, subscript}
use agent_trust_fabric.Runtime.{Runtime}
use agent_trust_fabric.Audit.Event.{Stamp}
use agent_trust_fabric.Agent.{Agent, verify_outcome_envelope}
use agent_trust_fabric.Wire.Client.{
  HttpRequest, HttpResponse, Call, Stored, after_storing, invoke_request, store_event,
  response_body, client_invoke,
}

module _ ⦃rt : Runtime⦄ (stamp : Stamp) (detail : String) (call : Call)
    (http_post : HttpRequest → Result HttpResponse) (a : Agent) where
  response_200 :
      (r : HttpResponse) (resp : Json)
      → r.status_code ≡ 200
      → r.json ≡ some resp
      → response_body r ≡ ok resp
  unfolding response_body
  response_200 r resp s j = rw (s, j)

  pub client_invoke_accepts :
      (jti resp outcome content : Json) (request : HttpRequest) (r : HttpResponse) (s : Stored)
      → invoke_request call ≡ ok (jti, request)
      → http_post request ≡ ok r
      → r.status_code ≡ 200
      → r.json ≡ some resp
      → subscript resp "outcome" ≡ ok outcome
      → verify_outcome_envelope outcome (str call.delegatee_id) call.expected_schema_id a
        ≡ ok content
      → store_event resp call.delegatee_id a ≡ ok s
      → client_invoke stamp detail call http_post a ≡ after_storing call.cosign resp a (ok s)
  unfolding client_invoke
  client_invoke_accepts jti resp outcome content request r s sent answered status parsed read
        verified stored =
      rw (sent, answered, response_200 r resp status parsed, read, verified, stored)
