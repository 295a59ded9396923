-- ===== src/Tests/FetchCases.antt =====
-- The theorem on the well-known documents at a concrete input.
use agent_trust_fabric.Prelude.{◌≡◌, refl, none, some, [], ◌∷◌, String, str_eq, if◌then◌else◌}
use agent_trust_fabric.Errors.{Result, ok}
use agent_trust_fabric.Json.{Json, str, arr, items, subscript}
use agent_trust_fabric.Agent.{Agent, own_id, peer, publish_manifest, register_peer}
use agent_trust_fabric.Wire.Server.{jwks_endpoint, manifest_endpoint}
use agent_trust_fabric.Wire.Client.{HttpResponse, fetch_jwks, fetch_manifest}
use agent_trust_fabric.Wire.Client.Bootstrap.{published_peer, fetch-publish_manifest}
use agent_trust_fabric.Wire.Completes.{received}
use agent_trust_fabric.Tests.Toy.{toy, toy-IsSignatureScheme, bob_agent}
use agent_trust_fabric.Tests.AgentCases.{carol_agent, offers, zeros-IsByte}

abbrev carol_served : Agent
carol_served = (publish_manifest offers "0.1.0" "" carol_agent).1

abbrev documents : String → Result HttpResponse
documents url =
    if str_eq url "http://c/.well-known/atf/jwks.json"
    then ok (received (jwks_endpoint carol_served))
    else ok (received (manifest_endpoint carol_served))

fetch-publish_manifest_example :
    (doc : Json) × (jwk : Json) × (envelope : Json) × (a' : Agent) × (fetch_jwks documents
        "http://c"
      ≡ ok doc)
    × (subscript doc "keys" ≡ ok (arr (items (jwk ∷ []))))
    × (fetch_manifest documents "http://c" ≡ ok envelope)
    × (register_peer (own_id carol_agent) (some jwk) none envelope bob_agent ≡ ok a')
    × (peer (str (own_id carol_agent)) a' ≡ ok (published_peer carol_agent offers "0.1.0" ""))
fetch-publish_manifest_example =
    fetch-publish_manifest toy-IsSignatureScheme bob_agent carol_agent documents "http://c" offers
      "0.1.0" "" refl (zeros-IsByte 32) refl refl refl refl
