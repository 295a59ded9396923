-- ===== src/Tests/CliCases.antt =====
-- The theorem on the command line at a concrete input.
use agent_trust_fabric.Prelude.{◌≡◌, refl, inl, none, some, List, [], ◌∷◌, String, arith}
use agent_trust_fabric.Prelude.Int.{pos, ◌+ℤ◌}
use agent_trust_fabric.Errors.{ok}
use agent_trust_fabric.Json.{canonical_json, Json, str, sort_keys}
use agent_trust_fabric.Json.Keys.{insert}
use agent_trust_fabric.Base64.{b64url_encode}
use agent_trust_fabric.Base64.Decoder.{b64url_decode}
use agent_trust_fabric.Signing.{header, sign_compact, encode_ascii}
use agent_trust_fabric.Signing.RoundTrip.{LoadsBack}
use agent_trust_fabric.Identity.{jwks}
use agent_trust_fabric.Delegation.{claims_of}
use agent_trust_fabric.Delegation.Claims.{to_dict}
use agent_trust_fabric.Delegation.Issue.Accepted.{transmitted}
use agent_trust_fabric.Agent.{Agent}
use agent_trust_fabric.Agent.Delegation.{issue_delegation}
use agent_trust_fabric.Agent.Create.{DataDir, create, store_log, store_manifest}
use agent_trust_fabric.Agent.Create.Again.{create_again}
use agent_trust_fabric.Cli.Commands.{Machine, delegate, verify, echo, finished, last_events}
use agent_trust_fabric.Cli.Delegates.{command_request, verify-delegate}
use agent_trust_fabric.Tests.Toy.{toy, toy-IsSignatureScheme, toy-IsPemFormat, bob_id, request}
use agent_trust_fabric.Tests.AgentCases.{zeros, zeros-IsByte, alive, stamp}
use agent_trust_fabric.Identity.Uri.{agent_uri}
use agent_trust_fabric.Cli.{resolve}

resolves_pair : resolve "example.com.coding" ≡ ok ("example.com", "coding")
unfolding resolve
resolves_pair = refl

-- An empty disk, on which the agent of the tests is created.
abbrev empty_dir : DataDir
empty_dir = record {
  private_key_pem = none;
  key_mode = none;
  manifest_json = none;
  audit_sqlite = [];
}

abbrev machine : Machine
machine = record { home = "/root"; new_key = zeros 32 }

abbrev dir_after : DataDir
dir_after = record empty_dir { private_key_pem = some (zeros 32); key_mode = some 384 }

abbrev created_agent : Agent
created_agent = record {
  identity = record {
    owner = "a";
    name = "x";
    keypair = record { kid = "1"; private_key = zeros 32; public_key = zeros 32 };
    attestations = [];
    manifest_uri = none;
  };
  keypair = record { kid = "1"; private_key = zeros 32; public_key = zeros 32 };
  audit_log = [];
  manifest_envelope = none;
  peers = [];
}

is_created : create (zeros 32) "x" "a" "1" empty_dir ≡ (ok created_agent, dir_after)
unfolding create
is_created = refl

create_again_example : create [] "x" "a" "1" (store_log [] (store_manifest (str "m") dir_after)) ≡ (
  ok (record created_agent { audit_log = []; manifest_envelope = some (sort_keys (str "m")) }),
  store_log [] (store_manifest (str "m") dir_after),
)
create_again_example =
    create_again toy-IsPemFormat (zeros 32) [] "x" "a" "1" empty_dir dir_after created_agent
      (str "m") [] is_created

is_named : resolve "a.x" ≡ ok ("a", "x")
unfolding resolve
is_named = refl

header_read : LoadsBack (header created_agent.keypair)
unfolding canonical_json insert
header_read = refl

claims_read : LoadsBack (to_dict (claims_of (command_request request created_agent)))
unfolding canonical_json insert to_dict claims_of ◌+ℤ◌ agent_uri
claims_read = refl

ends_well : (delegate machine "a.x" request stamp none (λ path. empty_dir)).0.ended ≡ ok tt
unfolding delegate issue_delegation sign_compact encode_ascii b64url_encode canonical_json insert
    agent_uri ◌+ℤ◌ b64url_decode to_dict claims_of
ends_well = refl

verify-delegate_example :
    (token : String) × ((delegate machine "a.x" request stamp none (λ path. empty_dir)).0.printed
      ≡ str token ∷ [])
    × (verify token (some (jwks created_agent.identity)) bob_id "image" (pos 1010)
        ≡ echo
            (ok (to_dict (transmitted (claims_of (command_request request created_agent)))))
            finished)
verify-delegate_example =
    verify-delegate toy-IsSignatureScheme machine "a.x" "a" "x" "image" request stamp none
      (λ path. empty_dir) created_agent dir_after (pos 1010) is_named is_created (zeros-IsByte 32)
      refl header_read claims_read ends_well (inl (inl refl)) (ground arith) alive

-- `--limit 0` lists every event.
all_listed : (events : List Json) → last_events (pos 0) events ≡ events
unfolding last_events
all_listed events = refl

two_listed : last_events (pos 2) (str "a" ∷ str "b" ∷ str "c" ∷ []) ≡ str "b" ∷ str "c" ∷ []
unfolding last_events
two_listed = refl
