-- ===== src/Tests/AgentCases.antt =====
-- The theorems on agents at concrete inputs.
use agent_trust_fabric.Prelude.{
  ◌≡◌, refl, ◌⊎◌, inl, ℕ, zero, suc, none, some, List, [], ◌∷◌, String, arith, All, IsByte, map,
  str_eq, if◌then◌else◌,
}
use agent_trust_fabric.Prelude.Int.{pos, ◌+ℤ◌, ◌<ℤ◌}
use agent_trust_fabric.Errors.{Result, ok, err, token_replay}
use agent_trust_fabric.Json.{canonical_json, Json, str, end, sort_keys, subscript}
use agent_trust_fabric.Json.Keys.{insert}
use agent_trust_fabric.Base64.{b64url_encode}
use agent_trust_fabric.Base64.Decoder.{b64url_decode}
use agent_trust_fabric.Signing.{KeyPair, header, sign_compact, encode_ascii}
use agent_trust_fabric.Identity.{public_jwk}
use agent_trust_fabric.Identity.Uri.{agent_uri}
use agent_trust_fabric.Manifest.{Capability, manifest_content}
use agent_trust_fabric.Delegation.{claims_of}
use agent_trust_fabric.Delegation.Claims.{to_dict}
use agent_trust_fabric.Delegation.Issue.Accepted.{transmitted}
use agent_trust_fabric.Audit.Event.{AuditEvent, Stamp}
use agent_trust_fabric.Audit.Log.Columns.{Log}
use agent_trust_fabric.Audit.Log.{append_self}
use agent_trust_fabric.Audit.Log.Kept.{Extends}
use agent_trust_fabric.Audit.Log.Appends.{stop}
use agent_trust_fabric.Agent.{
  Agent, PeerRecord, own_id, peer, set_peer, capability, given_key, publish_manifest, register_peer,
}
use agent_trust_fabric.Agent.Delegation.{
  own_request, read_payload, issue_delegation, verify_delegation, new_event,
}
use agent_trust_fabric.Agent.Delivers.{read_payload-IsToken, verify_delegation-issue_delegation}
use agent_trust_fabric.Agent.Peers.{
  IsSignedManifest, register_peer_lem, register_peer-publish_manifest,
}
use agent_trust_fabric.Agent.Replay.{replay_refused}
use agent_trust_fabric.Tests.Toy.{
  toy, toy-IsSignatureScheme, alice, alice_id, bob_id, alice_agent, bob_agent, alice_record,
  manifest, request, request_payload, header_back, agent_payload_back, token, token-IsToken,
}

abbrev pub stamp : Stamp
stamp = record { ts = 1010; uuid = "s" }

abbrev later_stamp : Stamp
later_stamp = record { ts = 1020; uuid = "t" }

abbrev log_after : Result Log → Log
log_after (ok log) = log
log_after (err _) = []

abbrev started : AuditEvent
started =
    new_event stamp "delegation.started" (str "tkn_1") (str alice_id) (str (own_id bob_agent)) end

abbrev started_log : Log
started_log = log_after (append_self started bob_agent.keypair (own_id bob_agent) [])

appended : append_self started bob_agent.keypair (own_id bob_agent) [] ≡ ok started_log
unfolding append_self
appended = refl

abbrev busy_bob : Agent
busy_bob = record bob_agent { audit_log = started_log }

pub parsed : read_payload token ≡ ok (sort_keys request_payload)
parsed =
    read_payload-IsToken token alice.public_key (sort_keys (header alice))
      (sort_keys request_payload) token-IsToken

iss_read : subscript (sort_keys request_payload) "iss" ≡ ok (str alice_id)
unfolding sort_keys insert to_dict claims_of
iss_read = refl

pub jti_read : subscript (sort_keys request_payload) "jti" ≡ ok (str "tkn_1")
unfolding sort_keys insert to_dict claims_of
jti_read = refl

alice_is_known : peer (str alice_id) busy_bob ≡ ok alice_record
unfolding peer agent_uri
alice_is_known = refl

replay_refused_example :
    (log : Log) × Extends started_log log
    × (verify_delegation later_stamp (pos 1020) "image" token busy_bob
        ≡ (err token_replay, record busy_bob { audit_log = log }))
unfolding append_self
replay_refused_example =
    replay_refused started bob_agent.keypair (own_id bob_agent) "tkn_1" [] started_log
      (record { unique = tt; stored = tt }) tt refl refl appended busy_bob stop token
      (sort_keys request_payload) (str alice_id) alice_record parsed iss_read jti_read
      alice_is_known later_stamp refl refl (pos 1020) "image"

abbrev pair_of : Result (String × Agent) → String × Agent
pair_of (ok p) = p
pair_of (err _) = ("", alice_agent)

abbrev issued : String × Agent
issued = pair_of (issue_delegation request stamp alice_agent)

issue_ok : issue_delegation request stamp alice_agent ≡ ok (issued.0, issued.1)
unfolding issue_delegation sign_compact encode_ascii b64url_encode canonical_json insert agent_uri
    ◌+ℤ◌ b64url_decode
issue_ok = refl

pub to_bob : bob_id ≡ own_id bob_agent
unfolding agent_uri
to_bob = refl

pub alice_known : peer (str (own_id alice_agent)) bob_agent ≡ ok alice_record
unfolding peer agent_uri
alice_known = refl

pub alive : pos 1010 <ℤ pos 1000 +ℤ pos 60
unfolding ◌+ℤ◌
alive = ground arith

verify_delegation-issue_delegation_example :
    verify_delegation later_stamp (pos 1010) "image" issued.0 bob_agent
    ≡ (ok (transmitted (claims_of (own_request request alice_agent))), bob_agent)
verify_delegation-issue_delegation_example =
    verify_delegation-issue_delegation toy-IsSignatureScheme alice_agent bob_agent issued.1 request
      manifest stamp later_stamp issued.0 "image" (pos 1010) refl header_back agent_payload_back
      issue_ok to_bob alice_known refl (inl (inl refl)) (inl (inl refl), tt) (ground arith) alive

-- An agent with a key of 32 bytes.
abbrev pub zeros : ℕ → List ℕ
zeros zero = []
zeros (suc n) = 0 ∷ zeros n

pub zeros-IsByte : (n : ℕ) → All IsByte (zeros n)
zeros-IsByte zero = tt
zeros-IsByte (suc n) = (omega arith, zeros-IsByte n)

abbrev pub carol_key : KeyPair
carol_key = record { kid = "1"; private_key = zeros 32; public_key = zeros 32 }

abbrev pub carol_agent : Agent
carol_agent = record {
  identity = record {
    owner = "c";
    name = "z";
    keypair = carol_key;
    attestations = [];
    manifest_uri = none;
  };
  keypair = carol_key;
  audit_log = [];
  manifest_envelope = none;
  peers = [];
}

abbrev pub offers : List (String ⊎ Capability)
offers = inl "code.write" ∷ []

abbrev carol_record : PeerRecord
carol_record = record {
  agent_id = own_id carol_agent;
  public_key = zeros 32;
  manifest_content = manifest_content (record {
    agent_id = own_id carol_agent;
    version = "0.1.0";
    capabilities = map capability offers;
    evidence = [];
    description = "";
    homepage = none;
  });
}

abbrev carol_envelope : Json
carol_envelope = (publish_manifest offers "0.1.0" "" carol_agent).0

abbrev meeting : Agent
meeting = record bob_agent { peers = set_peer (own_id carol_agent) carol_record bob_agent.peers }

meets :
    register_peer (own_id carol_agent) (some (public_jwk carol_key)) none carol_envelope bob_agent
    ≡ ok meeting
meets =
    register_peer-publish_manifest toy-IsSignatureScheme carol_agent bob_agent offers "0.1.0" ""
      refl (zeros-IsByte 32) refl

register_peer_lem_example :
    (p : PeerRecord) × (given_key (some (public_jwk carol_key)) none ≡ ok p.public_key)
    × IsSignedManifest carol_envelope p.public_key p.manifest_content
    × (subscript p.manifest_content "agent_id" ≡ ok (str (own_id carol_agent)))
    × (peer (str alice_id) meeting
        ≡ (if str_eq (own_id carol_agent) alice_id then ok p else peer (str alice_id) bob_agent))
register_peer_lem_example =
    register_peer_lem (own_id carol_agent) alice_id (some (public_jwk carol_key)) none
      carol_envelope bob_agent meeting meets
