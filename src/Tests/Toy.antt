-- ===== src/Tests/Toy.antt =====
-- A runtime of small functions: a key is its own public key, a signature is a weighted sum of the
-- key and the message, and the JSON parser knows the texts of a few values.
use agent_trust_fabric.Prelude.{
  ◌≡◌, refl, ℕ, ◌+◌, ◌*◌, ◌%◌, Bool, true, false, ◌&&◌, Option, none, some, List, [], ◌∷◌, ◌++◌,
  String, ◌==◌, if◌then◌else◌, arith,
}
use agent_trust_fabric.Prelude.Int.{pos, ◌+ℤ◌}
use agent_trust_fabric.Errors.{ok, err, type_error}
use agent_trust_fabric.Json.{end, Json, num, str, strs, dict, sort_keys, canonical_json}
use agent_trust_fabric.Json.Text.{decimal_text}
use agent_trust_fabric.Runtime.{Runtime, IsSignatureScheme, IsPemFormat, ed25519}
use agent_trust_fabric.Signing.{KeyPair, header, verify_compact}
use agent_trust_fabric.Json.Keys.{insert}
use agent_trust_fabric.Signing.Accepts.{IsToken, verify_compact_iff}
use agent_trust_fabric.Signing.RoundTrip.{LoadsBack, compact, verify_compact-compact}
use agent_trust_fabric.Identity.Uri.{agent_uri}
use agent_trust_fabric.Manifest.{Manifest, manifest_content}
use agent_trust_fabric.Agent.{Agent, PeerRecord, own_id}
use agent_trust_fabric.Agent.Delegation.{own_request, read_payload}
use agent_trust_fabric.Agent.Delivers.{read_payload-IsToken}
use agent_trust_fabric.Delegation.{Request, claims_of}
use agent_trust_fabric.Delegation.Claims.{to_dict}

abbrev pub checksum : ℕ → List ℕ → ℕ
checksum a [] = a
checksum a (b ∷ bs) = checksum ((a * 31 + b) % 256) bs

abbrev pub same_bytes : List ℕ → List ℕ → Bool
same_bytes [] [] = true
same_bytes (a ∷ as_) (b ∷ bs) = (a == b) && same_bytes as_ bs
same_bytes _ _ = false

abbrev pub toy_sign : List ℕ → List ℕ → List ℕ
toy_sign key message = (checksum 7 (key ++ message)) % 256 ∷ []

abbrev pub parse : List Json → List ℕ → Option Json
parse [] bytes = none
parse (v ∷ vs) bytes =
    if same_bytes (canonical_json v) bytes then some (sort_keys v) else parse vs bytes

-- The keys of a delegator and of a delegatee.
abbrev pub alice : KeyPair
alice = record { kid = "1"; private_key = 11 ∷ 22 ∷ []; public_key = 11 ∷ 22 ∷ [] }

abbrev pub bob : KeyPair
bob = record { kid = "1"; private_key = 33 ∷ 44 ∷ []; public_key = 33 ∷ 44 ∷ [] }

abbrev pub alice_id : String
alice_id = "agent://a/x#1"

abbrev pub bob_id : String
bob_id = "agent://b/y#1"

abbrev pub request : Request
request = record {
  delegator_id = alice_id;
  delegatee_id = bob_id;
  scope = "image" ∷ [];
  purpose = "p";
  constraints = none;
  expires_in = pos 60;
  audit_uri = none;
  now = 1000;
  uuid = "1";
}

abbrev pub request_payload : Json
request_payload = to_dict (claims_of request)

-- The two as agents that have published nothing; the delegatee knows the delegator.
abbrev pub alice_agent : Agent
alice_agent = record {
  identity = record {
    owner = "a";
    name = "x";
    keypair = alice;
    attestations = [];
    manifest_uri = none;
  };
  keypair = alice;
  audit_log = [];
  manifest_envelope = none;
  peers = [];
}

abbrev pub manifest : Manifest
manifest = record {
  agent_id = alice_id;
  version = "0.1.0";
  capabilities = record { name = "image"; description = ""; metadata = end } ∷ [];
  evidence = [];
  description = "";
  homepage = none;
}

abbrev pub alice_record : PeerRecord
alice_record = record {
  agent_id = own_id alice_agent;
  public_key = alice.public_key;
  manifest_content = manifest_content manifest;
}

abbrev pub bob_agent : Agent
bob_agent = record {
  identity = record {
    owner = "b";
    name = "y";
    keypair = bob;
    attestations = [];
    manifest_uri = none;
  };
  keypair = bob;
  audit_log = [];
  manifest_envelope = none;
  peers = (own_id alice_agent, alice_record) ∷ [];
}

-- The payload of the token that the delegator issues as an agent.
abbrev pub agent_payload : Json
agent_payload = to_dict (claims_of (own_request request alice_agent))

-- A payload whose jti is a number.
abbrev pub numbered : Json
numbered = dict (
    ("iss", str alice_id)
    ∷ ("sub", str bob_id)
    ∷ ("scope", strs ("image" ∷ []))
    ∷ ("exp", num (pos 1060))
    ∷ ("nbf", num (pos 1000))
    ∷ ("iat", num (pos 1000))
    ∷ ("jti", num (pos 7))
    ∷ ("purpose", str "p")
    ∷ [])

abbrev pub known_values : List Json
known_values = header alice ∷ request_payload ∷ agent_payload ∷ numbered ∷ []

instance abbrev pub toy : Runtime
toy = record {
  public_key = λ key. key;
  sign = toy_sign;
  verify = λ key signature message. same_bytes signature (toy_sign key message);
  private_bytes = λ key. key;
  load_pem_private_key = λ pem. ok (ed25519 pem);
  sha256_hex = λ bytes. decimal_text (pos (checksum 7 bytes));
  json_loads = parse known_values;
  int_of_str = λ s. none;
  str_of_container = λ v. "{}";
  dict_of = λ v. err type_error;
}

same_bytes_refl : (bs : List ℕ) → same_bytes bs bs ≡ true
same_bytes_refl [] = refl
same_bytes_refl (b ∷ bs) = ground (arith, same_bytes_refl bs)

pub toy-IsSignatureScheme : IsSignatureScheme toy
toy-IsSignatureScheme = record {
  verify-sign = λ key message. same_bytes_refl (toy_sign key message);
  sign-IsByte = λ key message. (omega arith, tt);
}

pub toy-IsPemFormat : IsPemFormat toy
toy-IsPemFormat = record { load-private_bytes = λ key. refl }

pub header_back : LoadsBack (header alice)
unfolding canonical_json insert
header_back = refl

pub agent_payload_back : LoadsBack agent_payload
unfolding canonical_json insert to_dict claims_of ◌+ℤ◌ agent_uri
agent_payload_back = refl

pub payload_back : LoadsBack request_payload
unfolding canonical_json insert to_dict claims_of ◌+ℤ◌
payload_back = refl

pub numbered_back : LoadsBack numbered
unfolding canonical_json insert to_dict
numbered_back = refl

-- The token that is issued for the request.
abbrev pub token : String
token = compact request_payload alice

pub token_verified :
    verify_compact token alice.public_key ≡ ok (sort_keys (header alice), sort_keys request_payload)
token_verified =
    verify_compact-compact toy-IsSignatureScheme alice refl request_payload header_back payload_back

pub token-IsToken :
    IsToken token alice.public_key (sort_keys (header alice)) (sort_keys request_payload)
token-IsToken =
    (verify_compact_iff token alice.public_key (sort_keys (header alice))
        (sort_keys request_payload)).0
      token_verified

abbrev pub numbered_token : String
numbered_token = compact numbered alice

pub numbered_parsed : read_payload numbered_token ≡ ok (sort_keys numbered)
numbered_parsed =
    read_payload-IsToken numbered_token alice.public_key (sort_keys (header alice))
      (sort_keys numbered)
      ((verify_compact_iff numbered_token alice.public_key (sort_keys (header alice))
          (sort_keys numbered)).0
        (verify_compact-compact toy-IsSignatureScheme alice refl numbered header_back
          numbered_back))
