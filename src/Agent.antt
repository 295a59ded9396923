-- ===== src/Agent.antt =====
-- reference/py/src/atf/agent.py: an agent, its peers, and what it does on both sides of a delegation.
-- The files that it leaves in its data directory are in `Create`.
pub mod Delegation
pub mod Uses
pub mod Readable
pub mod Replay
pub mod Numbered
pub mod Delivers
pub mod Peers
pub mod Create
use agent_trust_fabric.Prelude.{
  ℕ, ◌≡◌, refl, Bool, true, false, not, ◌||◌, Option, none, some, List, [], ◌∷◌, map, String,
  str_eq, if◌then◌else◌, ◌⊎◌, inl, inr,
}
use agent_trust_fabric.Prelude.Int.{ℤ, pos}
use agent_trust_fabric.Errors.{
  Result, ok, err, ◌>>=◌, ◌>>◌, raise_if, or_raise, atf_error, type_error,
  manifest_invalid_signature,
}
use agent_trust_fabric.Json.{
  Json, end, null, num, str, arr, obj, items, dict, subscript, is_str, truthy, opt_str,
}
use agent_trust_fabric.Runtime.{Runtime}
use agent_trust_fabric.Signing.{KeyPair}
use agent_trust_fabric.Identity.{Identity, id_of, public_key_from_jwk}
use agent_trust_fabric.Manifest.{Capability, Manifest, sign_manifest, verify_manifest}
use agent_trust_fabric.Delegation.Claims.{DelegationClaims}
use agent_trust_fabric.Outcome.{Outcome, sign_outcome, verify_outcome}
use agent_trust_fabric.Audit.Event.{AuditEvent, Stamp, new_event_id}
use agent_trust_fabric.Audit.Log.Columns.{Log}

pub record PeerRecord : Type 0 where
  pub agent_id : String
  pub public_key : List ℕ
  pub manifest_content : Json

-- `peers` is the `dict` of peers by their ids.
pub record Agent : Type 0 where
  pub identity : Identity
  pub keypair : KeyPair
  pub audit_log : Log
  pub manifest_envelope : Option Json
  pub peers : List (String × PeerRecord)

-- The property `agent_id`.
abbrev pub own_id : Agent → String
own_id a = id_of a.identity

-- `d[k] = v`.
unfoldable pub set_peer :
    String → PeerRecord → List (String × PeerRecord) → List (String × PeerRecord)
set_peer id p [] = (id, p) ∷ []
set_peer id p ((j, q) ∷ rest) = if str_eq j id then (j, p) ∷ rest else (j, q) ∷ set_peer id p rest

unfoldable pub find_peer : String → List (String × PeerRecord) → Option PeerRecord
find_peer id [] = none
find_peer id ((j, q) ∷ rest) = if str_eq j id then some q else find_peer id rest

-- `Agent.peer`: a `list` or a `dict` cannot be hashed; any other value that is no key is unknown.
unfoldable pub peer : Json → Agent → Result PeerRecord
unfolding find_peer
peer (str id) a = or_raise (find_peer id a.peers) atf_error
peer (arr _) a = err type_error
peer (obj _) a = err type_error
peer _ a = err atf_error

-- An entry of the list that `publish_manifest` takes: a name or a capability.
abbrev pub capability : String ⊎ Capability → Capability
capability (inl name) = record { name = name; description = ""; metadata = end }
capability (inr c) = c

-- `Agent.manifest_content`: `None` without a manifest or with an empty one.
unfoldable pub own_manifest : Option Json → Result Json
own_manifest none = ok null
own_manifest (some envelope) = if truthy envelope then subscript envelope "manifest" else ok null

-- `except ManifestInvalidSignature as e: raise ATFError`.
abbrev pub manifest_error_as_atf : Result Json → Result Json
manifest_error_as_atf (err manifest_invalid_signature) = err atf_error
manifest_error_as_atf r = r

-- The public key that `register_peer` is given, or reads from the JWK.
unfoldable pub given_key : Option Json → Option (List ℕ) → Result (List ℕ)
unfolding public_key_from_jwk
given_key jwk (some key) = ok key
given_key none none = err atf_error
given_key (some jwk) none = public_key_from_jwk jwk

-- `Agent.build_completion_event`.
unfoldable pub build_completion_event : Stamp → DelegationClaims → Json → Result AuditEvent
build_completion_event stamp claims outcome_envelope = do
  content ← subscript outcome_envelope "outcome"
  status ← subscript content "status"
  hash ← subscript content "payload_hash"
  schema ← subscript content "schema_id"
  ok (record {
    type = str (if is_str status "ok" then "delegation.completed" else "delegation.failed");
    token_jti = str claims.jti;
    delegator_id = claims.iss;
    delegatee_id = claims.sub;
    fields = agent_trust_fabric.Json.fields (
        ("purpose", str claims.purpose)
        ∷ ("scope", arr (items claims.scope))
        ∷ ("status", status)
        ∷ ("outcome_hash", hash)
        ∷ ("schema_id", schema)
        ∷ []);
    event_id = str (new_event_id stamp);
    ts = pos stamp.ts;
  })

module _ ⦃rt : Runtime⦄ where
  unfoldable pub publish_manifest :
      List (String ⊎ Capability) → String → String → Agent → Json × Agent
  unfolding sign_manifest
  publish_manifest capabilities version description a =
      let m : Manifest = record {
        agent_id = own_id a;
        version = version;
        capabilities = map capability capabilities;
        evidence = [];
        description = description;
        homepage = none;
      } in
      let envelope = sign_manifest m a.keypair in
      (envelope, record a { manifest_envelope = some envelope })

  unfoldable pub register_peer :
      String → Option Json → Option (List ℕ) → Json → Agent → Result Agent
  unfolding given_key verify_manifest set_peer
  register_peer agent_id jwk public_key manifest_envelope a = do
    key ← given_key jwk public_key
    content ← manifest_error_as_atf (verify_manifest manifest_envelope key)
    named ← subscript content "agent_id"
    raise_if (not (is_str named agent_id)) atf_error
    let p : PeerRecord = record {
      agent_id = agent_id;
      public_key = key;
      manifest_content = content;
    }
    ok (record a { peers = set_peer agent_id p a.peers })

  unfoldable pub make_outcome : ℕ → Json → Json → Json → String → Json → Agent → Json
  unfolding sign_outcome
  make_outcome now token_jti status payload schema_id reason a =
      let o : Outcome = record {
        token_jti = token_jti;
        status = status;
        payload = payload;
        schema_id = str schema_id;
        executed_at = num (pos now);
        reason = reason;
      } in
      sign_outcome o a.keypair (own_id a)

  unfoldable pub verify_outcome_envelope : Json → Json → Option String → Agent → Result Json
  unfolding peer verify_outcome
  verify_outcome_envelope envelope from_peer expected_schema_id a = do
    p ← peer from_peer a
    verify_outcome envelope p.public_key expected_schema_id
