-- ===== src/Agent/Delegation.antt =====
-- `Agent.issue_delegation` and `Agent.verify_delegation` of reference/py/src/atf/agent.py.
use Prim.Native.String.{◌++◌ as ◌++ˢ◌}
use agent_trust_fabric.Prelude.{
  Bool, false, not, ◌||◌, Option, none, some, List, [], ◌∷◌, String, if◌then◌else◌,
}
use agent_trust_fabric.Prelude.Text.{split}
use agent_trust_fabric.Prelude.Int.{ℤ, pos}
use agent_trust_fabric.Errors.{
  Result, ok, err, ◌>>=◌, ◌>>◌, raise_if, or_raise, atf_error, value_error, token_replay,
}
use agent_trust_fabric.Json.{
  Json, Fields, fields, end, null, str, strs, subscript, get, or_else, py_eq, is_str,
}
use agent_trust_fabric.Runtime.{Runtime}
use agent_trust_fabric.Signing.{three, loads_b64}
use agent_trust_fabric.Manifest.{manifest_has_capability}
use agent_trust_fabric.Delegation.{Request, issue_token}
use agent_trust_fabric.Delegation.Claims.{DelegationClaims}
use agent_trust_fabric.Delegation.Verify.{verify_token}
use agent_trust_fabric.Audit.Event.{AuditEvent, Stamp, new_event_id}
use agent_trust_fabric.Audit.Log.Columns.{Log}
use agent_trust_fabric.Audit.Log.{append_self, has_jti, all_events, hashable}
use agent_trust_fabric.Agent.{Agent, PeerRecord, own_id, peer, own_manifest}

-- Every scope has to be declared in the agent's own manifest.
unfoldable pub check_own : Json → List String → Result (Unit {0})
unfolding manifest_has_capability
check_own content [] = ok tt
check_own content (s ∷ ss) = do
  declared ← manifest_has_capability content (str s)
  raise_if (not declared) atf_error
  check_own content ss

unfoldable pub check_own_manifest : Option Json → List String → Result (Unit {0})
unfolding check_own own_manifest
check_own_manifest none scope = ok tt
check_own_manifest (some envelope) scope = do
  content ← own_manifest (some envelope)
  check_own content scope

-- The arguments that the agent passes to `issue_token`.
abbrev pub own_request : Request → Agent → Request
own_request r a = record r { delegator_id = own_id a; audit_uri = some ("local://" ++ˢ own_id a) }

-- An event of this agent about a token, new at a reading of the clock.
abbrev pub new_event : Stamp → String → Json → Json → Json → Fields → AuditEvent
new_event stamp type jti delegator delegatee event_fields = record {
  type = str type;
  token_jti = jti;
  delegator_id = delegator;
  delegatee_id = delegatee;
  fields = event_fields;
  event_id = str (new_event_id stamp);
  ts = pos stamp.ts;
}

-- The event of a token that is issued.
abbrev pub issued_event : Request → Stamp → Json → Agent → AuditEvent
issued_event r stamp jti a =
    new_event stamp "delegation.issued" jti (str (own_id a)) (str r.delegatee_id)
      (fields (("scope", strs r.scope) ∷ ("purpose", str r.purpose) ∷ []))

-- Whether a record is of an event that the jti was used in.
unfoldable pub is_use : Json → Json → Result Bool
unfolding py_eq hashable
is_use jti e = do
  content ← subscript e "content"
  found ← get content "token_jti"
  if py_eq (or_else found null) jti
      then (do
        type ← get content "type"
        hashable (or_else type null)
        ok (
            is_str (or_else type null) "delegation.started"
            || is_str (or_else type null) "delegation.completed"))
      else ok false

-- Whether the list `existing` has an element; every event is looked at.
unfoldable pub any_use : Json → List Json → Result Bool
unfolding is_use
any_use jti [] = ok false
any_use jti (e ∷ es) = do used ← is_use jti e; rest ← any_use jti es; ok (used || rest)

-- `None` for a manifest content that is `None`.
abbrev pub unless_null : Json → Option Json
unless_null null = none
unless_null v = some v

-- What the agent reads from a token before it verifies it.
pub record Incoming : Type 0 where
  pub iss : Json
  pub peer_record : PeerRecord
  pub jti : Json
  pub used : Bool

-- Once the attempt is recorded, the replay is refused.
abbrev pub after_attempt : Agent → Result Log → Result DelegationClaims × Agent
after_attempt a (err e) = (err e, a)
after_attempt a (ok log) = (err token_replay, record a { audit_log = log })

module _ ⦃rt : Runtime⦄ where
  -- The second part of a token, which is not verified.
  unfoldable pub read_payload : String → Result Json
  unfolding split loads_b64
  read_payload token = do
    (_, payload_b, _) ← or_raise (three (split b'.' token)) value_error
    loads_b64 payload_b

  -- The request names the delegatee, the scopes, the purpose, the constraints and the lifetime; the
  -- agent adds itself as the delegator and its audit URI.
  unfoldable pub issue_delegation : Request → Stamp → Agent → Result (String × Agent)
  unfolding check_own_manifest issue_token read_payload append_self
  issue_delegation r stamp a = do
    check_own_manifest a.manifest_envelope r.scope
    token ← issue_token (own_request r a) a.keypair
    payload ← read_payload token
    jti ← subscript payload "jti"
    log ← append_self (issued_event r stamp jti a) a.keypair (own_id a) a.audit_log
    ok (token, record a { audit_log = log })

  unfoldable pub read_token : String → Agent → Result Incoming
  unfolding read_payload peer has_jti all_events any_use
  read_token token a = do
    payload ← read_payload token
    iss ← subscript payload "iss"
    p ← peer iss a
    jti ← subscript payload "jti"
    seen ← has_jti jti a.audit_log
    used ← if seen then any_use jti (all_events a.audit_log) else ok false
    ok (record { iss = iss; peer_record = p; jti = jti; used = used })

  -- The replay is recorded, then refused.
  unfoldable pub refuse_replay : Stamp → Incoming → Agent → Result DelegationClaims × Agent
  unfolding append_self
  refuse_replay stamp t a =
      let event = new_event stamp "delegation.replay_attempt" t.jti t.iss (str (own_id a)) end in
      after_attempt a (append_self event a.keypair (own_id a) a.audit_log)

  abbrev pub verify_incoming : ℤ → String → String → Incoming → Agent → Result DelegationClaims
  verify_incoming now required token t a =
      let p = t.peer_record in
      verify_token token p.public_key (own_id a) (some required) (unless_null p.manifest_content)
        now

  abbrev pub verify_read :
      Stamp → ℤ → String → String → Agent → Result Incoming → Result DelegationClaims × Agent
  verify_read stamp now required token a (err e) = (err e, a)
  verify_read stamp now required token a (ok t) =
      if t.used then refuse_replay stamp t a else (verify_incoming now required token t a, a)

  -- `verify_delegation` may record a replay and raise, so that it ends in a result and a state.
  unfoldable pub verify_delegation :
      Stamp → ℤ → String → String → Agent → Result DelegationClaims × Agent
  unfolding read_token refuse_replay verify_token
  verify_delegation stamp now required token a =
      verify_read stamp now required token a (read_token token a)
