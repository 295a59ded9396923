-- ===== src/Wire/Server.antt =====
-- `invoke` and `audit_cosign` of reference/py/src/atf/wire.py.
use agent_trust_fabric.Prelude.{ℕ, Option, none, some, List, [], ◌∷◌, String, if◌then◌else◌}
use agent_trust_fabric.Prelude.Int.{pos}
use agent_trust_fabric.Errors.{Result, ok, err, ◌>>=◌, or_raise, type_error, is_atf_error}
use agent_trust_fabric.Json.{
  Json, fields, end, null, str, arr, obj, items, dict, get, subscript, or_else, truthy,
}
use agent_trust_fabric.Runtime.{Runtime}
use agent_trust_fabric.Identity.{jwks}
use agent_trust_fabric.Delegation.Claims.{DelegationClaims}
use agent_trust_fabric.Audit.Event.{AuditEvent, Stamp, event_content}
use agent_trust_fabric.Audit.Log.Columns.{Log}
use agent_trust_fabric.Audit.Log.{
  append_self, append_pending, sign_only, finalize_pending, all_events,
}
use agent_trust_fabric.Agent.{Agent, own_id, peer, make_outcome, build_completion_event}
use agent_trust_fabric.Agent.Delegation.{new_event, verify_delegation}
use agent_trust_fabric.Wire.{
  Handled, returned, raised, HandlerSpec, Response, failure, Clock, status_of, Routed, refused,
  routed, route,
}

-- `body["payload"].get("params") or {}`.
unfoldable pub params_of : Json → Result Json
params_of body = do
  payload ← subscript body "payload"
  found ← get payload "params"
  ok (if truthy (or_else found null) then or_else found null else obj end)

abbrev pub handled_status : Handled → String
handled_status (returned v) = "ok"
handled_status (raised name message) = "error"

abbrev pub handled_payload : Handled → Json
handled_payload (returned v) = v
handled_payload (raised name message) = dict (("error", str name) ∷ ("message", str message) ∷ [])

abbrev pub handled_reason : Handled → Json
handled_reason (returned v) = null
handled_reason (raised name message) = str message

-- The journal entry before the execution.
abbrev pub started_event : Stamp → DelegationClaims → Agent → AuditEvent
started_event stamp claims a =
    new_event stamp "delegation.started" (str claims.jti) claims.iss (str (own_id a))
      (fields (("scope", arr (items claims.scope)) ∷ []))

abbrev pub with_log : Agent → Log → Agent
with_log a log = record a { audit_log = log }

module _ ⦃rt : Runtime⦄ where
  -- The outcome of the execution, signed.
  abbrev pub outcome_envelope : ℕ → HandlerSpec → DelegationClaims → Handled → Agent → Json
  outcome_envelope now spec claims h a =
      make_outcome now (str claims.jti) (str (handled_status h)) (handled_payload h) spec.schema_id
        (handled_reason h) a

  abbrev pub answer : Json → Json → AuditEvent → Json → Json
  answer request_id envelope event my_sig = dict (
      ("atf_version", str "0.1")
      ∷ ("request_id", request_id)
      ∷ ("outcome", envelope)
      ∷ ("audit_event", dict (("content", event_content event) ∷ ("signature", my_sig) ∷ []))
      ∷ [])

  -- The completion event is signed and stored as pending: the body of the response and the log.
  -- The body of the request is a `dict` here, so that only the storing may fail.
  unfoldable pub store_completion : Json → Json → AuditEvent → Agent → Result (Json × Log)
  unfolding sign_only append_pending
  store_completion body envelope event a = do
    let my_sig = sign_only event a.keypair (own_id a)
    log ← append_pending event my_sig a.audit_log
    request_id ← get body "request_id"
    ok (answer (or_else request_id null) envelope event my_sig, log)

  -- The execution and what follows it. Signing the outcome raises when it cannot be encoded.
  unfoldable pub execute :
      Clock → HandlerSpec → Json → DelegationClaims → Agent → Result (Json × Log)
  unfolding params_of make_outcome build_completion_event store_completion
  execute clock spec body claims a = do
    params ← params_of body
    h ← or_raise (spec.handler params) type_error
    let envelope = outcome_envelope clock.executed spec claims h a
    event ← build_completion_event clock.completed claims envelope
    store_completion body envelope event a

  -- The state is that of the last statement that succeeded.
  abbrev pub respond : Agent → Result (Json × Log) → Response × Agent
  respond a (err e) = (failure 500, a)
  respond a (ok (body, log)) = (record { status = 200; body = body }, with_log a log)

  abbrev pub run_started :
      Clock → HandlerSpec → Json → DelegationClaims → Agent → Result Log → Response × Agent
  run_started clock spec body claims a (err e) = (failure 500, a)
  run_started clock spec body claims a (ok log) =
      respond (with_log a log) (execute clock spec body claims (with_log a log))

  abbrev pub serve : Clock → HandlerSpec → Json → Result DelegationClaims × Agent → Response × Agent
  serve clock spec body (err e, a) = (failure (status_of e), a)
  serve clock spec body (ok claims, a) =
      run_started clock spec body claims a
        (append_self (started_event clock.started claims a) a.keypair (own_id a) a.audit_log)

  abbrev pub dispatch : Clock → Routed → Agent → Response × Agent
  dispatch clock (refused status) a = (failure status, a)
  dispatch clock (routed token spec body) a =
      serve clock spec body (verify_delegation clock.replay (pos clock.now) spec.capability token a)

  unfoldable pub invoke :
      Clock → List (String × HandlerSpec) → Option String → Option Json → Agent → Response × Agent
  unfolding route verify_delegation append_self execute status_of
  invoke clock handlers token body a = dispatch clock (route handlers token body) a

  -- `audit_cosign`: `known` is whether the signer is in `agent.peers`.
  unfoldable pub cosign_event : Json → Agent → Result Log
  unfolding peer finalize_pending
  cosign_event body a = do
    event_id ← subscript body "event_id"
    peer_signature ← subscript body "signature"
    peer_id ← subscript peer_signature "signed_by"
    p ← peer peer_id a
    finalize_pending event_id peer_signature p.public_key a.audit_log

  abbrev pub cosigned_response : Agent → Result Log → Response × Agent
  cosigned_response a (err e) = (failure (if is_atf_error e then 400 else 500), a)
  cosigned_response a (ok log) =
      (record { status = 200; body = dict (("status", str "ok") ∷ []) }, with_log a log)

  -- `none` stands for a body that is no JSON.
  unfoldable pub audit_cosign : Option Json → Agent → Response × Agent
  unfolding cosign_event is_atf_error
  audit_cosign none a = (failure 500, a)
  audit_cosign (some body) a = cosigned_response a (cosign_event body a)

-- The endpoint `manifest`.
unfoldable pub manifest_endpoint : Agent → Response
manifest_endpoint a = elim a.manifest_envelope [
  | none ↦ failure 404
  | some envelope ↦ record { status = 200; body = envelope }
]

-- The endpoint `jwks`.
unfoldable pub jwks_endpoint : Agent → Response
unfolding jwks
jwks_endpoint a = record { status = 200; body = jwks a.identity }

-- The endpoint `audit_events`.
unfoldable pub events_endpoint : Agent → Response
unfolding all_events
events_endpoint a = record {
  status = 200;
  body = dict (("events", arr (items (all_events a.audit_log))) ∷ []);
}
