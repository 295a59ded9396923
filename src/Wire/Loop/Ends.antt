-- ===== src/Wire/Loop/Ends.antt =====
-- A request whose handler runs is answered when it ends, whatever was served in between.
use agent_trust_fabric.Prelude.{
  ◌≡◌, ◌+◌, refl, ap, sym, ◌∙◌, true, Option, some, none, List, [], ◌∷◌, String,
}
use agent_trust_fabric.Prelude.Int.{pos}
use agent_trust_fabric.Errors.{Result, ok, err}
use agent_trust_fabric.Json.{Json, null, bool, num, str, arr, obj, get}
use agent_trust_fabric.Runtime.{Runtime}
use agent_trust_fabric.Delegation.Claims.{DelegationClaims}
use agent_trust_fabric.Audit.Event.{new_event_id, event_content, signed_record}
use agent_trust_fabric.Audit.Log.Columns.{Log, fits}
use agent_trust_fabric.Audit.Log.{find_row, pending_peer_count, append_pending, sign_only}
use agent_trust_fabric.Audit.Log.Pending.{append_pending-count}
use agent_trust_fabric.Agent.{Agent, own_id}
use agent_trust_fabric.Wire.{Handled, HandlerSpec, Clock, Routed, refused, routed, route}
use agent_trust_fabric.Wire.Server.{params_of, outcome_envelope, execute}
use agent_trust_fabric.Wire.Answers.{completion, inserted_own, executed_lem, store_completion_lem}
use agent_trust_fabric.Wire.Loop.{
  Running, Begun, answered, suspended, suspend, begin_started, admit, begin_routed, start_invoke,
  finish_invoke,
}

-- What was read of the body before the handler was called.
record HasParams (r : Running) : Type 0 where
  params : Json
  params_read : params_of r.body ≡ ok params

suspend→HasParams :
    (waiting r : Running) (p : Result Json)
    → params_of waiting.body ≡ p
    → suspend waiting p ≡ suspended r
    → HasParams r
suspend→HasParams waiting r (err e) h s = absurd (cc)
suspend→HasParams waiting r (ok params) h s = record {
  params = params;
  params_read = ap params_of (ap body_of (sym s)) ∙ h;
}
  where
    body_of : Begun → Json
    body_of (answered response) = null
    body_of (suspended q) = q.body

-- Parameters are read of a `dict` only.
request_id_read :
    (body : Json) {params : Json}
    → params_of body ≡ ok params
    → (request_id : Option Json) × (get body "request_id" ≡ ok request_id)
unfolding params_of
request_id_read (obj fs) h = (_, refl)
request_id_read null h = absurd (cc)
request_id_read (bool b) h = absurd (cc)
request_id_read (num z) h = absurd (cc)
request_id_read (str s) h = absurd (cc)
request_id_read (arr vs) h = absurd (cc)

module _ ⦃rt : Runtime⦄ where
  run→HasParams :
      (spec : HandlerSpec) (body : Json) (claims : DelegationClaims) (a : Agent) (r : Running)
      (l : Result Log)
      → (begin_started spec body claims a l).0 ≡ suspended r
      → HasParams r
  run→HasParams spec body claims a r (err e) s = absurd (cc)
  run→HasParams spec body claims a r (ok log) s =
      suspend→HasParams (record { spec = spec; body = body; claims = claims }) r _ refl s

  admit→HasParams :
      (clock : Clock) (spec : HandlerSpec) (body : Json) (r : Running)
      (p : Result DelegationClaims × Agent)
      → (admit clock spec body p).0 ≡ suspended r
      → HasParams r
  admit→HasParams clock spec body r (err e, a) s = absurd (cc)
  admit→HasParams clock spec body r (ok claims, a) s = run→HasParams spec body claims a r _ s

  begin→HasParams :
      (clock : Clock) (q : Routed) (a : Agent) (r : Running)
      → (begin_routed clock q a).0 ≡ suspended r
      → HasParams r
  begin→HasParams clock (refused status) a r s = absurd (cc)
  begin→HasParams clock (routed token spec body) a r s = admit→HasParams clock spec body r _ s

  respond_lem :
      (a : Agent) (clock : Clock) (r : Running) {reply : Json} {log : Log}
      → execute clock r.spec r.body r.claims a ≡ ok (reply, log)
      → pending_peer_count log ≡ pending_peer_count a.audit_log + 1
      → ((finish_invoke clock r a).0.status ≡ 200)
        × (pending_peer_count (finish_invoke clock r a).1.audit_log
            ≡ pending_peer_count a.audit_log + 1)
  unfolding finish_invoke
  respond_lem a clock r h counted = rw h (refl, counted)

  -- A request that waits for its handler is answered with 200 when the handler ends, whatever the
  -- agent and its log are by then, and one event more is pending, if the end of the handler can be
  -- encoded (a JSON value, or an exception, in texts without lone surrogates), and the completion
  -- event has a fresh id and its time fits into the column. The texts of the claims have no lone
  -- surrogates either.
  pub finish_invoke_answers :
      (clock clock' : Clock) (handlers : List (String × HandlerSpec)) (token : Option String)
      (body : Option Json) (a b : Agent) (r : Running)
      → (start_invoke clock handlers token body a).0 ≡ suspended r
      → ((params : Json)
          → params_of r.body ≡ ok params
          → (h : Handled) × (r.spec.handler params ≡ some h))
      → fits (pos clock'.completed.ts) ≡ true
      → find_row (some (new_event_id clock'.completed)) b.audit_log ≡ none
      → ((finish_invoke clock' r b).0.status ≡ 200)
        × (pending_peer_count (finish_invoke clock' r b).1.audit_log
            ≡ pending_peer_count b.audit_log + 1)
  unfolding start_invoke append_pending
  finish_invoke_answers clock clock' handlers token body a b r waits encodes fit fresh =
      let known = begin→HasParams clock (route handlers token body) a r waits in
      let (result, ran) = encodes known.params known.params_read in
      let (request_id, id_read) = request_id_read r.body known.params_read in
      let (event, built, own) =
        completion clock'.completed clock'.executed r.spec r.claims result b fit in
      let my_sig = sign_only event b.keypair (own_id b) in
      let (row, _, stored) =
        inserted_own event (new_event_id clock'.completed)
          (signed_record (event_content event) (my_sig ∷ [])) true b.audit_log own fresh in
      respond_lem b clock' r
        (executed_lem clock' r.spec r.body r.claims b known.params result event known.params_read
          ran built
          (store_completion_lem r.body (outcome_envelope clock'.executed r.spec r.claims result b)
            event b request_id stored id_read))
        (append_pending-count event my_sig b.audit_log _ stored)
