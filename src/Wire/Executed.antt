-- ===== src/Wire/Executed.antt =====
-- How a request that is answered with 200 was executed: the completion event and the body.
use agent_trust_fabric.Prelude.{◌≡◌, refl, ap, sym, ◌∙◌, some, Option, List, String, arith}
use mathlib.Core.Path.{subst}
use agent_trust_fabric.Prelude.Int.{pos}
use agent_trust_fabric.Errors.{
  Result, ok, err, bind_ok, ok-injective, or_raise, or_raise-eq-ok, type_error,
}
use agent_trust_fabric.Json.{Json, null, get, or_else}
use agent_trust_fabric.Runtime.{Runtime}
use agent_trust_fabric.Delegation.Claims.{DelegationClaims}
use agent_trust_fabric.Audit.Event.{AuditEvent}
use agent_trust_fabric.Audit.Log.Columns.{Log}
use agent_trust_fabric.Audit.Log.{append_self, append_pending, sign_only}
use agent_trust_fabric.Agent.{Agent, own_id, build_completion_event}
use agent_trust_fabric.Agent.Delegation.{read_token, verify_delegation}
use agent_trust_fabric.Wire.{Handled, HandlerSpec, Clock, Response, routed, route}
use agent_trust_fabric.Wire.Server.{
  params_of, started_event, outcome_envelope, answer, store_completion, execute, respond,
  run_started, serve, invoke, with_log,
}
use agent_trust_fabric.Wire.Answered.{serve_200, verify_read-ok}
use agent_trust_fabric.Wire.Twice.{invoke_routed}

-- The response of a request that was answered.
abbrev pub answered_with : Json → Response
answered_with body = record { status = 200; body = body }

module _ ⦃rt : Runtime⦄ where
  -- The execution of a request to the agent `b`, and its end `out`.
  pub record IsExecuted (clock : Clock) (spec : HandlerSpec) (body : Json) (b : Agent)
      (out : Response × Agent) : Type 0 where
    pub claims : DelegationClaims
    pub params : Json
    pub result : Handled
    pub event : AuditEvent
    pub request_id : Option Json
    pub started_log : Log
    pub log : Log
    pub started :
        append_self (started_event clock.started claims b) b.keypair (own_id b) b.audit_log
        ≡ ok started_log
    pub params_read : params_of body ≡ ok params
    pub ran : spec.handler params ≡ some result
    pub completion :
        build_completion_event clock.completed claims
          (outcome_envelope clock.executed spec claims result b)
        ≡ ok event
    pub pending : append_pending event (sign_only event b.keypair (own_id b)) started_log ≡ ok log
    pub id_read : get body "request_id" ≡ ok request_id
    pub ended : out ≡ (
      answered_with (
          answer
            (or_else request_id null)
            (outcome_envelope clock.executed spec claims result b)
            event
            (sign_only event b.keypair (own_id b))),
      with_log b log,
    )

  module _ (clock : Clock) (spec : HandlerSpec) (body : Json) (claims : DelegationClaims)
      (b : Agent) (started_log : Log)
      (started : append_self (started_event clock.started claims b) b.keypair (own_id b) b.audit_log
        ≡ ok started_log) where
    responded :
        (r : Result (Json × Log))
        → execute clock spec body claims (with_log b started_log) ≡ r
        → (respond (with_log b started_log) r).0.status ≡ 200
        → IsExecuted clock spec body b (respond (with_log b started_log) r)
    unfolding execute store_completion
    responded (err e) h s = absurd (omega arith)
    responded (ok p) h s = bind_ok (params_of body) _ h λ params params_ok h₁.
        bind_ok (or_raise (spec.handler params) type_error) _ h₁ λ result result_ok h₂.
          let envelope = outcome_envelope clock.executed spec claims result b in
          bind_ok (build_completion_event clock.completed claims envelope)
            (λ event. store_completion body envelope event (with_log b started_log)) h₂
            λ event event_ok h₃.
              bind_ok (append_pending event (sign_only event b.keypair (own_id b)) started_log) _ h₃
                λ log log_ok h₄. bind_ok (get body "request_id") _ h₄ λ request_id id_ok h₅.
                  record {
                    claims = claims;
                    params = params;
                    result = result;
                    ran = or_raise-eq-ok _ type_error result_ok;
                    event = event;
                    request_id = request_id;
                    started_log = started_log;
                    log = log;
                    started = started;
                    params_read = params_ok;
                    completion = event_ok;
                    pending = log_ok;
                    id_read = id_ok;
                    ended =
                        ap (λ (q : Json × Log). (answered_with q.0, with_log b q.1))
                          (sym (ok-injective h₅));
                  }

  ran :
      (clock : Clock) (spec : HandlerSpec) (body : Json) (claims : DelegationClaims) (b : Agent)
      (r : Result Log)
      → append_self (started_event clock.started claims b) b.keypair (own_id b) b.audit_log ≡ r
      → (run_started clock spec body claims b r).0.status ≡ 200
      → IsExecuted clock spec body b (run_started clock spec body claims b r)
  ran clock spec body claims b (err e) h s = absurd (omega arith)
  ran clock spec body claims b (ok log) h s = responded clock spec body claims b log h _ refl s

  served :
      (clock : Clock) (spec : HandlerSpec) (body : Json) (token : String) (b : Agent)
      (p : Result DelegationClaims × Agent)
      → verify_delegation clock.replay (pos clock.now) spec.capability token b ≡ p
      → (serve clock spec body p).0.status ≡ 200
      → IsExecuted clock spec body b (serve clock spec body p)
  unfolding verify_delegation
  served clock spec body token b p e s =
      let (claims, accepted, answered) = serve_200 clock spec body p s in
      let v =
        verify_read-ok clock.replay (pos clock.now) spec.capability token b (read_token token b)
          refl (ap (λ (q : Result DelegationClaims × Agent). q.0) e ∙ accepted) in
      let same : p.1 ≡ b = ap (λ (q : Result DelegationClaims × Agent). q.1) (sym e) ∙ v.same in
      at_pair p.0 p.1 accepted same s
    where
      at_pair :
          (r : Result DelegationClaims) (c : Agent) {claims : DelegationClaims}
          → r ≡ ok claims
          → c ≡ b
          → (serve clock spec body (r, c)).0.status ≡ 200
          → IsExecuted clock spec body b (serve clock spec body (r, c))
      at_pair (err e) c h k s = absurd (cc)
      at_pair (ok claims) c h k s = moved c (sym k) s
        where
          moved :
              (c : Agent)
              → b ≡ c
              → (serve clock spec body (ok claims, c)).0.status ≡ 200
              → IsExecuted clock spec body b (serve clock spec body (ok claims, c))
          moved c k =
              subst
                (λ (d : Agent).
                  (serve clock spec body (ok claims, d)).0.status ≡ 200
                  → IsExecuted clock spec body b (serve clock spec body (ok claims, d)))
                k (λ s. ran clock spec body claims b _ refl s)

  -- A request that passes the routing and is answered with 200 was executed.
  pub invoke→IsExecuted :
      (clock : Clock) (handlers : List (String × HandlerSpec)) (token : String) (body : Option Json)
      (spec : HandlerSpec) (b_body : Json) (b : Agent)
      → route handlers (some token) body ≡ routed token spec b_body
      → (invoke clock handlers (some token) body b).0.status ≡ 200
      → IsExecuted clock spec b_body b (invoke clock handlers (some token) body b)
  invoke→IsExecuted clock handlers token body spec b_body b passes s =
      let once = invoke_routed clock handlers token body spec b_body b passes in
      subst (IsExecuted clock spec b_body b) (sym once) (
        served clock spec b_body token b _ refl
          (ap (λ (q : Response × Agent). q.0.status) (sym once) ∙ s))
