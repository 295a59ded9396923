-- ===== src/Wire/Safe.antt =====
-- Whatever a request holds, the endpoints only append to the log and finalize its events.
use agent_trust_fabric.Prelude.{
  ◌≡◌, refl, ap, ◌∙◌, Bool, true, false, Option, none, some, List, String, if◌then◌else◌,
}
use agent_trust_fabric.Prelude.Int.{ℤ, pos}
use agent_trust_fabric.Errors.{Result, ok, err, bind_ok, ok-injective, or_raise, type_error}
use agent_trust_fabric.Json.{Json, subscript, get}
use agent_trust_fabric.Runtime.{Runtime}
use agent_trust_fabric.Delegation.Claims.{DelegationClaims}
use agent_trust_fabric.Audit.Event.{Stamp, AuditEvent}
use agent_trust_fabric.Audit.Log.Columns.{Log}
use agent_trust_fabric.Audit.Log.{append_self, append_pending, sign_only}
use agent_trust_fabric.Audit.Log.Kept.{IsWellFormed, Extends}
use agent_trust_fabric.Audit.Log.Appends.{
  Step, Steps, self, pending, cosign, stop, step, steps_only_append, steps_keep-IsWellFormed,
}
use agent_trust_fabric.Agent.{Agent, own_id, peer, build_completion_event}
use agent_trust_fabric.Agent.Delegation.{
  Incoming, after_attempt, refuse_replay, read_token, verify_incoming, verify_read,
  verify_delegation,
}
use agent_trust_fabric.Agent.Replay.{attempt}
use agent_trust_fabric.Wire.{HandlerSpec, Clock, Routed, refused, routed, route}
use agent_trust_fabric.Wire.Server.{
  params_of, started_event, outcome_envelope, store_completion, execute, respond, run_started,
  serve, dispatch, invoke, with_log, cosign_event, cosigned_response, audit_cosign,
}

module _ ⦃rt : Runtime⦄ where
  -- The agent is the same but for its log, which calls of the log's operations have changed.
  pub record IsJournaled (a a' : Agent) : Type 0 where
    pub log : Log
    pub same : a' ≡ with_log a log
    pub calls : Steps a.audit_log log

  pub unchanged : (a : Agent) → IsJournaled a a
  unchanged a = record { log = a.audit_log; same = refl; calls = stop }

  pub Steps-trans : {x y z : Log} → Steps x y → Steps y z → Steps x z
  Steps-trans stop k = k
  Steps-trans (step s ss) k = step s (Steps-trans ss k)

  pub IsJournaled-trans : (a b c : Agent) → IsJournaled a b → IsJournaled b c → IsJournaled a c
  IsJournaled-trans a b c h k = record {
    log = k.log;
    same = k.same ∙ ap (λ (x : Agent). with_log x k.log) h.same;
    calls = Steps-trans h.calls (subst_log b h.log h.same k.calls);
  }
    where
      subst_log :
          (b : Agent) (l : Log) {z : Log} → b ≡ with_log a l → Steps b.audit_log z → Steps l z
      subst_log b l e s = rw e at s

  pub one_step : (a : Agent) (log : Log) → Step a.audit_log log → IsJournaled a (with_log a log)
  one_step a log s = record { log = log; same = refl; calls = step s stop }

  attempt-IsJournaled :
      (stamp : Stamp) (t : Incoming) (a : Agent) (r : Result Log)
      → append_self (attempt stamp t a) a.keypair (own_id a) a.audit_log ≡ r
      → IsJournaled a (after_attempt a r).1
  attempt-IsJournaled stamp t a (err e) h = unchanged a
  attempt-IsJournaled stamp t a (ok log) h =
      one_step a log (self (attempt stamp t a) a.keypair (own_id a) h)

  read-IsJournaled :
      (stamp : Stamp) (now : ℤ) (required token : String) (a : Agent) (r : Result Incoming)
      → IsJournaled a (verify_read stamp now required token a r).1
  unfolding refuse_replay
  read-IsJournaled stamp now required token a (err e) = unchanged a
  read-IsJournaled stamp now required token a (ok t) =
      chosen t.used (refuse_replay stamp t a) (verify_incoming now required token t a, a)
        (attempt-IsJournaled stamp t a _ refl) (unchanged a)
    where
      chosen :
          (b : Bool) (x y : Result DelegationClaims × Agent)
          → IsJournaled a x.1
          → IsJournaled a y.1
          → IsJournaled a (if b then x else y).1
      chosen true x y h k = h
      chosen false x y h k = k

  -- Verifying a token changes the log at most by the event of a replay attempt, and nothing else.
  pub verify_delegation-IsJournaled :
      (stamp : Stamp) (now : ℤ) (required token : String) (a : Agent)
      → IsJournaled a (verify_delegation stamp now required token a).1
  unfolding verify_delegation
  verify_delegation-IsJournaled stamp now required token a =
      read-IsJournaled stamp now required token a (read_token token a)

  -- The pending event of a request that is answered.
  stored_step :
      (body envelope : Json) (event : AuditEvent) (a : Agent) {reply : Json} {log : Log}
      → store_completion body envelope event a ≡ ok (reply, log)
      → Step a.audit_log log
  unfolding store_completion
  stored_step body envelope event a h =
      let my_sig = sign_only event a.keypair (own_id a) in
      bind_ok (append_pending event my_sig a.audit_log) _ h λ stored stored_ok h₁.
        bind_ok (get body "request_id") _ h₁
          λ request_id _ h₂. pending event my_sig (stored_ok ∙ ap ok (ap log_of (ok-injective h₂)))
    where
      log_of : Json × Log → Log
      log_of p = p.1

  pub executed_step :
      (clock : Clock) (spec : HandlerSpec) (body : Json) (claims : DelegationClaims) (a : Agent)
      {reply : Json} {log : Log}
      → execute clock spec body claims a ≡ ok (reply, log)
      → Step a.audit_log log
  unfolding execute
  executed_step clock spec body claims a h = bind_ok (params_of body) _ h λ params _ h₁.
      bind_ok (or_raise (spec.handler params) type_error) _ h₁ λ result _ h₂.
        let envelope = outcome_envelope clock.executed spec claims result a in
        bind_ok (build_completion_event clock.completed claims envelope)
          (λ event. store_completion body envelope event a) h₂
          λ event _ h₃. stored_step body envelope event a h₃

  pub execute-IsJournaled :
      (clock : Clock) (spec : HandlerSpec) (body : Json) (claims : DelegationClaims) (a : Agent)
      (r : Result (Json × Log))
      → execute clock spec body claims a ≡ r
      → IsJournaled a (respond a r).1
  execute-IsJournaled clock spec body claims a (err e) h = unchanged a
  execute-IsJournaled clock spec body claims a (ok (reply, log)) h =
      one_step a log (executed_step clock spec body claims a h)

  started-IsJournaled :
      (clock : Clock) (spec : HandlerSpec) (body : Json) (claims : DelegationClaims) (a : Agent)
      (r : Result Log)
      → append_self (started_event clock.started claims a) a.keypair (own_id a) a.audit_log ≡ r
      → IsJournaled a (run_started clock spec body claims a r).1
  started-IsJournaled clock spec body claims a (err e) h = unchanged a
  started-IsJournaled clock spec body claims a (ok log) h =
      IsJournaled-trans a (with_log a log)
        (respond (with_log a log) (execute clock spec body claims (with_log a log))).1
        (one_step a log (self (started_event clock.started claims a) a.keypair (own_id a) h))
        (execute-IsJournaled clock spec body claims (with_log a log) _ refl)

  serve-IsJournaled :
      (clock : Clock) (spec : HandlerSpec) (body : Json) (p : Result DelegationClaims × Agent)
      → IsJournaled p.1 (serve clock spec body p).1
  serve-IsJournaled clock spec body (err e, a) = unchanged a
  serve-IsJournaled clock spec body (ok claims, a) =
      started-IsJournaled clock spec body claims a _ refl

  dispatch-IsJournaled :
      (clock : Clock) (r : Routed) (a : Agent) → IsJournaled a (dispatch clock r a).1
  dispatch-IsJournaled clock (refused status) a = unchanged a
  dispatch-IsJournaled clock (routed token spec body) a =
      let p = verify_delegation clock.replay (pos clock.now) spec.capability token a in
      IsJournaled-trans a p.1 (serve clock spec body p).1
        (verify_delegation-IsJournaled clock.replay (pos clock.now) spec.capability token a)
        (serve-IsJournaled clock spec body p)

  -- A request to invoke, whatever it holds and however it is answered, changes of the agent only
  -- the log, and the log only by calls of its operations.
  pub invoke-IsJournaled :
      (clock : Clock) (handlers : List (String × HandlerSpec)) (token : Option String)
      (body : Option Json) (a : Agent)
      → IsJournaled a (invoke clock handlers token body a).1
  unfolding invoke
  invoke-IsJournaled clock handlers token body a =
      dispatch-IsJournaled clock (route handlers token body) a

  cosigned-IsJournaled :
      (body : Json) (a : Agent) (r : Result Log)
      → cosign_event body a ≡ r
      → IsJournaled a (cosigned_response a r).1
  unfolding cosign_event
  cosigned-IsJournaled body a (err e) h = unchanged a
  cosigned-IsJournaled body a (ok log) h = bind_ok (subscript body "event_id") _ h λ event_id _ h₁.
      bind_ok (subscript body "signature") _ h₁ λ signature _ h₂.
        bind_ok (subscript signature "signed_by") _ h₂ λ id _ h₃.
          bind_ok (peer id a) _ h₃
            λ p _ h₄. one_step a log (cosign event_id signature p.public_key h₄)

  -- A request to audit_cosign, whatever it holds, changes of the agent only the log, and the log
  -- only by calls of its operations.
  pub audit_cosign-IsJournaled :
      (body : Option Json) (a : Agent) → IsJournaled a (audit_cosign body a).1
  unfolding audit_cosign
  audit_cosign-IsJournaled none a = unchanged a
  audit_cosign-IsJournaled (some body) a = cosigned-IsJournaled body a _ refl

  -- Whatever request invoke answers, with whatever status, a well-formed log stays well-formed and
  -- every row of it stays at its place with its event, content and hashes.
  pub invoke_only_appends :
      (clock : Clock) (handlers : List (String × HandlerSpec)) (token : Option String)
      (body : Option Json) (a : Agent)
      → IsWellFormed a.audit_log
      → Extends a.audit_log (invoke clock handlers token body a).1.audit_log
        × IsWellFormed (invoke clock handlers token body a).1.audit_log
  invoke_only_appends clock handlers token body a w =
      let j = invoke-IsJournaled clock handlers token body a in
      rw j.same (steps_only_append w j.calls, steps_keep-IsWellFormed w j.calls)
