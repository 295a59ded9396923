-- ===== src/Wire/Loop/Twice.antt =====
-- A token buys one execution, also while its handler runs.
use agent_trust_fabric.Prelude.{
  ◌≡◌, refl, ap, sym, ◌∙◌, true, Option, none, some, List, String, All,
}
use agent_trust_fabric.Prelude.Int.{pos}
use agent_trust_fabric.Errors.{Result, ok, err}
use agent_trust_fabric.Json.{Json, str, subscript}
use agent_trust_fabric.Runtime.{Runtime}
use agent_trust_fabric.Delegation.Claims.{DelegationClaims}
use agent_trust_fabric.Audit.Event.{new_event_id}
use agent_trust_fabric.Audit.Log.Columns.{Log, fits}
use agent_trust_fabric.Audit.Log.{append_self, find_row}
use agent_trust_fabric.Audit.Log.Kept.{IsWellFormed}
use agent_trust_fabric.Audit.Log.Appends.{Steps, stop}
use agent_trust_fabric.Agent.{Agent, own_id}
use agent_trust_fabric.Agent.Delegation.{read_payload, verify_delegation}
use agent_trust_fabric.Agent.Uses.{IsReadable}
use agent_trust_fabric.Wire.{HandlerSpec, failure, Clock, routed, route}
use agent_trust_fabric.Wire.Server.{started_event}
use agent_trust_fabric.Wire.Safe.{IsJournaled}
use agent_trust_fabric.Wire.Answered.{IsAnswered}
use agent_trust_fabric.Wire.Twice.{used_token, replay_status}
use agent_trust_fabric.Wire.Loop.{
  Running, Begun, answered, suspended, begin_started, admit, begin_routed, start_invoke, Server,
  Turn, arrives, turn, turns,
}
use agent_trust_fabric.Wire.Loop.Turns.{begun-agent, turn-IsJournaled, turns-IsJournaled}

module _ ⦃rt : Runtime⦄ where
  run_suspended :
      (clock : Clock) (spec : HandlerSpec) (body : Json) (claims : DelegationClaims) (a : Agent)
      (r : Running) (l : Result Log)
      → append_self (started_event clock.started claims a) a.keypair (own_id a) a.audit_log ≡ l
      → (begin_started spec body claims a l).0 ≡ suspended r
      → IsAnswered clock claims a (begin_started spec body claims a l).1.audit_log
  run_suspended clock spec body claims a r (err e) h s = absurd (cc)
  run_suspended clock spec body claims a r (ok log) h s = record {
    log = log;
    recorded = h;
    calls = stop;
  }

  -- A request whose handler runs has an accepted token, and its start is recorded.
  admit_suspended :
      (clock : Clock) (spec : HandlerSpec) (body : Json) (r : Running)
      (p : Result DelegationClaims × Agent)
      → (admit clock spec body p).0 ≡ suspended r
      → (claims : DelegationClaims) × (p.0 ≡ ok claims)
        × IsAnswered clock claims p.1 (admit clock spec body p).1.audit_log
  admit_suspended clock spec body r (err e, a) s = absurd (cc)
  admit_suspended clock spec body r (ok claims, a) s =
      (claims, refl, run_suspended clock spec body claims a r _ refl s)

  begin-routed :
      (clock : Clock) (handlers : List (String × HandlerSpec)) (token : String) (body : Option Json)
      (spec : HandlerSpec) (b : Json) (a : Agent)
      → route handlers (some token) body ≡ routed token spec b
      → start_invoke clock handlers (some token) body a
        ≡ admit clock spec b
            (verify_delegation clock.replay (pos clock.now) spec.capability token a)
  unfolding start_invoke
  begin-routed clock handlers token body spec b a e = ap (λ r. begin_routed clock r a) e

  -- A token buys one execution, however requests are interleaved. Once a request to invoke with a
  -- token whose jti is a text waits for its handler, on a log that was well-formed and readable,
  -- then whatever requests arrive and whatever handlers end after it, every request with the same
  -- token that asks for a known action is answered with 409 and runs no handler, if the event of
  -- the attempt has a fresh id and its time fits into the column.
  pub start_twice :
      (clock clock' : Clock) (handlers handlers' : List (String × HandlerSpec)) (token j : String)
      (body body' : Option Json) (spec spec' : HandlerSpec) (b b' payload : Json) (s : Server)
      (r : Running) (ts : List Turn)
      → IsWellFormed s.agent.audit_log
      → All IsReadable s.agent.audit_log
      → read_payload token ≡ ok payload
      → subscript payload "jti" ≡ ok (str j)
      → route handlers (some token) body ≡ routed token spec b
      → (start_invoke clock handlers (some token) body s.agent).0 ≡ suspended r
      → (s' : Server) → turns ts (turn (arrives clock handlers (some token) body) s) ≡ s'
      → route handlers' (some token) body' ≡ routed token spec' b'
      → fits (pos clock'.replay.ts) ≡ true
      → find_row (some (new_event_id clock'.replay)) s'.agent.audit_log ≡ none
      → (start_invoke clock' handlers' (some token) body' s'.agent).0 ≡ answered (failure 409)
  unfolding turn
  start_twice clock clock' handlers handlers' token j body body' spec spec' b b' payload s r ts well
        readable parsed named first waits s' more second fit fresh =
      let once = begin-routed clock handlers token body spec b s.agent first in
      let p = verify_delegation clock.replay (pos clock.now) spec.capability token s.agent in
      let (claims, accepted, started) =
        admit_suspended clock spec b r p (ap (λ (q : Begun × Agent). q.0) (sym once) ∙ waits) in
      let s₁ = turn (arrives clock handlers (some token) body) s in
      let arrived : s₁.agent ≡ (admit clock spec b p).1 =
        begun-agent s _ ∙ ap (λ (q : Begun × Agent). q.1) once in
      let journal : IsJournaled s₁.agent s'.agent = rw (sym more) (turns-IsJournaled ts s₁) in
      let peers : s'.agent.peers ≡ s.agent.peers =
        ap (λ (c : Agent). c.peers) journal.same
        ∙ ap (λ (c : Agent). c.peers)
            (turn-IsJournaled (arrives clock handlers (some token) body) s).same in
      let (log, refused_replay) =
        used_token clock spec token j s.agent payload parsed named p claims _ refl accepted started
          well readable s'.agent (IsJournaled-steps arrived journal) peers clock'.replay fit fresh
          (pos clock'.now) spec'.capability in
      ap (λ (q : Begun × Agent). q.0)
        (begin-routed clock' handlers' token body' spec' b' s'.agent second)
      ∙ ap (λ (q : Result DelegationClaims × Agent). (admit clock' spec' b' q).0) refused_replay
      ∙ ap (λ n. answered (failure n)) replay_status
    where
      IsJournaled-steps : {x y z : Agent} → x ≡ y → IsJournaled x z → Steps y.audit_log z.audit_log
      IsJournaled-steps {z = z} e j = rw (sym e) (rw j.same j.calls)
