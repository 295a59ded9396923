-- ===== src/Wire/Loop/Turns.antt =====
-- Runs of the event loop, and a request that is finished as soon as it waits for its handler.
use agent_trust_fabric.Prelude.{◌≡◌, refl, Option, none, some, List, [], ◌∷◌, String}
use agent_trust_fabric.Prelude.Int.{pos}
use agent_trust_fabric.Errors.{Result, ok, err}
use agent_trust_fabric.Json.{Json}
use agent_trust_fabric.Runtime.{Runtime}
use agent_trust_fabric.Delegation.Claims.{DelegationClaims}
use agent_trust_fabric.Audit.Log.Columns.{Log}
use agent_trust_fabric.Audit.Log.{append_self}
use agent_trust_fabric.Audit.Log.Appends.{self}
use agent_trust_fabric.Agent.{Agent, own_id}
use agent_trust_fabric.Agent.Delegation.{verify_delegation}
use agent_trust_fabric.Wire.{HandlerSpec, Response, Clock, Routed, refused, routed, route}
use agent_trust_fabric.Wire.Server.{
  params_of, started_event, with_log, execute, run_started, serve, dispatch, invoke,
}
use agent_trust_fabric.Wire.Safe.{
  IsJournaled, IsJournaled-trans, unchanged, one_step, verify_delegation-IsJournaled,
  execute-IsJournaled, audit_cosign-IsJournaled,
}
use agent_trust_fabric.Wire.Loop.{
  Running, Begun, answered, suspended, suspend, begin_started, admit, begin_routed, start_invoke,
  finish_invoke, Server, begun, take_out, resumed, Turn, arrives, ends, cosigns, turn, turns,
}

module _ ⦃rt : Runtime⦄ where
  -- A request that is resumed as soon as it waits for its handler.
  abbrev pub at_once : Clock → Begun × Agent → Response × Agent
  at_once clock (answered response, a) = (response, a)
  at_once clock (suspended r, a) = finish_invoke clock r a

  suspend-at_once :
      (clock : Clock) (spec : HandlerSpec) (body : Json) (claims : DelegationClaims) (a : Agent)
      (r : Result Json)
      → params_of body ≡ r
      → at_once clock (suspend (record { spec = spec; body = body; claims = claims }) r, a)
        ≡ finish_invoke clock (record { spec = spec; body = body; claims = claims }) a
  unfolding finish_invoke execute
  suspend-at_once clock spec body claims a (err e) h = rw h refl
  suspend-at_once clock spec body claims a (ok params) h = refl

  started-at_once :
      (clock : Clock) (spec : HandlerSpec) (body : Json) (claims : DelegationClaims) (a : Agent)
      (r : Result Log)
      → at_once clock (begin_started spec body claims a r) ≡ run_started clock spec body claims a r
  unfolding finish_invoke
  started-at_once clock spec body claims a (err e) = refl
  started-at_once clock spec body claims a (ok log) =
      suspend-at_once clock spec body claims (with_log a log) (params_of body) refl

  admit-at_once :
      (clock : Clock) (spec : HandlerSpec) (body : Json) (p : Result DelegationClaims × Agent)
      → at_once clock (admit clock spec body p) ≡ serve clock spec body p
  admit-at_once clock spec body (err e, a) = refl
  admit-at_once clock spec body (ok claims, a) = started-at_once clock spec body claims a _

  begin-at_once :
      (clock : Clock) (r : Routed) (a : Agent)
      → at_once clock (begin_routed clock r a) ≡ dispatch clock r a
  begin-at_once clock (refused status) a = refl
  begin-at_once clock (routed token spec body) a = admit-at_once clock spec body _

  -- A request to invoke whose handler ends before anything else is served, or that does not come
  -- to its handler, is served as by invoke: with the same response and the same agent after it.
  pub start_invoke-at_once :
      (clock : Clock) (handlers : List (String × HandlerSpec)) (token : Option String)
      (body : Option Json) (a : Agent)
      → at_once clock (start_invoke clock handlers token body a)
        ≡ invoke clock handlers token body a
  unfolding start_invoke invoke
  start_invoke-at_once clock handlers token body a =
      begin-at_once clock (route handlers token body) a

  started-IsJournaled :
      (clock : Clock) (spec : HandlerSpec) (body : Json) (claims : DelegationClaims) (a : Agent)
      (r : Result Log)
      → append_self (started_event clock.started claims a) a.keypair (own_id a) a.audit_log ≡ r
      → IsJournaled a (begin_started spec body claims a r).1
  started-IsJournaled clock spec body claims a (err e) h = unchanged a
  started-IsJournaled clock spec body claims a (ok log) h =
      one_step a log (self (started_event clock.started claims a) a.keypair (own_id a) h)

  admit-IsJournaled :
      (clock : Clock) (spec : HandlerSpec) (body : Json) (p : Result DelegationClaims × Agent)
      → IsJournaled p.1 (admit clock spec body p).1
  admit-IsJournaled clock spec body (err e, a) = unchanged a
  admit-IsJournaled clock spec body (ok claims, a) =
      started-IsJournaled clock spec body claims a _ refl

  begin-IsJournaled :
      (clock : Clock) (r : Routed) (a : Agent) → IsJournaled a (begin_routed clock r a).1
  begin-IsJournaled clock (refused status) a = unchanged a
  begin-IsJournaled clock (routed token spec body) a =
      let p = verify_delegation clock.replay (pos clock.now) spec.capability token a in
      IsJournaled-trans a p.1 (admit clock spec body p).1
        (verify_delegation-IsJournaled clock.replay (pos clock.now) spec.capability token a)
        (admit-IsJournaled clock spec body p)

  pub begun-agent : (s : Server) (b : Begun × Agent) → (begun s b).agent ≡ b.1
  begun-agent s (answered response, a) = refl
  begun-agent s (suspended r, a) = refl

  begun-IsJournaled :
      (s : Server) (b : Begun × Agent)
      → IsJournaled s.agent b.1
      → IsJournaled s.agent (begun s b).agent
  begun-IsJournaled s b j = rw (begun-agent s b) j

  resumed-IsJournaled :
      (clock : Clock) (s : Server) (found : Option (Running × List Running))
      → IsJournaled s.agent (resumed clock s found).agent
  unfolding finish_invoke
  resumed-IsJournaled clock s none = unchanged s.agent
  resumed-IsJournaled clock s (some (r, rest)) =
      execute-IsJournaled clock r.spec r.body r.claims s.agent _ refl

  pub turn-IsJournaled : (t : Turn) (s : Server) → IsJournaled s.agent (turn t s).agent
  unfolding turn start_invoke
  turn-IsJournaled (arrives clock handlers token body) s =
      begun-IsJournaled s (begin_routed clock (route handlers token body) s.agent)
        (begin-IsJournaled clock (route handlers token body) s.agent)
  turn-IsJournaled (ends clock n) s = resumed-IsJournaled clock s (take_out n s.running)
  turn-IsJournaled (cosigns body) s = audit_cosign-IsJournaled body s.agent

  -- Whatever requests to invoke and audit_cosign arrive, in whatever order their handlers end and
  -- however they are answered, the agent changes only in its log, and the log only by calls of its
  -- operations.
  pub turns-IsJournaled : (ts : List Turn) (s : Server) → IsJournaled s.agent (turns ts s).agent
  unfolding turns
  turns-IsJournaled [] s = unchanged s.agent
  turns-IsJournaled (t ∷ ts) s =
      IsJournaled-trans s.agent (turn t s).agent (turns ts (turn t s)).agent (turn-IsJournaled t s)
        (turns-IsJournaled ts (turn t s))
