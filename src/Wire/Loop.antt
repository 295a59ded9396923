-- ===== src/Wire/Loop.antt =====
-- The event loop that runs `invoke` and `audit_cosign` of reference/py/src/atf/wire.py: a request
-- to invoke waits for its handler at `await result`, and other requests are served meanwhile.
pub mod Turns
pub mod Twice
pub mod Ends
use agent_trust_fabric.Prelude.{ℕ, zero, suc, Option, none, some, List, [], ◌∷◌, String}
use agent_trust_fabric.Prelude.Int.{pos}
use agent_trust_fabric.Errors.{Result, ok, err}
use agent_trust_fabric.Json.{Json}
use agent_trust_fabric.Runtime.{Runtime}
use agent_trust_fabric.Delegation.Claims.{DelegationClaims}
use agent_trust_fabric.Audit.Log.Columns.{Log}
use agent_trust_fabric.Audit.Log.{append_self}
use agent_trust_fabric.Agent.{Agent, own_id}
use agent_trust_fabric.Agent.Delegation.{verify_delegation}
use agent_trust_fabric.Wire.{
  HandlerSpec, Response, failure, Clock, status_of, Routed, refused, routed, route,
}
use agent_trust_fabric.Wire.Server.{
  params_of, started_event, with_log, execute, respond, audit_cosign,
}

-- What `invoke` holds while its handler runs.
pub record Running : Type 0 where
  pub spec : HandlerSpec
  pub body : Json
  pub claims : DelegationClaims

-- What `invoke` has come to when its handler runs or it is over.
pub data Begun : Type 0 where
  answered : Response → Begun
  suspended : Running → Begun

-- The parameters are read before the handler is called.
abbrev pub suspend : Running → Result Json → Begun
suspend r (err e) = answered (failure 500)
suspend r (ok params) = suspended r

abbrev pub begin_started :
    HandlerSpec → Json → DelegationClaims → Agent → Result Log → Begun × Agent
begin_started spec body claims a (err e) = (answered (failure 500), a)
begin_started spec body claims a (ok log) = (
  suspend (record { spec = spec; body = body; claims = claims }) (params_of body),
  with_log a log,
)

module _ ⦃rt : Runtime⦄ where
  abbrev pub admit : Clock → HandlerSpec → Json → Result DelegationClaims × Agent → Begun × Agent
  admit clock spec body (err e, a) = (answered (failure (status_of e)), a)
  admit clock spec body (ok claims, a) =
      begin_started spec body claims a
        (append_self (started_event clock.started claims a) a.keypair (own_id a) a.audit_log)

  abbrev pub begin_routed : Clock → Routed → Agent → Begun × Agent
  begin_routed clock (refused status) a = (answered (failure status), a)
  begin_routed clock (routed token spec body) a =
      admit clock spec body (verify_delegation clock.replay (pos clock.now) spec.capability token a)

  -- `invoke` up to the call of the handler: no other request is served within it.
  unfoldable pub start_invoke :
      Clock → List (String × HandlerSpec) → Option String → Option Json → Agent → Begun × Agent
  unfolding route verify_delegation append_self status_of params_of
  start_invoke clock handlers token body a = begin_routed clock (route handlers token body) a

  -- `invoke` from the end of its handler on, which is again not interrupted.
  unfoldable pub finish_invoke : Clock → Running → Agent → Response × Agent
  unfolding execute
  finish_invoke clock r a = respond a (execute clock r.spec r.body r.claims a)

  -- The agent of an application, and the requests whose handlers run.
  pub record Server : Type 0 where
    pub agent : Agent
    pub running : List Running

  abbrev pub begun : Server → Begun × Agent → Server
  begun s (answered r, a) = record { agent = a; running = s.running }
  begun s (suspended r, a) = record { agent = a; running = r ∷ s.running }

  abbrev pub take_out : ℕ → List Running → Option (Running × List Running)
  take_out n [] = none
  take_out zero (r ∷ rs) = some (r, rs)
  take_out (suc n) (r ∷ rs) = elim (take_out n rs) [
    | none ↦ none
    | some (found, rest) ↦ some (found, r ∷ rest)
  ]

  abbrev pub resumed : Clock → Server → Option (Running × List Running) → Server
  resumed clock s none = s
  resumed clock s (some (r, rest)) = record {
    agent = (finish_invoke clock r s.agent).1;
    running = rest;
  }

  -- What the loop runs without interruption: a request to invoke arrives, the handler of one of
  -- the running requests ends, or a request to audit_cosign arrives.
  pub data Turn : Type 0 where
    arrives : Clock → List (String × HandlerSpec) → Option String → Option Json → Turn
    ends : Clock → ℕ → Turn
    cosigns : Option Json → Turn

  unfoldable pub turn : Turn → Server → Server
  unfolding start_invoke finish_invoke audit_cosign
  turn (arrives clock handlers token body) s =
      begun s (start_invoke clock handlers token body s.agent)
  turn (ends clock n) s = resumed clock s (take_out n s.running)
  turn (cosigns body) s = record { agent = (audit_cosign body s.agent).1; running = s.running }

  unfoldable pub turns : List Turn → Server → Server
  unfolding turn
  turns [] s = s
  turns (t ∷ ts) s = turns ts (turn t s)
