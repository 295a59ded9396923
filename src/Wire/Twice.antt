-- ===== src/Wire/Twice.antt =====
-- A token buys one execution: a second request with it is answered with 409.
use agent_trust_fabric.Prelude.{
  ◌≡◌, refl, ap, sym, ◌∙◌, true, Option, none, some, List, String, All,
}
use agent_trust_fabric.Prelude.Int.{ℤ, pos}
use agent_trust_fabric.Errors.{Result, ok, err, token_replay}
use agent_trust_fabric.Json.{Json, str, subscript}
use agent_trust_fabric.Runtime.{Runtime}
use agent_trust_fabric.Delegation.Claims.{DelegationClaims}
use agent_trust_fabric.Audit.Event.{Stamp, new_event_id}
use agent_trust_fabric.Audit.Log.Columns.{Log, fits}
use agent_trust_fabric.Audit.Log.{find_row}
use agent_trust_fabric.Audit.Log.Kept.{IsWellFormed}
use agent_trust_fabric.Audit.Log.Appends.{Steps}
use agent_trust_fabric.Agent.{Agent, own_id, peer}
use agent_trust_fabric.Agent.Delegation.{read_payload, read_token, verify_delegation}
use agent_trust_fabric.Agent.Replay.{replay_refused}
use agent_trust_fabric.Agent.Uses.{IsReadable}
use agent_trust_fabric.Wire.{HandlerSpec, Clock, Response, routed, route, status_of}
use agent_trust_fabric.Wire.Server.{started_event, serve, dispatch, invoke}
use agent_trust_fabric.Wire.Answered.{
  IsAnswered, IsAnswered-moved, serve_200, verify_read-ok, read_token-known, token_jti,
}
use agent_trust_fabric.Wire.Safe.{Steps-trans}

pub peer-peers : (iss : Json) (a c : Agent) → c.peers ≡ a.peers → peer iss c ≡ peer iss a
unfolding peer
peer-peers (str id) a c e = rw e refl
peer-peers _ a c e = refl

pub replay_status : status_of token_replay ≡ 409
unfolding status_of
replay_status = refl

module _ ⦃rt : Runtime⦄ where
  module _ (clock : Clock) (spec : HandlerSpec) (token j : String) (a : Agent) (payload : Json)
      (parsed : read_payload token ≡ ok payload)
      (named : subscript payload "jti" ≡ ok (str j)) where
    -- An accepted token whose start is recorded is refused ever after.
    pub used_token :
        (p : Result DelegationClaims × Agent) (claims : DelegationClaims) (final : Log)
        → verify_delegation clock.replay (pos clock.now) spec.capability token a ≡ p
        → p.0 ≡ ok claims
        → IsAnswered clock claims p.1 final
        → IsWellFormed a.audit_log
        → All IsReadable a.audit_log
        → (c : Agent) → Steps final c.audit_log
        → c.peers ≡ a.peers
        → (stamp : Stamp) → fits (pos stamp.ts) ≡ true
        → find_row (some (new_event_id stamp)) c.audit_log ≡ none
        → (now : ℤ) (required : String)
        → (log : Log) × (verify_delegation stamp now required token c
            ≡ (err token_replay, record c { audit_log = log }))
    unfolding verify_delegation
    used_token p claims final e accepted started well readable c more same_peers stamp fit fresh now
          required =
        let v =
          verify_read-ok clock.replay (pos clock.now) spec.capability token a (read_token token a)
            refl (ap (λ (q : Result DelegationClaims × Agent). q.0) e ∙ accepted) in
        let (iss, r, iss_read, known) = read_token-known token a v.arrived payload parsed v.read in
        let same : p.1 ≡ a = ap (λ (q : Result DelegationClaims × Agent). q.1) (sym e) ∙ v.same in
        let jti =
          token_jti (pos clock.now) spec.capability token j a v.arrived payload claims v.verified
            parsed named in
        let answered = IsAnswered-moved same started in
        let (log, _, refused_replay) =
          replay_refused (started_event clock.started claims a) a.keypair (own_id a) j a.audit_log
            answered.log well readable (ap str jti) refl answered.recorded c
            (Steps-trans answered.calls more) token payload iss r parsed iss_read named
            (peer-peers iss a c same_peers ∙ known) stamp fit fresh now required in
        (log, refused_replay)

  -- A request that passes the routing.
  pub invoke_routed :
      (clock : Clock) (handlers : List (String × HandlerSpec)) (token : String) (body : Option Json)
      (spec : HandlerSpec) (b : Json) (a : Agent)
      → route handlers (some token) body ≡ routed token spec b
      → invoke clock handlers (some token) body a
        ≡ serve clock spec b
            (verify_delegation clock.replay (pos clock.now) spec.capability token a)
  unfolding invoke
  invoke_routed clock handlers token body spec b a e = ap (λ r. dispatch clock r a) e

  -- After a request to invoke with a token whose jti is a text is answered with 200, on a
  -- well-formed and readable log, and whatever the log's operations do in between, every request
  -- with the same token that asks for a known action is answered with 409, if the event of the
  -- attempt has a fresh id and its time fits into the column.
  pub invoke_twice :
      (clock clock' : Clock) (handlers handlers' : List (String × HandlerSpec)) (token j : String)
      (body body' : Option Json) (spec spec' : HandlerSpec) (b b' : Json) (a c : Agent)
      (payload : Json)
      → IsWellFormed a.audit_log
      → All IsReadable a.audit_log
      → read_payload token ≡ ok payload
      → subscript payload "jti" ≡ ok (str j)
      → route handlers (some token) body ≡ routed token spec b
      → (invoke clock handlers (some token) body a).0.status ≡ 200
      → Steps (invoke clock handlers (some token) body a).1.audit_log c.audit_log
      → c.peers ≡ a.peers
      → route handlers' (some token) body' ≡ routed token spec' b'
      → fits (pos clock'.replay.ts) ≡ true
      → find_row (some (new_event_id clock'.replay)) c.audit_log ≡ none
      → (invoke clock' handlers' (some token) body' c).0.status ≡ 409
  invoke_twice clock clock' handlers handlers' token j body body' spec spec' b b' a c payload well
        readable parsed named first answered_200 more same_peers second fit fresh =
      let once = invoke_routed clock handlers token body spec b a first in
      let p = verify_delegation clock.replay (pos clock.now) spec.capability token a in
      let (claims, accepted, answered) =
        serve_200 clock spec b p
          (ap (λ (q : Response × Agent). q.0.status) (sym once) ∙ answered_200) in
      let more_steps = Steps-from (ap (λ (q : Response × Agent). q.1.audit_log) once) more in
      let (log, refused_replay) =
        used_token clock spec token j a payload parsed named p claims _ refl accepted answered well
          readable c more_steps same_peers clock'.replay fit fresh (pos clock'.now)
          spec'.capability in
      ap (λ (q : Response × Agent). q.0.status)
        (invoke_routed clock' handlers' token body' spec' b' c second)
      ∙ ap (λ (q : Result DelegationClaims × Agent). (serve clock' spec' b' q).0.status)
          refused_replay
      ∙ replay_status
    where
      Steps-from : {x y z : Log} → x ≡ y → Steps x z → Steps y z
      Steps-from e s = rw (sym e) s
