-- ===== src/Wire/Answers.antt =====
-- A request with an accepted token is answered with 200.
use agent_trust_fabric.Prelude.{
  ◌≡◌, ◌≢◌, Bool, refl, ap, ◌∙◌, true, false, none, some, Option, List, [], ◌∷◌, ◌++◌, String,
  arith, ℕ, eq_iff,
}
use agent_trust_fabric.Prelude.Int.{pos}
use agent_trust_fabric.Errors.{Result, ok, >>=-ok, or_raise, type_error}
use agent_trust_fabric.Json.{Json, null, str, get, or_else}
use agent_trust_fabric.Runtime.{Runtime}
use agent_trust_fabric.Delegation.Claims.{DelegationClaims}
use agent_trust_fabric.Outcome.{sign_outcome, outcome_content}
use agent_trust_fabric.Audit.Event.{AuditEvent, Stamp, event_content, signed_record, new_event_id}
use agent_trust_fabric.Audit.Log.Columns.{Row, Log, fits, bind_text, bind_integer}
use agent_trust_fabric.Audit.Log.{find_row, insert_event, append_self, append_pending, sign_only}
use agent_trust_fabric.Audit.Log.Inserted.{insert_event_fresh, new_row}
use agent_trust_fabric.Audit.Log.Kept.{find_row-append}
use agent_trust_fabric.Agent.{Agent, own_id, make_outcome, build_completion_event}
use agent_trust_fabric.Agent.Delegation.{verify_delegation}
use agent_trust_fabric.Wire.{Handled, HandlerSpec, Clock, Response, routed, route}
use agent_trust_fabric.Wire.Server.{
  params_of, started_event, outcome_envelope, answer, store_completion, execute, respond,
  run_started, serve, invoke, with_log,
}
use agent_trust_fabric.Wire.Twice.{invoke_routed}

-- An event of this agent: its columns are texts, and its time fits.
pub record IsOwn (e : AuditEvent) (id : String) : Type 0 where
  pub type : String
  pub jti : String
  pub named : e.event_id ≡ str id
  pub typed : e.type ≡ str type
  pub jti_text : e.token_jti ≡ str jti
  pub fit : bind_integer e.ts ≡ ok e.ts

module _ ⦃rt : Runtime⦄ where
  pub inserted_own :
      (e : AuditEvent) (id : String) (record_ : Json) (pending : Bool) (log : Log)
      → IsOwn e id
      → find_row (some id) log ≡ none
      → (row : Row) × (row.event_id ≡ some id)
        × (insert_event e record_ pending log ≡ ok (log ++ row ∷ []))
  unfolding bind_text
  inserted_own e id record_ pending log o new_id = (
    new_row e record_ pending log (some id) e.ts o.type (some o.jti),
    refl,
    insert_event_fresh e record_ pending log (some id) e.ts o.type (some o.jti)
        (ap bind_text o.named) o.fit (ap bind_text o.typed) (ap bind_text o.jti_text) new_id,
  )

  pub completion :
      (stamp : Stamp) (now : ℕ) (spec : HandlerSpec) (claims : DelegationClaims) (result : Handled)
      (b : Agent)
      → fits (pos stamp.ts) ≡ true
      → (event : AuditEvent) × (build_completion_event stamp claims
            (outcome_envelope now spec claims result b)
          ≡ ok event)
        × IsOwn event (new_event_id stamp)
  unfolding build_completion_event make_outcome sign_outcome outcome_content bind_integer
  completion stamp now spec claims result b fit = (
    _,
    refl,
    record {
      type = _;
      jti = claims.jti;
      named = refl;
      typed = refl;
      jti_text = refl;
      fit = rw fit refl;
    },
  )

  pub store_completion_lem :
      (body envelope : Json) (event : AuditEvent) (b : Agent) (request_id : Option Json) {log : Log}
      → append_pending event (sign_only event b.keypair (own_id b)) b.audit_log ≡ ok log
      → get body "request_id" ≡ ok request_id
      → store_completion body envelope event b
        ≡ ok (
          answer (or_else request_id null) envelope event (sign_only event b.keypair (own_id b)),
          log,
        )
  unfolding store_completion
  store_completion_lem body envelope event b request_id stored id_read = rw (stored, id_read)

  pub executed_lem :
      (clock : Clock) (spec : HandlerSpec) (body : Json) (claims : DelegationClaims) (b : Agent)
      (params : Json) (result : Handled) (event : AuditEvent) {end : Json × Log}
      → params_of body ≡ ok params
      → spec.handler params ≡ some result
      → build_completion_event clock.completed claims
          (outcome_envelope clock.executed spec claims result b)
        ≡ ok event
      → store_completion body (outcome_envelope clock.executed spec claims result b) event b
        ≡ ok end
      → execute clock spec body claims b ≡ ok end
  unfolding execute
  executed_lem clock spec body claims b params result event params_read ran built stored =
      >>=-ok (params_of body) _ params_read (
        >>=-ok (or_raise (spec.handler params) type_error) _ (rw ran refl) (
          >>=-ok
            (build_completion_event clock.completed claims
              (outcome_envelope clock.executed spec claims result b))
            (λ e. store_completion body (outcome_envelope clock.executed spec claims result b) e b)
            built stored))

  module _ (clock : Clock) (spec : HandlerSpec) (body : Json) (claims : DelegationClaims)
      (b : Agent) (params : Json) (result : Handled) (request_id : Option Json)
      (params_read : params_of body ≡ ok params) (ran : spec.handler params ≡ some result)
      (id_read : get body "request_id" ≡ ok request_id)
      (started_fits : fits (pos clock.started.ts) ≡ true)
      (completed_fits : fits (pos clock.completed.ts) ≡ true)
      (started_new : find_row (some (new_event_id clock.started)) b.audit_log ≡ none)
      (completed_new : find_row (some (new_event_id clock.completed)) b.audit_log ≡ none)
      (differ : new_event_id clock.started ≢ new_event_id clock.completed) where
    start :
        (row : Row) × (row.event_id ≡ some (new_event_id clock.started))
        × (append_self (started_event clock.started claims b) b.keypair (own_id b) b.audit_log
            ≡ ok (b.audit_log ++ row ∷ []))
    unfolding append_self bind_integer
    start =
        inserted_own (started_event clock.started claims b) (new_event_id clock.started) _ false
          b.audit_log
          (record {
            type = "delegation.started";
            jti = claims.jti;
            named = refl;
            typed = refl;
            jti_text = refl;
            fit = rw started_fits refl;
          })
          started_new

    runs :
        (row : Row)
        → row.event_id ≡ some (new_event_id clock.started)
        → (end : Json × Log) × (execute clock spec body claims
              (with_log b (b.audit_log ++ row ∷ []))
            ≡ ok end)
    unfolding append_pending make_outcome
    runs row row_id =
        let log = b.audit_log ++ row ∷ [] in
        let envelope = outcome_envelope clock.executed spec claims result b in
        let (event, built, own) =
          completion clock.completed clock.executed spec claims result b completed_fits in
        let my_sig = sign_only event b.keypair (own_id b) in
        let still_new : find_row (some (new_event_id clock.completed)) log ≡ none =
          find_row-append (some (new_event_id clock.completed)) b.audit_log row completed_new (
            rw row_id (
              ground
                (arith, eq_iff (new_event_id clock.started) (new_event_id clock.completed)))) in
        let (stored, _, inserted) =
          inserted_own event (new_event_id clock.completed)
            (signed_record (event_content event) (my_sig ∷ [])) true log own still_new in
        (
          (answer (or_else request_id null) envelope event my_sig, log ++ stored ∷ []),
          executed_lem clock spec body claims (with_log b log) params result event params_read ran
              built
              (store_completion_lem body envelope event (with_log b log) request_id inserted
                id_read),
        )

    serves : (serve clock spec body (ok claims, b)).0.status ≡ 200
    serves =
        let (row, row_id, stored) = start in
        let (end, run) = runs row row_id in
        ap (λ r. (run_started clock spec body claims b r).0.status) stored
        ∙ ap (λ r. (respond (with_log b (b.audit_log ++ row ∷ [])) r).0.status) run

    -- A request whose token is accepted is answered with 200, if its parameters and its request id can
    -- be read, the handler's end can be encoded, the times of the events of the start and of the completion fit into the column, and
    -- their ids differ and are not in the log.
    pub invoke_answers :
        (handlers : List (String × HandlerSpec)) (token : String) (sent : Option Json)
        → route handlers (some token) sent ≡ routed token spec body
        → verify_delegation clock.replay (pos clock.now) spec.capability token b ≡ (ok claims, b)
        → (invoke clock handlers (some token) sent b).0.status ≡ 200
    invoke_answers handlers token sent passes verified =
        ap (λ (q : Response × Agent). q.0.status)
          (invoke_routed clock handlers token sent spec body b passes)
        ∙ ap (λ (q : Result DelegationClaims × Agent). (serve clock spec body q).0.status) verified
        ∙ serves
