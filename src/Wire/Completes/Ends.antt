-- ===== src/Wire/Completes/Ends.antt =====
-- The whole run of both parties, from the request on.
use mathlib.Core.Path.{subst}
use agent_trust_fabric.Prelude.{
  ◌≡◌, ◌≢◌, refl, ap, sym, ◌∙◌, true, none, some, List, [], ◌∷◌, ◌++◌, String, arith, ◌+◌,
}
use agent_trust_fabric.Errors.{Result, ok, bind_ok, ok-injective}
use agent_trust_fabric.Json.{Json, null, str, or_else, subscript, sort_keys}
use agent_trust_fabric.Runtime.{Runtime, IsSignatureScheme}
use agent_trust_fabric.Audit.Event.{
  AuditEvent, Stamp, event_content, new_event_id, verify_record_signatures,
}
use agent_trust_fabric.Audit.Log.Columns.{Row, Log, bind_text}
use agent_trust_fabric.Audit.Log.{find_row, sign_only, get_record, pending_peer_count}
use agent_trust_fabric.Audit.Log.Cosign.{content-sort_keys}
use agent_trust_fabric.Audit.Log.CrossSigned.{find_row-last, keys_of}
use agent_trust_fabric.Audit.Log.Pending.{append_self-count, append_pending-count}
use agent_trust_fabric.Delegation.Claims.{DelegationClaims}
use agent_trust_fabric.Outcome.{outcome_content}
use agent_trust_fabric.Agent.{
  Agent, PeerRecord, own_id, peer, build_completion_event, verify_outcome_envelope,
}
use agent_trust_fabric.Wire.{HandlerSpec, Clock, Response, routed, route}
use agent_trust_fabric.Wire.Server.{invoke, answer, outcome_envelope, started_event}
use agent_trust_fabric.Wire.Executed.{answered_with, IsExecuted, invoke→IsExecuted}
use agent_trust_fabric.Wire.Client.{
  HttpRequest, HttpResponse, Call, Ended, store_event, after_storing, cosign_body, invoke_request,
  client_invoke,
}
use agent_trust_fabric.Wire.Client.Accepts.{client_invoke_accepts}
use agent_trust_fabric.Wire.Completes.Taken.{takes}
use agent_trust_fabric.Wire.Completes.{
  IsStorable, storable, kept, IsCompleted, Expects, received, executed, outcome_accepted,
  delegator_verifies,
}

module _ ⦃rt : Runtime⦄ where
  held_last :
      (id : String) (row : Row) (log : Log)
      → find_row (some id) log ≡ none
      → row.event_id ≡ some id
      → get_record (str id) (log ++ row ∷ []) ≡ ok (some row.record_)
  unfolding get_record bind_text
  held_last id row log new_id row_id = rw (find_row-last id log row new_id row_id)

  module _ (scheme : IsSignatureScheme rt) (a b : Agent)
      (own_a : a.keypair.public_key ≡ rt.public_key a.keypair.private_key)
      (own_b : b.keypair.public_key ≡ rt.public_key b.keypair.private_key)
      (distinct : own_id a ≢ own_id b) where
    completion_id :
        (clock : Clock) (claims : DelegationClaims) (envelope : Json) (event : AuditEvent)
        → build_completion_event clock.completed claims envelope ≡ ok event
        → event.event_id ≡ str (new_event_id clock.completed)
    unfolding build_completion_event
    completion_id clock claims envelope event h =
        bind_ok (subscript envelope "outcome") _ h λ content _ h₁.
          bind_ok (subscript content "status") _ h₁ λ status _ h₂.
            bind_ok (subscript content "payload_hash") _ h₂ λ hash _ h₃.
              bind_ok (subscript content "schema_id") _ h₃
                λ schema _ h₄. ap (λ (e : AuditEvent). e.event_id) (sym (ok-injective h₄))

    -- The body of the answer of an execution.
    abbrev answer_of :
        {clock : Clock} {spec : HandlerSpec} {body : Json} {out : Response × Agent}
        → IsExecuted clock spec body b out
        → Json
    answer_of {clock} {spec} x =
        answer (or_else x.request_id null)
          (outcome_envelope clock.executed spec x.claims x.result b) x.event
          (sign_only x.event b.keypair (own_id b))

    module _ (stamp : Stamp) (detail : String) (call : Call)
        (http_post : HttpRequest → Result HttpResponse) (clock : Clock) (spec : HandlerSpec)
        (body jti : Json) (request : HttpRequest) (pa pb : PeerRecord)
        (to_b : call.delegatee_id ≡ own_id b) (cosigning : call.cosign ≡ true)
        (expects : Expects call.expected_schema_id spec.schema_id)
        (sent : invoke_request call ≡ ok (jti, request)) (b_known : peer (str (own_id b)) a ≡ ok pb)
        (b_key : pb.public_key ≡ b.keypair.public_key) (a_known : peer (str (own_id a)) b ≡ ok pa)
        (a_key : pa.public_key ≡ a.keypair.public_key)
        (new_id : find_row (some (new_event_id clock.completed)) a.audit_log ≡ none) where
      -- The client returns the answer of an execution, and stores its event.
      client_ends :
          (out : Response × Agent) (x : IsExecuted clock spec body b out)
          (st : IsStorable a b x.event (new_event_id clock.completed))
          → http_post request ≡ ok (received out.0)
          → client_invoke stamp detail call http_post a
            ≡ after_storing call.cosign (answer_of x) a (ok (kept a b x.event st.row))
      client_ends out x st delivered =
          let envelope = outcome_envelope clock.executed spec x.claims x.result b in
          client_invoke_accepts stamp detail call http_post a jti (answer_of x) envelope
            (outcome_content (executed clock.executed spec x.claims x.result)) request
            (received (answered_with (answer_of x))) (kept a b x.event st.row) sent
            (delivered ∙ ap (λ (o : Response × Agent). ok (received o.0)) x.ended) refl refl refl
            (ap (λ d. verify_outcome_envelope envelope (str d) call.expected_schema_id a) to_b
              ∙ outcome_accepted scheme a b own_a own_b distinct clock.executed spec x.claims
                  x.result pb call.expected_schema_id b_known b_key expects)
            (ap (λ d. store_event (answer_of x) d a) to_b
              ∙ st.stores (or_else x.request_id null) envelope)

      -- Nothing more is pending than before the request.
      settles :
          (out : Response × Agent) (x : IsExecuted clock spec body b out) (final : Log)
          → pending_peer_count final + 1 ≡ pending_peer_count x.log
          → pending_peer_count final ≡ pending_peer_count b.audit_log
      settles out x final one_less = omega (
        arith,
        append_pending-count x.event (sign_only x.event b.keypair (own_id b)) x.started_log x.log
            x.pending,
        append_self-count (started_event clock.started x.claims b) b.keypair (own_id b) b.audit_log
            x.started_log x.started,
      )

      -- The two parties after an execution.
      ends :
          (out : Response × Agent)
          → IsExecuted clock spec body b out
          → http_post request ≡ ok (received out.0)
          → IsCompleted a b out.0.body (client_invoke stamp detail call http_post a) out.1
      ends out x delivered =
          let event = x.event in
          let id = new_event_id clock.completed in
          let my_sig = sign_only event b.keypair (own_id b) in
          let named =
            completion_id clock x.claims (outcome_envelope clock.executed spec x.claims x.result b)
              event x.completion in
          let st =
            storable a b scheme own_b event id pb x.started_log x.log named b_known b_key x.pending
              new_id in
          let tk =
            takes scheme a b own_a own_b distinct event id st.row pa x.started_log x.log named
              a_known a_key x.pending in
          let ended = client_ends out x st delivered in
          subst
            (λ (o : Response × Agent).
              IsCompleted a b o.0.body (client_invoke stamp detail call http_post a) o.1)
            (sym x.ended)
            (record {
              event_id = id;
              pushed = cosign_body (kept a b event st.row);
              content = sort_keys (event_content event);
              a_record = st.row.record_;
              b_record = tk.b_record;
              returned = ap (λ (e : Ended). e.result) ended;
              pushes = ap (λ (e : Ended). e.pushed) ended ∙ rw cosigning refl;
              taken = ap (λ (o : Response × Agent). o.0.status) tk.taken;
              a_holds =
                  ap (λ (e : Ended). get_record (str id) e.agent.audit_log) ended
                  ∙ held_last id st.row a.audit_log new_id st.row_id;
              b_holds =
                  ap (λ (o : Response × Agent). get_record (str id) o.1.audit_log) tk.taken
                  ∙ tk.held;
              settled =
                  ap (λ (o : Response × Agent). pending_peer_count o.1.audit_log) tk.taken
                  ∙ settles out x tk.final tk.one_less;
              a_content =
                  ap (λ r. subscript r "content") st.holds
                  ∙ content-sort_keys (event_content event)
                      (sign_only event a.keypair (own_id a) ∷ my_sig ∷ []);
              b_content = tk.content;
              a_verifies =
                  ap
                    (λ r.
                      verify_record_signatures r
                        (keys_of a.keypair b.keypair (own_id a) (own_id b)))
                    st.holds
                  ∙ delegator_verifies scheme a b own_a own_b distinct event;
              b_verifies = tk.verifies;
            })

      pub delegation_completes :
          (handlers : List (String × HandlerSpec))
          → route handlers (some call.token) (some request.json) ≡ routed call.token spec body
          → (invoke clock handlers (some call.token) (some request.json) b).0.status ≡ 200
          → http_post request
            ≡ ok (received (invoke clock handlers (some call.token) (some request.json) b).0)
          → IsCompleted a b
              (invoke clock handlers (some call.token) (some request.json) b).0.body
              (client_invoke stamp detail call http_post a)
              (invoke clock handlers (some call.token) (some request.json) b).1
      delegation_completes handlers passes answered delivered =
          ends (invoke clock handlers (some call.token) (some request.json) b)
            (invoke→IsExecuted clock handlers call.token (some request.json) spec body b passes
              answered)
            delivered
