-- ===== src/Wire/Completes.antt =====
-- Both parties of a delegation: the delegatee answers a request, the delegator checks and stores
-- the answer, and pushes its signature back. The steps of the demo in
-- reference/py/examples/coding_to_image/run.py from the request on.
pub mod Taken
pub mod Ends
pub mod Issued
use agent_trust_fabric.Prelude.{
  ◌≡◌, ◌≢◌, refl, ap, sym, ◌∙◌, true, false, none, some, List, [], ◌∷◌, ◌++◌, String, arith, ℕ,
  Option, if◌then◌else◌,
}
use agent_trust_fabric.Errors.{ok, ok-injective, bind_ok}
use agent_trust_fabric.Json.{Json, num, str, subscript, sort_keys}
use agent_trust_fabric.Json.Keys.{insert}
use agent_trust_fabric.Json.Keys.Idempotent.{sort_keys_idem}
use agent_trust_fabric.Runtime.{Runtime, IsSignatureScheme}
use agent_trust_fabric.Signing.{KeyPair, sign_envelope, verify_envelope}
use agent_trust_fabric.Signing.RoundTrip.{verify_envelope-sign_envelope}
use agent_trust_fabric.Audit.Event.{
  AuditEvent, event_content, signed_record, verify_record_signatures,
}
use agent_trust_fabric.Audit.Event.Received.{from_content-event_content}
use agent_trust_fabric.Audit.Log.Columns.{Row, Log, bind_text}
use agent_trust_fabric.Audit.Log.{
  find_row, replace_row, sign_only, append_pending, append_finalized, insert_event,
  finalize_pending, get_record, pending_peer_count,
}
use agent_trust_fabric.Audit.Log.Inserted.{
  IsInserted, insert_event→IsInserted, insert_event_fresh, new_row,
}
use agent_trust_fabric.Audit.Log.CrossSigned.{
  find_row-last, keys_of, both_verify, cosigned_verifies, own_record, peer_record, finalizes,
}
use agent_trust_fabric.Agent.{Agent, PeerRecord, own_id, peer}
use agent_trust_fabric.Json.Bytes.{canonical_json-sort_keys}
use agent_trust_fabric.Delegation.Claims.{DelegationClaims}
use agent_trust_fabric.Outcome.{Outcome, outcome_content}
use agent_trust_fabric.Outcome.Verified.{HasSchema}
use agent_trust_fabric.Prelude.Int.{pos}
use agent_trust_fabric.Outcome.Signed.{verify_outcome-signed}
use agent_trust_fabric.Agent.{verify_outcome_envelope, make_outcome}
use agent_trust_fabric.Wire.{Handled, HandlerSpec, Clock, Response, routed, route}
use agent_trust_fabric.Wire.Server.{
  answer, audit_cosign, outcome_envelope, invoke, with_log, handled_status, handled_payload,
  handled_reason,
}
use agent_trust_fabric.Wire.Client.{
  Stored, store_event, HttpResponse, HttpRequest, Ended, Call, invoke_request, client_invoke,
}
use agent_trust_fabric.Wire.Client.Accepts.{client_invoke_accepts}
use agent_trust_fabric.Wire.Executed.{IsExecuted, invoke→IsExecuted}

module _ ⦃rt : Runtime⦄ (a b : Agent) where
  -- The record that the delegator stores.
  abbrev pub delegator_record : AuditEvent → Json
  delegator_record event =
      signed_record (event_content event)
        (sign_only event a.keypair (own_id a) ∷ sign_only event b.keypair (own_id b) ∷ [])

  -- What the delegator stores of an answer.
  abbrev pub kept : AuditEvent → Row → Stored
  kept event row = record {
    event = event;
    my_sig = sign_only event a.keypair (own_id a);
    log = a.audit_log ++ row ∷ [];
  }

  -- The delegator stores an event that the delegatee could store, if its id is new.
  pub record IsStorable (event : AuditEvent) (id : String) : Type 0 where
    pub row : Row
    pub row_id : row.event_id ≡ some id
    pub holds : row.record_ ≡ sort_keys (delegator_record event)
    pub complete : row.pending_peer ≡ false
    pub stores :
        (request_id envelope : Json)
        → store_event
            (answer request_id envelope event (sign_only event b.keypair (own_id b)))
            (own_id b)
            a
          ≡ ok (kept event row)

  pub storable :
      (scheme : IsSignatureScheme rt)
      → b.keypair.public_key ≡ rt.public_key b.keypair.private_key
      → (event : AuditEvent) (id : String) (p : PeerRecord) (log pending_log : Log)
      → event.event_id ≡ str id
      → peer (str (own_id b)) a ≡ ok p
      → p.public_key ≡ b.keypair.public_key
      → append_pending event (sign_only event b.keypair (own_id b)) log ≡ ok pending_log
      → find_row (some id) a.audit_log ≡ none
      → IsStorable event id
  unfolding append_pending store_event append_finalized sign_only bind_text
  storable scheme own_b event id p log pending_log named known key stored new_id =
      let i = insert_event→IsInserted event _ true log pending_log stored in
      let row_id : i.row.event_id ≡ some id = ok-injective (sym i.id_bound ∙ ap bind_text named) in
      let r = i.row in
      let row =
        new_row event (delegator_record event) false a.audit_log r.event_id r.ts r.type
          r.token_jti in
      record {
        row = row;
        row_id = row_id;
        holds = refl;
        complete = refl;
        stores = λ request_id envelope. rw (
          from_content-event_content event,
          known,
          key,
          verify_envelope-sign_envelope scheme b.keypair own_b (event_content event)
              (event_content event) (own_id b) refl,
          insert_event_fresh event (delegator_record event) false a.audit_log r.event_id r.ts r.type
              r.token_jti i.id_bound i.ts_bound i.type_bound i.jti_bound
              (ap (λ k. find_row k a.audit_log) row_id ∙ new_id),
        );
      }

-- The schema that the delegator expects, if it expects one, is the handler's.
abbrev pub Expects : Option String → String → Type 0
Expects none schema_id = Unit
Expects (some expected) schema_id = expected ≡ schema_id

-- The outcome of the handler's run.
abbrev pub executed : ℕ → HandlerSpec → DelegationClaims → Handled → Outcome
executed now spec claims h = record {
  token_jti = str claims.jti;
  status = str (handled_status h);
  payload = handled_payload h;
  schema_id = str spec.schema_id;
  executed_at = num (pos now);
  reason = handled_reason h;
}

-- The response as the HTTP package delivers it.
abbrev pub received : Response → HttpResponse
received r = record { status_code = r.status; json = some r.body }

module _ ⦃rt : Runtime⦄ where
  -- How a delegation ends: the client returns the answer and pushes its signature, the delegatee
  -- takes it, as many events are pending as before, and both logs hold the event with the same
  -- content and both signatures.
  pub record IsCompleted (a b : Agent) (resp : Json) (ended : Ended) (served : Agent) : Type 0 where
    pub event_id : String
    pub pushed : Json
    pub content : Json
    pub a_record : Json
    pub b_record : Json
    pub returned : ended.result ≡ ok resp
    pub pushes : ended.pushed ≡ some pushed
    pub taken : (audit_cosign (some pushed) served).0.status ≡ 200
    pub a_holds : get_record (str event_id) ended.agent.audit_log ≡ ok (some a_record)
    pub b_holds :
        get_record (str event_id) (audit_cosign (some pushed) served).1.audit_log
        ≡ ok (some b_record)
    pub settled :
        pending_peer_count (audit_cosign (some pushed) served).1.audit_log
        ≡ pending_peer_count b.audit_log
    pub a_content : subscript a_record "content" ≡ ok content
    pub b_content : subscript b_record "content" ≡ ok content
    pub a_verifies :
        verify_record_signatures a_record (keys_of a.keypair b.keypair (own_id a) (own_id b))
        ≡ ok tt
    pub b_verifies :
        verify_record_signatures b_record (keys_of a.keypair b.keypair (own_id a) (own_id b))
        ≡ ok tt

  module _ (scheme : IsSignatureScheme rt) (a b : Agent)
      (own_a : a.keypair.public_key ≡ rt.public_key a.keypair.private_key)
      (own_b : b.keypair.public_key ≡ rt.public_key b.keypair.private_key)
      (distinct : own_id a ≢ own_id b) where
    executed_schema :
        (now : ℕ) (spec : HandlerSpec) (claims : DelegationClaims) (result : Handled)
        (expected : Option String)
        → Expects expected spec.schema_id
        → HasSchema (outcome_content (executed now spec claims result)) expected
    unfolding outcome_content
    executed_schema now spec claims result none expects = tt
    executed_schema now spec claims result (some expected) expects =
        ap (λ s. ok (some (str s))) (sym expects)

    pub delegator_verifies :
        (event : AuditEvent)
        → verify_record_signatures
            (sort_keys (delegator_record a b event))
            (keys_of a.keypair b.keypair (own_id a) (own_id b))
          ≡ ok tt
    unfolding verify_record_signatures sort_keys insert sign_envelope sign_only
    delegator_verifies event =
        (both_verify scheme a.keypair b.keypair own_a own_b (own_id a) (own_id b) distinct
          (event_content event) (sort_keys (event_content event))
          (canonical_json-sort_keys (event_content event))).1

    pub outcome_accepted :
        (now : ℕ) (spec : HandlerSpec) (claims : DelegationClaims) (result : Handled)
        (p : PeerRecord) (expected : Option String)
        → peer (str (own_id b)) a ≡ ok p
        → p.public_key ≡ b.keypair.public_key
        → Expects expected spec.schema_id
        → verify_outcome_envelope
            (outcome_envelope now spec claims result b)
            (str (own_id b))
            expected
            a
          ≡ ok (outcome_content (executed now spec claims result))
    unfolding verify_outcome_envelope make_outcome
    outcome_accepted now spec claims result p expected known key expects = rw (
      known,
      key,
      verify_outcome-signed scheme b.keypair own_b (executed now spec claims result) (own_id b)
          expected (executed_schema now spec claims result expected expects),
    )
