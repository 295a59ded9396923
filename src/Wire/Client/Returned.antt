-- ===== src/Wire/Client/Returned.antt =====
-- What a call of the client that returns has checked, stored and sent.
use agent_trust_fabric.Prelude.{
  ℕ, ◌≡◌, refl, ap, sym, ◌∙◌, false, none, some, [], ◌∷◌, ◌++◌, String, if◌then◌else◌, arith, leb,
  ◌<◌,
}
use agent_trust_fabric.Errors.{
  Result, ok, err, ◌>>=◌, bind_ok, ok-injective, raise_if, raise_if-eq-ok, raise_as, raise_as-eq-ok,
  or_raise-eq-ok, atf_error, json_decode_error, cross_sign_failed, outcome_invalid_signature,
}
use agent_trust_fabric.Json.{Json, str, subscript, sort_keys}
use agent_trust_fabric.Runtime.{Runtime}
use agent_trust_fabric.Signing.{verify_envelope}
use agent_trust_fabric.Audit.Event.{AuditEvent, Stamp, event_content, signed_record, from_content}
use agent_trust_fabric.Audit.Log.Columns.{Row, Log}
use agent_trust_fabric.Audit.Log.{append_finalized, sign_only}
use agent_trust_fabric.Audit.Log.Inserted.{insert_event→IsInserted}
use agent_trust_fabric.Outcome.{verify_outcome}
use agent_trust_fabric.Agent.{Agent, PeerRecord, own_id, peer, verify_outcome_envelope}
use agent_trust_fabric.Wire.Client.{
  HttpRequest, HttpResponse, Call, Ended, after_dispute, Stored, cosign_body, after_storing,
  invoke_request, store_event, after_verdict, after_outcome, response_body, after_body,
  after_request, client_invoke,
}
use agent_trust_fabric.Wire.Client.Safe.{store_event→IsStored}

module _ ⦃rt : Runtime⦄ where
  -- A response that the client accepts, and what the call ends in.
  pub record IsReturned (call : Call) (http_post : HttpRequest → Result HttpResponse) (a : Agent)
      (resp : Json) (ended : Ended) : Type 0 where
    pub jti : Json
    pub request : HttpRequest
    pub response : HttpResponse
    pub sent : invoke_request call ≡ ok (jti, request)
    pub answered : http_post request ≡ ok response
    pub status : response.status_code < 400
    pub parsed : response.json ≡ some resp
    pub p : PeerRecord
    pub peer_known : peer (str call.delegatee_id) a ≡ ok p
    pub outcome : Json
    pub verified_content : Json
    pub outcome_read : subscript resp "outcome" ≡ ok outcome
    pub verified : verify_outcome outcome p.public_key call.expected_schema_id ≡ ok verified_content
    pub audit_event : Json
    pub content : Json
    pub peer_sig : Json
    pub event_read : subscript resp "audit_event" ≡ ok audit_event
    pub content_read : subscript audit_event "content" ≡ ok content
    pub signature_read : subscript audit_event "signature" ≡ ok peer_sig
    pub event : AuditEvent
    pub built : from_content content ≡ ok event
    pub signed : verify_envelope (event_content event) peer_sig p.public_key ≡ ok tt
    pub row : Row
    pub appended : ended.agent.audit_log ≡ a.audit_log ++ row ∷ []
    pub holds :
        row.record_
        ≡ sort_keys (
            signed_record
              (event_content event)
              (sign_only event a.keypair (own_id a) ∷ peer_sig ∷ []))
    pub complete : row.pending_peer ≡ false
    pub pushed : ended.pushed ≡ (
        if call.cosign
        then some (
            cosign_body (record {
              event = event;
              my_sig = sign_only event a.keypair (own_id a);
              log = ended.agent.audit_log;
            }))
        else none)

  below : (n : ℕ) → leb 400 n ≡ false → n < 400
  below n h = ground arith

  module _ (stamp : Stamp) (detail : String) (call : Call)
      (http_post : HttpRequest → Result HttpResponse) (a : Agent) (resp : Json) where
    -- Once the outcome is verified.
    IsReturned-storing :
        (jti outcome outcome_content : Json) (request : HttpRequest) (response : HttpResponse)
        (answer : Json) (p : PeerRecord) (r : Result Stored)
        → invoke_request call ≡ ok (jti, request)
        → http_post request ≡ ok response
        → response.status_code < 400
        → response.json ≡ some answer
        → subscript answer "outcome" ≡ ok outcome
        → peer (str call.delegatee_id) a ≡ ok p
        → verify_outcome outcome p.public_key call.expected_schema_id ≡ ok outcome_content
        → store_event answer call.delegatee_id a ≡ r
        → (after_storing call.cosign answer a r).result ≡ ok resp
        → IsReturned call http_post a resp (after_storing call.cosign answer a r)
    unfolding append_finalized
    IsReturned-storing jti outcome outcome_content request response answer p (err e) sent answered
          status parsed read known verified h s =
        absurd (cc)
    IsReturned-storing jti outcome outcome_content request response answer p (ok stored) sent
          answered status parsed read known verified h s =
        let i = store_event→IsStored answer call.delegatee_id a stored h in
        let same_peer : i.p ≡ p = ok-injective (sym i.peer_known ∙ known) in
        let same : answer ≡ resp = ok-injective s in
        bind_ok
          (raise_as cross_sign_failed
            (verify_envelope (event_content stored.event) i.peer_sig i.p.public_key))
          _ i.appended
          λ _ verified_ok inserted.
            let ins =
              insert_event→IsInserted stored.event _ false a.audit_log stored.log inserted in
            record {
              jti = jti;
              request = request;
              response = response;
              sent = sent;
              answered = answered;
              status = status;
              parsed = parsed ∙ ap some same;
              p = p;
              peer_known = known;
              outcome = outcome;
              verified_content = outcome_content;
              outcome_read = ap (λ v. subscript v "outcome") (sym same) ∙ read;
              verified = verified;
              audit_event = i.audit_event;
              content = i.content;
              peer_sig = i.peer_sig;
              event_read = ap (λ v. subscript v "audit_event") (sym same) ∙ i.event_read;
              content_read = i.content_read;
              signature_read = i.signature_read;
              event = stored.event;
              built = i.built;
              signed =
                  ap
                    (λ (q : PeerRecord).
                      verify_envelope (event_content stored.event) i.peer_sig q.public_key)
                    (sym same_peer)
                  ∙ raise_as-eq-ok cross_sign_failed _ verified_ok;
              row = ins.row;
              appended = ins.appended;
              holds =
                  ins.stores
                  ∙ ap
                      (λ m.
                        sort_keys
                          (signed_record (event_content stored.event) (m ∷ i.peer_sig ∷ [])))
                      i.signed;
              complete = ins.flagged;
              pushed = rw (sym i.signed);
            }

    IsReturned-verdict :
        (jti outcome : Json) (request : HttpRequest) (response : HttpResponse) (answer : Json)
        (r : Result Json)
        → invoke_request call ≡ ok (jti, request)
        → http_post request ≡ ok response
        → response.status_code < 400
        → response.json ≡ some answer
        → subscript answer "outcome" ≡ ok outcome
        → verify_outcome_envelope outcome (str call.delegatee_id) call.expected_schema_id a ≡ r
        → (after_verdict stamp detail call jti answer a r).result ≡ ok resp
        → IsReturned call http_post a resp (after_verdict stamp detail call jti answer a r)
    unfolding verify_outcome_envelope
    IsReturned-verdict jti outcome request response answer (ok content) sent answered status parsed
          read h s =
        bind_ok (peer (str call.delegatee_id) a) _ h λ p known verified.
          IsReturned-storing jti outcome content request response answer p _ sent answered status
            parsed read known verified refl s
    IsReturned-verdict jti outcome request response answer (err outcome_invalid_signature) sent
          answered status parsed read h s =
        absurd (dispute_fails _ s)
      where
        dispute_fails : (r : Result Log) → ¬ ((after_dispute a r).result ≡ ok resp)
        dispute_fails (ok log) e = absurd (cc)
        dispute_fails (err e) k = absurd (cc)
    IsReturned-verdict jti outcome request response answer (err _) sent answered status parsed read
          h s =
        absurd (cc)

    IsReturned-outcome :
        (jti : Json) (request : HttpRequest) (response : HttpResponse) (answer : Json)
        (r : Result Json)
        → invoke_request call ≡ ok (jti, request)
        → http_post request ≡ ok response
        → response.status_code < 400
        → response.json ≡ some answer
        → subscript answer "outcome" ≡ r
        → (after_outcome stamp detail call jti answer a r).result ≡ ok resp
        → IsReturned call http_post a resp (after_outcome stamp detail call jti answer a r)
    IsReturned-outcome jti request response answer (err e) sent answered status parsed read s =
        absurd (cc)
    IsReturned-outcome jti request response answer (ok outcome) sent answered status parsed read s =
        IsReturned-verdict jti outcome request response answer _ sent answered status parsed read
          refl s

    IsReturned-body :
        (jti : Json) (request : HttpRequest) (r : Result Json)
        → invoke_request call ≡ ok (jti, request)
        → (do response ← http_post request; response_body response) ≡ r
        → (after_body stamp detail call jti a r).result ≡ ok resp
        → IsReturned call http_post a resp (after_body stamp detail call jti a r)
    unfolding response_body
    IsReturned-body jti request (err e) sent h s = absurd (cc)
    IsReturned-body jti request (ok answer) sent h s =
        bind_ok (http_post request) _ h λ response answered h₁.
          bind_ok (raise_if (leb 400 response.status_code) atf_error) _ h₁ λ _ small parsed.
            IsReturned-outcome jti request response answer _ sent answered
              (below response.status_code (raise_if-eq-ok _ atf_error small))
              (or_raise-eq-ok response.json json_decode_error parsed) refl s

    IsReturned-request :
        (r : Result (Json × HttpRequest))
        → invoke_request call ≡ r
        → (after_request stamp detail call http_post a r).result ≡ ok resp
        → IsReturned call http_post a resp (after_request stamp detail call http_post a r)
    IsReturned-request (err e) sent s = absurd (cc)
    IsReturned-request (ok (jti, request)) sent s = IsReturned-body jti request _ sent refl s

    -- If the client's invoke returns a response, then the response came with a status below 400,
    -- its outcome passes verify_outcome with the key of the peer that was called and the expected
    -- schema, and its audit event carries a signature of that key over the event's content; the
    -- log has one row more, not pending, with the record of the event and both signatures; and the
    -- own signature is pushed exactly if cosigning was asked for.
    pub client_invoke-eq-ok :
        (client_invoke stamp detail call http_post a).result ≡ ok resp
        → IsReturned call http_post a resp (client_invoke stamp detail call http_post a)
    unfolding client_invoke
    client_invoke-eq-ok s = IsReturned-request (invoke_request call) refl s
