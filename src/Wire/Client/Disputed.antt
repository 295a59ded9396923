-- ===== src/Wire/Client/Disputed.antt =====
-- An outcome that the delegatee has not signed: the delegator records the dispute and refuses it.
use agent_trust_fabric.Prelude.{
  ◌≡◌, refl, true, false, Option, none, some, List, [], ◌∷◌, ◌++◌, String, arith, ℕ, ◌<◌,
}
use agent_trust_fabric.Prelude.Int.{pos}
use agent_trust_fabric.Errors.{Exc, Result, ok, err, outcome_invalid_signature}
use agent_trust_fabric.Json.{Json, str, subscript}
use agent_trust_fabric.Runtime.{Runtime}
use agent_trust_fabric.Signing.{sign_envelope, verify_envelope}
use agent_trust_fabric.Audit.Event.{Stamp, new_event_id, event_content, signed_record}
use agent_trust_fabric.Audit.Log.Columns.{Row, fits, bind_text, bind_integer}
use agent_trust_fabric.Audit.Log.{find_row, append_self}
use agent_trust_fabric.Audit.Log.Inserted.{insert_event_fresh, new_row}
use agent_trust_fabric.Outcome.{verify_outcome}
use agent_trust_fabric.Agent.{Agent, PeerRecord, own_id, peer, verify_outcome_envelope}
use agent_trust_fabric.Wire.Server.{with_log}
use agent_trust_fabric.Wire.Client.{
  HttpRequest, HttpResponse, Call, failed, disputed_event, response_body, invoke_request,
  client_invoke,
}

module _ ⦃rt : Runtime⦄ where
  unsigned :
      (outcome content signature : Json) (key : List ℕ) (expected : Option String) (e : Exc)
      → subscript outcome "outcome" ≡ ok content
      → subscript outcome "signature" ≡ ok signature
      → verify_envelope content signature key ≡ err e
      → verify_outcome outcome key expected ≡ err outcome_invalid_signature
  unfolding verify_outcome
  unsigned outcome content signature key expected e content_read signature_read refused =
      rw (content_read, signature_read, refused)

  refused_by :
      (a : Agent) (outcome : Json) (id : String) (p : PeerRecord) (expected : Option String)
      → peer (str id) a ≡ ok p
      → verify_outcome outcome p.public_key expected ≡ err outcome_invalid_signature
      → verify_outcome_envelope outcome (str id) expected a ≡ err outcome_invalid_signature
  unfolding verify_outcome_envelope
  refused_by a outcome id p expected known refused = rw known refused

  below_400 :
      (r : HttpResponse) (resp : Json)
      → r.status_code < 400
      → r.json ≡ some resp
      → response_body r ≡ ok resp
  unfolding response_body
  below_400 r resp small parsed = rw parsed (ground arith)

  -- If the outcome of a response below 400 holds a signature that does not verify with the called
  -- peer's key, for a token whose jti is a text, the client's invoke raises
  -- OutcomeInvalidSignature, pushes nothing, and changes of the agent only the log, which has one
  -- row more, not pending, of type delegation.disputed with the token's jti. The event has a new
  -- id and its time fits into the column.
  pub client_invoke_disputed :
      (stamp : Stamp) (detail j : String) (call : Call)
      (http_post : HttpRequest → Result HttpResponse) (a : Agent) (request : HttpRequest)
      (r : HttpResponse) (resp outcome content signature : Json) (p : PeerRecord) (e : Exc)
      → invoke_request call ≡ ok (str j, request)
      → http_post request ≡ ok r
      → r.status_code < 400
      → r.json ≡ some resp
      → subscript resp "outcome" ≡ ok outcome
      → peer (str call.delegatee_id) a ≡ ok p
      → subscript outcome "outcome" ≡ ok content
      → subscript outcome "signature" ≡ ok signature
      → verify_envelope content signature p.public_key ≡ err e
      → fits (pos stamp.ts) ≡ true
      → find_row (some (new_event_id stamp)) a.audit_log ≡ none
      → (row : Row) × (client_invoke stamp detail call http_post a
          ≡ failed (err outcome_invalid_signature) (with_log a (a.audit_log ++ row ∷ [])))
        × (row.type ≡ "delegation.disputed")
        × (row.token_jti ≡ some j)
        × (row.pending_peer ≡ false)
  unfolding client_invoke append_self bind_text bind_integer
  client_invoke_disputed stamp detail j call http_post a request r resp outcome content signature p
        e sent answered small parsed read known content_read signature_read refused fit new_id =
      let event = disputed_event stamp detail (str j) call.delegatee_id a in
      let sig = sign_envelope (event_content event) a.keypair (own_id a) in
      let record_ = signed_record (event_content event) (sig ∷ []) in
      (
        new_row event record_ false a.audit_log (some (new_event_id stamp)) (pos stamp.ts)
            "delegation.disputed" (some j),
        rw (
          sent,
          answered,
          below_400 r resp small parsed,
          read,
          refused_by a outcome call.delegatee_id p call.expected_schema_id known (
              unsigned outcome content signature p.public_key call.expected_schema_id e content_read
                signature_read refused),
          insert_event_fresh event record_ false a.audit_log (some (new_event_id stamp))
              (pos stamp.ts) "delegation.disputed" (some j) refl (rw fit refl) refl refl new_id,
        ),
        refl,
        refl,
        refl,
      )
