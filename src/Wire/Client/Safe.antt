-- ===== src/Wire/Client/Safe.antt =====
-- What `ATFClient.invoke` does to the delegator, whatever the server answers.
use agent_trust_fabric.Prelude.{◌≡◌, refl, sym, String}
use agent_trust_fabric.Errors.{
  Result, ok, err, ◌>>=◌, bind_ok, ok-injective, outcome_invalid_signature,
}
use agent_trust_fabric.Json.{Json, str, subscript}
use agent_trust_fabric.Runtime.{Runtime}
use agent_trust_fabric.Audit.Event.{AuditEvent, Stamp, from_content}
use agent_trust_fabric.Audit.Log.Columns.{Log}
use agent_trust_fabric.Audit.Log.{append_self, append_finalized, sign_only}
use agent_trust_fabric.Audit.Log.Appends.{self, finalized}
use agent_trust_fabric.Agent.{Agent, PeerRecord, own_id, peer}
use agent_trust_fabric.Wire.Safe.{IsJournaled, unchanged, one_step}
use agent_trust_fabric.Wire.Client.{
  HttpRequest, HttpResponse, Call, disputed_event, after_dispute, Stored, after_storing,
  invoke_request, store_event, after_verdict, after_outcome, response_body, after_body,
  after_request, client_invoke,
}

module _ ⦃rt : Runtime⦄ where
  -- What `store_event` has checked and written.
  pub record IsStored (resp : Json) (delegatee_id : String) (a : Agent) (s : Stored) : Type 0 where
    pub audit_event : Json
    pub content : Json
    pub peer_sig : Json
    pub p : PeerRecord
    pub event_read : subscript resp "audit_event" ≡ ok audit_event
    pub content_read : subscript audit_event "content" ≡ ok content
    pub signature_read : subscript audit_event "signature" ≡ ok peer_sig
    pub built : from_content content ≡ ok s.event
    pub signed : s.my_sig ≡ sign_only s.event a.keypair (own_id a)
    pub peer_known : peer (str delegatee_id) a ≡ ok p
    pub appended : append_finalized s.event s.my_sig peer_sig p.public_key a.audit_log ≡ ok s.log

  pub store_event→IsStored :
      (resp : Json) (delegatee_id : String) (a : Agent) (s : Stored)
      → store_event resp delegatee_id a ≡ ok s
      → IsStored resp delegatee_id a s
  unfolding store_event
  store_event→IsStored resp delegatee_id a s h =
      bind_ok (subscript resp "audit_event") _ h λ ae ae_ok h₁.
        bind_ok (subscript ae "content") _ h₁ λ content content_ok h₂.
          bind_ok (subscript ae "signature") _ h₂ λ peer_sig sig_ok h₃.
            bind_ok (from_content content) _ h₃ λ event event_ok h₄.
              bind_ok (peer (str delegatee_id) a) _ h₄ λ p p_ok h₅.
                bind_ok
                  (append_finalized event (sign_only event a.keypair (own_id a)) peer_sig
                    p.public_key a.audit_log)
                  _ h₅
                  λ log log_ok h₆.
                    built_of ae content peer_sig event p log ae_ok content_ok sig_ok event_ok p_ok
                      log_ok (ok-injective h₆)
    where
      built_of :
          (ae content peer_sig : Json) (event : AuditEvent) (p : PeerRecord) (log : Log)
          → subscript resp "audit_event" ≡ ok ae
          → subscript ae "content" ≡ ok content
          → subscript ae "signature" ≡ ok peer_sig
          → from_content content ≡ ok event
          → peer (str delegatee_id) a ≡ ok p
          → append_finalized event
              (sign_only event a.keypair (own_id a))
              peer_sig
              p.public_key
              a.audit_log
            ≡ ok log
          → record { event = event; my_sig = sign_only event a.keypair (own_id a); log = log } ≡ s
          → IsStored resp delegatee_id a s
      built_of ae content peer_sig event p log e₁ e₂ e₃ e₄ e₅ e₆ e = rw (sym e) (record {
        audit_event = ae;
        content = content;
        peer_sig = peer_sig;
        p = p;
        event_read = e₁;
        content_read = e₂;
        signature_read = e₃;
        built = e₄;
        signed = refl;
        peer_known = e₅;
        appended = e₆;
      })

  module _ (stamp : Stamp) (detail : String) (call : Call) (a : Agent) where
    storing-IsJournaled :
        (resp : Json) (r : Result Stored)
        → store_event resp call.delegatee_id a ≡ r
        → IsJournaled a (after_storing call.cosign resp a r).agent
    storing-IsJournaled resp (err e) h = unchanged a
    storing-IsJournaled resp (ok s) h =
        let i = store_event→IsStored resp call.delegatee_id a s h in
        one_step a s.log (finalized s.event s.my_sig i.peer_sig i.p.public_key i.appended)

    dispute-IsJournaled :
        (event : AuditEvent) (r : Result Log)
        → append_self event a.keypair (own_id a) a.audit_log ≡ r
        → IsJournaled a (after_dispute a r).agent
    dispute-IsJournaled event (err e) h = unchanged a
    dispute-IsJournaled event (ok log) h = one_step a log (self event a.keypair (own_id a) h)

    verdict-IsJournaled :
        (jti resp : Json) (r : Result Json)
        → IsJournaled a (after_verdict stamp detail call jti resp a r).agent
    verdict-IsJournaled jti resp (ok _) = storing-IsJournaled resp _ refl
    verdict-IsJournaled jti resp (err outcome_invalid_signature) =
        dispute-IsJournaled (disputed_event stamp detail jti call.delegatee_id a) _ refl
    verdict-IsJournaled jti resp (err _) = unchanged a

    outcome-IsJournaled :
        (jti resp : Json) (r : Result Json)
        → IsJournaled a (after_outcome stamp detail call jti resp a r).agent
    outcome-IsJournaled jti resp (err e) = unchanged a
    outcome-IsJournaled jti resp (ok outcome) = verdict-IsJournaled jti resp _

    body-IsJournaled :
        (jti : Json) (r : Result Json) → IsJournaled a (after_body stamp detail call jti a r).agent
    body-IsJournaled jti (err e) = unchanged a
    body-IsJournaled jti (ok resp) = outcome-IsJournaled jti resp _

    request-IsJournaled :
        (http_post : HttpRequest → Result HttpResponse) (r : Result (Json × HttpRequest))
        → IsJournaled a (after_request stamp detail call http_post a r).agent
    request-IsJournaled http_post (err e) = unchanged a
    request-IsJournaled http_post (ok (jti, request)) =
        body-IsJournaled jti (do r ← http_post request; response_body r)

    -- Whatever the server answers to the client's invoke, and however the call ends, it changes of
    -- the delegator only the log, and the log only by calls of its operations.
    pub client_invoke-IsJournaled :
        (http_post : HttpRequest → Result HttpResponse)
        → IsJournaled a (client_invoke stamp detail call http_post a).agent
    unfolding client_invoke
    client_invoke-IsJournaled http_post = request-IsJournaled http_post (invoke_request call)
