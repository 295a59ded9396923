-- ===== src/Wire/Completes/Taken.antt =====
-- The delegatee takes the delegator's signature.
use agent_trust_fabric.Prelude.{◌≡◌, ◌≢◌, refl, ap, ◌∙◌, some, [], ◌∷◌, String, ◌+◌}
use agent_trust_fabric.Errors.{Result, ok, >>=-ok}
use agent_trust_fabric.Json.{Json, str, dict, subscript, sort_keys}
use agent_trust_fabric.Json.Keys.Idempotent.{sort_keys_idem}
use agent_trust_fabric.Runtime.{Runtime, IsSignatureScheme}
use agent_trust_fabric.Signing.{KeyPair, sign_envelope}
use agent_trust_fabric.Audit.Event.{AuditEvent, event_content, verify_record_signatures}
use agent_trust_fabric.Audit.Log.Columns.{Row, Log, bind_text}
use agent_trust_fabric.Audit.Log.{
  replace_row, sign_only, append_pending, finalize_pending, get_record, pending_peer_count,
}
use agent_trust_fabric.Audit.Log.Cosign.{finalized_row, find_row-replace_row, content-sort_keys}
use agent_trust_fabric.Audit.Log.CrossSigned.{
  append_pending→IsPending, keys_of, cosigned_verifies, peer_record, finalizes,
}
use agent_trust_fabric.Audit.Log.Pending.{finalize_pending-count}
use agent_trust_fabric.Agent.{Agent, PeerRecord, own_id, peer}
use agent_trust_fabric.Wire.Server.{with_log, audit_cosign, cosign_event, cosigned_response}
use agent_trust_fabric.Wire.Twice.{peer-peers}
use agent_trust_fabric.Wire.Executed.{answered_with}
use agent_trust_fabric.Wire.Client.{cosign_body}
use agent_trust_fabric.Wire.Completes.{kept}

module _ ⦃rt : Runtime⦄ where
  signed_by-sign_only :
      (event : AuditEvent) (kp : KeyPair) (id : String)
      → subscript (sign_only event kp id) "signed_by" ≡ ok (str id)
  unfolding sign_only sign_envelope
  signed_by-sign_only event kp id = refl

  -- The steps of the endpoint.
  cosign_event_lem :
      (body event_id signature : Json) (signer : String) (b : Agent) (p : PeerRecord)
      {r : Result Log}
      → subscript body "event_id" ≡ ok event_id
      → subscript body "signature" ≡ ok signature
      → subscript signature "signed_by" ≡ ok (str signer)
      → peer (str signer) b ≡ ok p
      → finalize_pending event_id signature p.public_key b.audit_log ≡ r
      → cosign_event body b ≡ r
  unfolding cosign_event
  cosign_event_lem body event_id signature signer b p id_read signature_read signer_read known
        done =
      >>=-ok _ _ id_read
        (>>=-ok _ _ signature_read (>>=-ok _ _ signer_read (>>=-ok _ _ known done)))

  module _ (scheme : IsSignatureScheme rt) (a b : Agent)
      (own_a : a.keypair.public_key ≡ rt.public_key a.keypair.private_key)
      (own_b : b.keypair.public_key ≡ rt.public_key b.keypair.private_key)
      (distinct : own_id a ≢ own_id b) where
    -- The delegatee's log once it holds the delegator's signature.
    pub record IsTaken (event : AuditEvent) (id : String) (row : Row) (log : Log) : Type 0 where
      pub final : Log
      pub b_record : Json
      pub taken :
          audit_cosign (some (cosign_body (kept a b event row))) (with_log b log)
          ≡ (answered_with (dict (("status", str "ok") ∷ [])), with_log b final)
      pub held : get_record (str id) final ≡ ok (some b_record)
      pub one_less : pending_peer_count final + 1 ≡ pending_peer_count log
      pub content : subscript b_record "content" ≡ ok (sort_keys (event_content event))
      pub verifies :
          verify_record_signatures b_record (keys_of a.keypair b.keypair (own_id a) (own_id b))
          ≡ ok tt

    cosigns :
        (event : AuditEvent) (id : String) (row : Row) (p : PeerRecord) (log final : Log)
        → event.event_id ≡ str id
        → peer (str (own_id a)) b ≡ ok p
        → p.public_key ≡ a.keypair.public_key
        → finalize_pending (str id) (sign_only event a.keypair (own_id a)) a.keypair.public_key log
          ≡ ok final
        → audit_cosign (some (cosign_body (kept a b event row))) (with_log b log)
          ≡ (answered_with (dict (("status", str "ok") ∷ [])), with_log b final)
    unfolding audit_cosign
    cosigns event id row p log final named known key done =
        ap (cosigned_response (with_log b log)) (
          cosign_event_lem (cosign_body (kept a b event row)) (str id)
            (sign_only event a.keypair (own_id a)) (own_id a) (with_log b log) p (ap ok named) refl
            (signed_by-sign_only event a.keypair (own_id a))
            (peer-peers (str (own_id a)) b (with_log b log) refl ∙ known)
            (ap (λ k. finalize_pending (str id) (sign_only event a.keypair (own_id a)) k log) key
              ∙ done))

    pub takes :
        (event : AuditEvent) (id : String) (row : Row) (p : PeerRecord) (started log : Log)
        → event.event_id ≡ str id
        → peer (str (own_id a)) b ≡ ok p
        → p.public_key ≡ a.keypair.public_key
        → append_pending event (sign_only event b.keypair (own_id b)) started ≡ ok log
        → IsTaken event id row log
    unfolding sign_only get_record bind_text
    takes event id row p started log named known key stored =
        let content = event_content event in
        let i =
          append_pending→IsPending event (sign_only event b.keypair (own_id b)) id started log named
            stored in
        let new = finalized_row i.row (
          peer_record scheme a.keypair b.keypair own_a own_b (own_id a) (own_id b) distinct
            content) in
        let done =
          finalizes scheme a.keypair b.keypair own_a own_b (own_id a) (own_id b) distinct event id
            log i.row i.found i.waits i.stores in
        record {
          final = replace_row (some id) new log;
          b_record = new.record_;
          taken = cosigns event id row p log (replace_row (some id) new log) named known key done;
          one_less =
              finalize_pending-count (str id) (sign_only event a.keypair (own_id a))
                a.keypair.public_key log (replace_row (some id) new log) done;
          held = rw (find_row-replace_row (some id) log i.row new i.found refl);
          content =
              content-sort_keys (sort_keys content) (
                sign_envelope content b.keypair (own_id b)
                ∷ sign_envelope content a.keypair (own_id a)
                ∷ [])
              ∙ ap ok (sort_keys_idem content);
          verifies =
              cosigned_verifies scheme a.keypair b.keypair own_a own_b (own_id a) (own_id b)
                distinct content;
        }
