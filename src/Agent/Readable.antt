-- ===== src/Agent/Readable.antt =====
-- In a log that this program writes, every record's content can be searched.
use agent_trust_fabric.Prelude.{
  ◌≡◌, refl, ap, ◌∙◌, Bool, true, false, Option, some, List, [], ◌∷◌, String, All,
}
use agent_trust_fabric.Errors.{ok, bind_ok, raise_as, cross_sign_failed}
use agent_trust_fabric.Json.{Json, Fields, null, obj, arr, lookup, subscript, or_else, sort_keys}
use agent_trust_fabric.Json.Keys.{insert}
use agent_trust_fabric.Runtime.{Runtime}
use agent_trust_fabric.Signing.{verify_envelope, sign_envelope}
use agent_trust_fabric.Audit.Event.{AuditEvent, event_content, signed_record}
use agent_trust_fabric.Audit.Log.Columns.{Row, Log, bind_text}
use agent_trust_fabric.Audit.Log.{
  hashable, insert_event, append_self, append_pending, append_finalized,
}
use agent_trust_fabric.Audit.Log.Inserted.{IsInserted, insert_event→IsInserted}
use agent_trust_fabric.Audit.Log.Cosign.{finalize_pending→IsFinalized, finalized_row}
use agent_trust_fabric.Audit.Log.Kept.{IsWellFormed, IsKept, fields_of, FromText}
use agent_trust_fabric.Audit.Log.Appends.{
  Step, Steps, self, pending, finalized, cosign, stop, step, IsKept-finalized,
  steps_keep-IsWellFormed,
}
use agent_trust_fabric.Audit.Log.Rows.{All-last, All-replace, All-found}
use agent_trust_fabric.Agent.Uses.{IsReadable}

-- The fields of an event's content, as they are read back.
unfoldable pub content_fields : AuditEvent → Fields
content_fields e = fields_of (sort_keys (event_content e))

pub content_read :
    (e : AuditEvent) (signatures : List Json)
    → subscript (sort_keys (signed_record (event_content e) signatures)) "content"
      ≡ ok (obj (content_fields e))
unfolding content_fields fields_of sort_keys insert event_content
content_read e signatures = refl

pub content_type : (e : AuditEvent) → lookup "type" (content_fields e) ≡ some (sort_keys e.type)
unfolding content_fields fields_of sort_keys insert event_content
content_type e = refl

pub content_jti :
    (e : AuditEvent) → lookup "token_jti" (content_fields e) ≡ some (sort_keys e.token_jti)
unfolding content_fields fields_of sort_keys insert event_content
content_jti e = refl

-- What is bound to a text column can be hashed.
bound_hashable :
    (v : Json) (t : Option String) → bind_text v ≡ ok t → hashable (sort_keys v) ≡ ok tt
unfolding bind_text hashable sort_keys
bound_hashable (arr _) t h = absurd (cc)
bound_hashable (obj _) t h = absurd (cc)
bound_hashable _ t h = refl

module _ ⦃rt : Runtime⦄ where
  pub IsInserted-IsReadable :
      (event : AuditEvent) (signatures : List Json) (is_pending : Bool) (log log' : Log)
      (i : IsInserted event (signed_record (event_content event) signatures) is_pending log log')
      → IsReadable i.row
  IsInserted-IsReadable event signatures is_pending log log' i = record {
    fs = content_fields event;
    content_read = ap (λ v. subscript v "content") i.stores ∙ content_read event signatures;
    type_hashed =
        ap (λ o. hashable (or_else o null)) (content_type event)
        ∙ bound_hashable event.type _ i.type_bound;
  }

  insert_keeps :
      (event : AuditEvent) (signatures : List Json) (is_pending : Bool) (log log' : Log)
      → All IsReadable log
      → insert_event event (signed_record (event_content event) signatures) is_pending log ≡ ok log'
      → All IsReadable log'
  insert_keeps event signatures is_pending log log' h e =
      let i = insert_event→IsInserted event _ is_pending log log' e in
      rw i.appended (
        All-last IsReadable log i.row h
          (IsInserted-IsReadable event signatures is_pending log log' i))

  IsReadable-kept : (r s : Row) → IsKept r s → IsReadable r → IsReadable s
  IsReadable-kept r s k h = record {
    fs = h.fs;
    content_read = k.content ∙ h.content_read;
    type_hashed = h.type_hashed;
  }

  step_keeps :
      {log log' : Log} → IsWellFormed log → All IsReadable log → Step log log' → All IsReadable log'
  unfolding append_self append_pending append_finalized
  step_keeps {log} {log'} w h (self event kp signer e) =
      insert_keeps event (sign_envelope (event_content event) kp signer ∷ []) false log log' h e
  step_keeps {log} {log'} w h (pending event my_signature e) =
      insert_keeps event (my_signature ∷ []) true log log' h e
  step_keeps {log} {log'} w h (finalized event my_signature peer_signature peer_key e) =
      bind_ok
        (raise_as cross_sign_failed (verify_envelope (event_content event) peer_signature peer_key))
        _ e
        λ _ _ inserted.
          insert_keeps event (my_signature ∷ peer_signature ∷ []) false log log' h inserted
  step_keeps {log} {log'} w h (cosign event_id peer_signature peer_key e) =
      let f = finalize_pending→IsFinalized event_id peer_signature peer_key log log' e in
      let fixed = All-found FromText f.id log f.row w.stored f.found in
      let kept = IsKept-finalized f.row peer_signature f.new_record fixed f.signed in
      rw f.replaced (
        All-replace IsReadable f.id (finalized_row f.row f.new_record) log
          (IsReadable-kept f.row (finalized_row f.row f.new_record) kept
            (All-found IsReadable f.id log f.row h f.found))
          h)

  pub steps_keep-IsReadable :
      {log log' : Log}
      → IsWellFormed log
      → All IsReadable log
      → Steps log log'
      → All IsReadable log'
  steps_keep-IsReadable w h stop = h
  steps_keep-IsReadable w h (step s ss) =
      steps_keep-IsReadable (steps_keep-IsWellFormed w (step s stop)) (step_keeps w h s) ss
