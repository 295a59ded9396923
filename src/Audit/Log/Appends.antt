-- ===== src/Audit/Log/Appends.antt =====
-- The log is append-only: over any sequence of operations every row keeps its place, its event, its
-- content and its hashes, and no event id is there twice.
use agent_trust_fabric.Prelude.{
  ◌≡◌, refl, ap, sym, ◌∙◌, Bool, true, false, List, [], ◌∷◌, ◌++◌, String, ℕ,
}
use agent_trust_fabric.Errors.{ok, bind_ok, raise_as, cross_sign_failed}
use agent_trust_fabric.Json.{Json, subscript, sort_keys}
use agent_trust_fabric.Json.Keys.Idempotent.{sort_keys_idem}
use agent_trust_fabric.Runtime.{Runtime}
use agent_trust_fabric.Signing.{KeyPair, verify_envelope}
use agent_trust_fabric.Audit.Event.{AuditEvent, event_content}
use agent_trust_fabric.Audit.Log.Columns.{Row, Log}
use agent_trust_fabric.Audit.Log.{
  cosigned, insert_event, append_self, append_pending, append_finalized, finalize_pending,
}
use agent_trust_fabric.Audit.Log.Inserted.{insert_event→IsInserted}
use agent_trust_fabric.Audit.Log.Cosign.{
  finalize_pending→IsFinalized, finalized_row, cosigned→IsCosigned, content-sort_keys,
}
use agent_trust_fabric.Audit.Log.Rows.{All-last, All-replace, All-found}
use agent_trust_fabric.Audit.Log.Kept.{
  FromText, IsWellFormed, IsKept, Extends, HasUniqueIds-append, HasUniqueIds-replace,
  Extends-replace, Extends-append, Extends-refl, Extends-trans, subscript_fixed,
}

module _ ⦃rt : Runtime⦄ where
  -- One successful call of an operation that writes.
  pub data Step : Log → Log → Type 0 where
    self :
        (event : AuditEvent) (kp : KeyPair) (signer : String) {log log' : Log}
        → append_self event kp signer log ≡ ok log'
        → Step log log'
    pending :
        (event : AuditEvent) (my_signature : Json) {log log' : Log}
        → append_pending event my_signature log ≡ ok log'
        → Step log log'
    finalized :
        (event : AuditEvent) (my_signature peer_signature : Json) (peer_key : List ℕ)
        {log log' : Log}
        → append_finalized event my_signature peer_signature peer_key log ≡ ok log'
        → Step log log'
    cosign :
        (event_id peer_signature : Json) (peer_key : List ℕ) {log log' : Log}
        → finalize_pending event_id peer_signature peer_key log ≡ ok log'
        → Step log log'

  -- Any number of calls.
  pub data Steps : Log → Log → Type 0 where
    stop : {log : Log} → Steps log log
    step : {log log' log'' : Log} → Step log log' → Steps log' log'' → Steps log log''

  -- What a call keeps.
  record IsSafe (log log' : Log) : Type 0 where
    kept : Extends log log'
    well_formed : IsWellFormed log'

  insert-IsSafe :
      (event : AuditEvent) (record_ : Json) (is_pending : Bool) (log log' : Log)
      → IsWellFormed log
      → insert_event event record_ is_pending log ≡ ok log'
      → IsSafe log log'
  insert-IsSafe event record_ is_pending log log' w h =
      let i = insert_event→IsInserted event record_ is_pending log log' h in
      let stores = ap sort_keys i.stores ∙ sort_keys_idem record_ ∙ sym i.stores in
      rw i.appended (record {
        kept = Extends-append log (i.row ∷ []);
        well_formed = record {
          unique = HasUniqueIds-append log i.row w.unique i.new_id;
          stored = All-last FromText log i.row w.stored stores;
        };
      })

  pub IsKept-finalized :
      (row : Row) (peer_signature new_record : Json)
      → sort_keys row.record_ ≡ row.record_
      → cosigned row.record_ peer_signature ≡ ok new_record
      → IsKept row (finalized_row row new_record)
  IsKept-finalized row peer_signature new_record fixed h =
      let c = cosigned→IsCosigned row.record_ peer_signature new_record h in
      let same = subscript_fixed row.record_ c.content "content" fixed c.content_read in
      record {
        event_id = refl;
        ts = refl;
        type = refl;
        token_jti = refl;
        prev_hash = refl;
        chain_hash = refl;
        content =
            ap (λ r. subscript (sort_keys r) "content") c.built
            ∙ content-sort_keys c.content (c.signatures ++ c.more)
            ∙ ap ok same
            ∙ sym c.content_read;
        pending = λ _. refl;
      }

  finalize-IsSafe :
      (event_id peer_signature : Json) (peer_key : List ℕ) (log log' : Log)
      → IsWellFormed log
      → finalize_pending event_id peer_signature peer_key log ≡ ok log'
      → IsSafe log log'
  finalize-IsSafe event_id peer_signature peer_key log log' w h =
      let f = finalize_pending→IsFinalized event_id peer_signature peer_key log log' h in
      let fixed = All-found FromText f.id log f.row w.stored f.found in
      let new = finalized_row f.row f.new_record in
      rw f.replaced (record {
        kept =
            Extends-replace f.id f.row new log f.found
              (IsKept-finalized f.row peer_signature f.new_record fixed f.signed);
        well_formed = record {
          unique = HasUniqueIds-replace f.id f.row new refl log f.found w.unique;
          stored = All-replace FromText f.id new log (sort_keys_idem f.new_record) w.stored;
        };
      })

  step-IsSafe : {log log' : Log} → IsWellFormed log → Step log log' → IsSafe log log'
  unfolding append_self append_pending append_finalized
  step-IsSafe {log} {log'} w (self event kp signer h) = insert-IsSafe event _ false log log' w h
  step-IsSafe {log} {log'} w (pending event my_signature h) =
      insert-IsSafe event _ true log log' w h
  step-IsSafe {log} {log'} w (finalized event my_signature peer_signature peer_key h) =
      bind_ok
        (raise_as cross_sign_failed (verify_envelope (event_content event) peer_signature peer_key))
        _ h λ _ _ inserted. insert-IsSafe event _ false log log' w inserted
  step-IsSafe {log} {log'} w (cosign event_id peer_signature peer_key h) =
      finalize-IsSafe event_id peer_signature peer_key log log' w h

  -- Any sequence of successful writes keeps the log well-formed: no two rows have the same event
  -- id, and each stored record is a value read back from its text.
  pub steps_keep-IsWellFormed :
      {log log' : Log} → IsWellFormed log → Steps log log' → IsWellFormed log'
  steps_keep-IsWellFormed w stop = w
  steps_keep-IsWellFormed w (step s ss) = steps_keep-IsWellFormed (step-IsSafe w s).well_formed ss

  -- From a well-formed log, any sequence of successful append_self, append_pending,
  -- append_finalized and finalize_pending calls keeps every row at its place with its event id,
  -- time, type, jti, content and both hashes; a finalized row stays finalized; rows are only added
  -- after them.
  pub steps_only_append : {log log' : Log} → IsWellFormed log → Steps log log' → Extends log log'
  steps_only_append {log} w stop = Extends-refl log
  steps_only_append {log} {log'} w (step {log' = mid} s ss) =
      let safe = step-IsSafe w s in
      Extends-trans log mid log' safe.kept (steps_only_append safe.well_formed ss)
