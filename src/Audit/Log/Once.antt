-- ===== src/Audit/Log/Once.antt =====
-- `finalize_pending` finalizes an event once.
use agent_trust_fabric.Prelude.{◌≡◌, refl, List, ℕ}
use agent_trust_fabric.Errors.{ok, err, audit_error}
use agent_trust_fabric.Json.{Json}
use agent_trust_fabric.Runtime.{Runtime}
use agent_trust_fabric.Audit.Log.Columns.{Log}
use agent_trust_fabric.Audit.Log.{finalize_pending}
use agent_trust_fabric.Audit.Log.Cosign.{
  finalize_pending→IsFinalized, finalized_row, find_row-replace_row,
}

module _ ⦃rt : Runtime⦄ where
  -- After a finalize_pending that succeeds, any further call for the same event is refused with an
  -- audit error, whatever signature and key it has.
  pub finalize_pending_once :
      (event_id peer_signature : Json) (peer_key : List ℕ) (log log' : Log)
      → finalize_pending event_id peer_signature peer_key log ≡ ok log'
      → (other_signature : Json) (other_key : List ℕ)
      → finalize_pending event_id other_signature other_key log' ≡ err audit_error
  unfolding finalize_pending
  finalize_pending_once event_id peer_signature peer_key log log' h other_signature other_key =
      let f = finalize_pending→IsFinalized event_id peer_signature peer_key log log' h in
      let new = finalized_row f.row f.new_record in
      rw (f.id_bound, f.replaced, find_row-replace_row f.id log f.row new f.found refl)
