-- ===== src/Audit/Log/Pending.antt =====
-- `pending_peer_count`: an event counts from when it is stored as pending until its peer has signed.
use agent_trust_fabric.Prelude.{
  ℕ, ◌+◌, ◌≡◌, refl, ap, ◌∙◌, Bool, true, false, Option, some, List, [], ◌∷◌, ◌++◌, String, arith,
  if◌then◌else◌,
}
use agent_trust_fabric.Errors.{ok, bind_ok, raise_as, cross_sign_failed}
use agent_trust_fabric.Json.{Json}
use agent_trust_fabric.Runtime.{Runtime}
use agent_trust_fabric.Signing.{KeyPair, verify_envelope}
use agent_trust_fabric.Audit.Event.{AuditEvent, event_content}
use agent_trust_fabric.Audit.Log.Columns.{Row, Log}
use agent_trust_fabric.Audit.Log.{
  find_row, replace_row, pending_peer_count, append_self, append_pending, append_finalized,
  finalize_pending,
}
use agent_trust_fabric.Audit.Log.Appends.{Steps, self, pending, finalized, cosign, stop, step}
use agent_trust_fabric.Audit.Log.Inserted.{insert_event→IsInserted}
use agent_trust_fabric.Audit.Log.Cosign.{finalize_pending→IsFinalized, finalized_row}

abbrev pub one_if : Bool → ℕ
one_if b = if b then 1 else 0

pub pending_peer_count-last :
    (log : Log) (row : Row)
    → pending_peer_count (log ++ row ∷ []) ≡ pending_peer_count log + one_if row.pending_peer
unfolding pending_peer_count
pending_peer_count-last [] row = omega arith
pending_peer_count-last (r ∷ rs) row = omega (arith, pending_peer_count-last rs row)

pub pending_peer_count-replace :
    (id : Option String) (log : Log) (row new : Row)
    → find_row id log ≡ some row
    → row.pending_peer ≡ true
    → new.pending_peer ≡ false
    → pending_peer_count (replace_row id new log) + 1 ≡ pending_peer_count log
unfolding pending_peer_count
pending_peer_count-replace id [] row new found was is = absurd (cc)
pending_peer_count-replace id (r ∷ rs) row new found was is =
    ground (arith, pending_peer_count-replace id rs row new)

module _ ⦃rt : Runtime⦄ where
  pub append_self-count :
      (event : AuditEvent) (kp : KeyPair) (signer : String) (log log' : Log)
      → append_self event kp signer log ≡ ok log'
      → pending_peer_count log' ≡ pending_peer_count log
  unfolding append_self
  append_self-count event kp signer log log' h =
      let i = insert_event→IsInserted event _ false log log' h in
      ap pending_peer_count i.appended
      ∙ omega (arith, pending_peer_count-last log i.row, ap one_if i.flagged)

  pub append_pending-count :
      (event : AuditEvent) (my_signature : Json) (log log' : Log)
      → append_pending event my_signature log ≡ ok log'
      → pending_peer_count log' ≡ pending_peer_count log + 1
  unfolding append_pending
  append_pending-count event my_signature log log' h =
      let i = insert_event→IsInserted event _ true log log' h in
      ap pending_peer_count i.appended
      ∙ omega (arith, pending_peer_count-last log i.row, ap one_if i.flagged)

  pub finalize_pending-count :
      (event_id peer_signature : Json) (peer_key : List ℕ) (log log' : Log)
      → finalize_pending event_id peer_signature peer_key log ≡ ok log'
      → pending_peer_count log' + 1 ≡ pending_peer_count log
  finalize_pending-count event_id peer_signature peer_key log log' h =
      let f = finalize_pending→IsFinalized event_id peer_signature peer_key log log' h in
      ap (λ l. pending_peer_count l + 1) f.replaced
      ∙ pending_peer_count-replace f.id log f.row (finalized_row f.row f.new_record) f.found
          f.was_pending refl

  append_finalized-count :
      (event : AuditEvent) (my_signature peer_signature : Json) (peer_key : List ℕ) (log log' : Log)
      → append_finalized event my_signature peer_signature peer_key log ≡ ok log'
      → pending_peer_count log' ≡ pending_peer_count log
  unfolding append_finalized
  append_finalized-count event my_signature peer_signature peer_key log log' h =
      bind_ok
        (raise_as cross_sign_failed (verify_envelope (event_content event) peer_signature peer_key))
        _ h
        λ _ _ inserted.
          let i = insert_event→IsInserted event _ false log log' inserted in
          ap pending_peer_count i.appended
          ∙ omega (arith, pending_peer_count-last log i.row, ap one_if i.flagged)

  -- How many calls of a sequence store an event as pending, and how many finalize one.
  abbrev pub pendings : {log log' : Log} → Steps log log' → ℕ
  pendings stop = 0
  pendings (step (pending event my_signature h) ss) = 1 + pendings ss
  pendings (step _ ss) = pendings ss

  abbrev pub cosigns : {log log' : Log} → Steps log log' → ℕ
  cosigns stop = 0
  cosigns (step (cosign event_id peer_signature peer_key h) ss) = 1 + cosigns ss
  cosigns (step _ ss) = cosigns ss

  -- Over any sequence of successful writes, pending_peer_count grows by one with each event that
  -- is stored as pending, falls by one with each that is finalized, and changes in no other way.
  pub pending_peer_count-Steps :
      {log log' : Log} (ss : Steps log log')
      → pending_peer_count log' + cosigns ss ≡ pending_peer_count log + pendings ss
  pending_peer_count-Steps stop = refl
  pending_peer_count-Steps (step {log} {log' = mid} (self event kp signer h) ss) =
      omega (arith, append_self-count event kp signer log mid h, pending_peer_count-Steps ss)
  pending_peer_count-Steps (step {log} {log' = mid} (pending event my_signature h) ss) =
      omega (arith, append_pending-count event my_signature log mid h, pending_peer_count-Steps ss)
  pending_peer_count-Steps (step {log} {log' = mid} (finalized event my peer_sig key h) ss) =
      omega
        (arith, append_finalized-count event my peer_sig key log mid h, pending_peer_count-Steps ss)
  pending_peer_count-Steps (step {log} {log' = mid} (cosign event_id peer_sig key h) ss) =
      omega
        (arith, finalize_pending-count event_id peer_sig key log mid h, pending_peer_count-Steps ss)
