-- ===== src/Tests/AuditCases.antt =====
-- The theorems on the audit log at concrete inputs.
use agent_trust_fabric.Prelude.{
  ◌≡◌, ◌≢◌, refl, true, false, List, [], ◌∷◌, ◌++◌, some, String, arith, eq_iff, if◌then◌else◌,
}
use agent_trust_fabric.Prelude.Int.{pos}
use agent_trust_fabric.Errors.{Result, ok, err, audit_error}
use agent_trust_fabric.Json.{str, end, null, sort_keys}
use agent_trust_fabric.Json.Keys.{insert}
use agent_trust_fabric.Json.{canonical_json}
use agent_trust_fabric.Base64.{b64url_encode}
use agent_trust_fabric.Base64.Decoder.{b64url_decode}
use agent_trust_fabric.Signing.{verify_envelope, sign_envelope}
use agent_trust_fabric.Audit.Event.{AuditEvent, event_content, genesis_hash, chain_hash}
use agent_trust_fabric.Audit.Log.Columns.{Row, Log, before, newest}
use agent_trust_fabric.Audit.Log.{
  cosigned, insert_event, append_pending, finalize_pending, sign_only, latest_hash,
}
use agent_trust_fabric.Audit.Log.Kept.{IsWellFormed, Extends}
use agent_trust_fabric.Audit.Log.Appends.{
  Steps, step, stop, pending, cosign, steps_keep-IsWellFormed, steps_only_append,
}
use agent_trust_fabric.Audit.Log.Once.{finalize_pending_once}
use agent_trust_fabric.Audit.Log.Chain.{
  IsChain, HoldsHash, insert_event-IsChain, insert_event_twice,
}
use agent_trust_fabric.Tests.Toy.{toy, alice, bob, alice_id, bob_id}

-- The log of a call that succeeds.
abbrev pub after : Result Log → Log
after (ok log) = log
after (err _) = []

abbrev pub completed : AuditEvent
completed = record {
  type = str "delegation.completed";
  token_jti = str "tkn_1";
  delegator_id = str alice_id;
  delegatee_id = str bob_id;
  fields = end;
  event_id = str "evt_1";
  ts = pos 1010;
}

abbrev pub pending_log : Log
pending_log = after (append_pending completed (sign_only completed bob bob_id) [])

abbrev pub final_log : Log
final_log = after (
    finalize_pending (str "evt_1") (sign_only completed alice alice_id) alice.public_key
      pending_log)

pub appended : append_pending completed (sign_only completed bob bob_id) [] ≡ ok pending_log
unfolding append_pending
appended = refl

other_party : alice_id ≢ bob_id
other_party = λ e. absurd (cc ((eq_iff alice_id bob_id).1 e))

finalized :
    finalize_pending (str "evt_1") (sign_only completed alice alice_id) alice.public_key pending_log
    ≡ ok final_log
unfolding append_pending finalize_pending cosigned sort_keys insert sign_only sign_envelope
    event_content verify_envelope canonical_json b64url_encode b64url_decode
finalized = refl

empty-IsWellFormed : IsWellFormed []
empty-IsWellFormed = record { unique = tt; stored = tt }

calls : Steps [] final_log
calls = step (pending completed (sign_only completed bob bob_id) appended) (
    step (cosign (str "evt_1") (sign_only completed alice alice_id) alice.public_key finalized)
      stop)

steps_keep-IsWellFormed_example : IsWellFormed final_log
steps_keep-IsWellFormed_example = steps_keep-IsWellFormed empty-IsWellFormed calls

pub later_calls : Steps pending_log final_log
later_calls =
    step (cosign (str "evt_1") (sign_only completed alice alice_id) alice.public_key finalized) stop

pending_log-IsWellFormed : IsWellFormed pending_log
pending_log-IsWellFormed =
    steps_keep-IsWellFormed empty-IsWellFormed
      (step (pending completed (sign_only completed bob bob_id) appended) stop)

steps_only_append_example : Extends pending_log final_log
steps_only_append_example = steps_only_append pending_log-IsWellFormed later_calls

finalize_pending_once_example : finalize_pending (str "evt_1") null [] final_log ≡ err audit_error
finalize_pending_once_example =
    finalize_pending_once (str "evt_1") (sign_only completed alice alice_id) alice.public_key
      pending_log final_log finalized null []

-- Three events of one second; the first has the greatest id.
abbrev event_of : String → AuditEvent
event_of id = record completed { event_id = str id }

abbrev log_of : List String → Log → Log
log_of [] log = log
log_of (id ∷ ids) log = log_of ids (after (insert_event (event_of id) null false log))

abbrev first_log : Log
first_log = log_of ("evt_9" ∷ []) []

abbrev second_log : Log
second_log = log_of ("evt_1" ∷ []) first_log

abbrev third_log : Log
third_log = log_of ("evt_2" ∷ []) second_log

abbrev first_row : Row
first_row = record {
  event_id = some "evt_9";
  ts = pos 1010;
  type = "delegation.completed";
  token_jti = some "tkn_1";
  prev_hash = genesis_hash;
  record_ = null;
  chain_hash = chain_hash genesis_hash null;
  pending_peer = false;
}

insert_event_twice_example :
    (x : Row) × (y : Row) × (third_log ≡ (first_log ++ x ∷ []) ++ y ∷ [])
    × (x.prev_hash ≡ first_row.chain_hash)
    × (y.prev_hash ≡ (if before first_row x then x.chain_hash else x.prev_hash))
unfolding insert_event sort_keys newest
insert_event_twice_example =
    insert_event_twice (event_of "evt_1") (event_of "evt_2") null null false false first_log
      second_log third_log first_row refl refl refl

abbrev later_event : AuditEvent
later_event = record completed { event_id = str "evt_1"; ts = pos 1011 }

first_log-IsChain : IsChain first_log
unfolding insert_event latest_hash newest
first_log-IsChain = record { linked = (refl, tt); ascending = (tt, tt) }

abbrev chained : Log
chained = after (insert_event later_event null true first_log)

insert_event-IsChain_example :
    IsChain chained × (row : Row) × (chained ≡ first_log ++ row ∷ []) × HoldsHash row
unfolding insert_event
insert_event-IsChain_example =
    insert_event-IsChain later_event null true first_log chained first_log-IsChain
      (ground arith, tt) refl
