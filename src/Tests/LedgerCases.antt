-- ===== src/Tests/LedgerCases.antt =====
-- The theorems on the ledger and the order of the log at concrete inputs.
use agent_trust_fabric.Prelude.{◌≡◌, refl, [], ◌∷◌, some, none, ◌+◌, false}
use mathlib.Core.List.{Perm}
use agent_trust_fabric.Prelude.Int.{pos}
use agent_trust_fabric.Audit.Event.{AuditEvent}
use agent_trust_fabric.Errors.{ok}
use agent_trust_fabric.Json.{str}
use agent_trust_fabric.Audit.Log.Columns.{Row, Log}
use agent_trust_fabric.Audit.Log.{
  all_events, records, sign_only, get_record, pending_peer_count, append_self,
}
use agent_trust_fabric.Audit.Log.Appends.{Steps, step, stop, pending, self}
use agent_trust_fabric.Audit.Log.Sorted.{IsSorted, all_events_lem}
use agent_trust_fabric.Audit.Log.Pending.{pendings, cosigns, pending_peer_count-Steps}
use agent_trust_fabric.Audit.Ledger.Refines.{
  Changes, ledger_of, writes_of, Steps-Changes, get_record_complete,
}
use agent_trust_fabric.Tests.Toy.{toy, alice, bob, alice_id, bob_id}
use agent_trust_fabric.Tests.AuditCases.{completed, final_log, appended, later_calls, after}

-- The event is stored as pending, then cosigned.
abbrev both_calls : Steps [] final_log
both_calls = step (pending completed (sign_only completed bob bob_id) appended) later_calls

Steps-Changes_example : Changes (writes_of both_calls) (ledger_of []) (ledger_of final_log)
Steps-Changes_example = Steps-Changes both_calls

pending_peer_count-Steps_example :
    pending_peer_count final_log + cosigns both_calls ≡ pending_peer_count [] + pendings both_calls
pending_peer_count-Steps_example = pending_peer_count-Steps both_calls

all_events_lem_example :
    (rows : Log) × (all_events final_log ≡ records rows) × Perm rows final_log × IsSorted rows
all_events_lem_example = all_events_lem final_log

-- A complete event; nothing happens to the log after it.
abbrev done_row : Row
done_row = record {
  event_id = some "evt_9";
  ts = pos 5;
  type = "delegation.issued";
  token_jti = none;
  prev_hash = "";
  record_ = str "r";
  chain_hash = "";
  pending_peer = false;
}

abbrev more : AuditEvent
more = record completed { event_id = str "evt_2" }

abbrev grown : Log
grown = after (append_self more alice alice_id (done_row ∷ []))

grows : append_self more alice alice_id (done_row ∷ []) ≡ ok grown
unfolding append_self
grows = refl

get_record_complete_example : get_record (str "evt_9") grown ≡ ok (some (str "r"))
get_record_complete_example =
    get_record_complete "evt_9" done_row (step (self more alice alice_id grows) stop) refl refl
