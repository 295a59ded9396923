-- ===== src/Audit/Log.antt =====
-- `AuditLog`: the table of events and the operations on it. A log is the list of its rows in the
-- order of their insertion. A statement that fails changes nothing, so an operation returns the
-- new log or raises. A record is kept as the value that `json.loads` gives back for the text in the
-- column, with sorted keys.
pub mod Columns
pub mod Order
pub mod Inserted
pub mod Chain
pub mod Rows
pub mod Kept
pub mod Appends
pub mod Cosign
pub mod Once
pub mod CrossSigned
pub mod Sorted
pub mod Pending
use agent_trust_fabric.Prelude.{
  ℕ, ◌+◌, Bool, true, false, not, Option, none, some, List, [], ◌∷◌, ◌++◌, map, String, str_eq,
  if◌then◌else◌,
}
use agent_trust_fabric.Errors.{
  Result, ok, err, ◌>>=◌, ◌>>◌, raise_if, raise_as, or_raise, type_error, integrity_error,
  audit_error, cross_sign_failed,
}
use agent_trust_fabric.Json.{
  Json, Items, nil, cons, arr, obj, get, subscript, iterate, py_eq, sort_keys,
}
use agent_trust_fabric.Runtime.{Runtime}
use agent_trust_fabric.Signing.{KeyPair, sign_envelope, verify_envelope}
use agent_trust_fabric.Audit.Event.{
  AuditEvent, event_content, signed_record, genesis_hash, chain_hash,
}
use agent_trust_fabric.Audit.Log.Columns.{
  Row, Log, bind_text, bind_integer, same_text, before, in_order, newest,
}

-- `latest_hash`: `ORDER BY ts DESC, event_id DESC LIMIT 1`.
unfoldable pub latest_hash : Log → String
latest_hash log = elim (newest log) [ none ↦ genesis_hash | some r ↦ r.chain_hash ]

abbrev pub any_jti : Option String → Log → Bool
any_jti jti [] = false
any_jti jti (r ∷ rs) = if same_text r.token_jti jti then true else any_jti jti rs

-- `has_jti`.
unfoldable pub has_jti : Json → Log → Result Bool
unfolding bind_text
has_jti jti log = do bound ← bind_text jti; ok (any_jti bound log)

-- The row of an event id, if it is there.
abbrev pub find_row : Option String → Log → Option Row
find_row id [] = none
find_row id (r ∷ rs) = if same_text r.event_id id then some r else find_row id rs

-- `get`.
unfoldable pub get_record : Json → Log → Result (Option Json)
unfolding bind_text
get_record event_id log = do
  id ← bind_text event_id
  ok (elim (find_row id log) [ none ↦ none | some r ↦ some r.record_ ])

abbrev pub records : Log → List Json
records [] = []
records (r ∷ rs) = r.record_ ∷ records rs

-- `all_events`: `ORDER BY ts ASC, event_id ASC`.
unfoldable pub all_events : Log → List Json
unfolding in_order
all_events log = records (in_order log)

-- `pending_peer_count`.
unfoldable pub pending_peer_count : Log → ℕ
pending_peer_count [] = 0
pending_peer_count (r ∷ rs) = (if r.pending_peer then 1 else 0) + pending_peer_count rs

abbrev pub replace_row : Option String → Row → Log → Log
replace_row id new [] = []
replace_row id new (r ∷ rs) =
    if same_text r.event_id id then new ∷ rs else r ∷ replace_row id new rs

-- `{s["signed_by"] for s in signatures}`: a `list` or a `dict` cannot be hashed.
unfoldable pub hashable : Json → Result (Unit {0})
hashable (arr _) = err type_error
hashable (obj _) = err type_error
hashable _ = ok tt

unfoldable pub signers : List Json → Result (List Json)
unfolding hashable
signers [] = ok []
signers (s ∷ ss) = do
  signer ← subscript s "signed_by"
  hashable signer
  rest ← signers ss
  ok (signer ∷ rest)

abbrev pub is_member : Json → List Json → Bool
is_member v [] = false
is_member v (w ∷ ws) = if py_eq w v then true else is_member v ws

-- The record with the peer's signature, unless its signer has signed already.
unfoldable pub cosigned : Json → Json → Result Json
unfolding signers
cosigned record_ peer_signature = do
  content ← subscript record_ "content"
  signatures ← iterate (← subscript record_ "signatures")
  existing ← signers signatures
  signer ← subscript peer_signature "signed_by"
  hashable signer
  ok (
      signed_record content
        (if is_member signer existing then signatures else signatures ++ peer_signature ∷ []))

module _ ⦃rt : Runtime⦄ where
  -- `_insert`: the parameters are bound, then `NOT NULL` and `PRIMARY KEY` are checked.
  unfoldable pub insert_event : AuditEvent → Json → Bool → Log → Result Log
  unfolding bind_text bind_integer latest_hash
  insert_event event record_ pending log = do
    let prev = latest_hash log
    id ← bind_text event.event_id
    ts ← bind_integer event.ts
    bound_type ← bind_text event.type
    jti ← bind_text event.token_jti
    type ← or_raise bound_type integrity_error
    raise_if (elim (find_row id log) [ none ↦ false | some _ ↦ true ]) integrity_error
    ok (
        log
        ++ record {
          event_id = id;
          ts = ts;
          type = type;
          token_jti = jti;
          prev_hash = prev;
          record_ = sort_keys record_;
          chain_hash = chain_hash prev record_;
          pending_peer = pending;
        }
          ∷ [])

  -- `append_self`.
  unfoldable pub append_self : AuditEvent → KeyPair → String → Log → Result Log
  unfolding insert_event
  append_self event kp signer_id log =
      let content = event_content event in
      insert_event event (signed_record content (sign_envelope content kp signer_id ∷ [])) false log

  -- `sign_only`.
  unfoldable pub sign_only : AuditEvent → KeyPair → String → Json
  sign_only event kp signer_id = sign_envelope (event_content event) kp signer_id

  -- `append_pending`.
  unfoldable pub append_pending : AuditEvent → Json → Log → Result Log
  unfolding insert_event
  append_pending event my_signature log =
      insert_event event (signed_record (event_content event) (my_signature ∷ [])) true log

  -- `append_finalized`.
  unfoldable pub append_finalized : AuditEvent → Json → Json → List ℕ → Log → Result Log
  unfolding insert_event
  append_finalized event my_signature peer_signature peer_key log = do
    let content = event_content event
    raise_as cross_sign_failed (verify_envelope content peer_signature peer_key)
    insert_event event (signed_record content (my_signature ∷ peer_signature ∷ [])) false log

  -- `verify_envelope(record["content"], peer_signature, peer_public_key)`.
  abbrev pub verify_stored : Json → Json → List ℕ → Result (Unit {0})
  verify_stored record_ peer_signature peer_key =
      subscript record_ "content" >>= λ content. verify_envelope content peer_signature peer_key

  -- `finalize_pending`: the row keeps its hashes.
  unfoldable pub finalize_pending : Json → Json → List ℕ → Log → Result Log
  unfolding bind_text cosigned
  finalize_pending event_id peer_signature peer_key log = do
    id ← bind_text event_id
    row ← or_raise (find_row id log) audit_error
    raise_if (not row.pending_peer) audit_error
    raise_as cross_sign_failed (verify_stored row.record_ peer_signature peer_key)
    new_record ← cosigned row.record_ peer_signature
    ok (replace_row id (record row { record_ = sort_keys new_record; pending_peer = false }) log)
