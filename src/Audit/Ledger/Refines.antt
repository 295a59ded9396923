-- ===== src/Audit/Ledger/Refines.antt =====
-- The log does what the ledger promises: each of its writes is a change of the ledger.
use agent_trust_fabric.Prelude.{
  ◌≡◌, refl, ap, sym, ◌∙◌, Bool, true, false, Option, none, some, List, [], ◌∷◌, ◌++◌, String,
  str_eq, eq_iff, arith, ℕ, if◌then◌else◌,
}
use mathlib.Core.Option
use mathlib.Core.Path.{subst}
use agent_trust_fabric.Errors.{ok, bind_ok, raise_as, cross_sign_failed}
use agent_trust_fabric.Json.{Json, str, sort_keys}
use agent_trust_fabric.Runtime.{Runtime}
use agent_trust_fabric.Signing.{sign_envelope, verify_envelope}
use agent_trust_fabric.Audit.Event.{AuditEvent, event_content, signed_record}
use agent_trust_fabric.Audit.Log.Columns.{Row, Log, same_text, bind_text}
use agent_trust_fabric.Audit.Log.{
  find_row, replace_row, append_self, append_pending, append_finalized, get_record,
}
use agent_trust_fabric.Audit.Log.Inserted.{IsInserted, insert_event→IsInserted}
use agent_trust_fabric.Audit.Log.Cosign.{IsFinalized, finalize_pending→IsFinalized, finalized_row}
use agent_trust_fabric.Audit.Log.Appends.{Step, Steps, self, pending, finalized, cosign, stop, step}
use agent_trust_fabric.Audit.Ledger.{
  Entry, Ledger, Write, stores, signs, Change, adds, unnamed, complete, Change-complete,
}

abbrev pub entry_of : Row → Entry
entry_of r = record { record_ = r.record_; pending = r.pending_peer }

-- What a log says of each event id.
abbrev pub ledger_of : Log → Ledger
ledger_of log id = Option.map entry_of (find_row (some id) log)

same_text_eq : (s : Option String) (id : String) → same_text s (some id) ≡ true → s ≡ some id
same_text_eq none id h = absurd (cc)
same_text_eq (some i) id h = ground (arith, eq_iff i id)

find_row-none : (log : Log) → find_row none log ≡ none
find_row-none [] = refl
find_row-none (r ∷ rs) = ground (arith, find_row-none rs)

find_row-last_if :
    (id j : String) (log : Log) (row : Row)
    → row.event_id ≡ some id
    → find_row (some id) log ≡ none
    → find_row (some j) (log ++ row ∷ [])
      ≡ (if str_eq id j then some row else find_row (some j) log)
find_row-last_if id j [] row e free = rw e
find_row-last_if id j (r ∷ rs) row e free =
    ground (arith, find_row-last_if id j rs row e, eq_iff id j)

find_row-last_unnamed :
    (j : String) (log : Log) (row : Row)
    → row.event_id ≡ none
    → find_row (some j) (log ++ row ∷ []) ≡ find_row (some j) log
find_row-last_unnamed j [] row e = rw e
find_row-last_unnamed j (r ∷ rs) row e = ground (arith, find_row-last_unnamed j rs row e)

found_id :
    (id : String) (log : Log) (row : Row)
    → find_row (some id) log ≡ some row
    → row.event_id ≡ some id
found_id id [] row h = absurd (cc)
found_id id (r ∷ rs) row h = ground (arith, same_text_eq r.event_id id, found_id id rs row)

find_row-replace_if :
    (id j : String) (log : Log) (row new : Row)
    → find_row (some id) log ≡ some row
    → new.event_id ≡ some id
    → find_row (some j) (replace_row (some id) new log)
      ≡ (if str_eq id j then some new else find_row (some j) log)
find_row-replace_if id j [] row new found named = absurd (cc)
find_row-replace_if id j (r ∷ rs) row new found named =
    ground (arith, same_text_eq r.event_id id, find_row-replace_if id j rs row new, eq_iff id j)

-- A test moves out of what is read of each entry.
map_if :
    (b : Bool) (row : Row) (o : Option Row)
    → Option.map entry_of (if b then some row else o)
      ≡ (if b then some (entry_of row) else Option.map entry_of o)
map_if true row o = refl
map_if false row o = refl

module _ ⦃rt : Runtime⦄ where
  -- The changes that writes make, one after the other.
  pub data Changes : List Write → Ledger → Ledger → Type 0 where
    none_ : {l l' : Ledger} → ((j : String) → l' j ≡ l j) → Changes [] l l'
    more :
        {w : Write} {ws : List Write} {l m l' : Ledger}
        → Change w l m
        → Changes ws m l'
        → Changes (w ∷ ws) l l'

  -- What a call writes: the event with its signatures, which are those that the operation makes or
  -- is given, pending or not; or a signature.
  abbrev stored : AuditEvent → List Json → Bool → Write
  stored event signatures pending_ = stores event.event_id (record {
    record_ = sort_keys (signed_record (event_content event) signatures);
    pending = pending_;
  })

  abbrev pub write_of : {log log' : Log} → Step log log' → Write
  write_of (self event kp signer _) =
      stored event (sign_envelope (event_content event) kp signer ∷ []) false
  write_of (pending event my_signature _) = stored event (my_signature ∷ []) true
  write_of (finalized event my_signature peer_signature _ _) =
      stored event (my_signature ∷ peer_signature ∷ []) false
  write_of (cosign event_id peer_signature peer_key _) = signs event_id peer_signature peer_key

  abbrev pub writes_of : {log log' : Log} → Steps log log' → List Write
  writes_of stop = []
  writes_of (step s ss) = write_of s ∷ writes_of ss

  written_entry :
      {event : AuditEvent} {record_ : Json} {is_pending : Bool} {log log' : Log}
      (i : IsInserted event record_ is_pending log log')
      → entry_of i.row ≡ record { record_ = sort_keys record_; pending = is_pending }
  written_entry i = rw (i.stores, i.flagged) refl

  inserted-Change :
      {event : AuditEvent} {record_ : Json} {is_pending : Bool} {log log' : Log}
      → IsInserted event record_ is_pending log log'
      → Change
          (stores event.event_id (record { record_ = sort_keys record_; pending = is_pending }))
          (ledger_of log)
          (ledger_of log')
  inserted-Change {event} {log} {log'} i =
      subst (λ e. Change (stores event.event_id e) (ledger_of log) (ledger_of log'))
        (written_entry i) (by_id i.row.event_id refl)
    where
      by_id :
          (o : Option String)
          → i.row.event_id ≡ o
          → Change (stores event.event_id (entry_of i.row)) (ledger_of log) (ledger_of log')
      by_id none e = unnamed event.event_id (entry_of i.row) (i.id_bound ∙ ap ok e) λ j.
          ap (λ l. Option.map entry_of (find_row (some j) l)) i.appended
          ∙ ap (Option.map entry_of) (find_row-last_unnamed j log i.row e)
      by_id (some id) e =
          let free : find_row (some id) log ≡ none = ap (λ k. find_row k log) (sym e) ∙ i.new_id in
          adds event.event_id id (entry_of i.row) (i.id_bound ∙ ap ok e)
            (ap (Option.map entry_of) free)
            λ j.
              ap (λ l. Option.map entry_of (find_row (some j) l)) i.appended
              ∙ ap (Option.map entry_of) (find_row-last_if id j log i.row e free)
              ∙ map_if (str_eq id j) i.row (find_row (some j) log)

  finalized-Change :
      {event_id peer_signature : Json} {peer_key : List ℕ} {log log' : Log}
      → IsFinalized event_id peer_signature peer_key log log'
      → Change (signs event_id peer_signature peer_key) (ledger_of log) (ledger_of log')
  finalized-Change {event_id} {peer_signature} {peer_key} {log} {log'} f = by_id f.id refl
    where
      by_id :
          (o : Option String)
          → f.id ≡ o
          → Change (signs event_id peer_signature peer_key) (ledger_of log) (ledger_of log')
      by_id none e = absurd (cc (f.found, find_row-none log, ap (λ k. find_row k log) e))
      by_id (some id) e =
          let found : find_row (some id) log ≡ some f.row =
            ap (λ k. find_row k log) (sym e) ∙ f.found in
          let new = finalized_row f.row f.new_record in
          complete event_id id f.row.record_ f.content peer_signature f.new_record peer_key
            (f.id_bound ∙ ap ok e)
            (ap (Option.map entry_of) found
              ∙ ap (λ p. some (record { record_ = f.row.record_; pending = p })) f.was_pending)
            f.content_read f.verified f.signed
            λ j.
              ap (λ l. Option.map entry_of (find_row (some j) l)) f.replaced
              ∙ ap (λ k. Option.map entry_of (find_row (some j) (replace_row k new log))) e
              ∙ ap (Option.map entry_of)
                  (find_row-replace_if id j log f.row new found (found_id id log f.row found))
              ∙ map_if (str_eq id j) new (find_row (some j) log)

  -- Each successful write of the log is one change of the ledger.
  pub Step-Change :
      {log log' : Log} (s : Step log log') → Change (write_of s) (ledger_of log) (ledger_of log')
  unfolding append_self append_pending append_finalized
  Step-Change {log} {log'} (self event kp signer h) =
      inserted-Change (insert_event→IsInserted event _ false log log' h)
  Step-Change {log} {log'} (pending event my_signature h) =
      inserted-Change (insert_event→IsInserted event _ true log log' h)
  Step-Change {log} {log'} (finalized event my_signature peer_signature peer_key h) =
      bind_ok
        (raise_as cross_sign_failed (verify_envelope (event_content event) peer_signature peer_key))
        _ h
        λ _ _ inserted. inserted-Change (insert_event→IsInserted event _ false log log' inserted)
  Step-Change {log} {log'} (cosign event_id peer_signature peer_key h) =
      finalized-Change (finalize_pending→IsFinalized event_id peer_signature peer_key log log' h)

  -- Any sequence of successful writes of the log makes, one after the other, the changes of the
  -- ledger that belong to what is written. The ledger maps each event id to its record and whether
  -- the peer has yet to sign it. Storing an event adds, at its id, which has no entry before, the
  -- record of its content with the signatures, or changes no entry if the event's id is null; a
  -- cosignature completes the pending entry at its event id, and it verifies over the content of
  -- that entry.
  pub Steps-Changes :
      {log log' : Log} (ss : Steps log log')
      → Changes (writes_of ss) (ledger_of log) (ledger_of log')
  Steps-Changes stop = none_ (λ j. refl)
  Steps-Changes (step s ss) = more (Step-Change s) (Steps-Changes ss)

  Changes-complete :
      {ws : List Write} {l l' : Ledger} (id : String) (r : Json)
      → Changes ws l l'
      → l id ≡ some (record { record_ = r; pending = false })
      → l' id ≡ some (record { record_ = r; pending = false })
  Changes-complete id r (none_ same) h = same id ∙ h
  Changes-complete id r (more c cs) h = Changes-complete id r cs (Change-complete id r c h)

  abbrev record_of_entry : Option Entry → Option Json
  record_of_entry o = Option.map (λ (e : Entry). e.record_) o

  read_entry :
      (o : Option Row)
      → Option.map (λ (r : Row). r.record_) o ≡ record_of_entry (Option.map entry_of o)
  read_entry none = refl
  read_entry (some r) = refl

  get_record-ledger :
      (id : String) (log : Log) → get_record (str id) log ≡ ok (record_of_entry (ledger_of log id))
  unfolding get_record bind_text
  get_record-ledger id log = ap ok (read_entry (find_row (some id) log))

  -- Once an event is not pending, get returns the same record for its id, signatures included,
  -- after any sequence of successful writes.
  pub get_record_complete :
      (id : String) (row : Row) {log log' : Log}
      → Steps log log'
      → find_row (some id) log ≡ some row
      → row.pending_peer ≡ false
      → get_record (str id) log' ≡ ok (some row.record_)
  get_record_complete id row {log} {log'} ss found done =
      let here =
        ap (Option.map entry_of) found
        ∙ ap (λ p. some (record { record_ = row.record_; pending = p })) done in
      get_record-ledger id log'
      ∙ ap (λ o. ok (record_of_entry o)) (Changes-complete id row.record_ (Steps-Changes ss) here)
