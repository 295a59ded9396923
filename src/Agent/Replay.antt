-- ===== src/Agent/Replay.antt =====
-- Replay protection: a token that was accepted and whose use is recorded is refused ever after.
use agent_trust_fabric.Prelude.{
  ◌≡◌, refl, ap, sym, ◌∙◌, Bool, true, false, Option, none, some, List, [], ◌∷◌, ◌++◌, String,
  eq_refl, All, Any, inl, inr, if◌then◌else◌,
}
use agent_trust_fabric.Prelude.Int.{ℤ, pos}
use agent_trust_fabric.Errors.{ok, err, ok-injective, token_replay}
use agent_trust_fabric.Json.{Json, end, str, subscript, sort_keys}
use agent_trust_fabric.Runtime.{Runtime}
use agent_trust_fabric.Signing.{KeyPair, sign_envelope}
use agent_trust_fabric.Audit.Event.{
  AuditEvent, chain_hash, Stamp, new_event_id, event_content, signed_record,
}
use agent_trust_fabric.Audit.Log.Columns.{Row, Log, bind_text, bind_integer, fits, same_text}
use agent_trust_fabric.Audit.Log.{
  any_jti, find_row, latest_hash, insert_event, append_self, has_jti,
}
use agent_trust_fabric.Audit.Log.Inserted.{IsInserted, insert_event→IsInserted}
use agent_trust_fabric.Audit.Log.Kept.{IsWellFormed, IsKept, Extends}
use agent_trust_fabric.Audit.Log.Appends.{
  Step, Steps, self, stop, step, steps_only_append, steps_keep-IsWellFormed,
}
use agent_trust_fabric.Agent.{Agent, PeerRecord, own_id, peer}
use agent_trust_fabric.Audit.Log.Rows.{Any-last}
use agent_trust_fabric.Agent.Delegation.{
  new_event, Incoming, read_payload, read_token, refuse_replay, after_attempt, verify_read,
  verify_delegation,
}
use agent_trust_fabric.Agent.Readable.{
  content_fields, content_read, content_type, content_jti, steps_keep-IsReadable,
}
use agent_trust_fabric.Agent.Uses.{IsReadable, IsUse, all_events-IsUse}

-- A row that holds the use of a jti in its column and in its record.
abbrev IsUsed : String → Row → Type 0
IsUsed j r = (r.token_jti ≡ some j) × IsUse j r

IsUse-kept : (j : String) (r s : Row) → IsKept r s → IsUse j r → IsUse j s
IsUse-kept j r s k u = record {
  fs = u.fs;
  content_read = k.content ∙ u.content_read;
  jti_read = u.jti_read;
  started = u.started;
}

IsUsed-ever_after :
    (j : String) (log log' : Log) → Extends log log' → Any (IsUsed j) log → Any (IsUsed j) log'
IsUsed-ever_after j [] log' x u = absurd u
IsUsed-ever_after j (r ∷ rs) [] x u = absurd x
IsUsed-ever_after j (r ∷ rs) (s ∷ ss) x (inl (column, u)) =
    inl (x.0.token_jti ∙ column, IsUse-kept j r s x.0 u)
IsUsed-ever_after j (r ∷ rs) (s ∷ ss) x (inr there) = inr (IsUsed-ever_after j rs ss x.1 there)

any_jti-IsUsed : (j : String) (log : Log) → Any (IsUsed j) log → any_jti (some j) log ≡ true
any_jti-IsUsed j [] u = absurd u
any_jti-IsUsed j (r ∷ rs) (inl here) = rw (here.0, eq_refl j)
any_jti-IsUsed j (r ∷ rs) (inr there) =
    rw (any_jti-IsUsed j rs there) (both (same_text r.token_jti (some j)))
  where
    both : (b : Bool) → (if b then true else true) ≡ true
    both true = refl
    both false = refl

uses : (j : String) (log : Log) → Any (IsUsed j) log → Any (IsUse j) log
uses j [] u = u
uses j (r ∷ rs) (inl here) = inl here.1
uses j (r ∷ rs) (inr there) = inr (uses j rs there)

module _ ⦃rt : Runtime⦄ where
  -- An event that `append_self` takes.
  inserts :
      (event : AuditEvent) (record_ : Json) (is_pending : Bool) (log : Log) (id type : String)
      {jti : Option String}
      → event.event_id ≡ str id
      → event.type ≡ str type
      → bind_text event.token_jti ≡ ok jti
      → fits event.ts ≡ true
      → find_row (some id) log ≡ none
      → (log' : Log) × (insert_event event record_ is_pending log ≡ ok log')
  unfolding insert_event bind_text bind_integer
  inserts event record_ is_pending log id type {jti} named typed bound fit fresh = (
    log
        ++ record {
          event_id = some id;
          ts = event.ts;
          type = type;
          token_jti = jti;
          prev_hash = latest_hash log;
          record_ = sort_keys record_;
          chain_hash = chain_hash (latest_hash log) record_;
          pending_peer = is_pending;
        }
          ∷ [],
    rw (named, typed, bound, fit, fresh),
  )

  started_row :
      (event : AuditEvent) (j : String) (signatures : List Json) (log log' : Log)
      → event.token_jti ≡ str j
      → event.type ≡ str "delegation.started"
      → (i : IsInserted event (signed_record (event_content event) signatures) false log log')
      → IsUsed j i.row
  unfolding bind_text sort_keys
  started_row event j signatures log log' jti typed i = (
    ok-injective (sym i.jti_bound ∙ ap bind_text jti),
    record {
      fs = content_fields event;
      content_read = ap (λ v. subscript v "content") i.stores ∙ content_read event signatures;
      jti_read = content_jti event ∙ ap (λ v. some (sort_keys v)) jti;
      started = content_type event ∙ ap (λ v. some (sort_keys v)) typed;
    },
  )

  read_token_used :
      (a : Agent) (token j : String) (payload iss : Json) (p : PeerRecord)
      → read_payload token ≡ ok payload
      → subscript payload "iss" ≡ ok iss
      → subscript payload "jti" ≡ ok (str j)
      → peer iss a ≡ ok p
      → All IsReadable a.audit_log
      → Any (IsUsed j) a.audit_log
      → read_token token a ≡ ok (record { iss = iss; peer_record = p; jti = str j; used = true })
  unfolding read_token has_jti bind_text
  read_token_used a token j payload iss p parsed iss_read jti_read known readable used = rw (
    parsed,
    iss_read,
    jti_read,
    known,
    any_jti-IsUsed j a.audit_log used,
    all_events-IsUse j a.audit_log readable (uses j a.audit_log used),
  )

  -- The event of the refused replay.
  abbrev pub attempt : Stamp → Incoming → Agent → AuditEvent
  attempt stamp t a = new_event stamp "delegation.replay_attempt" t.jti t.iss (str (own_id a)) end

  recorded :
      (stamp : Stamp) (t : Incoming) (a : Agent) (j : String)
      → t.jti ≡ str j
      → fits (pos stamp.ts) ≡ true
      → find_row (some (new_event_id stamp)) a.audit_log ≡ none
      → (log : Log) × (append_self (attempt stamp t a) a.keypair (own_id a) a.audit_log ≡ ok log)
  unfolding append_self bind_text
  recorded stamp t a j named fit fresh =
      inserts (attempt stamp t a) _ false a.audit_log (new_event_id stamp)
        "delegation.replay_attempt" refl refl (ap bind_text named) fit fresh

  refused :
      (stamp : Stamp) (t : Incoming) (a : Agent) (log : Log)
      → append_self (attempt stamp t a) a.keypair (own_id a) a.audit_log ≡ ok log
      → refuse_replay stamp t a ≡ (err token_replay, record a { audit_log = log })
  unfolding refuse_replay
  refused stamp t a log e = ap (after_attempt a) e

  replayed :
      (stamp : Stamp) (now : ℤ) (required token : String) (t : Incoming) (a : Agent)
      → read_token token a ≡ ok t
      → t.used ≡ true
      → verify_delegation stamp now required token a ≡ refuse_replay stamp t a
  unfolding verify_delegation
  replayed stamp now required token t a e used =
      ap (verify_read stamp now required token a) e ∙ chosen t.used _ _ used
    where
      chosen : {A : Type 0} (b : Bool) (x y : A) → b ≡ true → (if b then x else y) ≡ x
      chosen b x y h = rw h refl

  -- On a well-formed and readable log a delegatee records the start of a delegation with a jti.
  -- Then, whatever it writes to its log, any token of a known issuer with this jti (a text) is
  -- refused as a replay at every time and for every scope, and only the log changes, by appending,
  -- if the event of the attempt has a fresh id and its time fits into the column.
  pub replay_refused :
      (started : AuditEvent) (kp : KeyPair) (signer j : String) (log log₁ : Log)
      → IsWellFormed log
      → All IsReadable log
      → started.token_jti ≡ str j
      → started.type ≡ str "delegation.started"
      → append_self started kp signer log ≡ ok log₁
      → (a : Agent) → Steps log₁ a.audit_log
      → (token : String) (payload iss : Json) (p : PeerRecord) → read_payload token ≡ ok payload
      → subscript payload "iss" ≡ ok iss
      → subscript payload "jti" ≡ ok (str j)
      → peer iss a ≡ ok p
      → (stamp : Stamp) → fits (pos stamp.ts) ≡ true
      → find_row (some (new_event_id stamp)) a.audit_log ≡ none
      → (now : ℤ) (required : String)
      → (log₂ : Log) × Extends a.audit_log log₂
        × (verify_delegation stamp now required token a
            ≡ (err token_replay, record a { audit_log = log₂ }))
  unfolding append_self
  replay_refused started kp signer j log log₁ well readable jti typed h a steps token payload iss p
        parsed iss_read jti_read known stamp fit fresh now required =
      let i = insert_event→IsInserted started _ false log log₁ h in
      let first : Step log log₁ = self started kp signer h in
      let well₁ = steps_keep-IsWellFormed well (step first stop) in
      let used₁ : Any (IsUsed j) log₁ = rw i.appended (
        Any-last (IsUsed j) log i.row (
          started_row started j (sign_envelope (event_content started) kp signer ∷ []) log log₁ jti
            typed i)) in
      let used = IsUsed-ever_after j log₁ a.audit_log (steps_only_append well₁ steps) used₁ in
      let all_readable = steps_keep-IsReadable well readable (step first steps) in
      let t : Incoming = record { iss = iss; peer_record = p; jti = str j; used = true } in
      let (log₂, e) = recorded stamp t a j refl fit fresh in
      (
        log₂,
        steps_only_append (steps_keep-IsWellFormed well₁ steps)
            (step (self (attempt stamp t a) a.keypair (own_id a) e) stop),
        replayed stamp now required token t a
              (read_token_used a token j payload iss p parsed iss_read jti_read known all_readable
                used)
              refl
            ∙ refused stamp t a log₂ e,
      )
