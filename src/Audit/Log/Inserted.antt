-- ===== src/Audit/Log/Inserted.antt =====
-- What a successful insertion has done: one row more, at the end.
use agent_trust_fabric.Prelude.{
  ◌≡◌, refl, Bool, true, false, Option, none, some, [], ◌∷◌, ◌++◌, String,
}
use agent_trust_fabric.Prelude.Int.{ℤ}
use agent_trust_fabric.Errors.{
  ok, bind_ok, raise_if, raise_if-eq-ok, or_raise, or_raise-eq-ok, integrity_error,
}
use agent_trust_fabric.Json.{Json, sort_keys}
use agent_trust_fabric.Runtime.{Runtime}
use agent_trust_fabric.Audit.Event.{AuditEvent, chain_hash}
use agent_trust_fabric.Audit.Log.Columns.{Row, Log, bind_text, bind_integer}
use agent_trust_fabric.Audit.Log.{latest_hash, find_row, insert_event}

not_there : (o : Option Row) → (elim o [ none ↦ false | some _ ↦ true ]) ≡ false → o ≡ none
not_there none h = refl
not_there (some r) h = cc

module _ ⦃rt : Runtime⦄ where
  pub record IsInserted (event : AuditEvent) (record_ : Json) (pending : Bool) (log log' : Log)
      : Type 0 where
    pub row : Row
    pub appended : log' ≡ log ++ row ∷ []
    pub id_bound : bind_text event.event_id ≡ ok row.event_id
    pub ts_bound : bind_integer event.ts ≡ ok row.ts
    pub type_bound : bind_text event.type ≡ ok (some row.type)
    pub jti_bound : bind_text event.token_jti ≡ ok row.token_jti
    pub new_id : find_row row.event_id log ≡ none
    pub links : row.prev_hash ≡ latest_hash log
    pub hashes : row.chain_hash ≡ chain_hash (latest_hash log) record_
    pub stores : row.record_ ≡ sort_keys record_
    pub flagged : row.pending_peer ≡ pending

  pub insert_event→IsInserted :
      (event : AuditEvent) (record_ : Json) (pending : Bool) (log log' : Log)
      → insert_event event record_ pending log ≡ ok log'
      → IsInserted event record_ pending log log'
  unfolding insert_event
  insert_event→IsInserted event record_ pending log log' h =
      bind_ok (bind_text event.event_id) _ h λ id id_ok h₁.
        bind_ok (bind_integer event.ts) _ h₁ λ ts ts_ok h₂.
          bind_ok (bind_text event.type) _ h₂ λ bound type_ok h₃.
            bind_ok (bind_text event.token_jti) _ h₃ λ jti jti_ok h₄.
              bind_ok (or_raise bound integrity_error) _ h₄ λ type bound_ok h₅.
                bind_ok
                  (raise_if (elim (find_row id log) [ none ↦ false | some _ ↦ true ])
                    integrity_error)
                  _ h₅
                  λ _ new_ok h₆. record {
                    row = record {
                      event_id = id;
                      ts = ts;
                      type = type;
                      token_jti = jti;
                      prev_hash = latest_hash log;
                      record_ = sort_keys record_;
                      chain_hash = chain_hash (latest_hash log) record_;
                      pending_peer = pending;
                    };
                    appended = cc;
                    id_bound = id_ok;
                    ts_bound = ts_ok;
                    type_bound = cc (type_ok, or_raise-eq-ok bound integrity_error bound_ok);
                    jti_bound = jti_ok;
                    new_id = not_there _ (raise_if-eq-ok _ integrity_error new_ok);
                    links = refl;
                    hashes = refl;
                    stores = refl;
                    flagged = refl;
                  }

  -- The row of an event whose columns are bound.
  abbrev pub new_row :
      AuditEvent → Json → Bool → Log → Option String → ℤ → String → Option String → Row
  new_row event record_ pending log id ts type jti = record {
    event_id = id;
    ts = ts;
    type = type;
    token_jti = jti;
    prev_hash = latest_hash log;
    record_ = sort_keys record_;
    chain_hash = chain_hash (latest_hash log) record_;
    pending_peer = pending;
  }

  -- Columns that can be bound and a new id are all that an insertion needs.
  pub insert_event_fresh :
      (event : AuditEvent) (record_ : Json) (pending : Bool) (log : Log) (id : Option String)
      (ts : ℤ) (type : String) (jti : Option String)
      → bind_text event.event_id ≡ ok id
      → bind_integer event.ts ≡ ok ts
      → bind_text event.type ≡ ok (some type)
      → bind_text event.token_jti ≡ ok jti
      → find_row id log ≡ none
      → insert_event event record_ pending log
        ≡ ok (log ++ new_row event record_ pending log id ts type jti ∷ [])
  unfolding insert_event
  insert_event_fresh event record_ pending log id ts type jti id_ok ts_ok type_ok jti_ok new_id =
      rw (id_ok, ts_ok, type_ok, jti_ok, new_id)
