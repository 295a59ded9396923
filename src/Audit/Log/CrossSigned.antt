-- ===== src/Audit/Log/CrossSigned.antt =====
-- Both parties' signatures: a record that both have signed verifies with their two keys.
use agent_trust_fabric.Prelude.{
  ◌≡◌, ◌≢◌, refl, ap, sym, ◌∙◌, true, false, none, some, List, [], ◌∷◌, ◌++◌, String, arith, str_eq,
  eq_iff, eq_refl, ℕ,
}
use agent_trust_fabric.Errors.{ok, ok-injective}
use agent_trust_fabric.Json.{Json, str, subscript, iterate, sort_keys, canonical_json}
use agent_trust_fabric.Json
use agent_trust_fabric.Json.Keys.{insert}
use agent_trust_fabric.Json.Bytes.{canonical_json-sort_keys}
use agent_trust_fabric.Runtime.{Runtime, IsSignatureScheme}
use agent_trust_fabric.Signing.{KeyPair, sign_envelope}
use agent_trust_fabric.Signing.RoundTrip.{verify_envelope-sign_envelope}
use agent_trust_fabric.Audit.Event.{
  AuditEvent, event_content, signed_record, check_signatures, verify_record_signatures,
}
use agent_trust_fabric.Audit.Log.Columns.{Row, Log, bind_text}
use agent_trust_fabric.Audit.Log.{
  find_row, replace_row, sign_only, append_pending, finalize_pending, cosigned, get_record,
}
use agent_trust_fabric.Audit.Log.Inserted.{insert_event→IsInserted}
use agent_trust_fabric.Audit.Log.Cosign.{finalized_row, find_row-replace_row, content-sort_keys}

pub find_row-last :
    (id : String) (log : Log) (row : Row)
    → find_row (some id) log ≡ none
    → row.event_id ≡ some id
    → find_row (some id) (log ++ row ∷ []) ≡ some row
find_row-last id [] row h e = rw (e, eq_refl id)
find_row-last id (r ∷ rs) row h e = ground (arith, find_row-last id rs row)

module _ ⦃rt : Runtime⦄ where
  -- The row of an event that waits for the peer's signature.
  pub record IsPending (event : AuditEvent) (signature : Json) (id : String) (log : Log)
      : Type 0 where
    pub row : Row
    pub found : find_row (some id) log ≡ some row
    pub waits : row.pending_peer ≡ true
    pub stores : row.record_ ≡ sort_keys (signed_record (event_content event) (signature ∷ []))

  pub append_pending→IsPending :
      (event : AuditEvent) (signature : Json) (id : String) (log pending_log : Log)
      → event.event_id ≡ str id
      → append_pending event signature log ≡ ok pending_log
      → IsPending event signature id pending_log
  unfolding append_pending bind_text
  append_pending→IsPending event signature id log pending_log named h =
      let i = insert_event→IsInserted event _ true log pending_log h in
      let row_id : i.row.event_id ≡ some id = ok-injective (sym i.id_bound ∙ ap bind_text named) in
      record {
        row = i.row;
        found =
            ap (find_row (some id)) i.appended
            ∙ find_row-last id log i.row (ap (λ k. find_row k log) (sym row_id) ∙ i.new_id) row_id;
        waits = i.flagged;
        stores = i.stores;
      }

-- The keys of the two parties.
abbrev pub keys_of : KeyPair → KeyPair → String → String → List (String × List ℕ)
keys_of a b a_id b_id = (a_id, a.public_key) ∷ (b_id, b.public_key) ∷ []

module _ ⦃rt : Runtime⦄ (scheme : IsSignatureScheme rt) (a b : KeyPair)
    (own_a : a.public_key ≡ rt.public_key a.private_key)
    (own_b : b.public_key ≡ rt.public_key b.private_key) (a_id b_id : String)
    (distinct : a_id ≢ b_id) where
  abbrev both : List (String × List ℕ)
  both = keys_of a b a_id b_id

  a_not_b : str_eq a_id b_id ≡ false
  a_not_b = ground (arith, eq_iff a_id b_id)

  b_not_a : str_eq b_id a_id ≡ false
  b_not_a = ground (arith, eq_iff b_id a_id)

  pub both_verify :
      (content other : Json)
      → canonical_json other ≡ canonical_json content
      → (check_signatures other
            (sign_envelope content b b_id ∷ sign_envelope content a a_id ∷ [])
            both
          ≡ ok tt)
        × (check_signatures other
              (sign_envelope content a a_id ∷ sign_envelope content b b_id ∷ [])
              both
            ≡ ok tt)
  unfolding check_signatures sign_envelope
  both_verify content other e = (
    rw (
      a_not_b,
      b_not_a,
      eq_refl a_id,
      eq_refl b_id,
      verify_envelope-sign_envelope scheme a own_a content other a_id e,
      verify_envelope-sign_envelope scheme b own_b content other b_id e,
    ),
    rw (
      a_not_b,
      b_not_a,
      eq_refl a_id,
      eq_refl b_id,
      verify_envelope-sign_envelope scheme a own_a content other a_id e,
      verify_envelope-sign_envelope scheme b own_b content other b_id e,
    ),
  )

  canonical_twice : (v : Json) → canonical_json (sort_keys (sort_keys v)) ≡ canonical_json v
  canonical_twice v = canonical_json-sort_keys (sort_keys v) ∙ canonical_json-sort_keys v

  -- The record once the peer has signed.
  cosigned_by_peer :
      (content : Json)
      → cosigned
          (sort_keys (signed_record content (sign_envelope content b b_id ∷ [])))
          (sign_envelope content a a_id)
        ≡ ok (
            signed_record
              (sort_keys content)
              (sign_envelope content b b_id ∷ sign_envelope content a a_id ∷ []))
  unfolding cosigned sort_keys insert sign_envelope agent_trust_fabric.Json.py_eq
  cosigned_by_peer content = rw a_not_b

  pub cosigned_verifies :
      (content : Json)
      → verify_record_signatures
          (sort_keys (
            signed_record
              (sort_keys content)
              (sign_envelope content b b_id ∷ sign_envelope content a a_id ∷ [])))
          both
        ≡ ok tt
  unfolding verify_record_signatures sort_keys insert sign_envelope
  cosigned_verifies content =
      (both_verify content (sort_keys (sort_keys content)) (canonical_twice content)).0

  abbrev pub own_record : Json → Json
  own_record content = signed_record content (sign_envelope content b b_id ∷ [])

  abbrev pub peer_record : Json → Json
  peer_record content =
      signed_record (sort_keys content)
        (sign_envelope content b b_id ∷ sign_envelope content a a_id ∷ [])

  -- The call on a row that holds the delegatee's record.
  pub finalizes :
      (event : AuditEvent) (id : String) (log : Log) (row : Row)
      → find_row (some id) log ≡ some row
      → row.pending_peer ≡ true
      → row.record_ ≡ sort_keys (own_record (event_content event))
      → finalize_pending (str id) (sign_only event a a_id) a.public_key log
        ≡ ok (replace_row (some id) (finalized_row row (peer_record (event_content event))) log)
  unfolding finalize_pending sign_only
  finalizes event id log row found waits stored =
      let content = event_content event in
      rw (
        found,
        waits,
        stored,
        cosigned_by_peer content,
        content-sort_keys content (sign_envelope content b b_id ∷ []),
        verify_envelope-sign_envelope scheme a own_a content (sort_keys content) a_id
            (canonical_json-sort_keys content),
      )

  -- After the delegatee stores an event as pending with its own signature, finalize_pending with
  -- the delegator's signature of the same event succeeds, and the record that get then returns
  -- passes verify_record_signatures with the keys of the two, whose ids differ. Assumed: the
  -- signature scheme and that both key pairs are ones.
  pub cross_signing :
      (event : AuditEvent) (id : String) (log pending_log : Log)
      → event.event_id ≡ str id
      → append_pending event (sign_only event b b_id) log ≡ ok pending_log
      → (final_log : Log) × (record_ : Json) × (finalize_pending
            (str id)
            (sign_only event a a_id)
            a.public_key
            pending_log
          ≡ ok final_log)
        × (get_record (str id) final_log ≡ ok (some record_))
        × (verify_record_signatures record_ both ≡ ok tt)
  unfolding sign_only get_record bind_text
  cross_signing event id log pending_log named h =
      let content = event_content event in
      let i = append_pending→IsPending event (sign_only event b b_id) id log pending_log named h in
      let new = finalized_row i.row (peer_record content) in
      (
        replace_row (some id) new pending_log,
        new.record_,
        finalizes event id pending_log i.row i.found i.waits i.stores,
        rw (find_row-replace_row (some id) pending_log i.row new i.found refl),
        cosigned_verifies content,
      )
