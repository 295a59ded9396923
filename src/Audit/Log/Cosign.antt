-- ===== src/Audit/Log/Cosign.antt =====
-- `finalize_pending`: what it needs, and what it changes.
use agent_trust_fabric.Prelude.{
  ◌≡◌, refl, ap, sym, ◌∙◌, Bool, true, false, not, Option, some, List, [], ◌∷◌, ◌++◌, String, arith,
  if◌then◌else◌, ℕ, ◌⊎◌, inl, inr,
}
use agent_trust_fabric.Errors.{
  ok, ◌>>=◌, bind_ok, ok-injective, raise_if, raise_if-eq-ok, raise_as, raise_as-eq-ok, or_raise,
  or_raise-eq-ok, not-eq-false, audit_error, cross_sign_failed,
}
use agent_trust_fabric.Json.{Json, subscript, iterate, sort_keys}
use agent_trust_fabric.Runtime.{Runtime}
use agent_trust_fabric.Signing.{verify_envelope}
use agent_trust_fabric.Audit.Log.Columns.{Row, Log, bind_text}
use agent_trust_fabric.Audit.Log.{
  find_row, replace_row, hashable, signers, is_member, cosigned, verify_stored, finalize_pending,
}
use agent_trust_fabric.Audit.Event.{signed_record}
use agent_trust_fabric.Json.Keys.{insert}
use mathlib.Core.List.{append-nil}

-- The row once the peer has signed.
abbrev pub finalized_row : Row → Json → Row
finalized_row row record_ = record row { record_ = sort_keys record_; pending_peer = false }

module _ ⦃rt : Runtime⦄ where
  -- What a successful call has found, and the log that it leaves.
  pub record IsFinalized (event_id peer_signature : Json) (peer_key : List ℕ) (log log' : Log)
      : Type 0 where
    pub id : Option String
    pub row : Row
    pub content : Json
    pub new_record : Json
    pub id_bound : bind_text event_id ≡ ok id
    pub found : find_row id log ≡ some row
    pub was_pending : row.pending_peer ≡ true
    pub content_read : subscript row.record_ "content" ≡ ok content
    pub verified : verify_envelope content peer_signature peer_key ≡ ok tt
    pub signed : cosigned row.record_ peer_signature ≡ ok new_record
    pub replaced : log' ≡ replace_row id (finalized_row row new_record) log

  pub finalize_pending→IsFinalized :
      (event_id peer_signature : Json) (peer_key : List ℕ) (log log' : Log)
      → finalize_pending event_id peer_signature peer_key log ≡ ok log'
      → IsFinalized event_id peer_signature peer_key log log'
  unfolding finalize_pending
  finalize_pending→IsFinalized event_id peer_signature peer_key log log' h =
      bind_ok (bind_text event_id) _ h λ id id_ok h₁.
        bind_ok (or_raise (find_row id log) audit_error) _ h₁ λ row row_ok h₂.
          bind_ok (raise_if (not row.pending_peer) audit_error) _ h₂ λ _ pending_ok h₃.
            bind_ok (raise_as cross_sign_failed (verify_stored row.record_ peer_signature peer_key))
              _ h₃
              λ _ stored_ok h₄.
                bind_ok (subscript row.record_ "content")
                  (λ c. verify_envelope c peer_signature peer_key)
                  (raise_as-eq-ok cross_sign_failed _ stored_ok)
                  λ content content_ok verified_ok.
                    bind_ok (cosigned row.record_ peer_signature) _ h₄ λ new_record new_ok h₅.
                      record {
                        id = id;
                        row = row;
                        content = content;
                        new_record = new_record;
                        id_bound = id_ok;
                        found = or_raise-eq-ok _ audit_error row_ok;
                        was_pending = not-eq-false _ (raise_if-eq-ok _ audit_error pending_ok);
                        content_read = content_ok;
                        verified = verified_ok;
                        signed = new_ok;
                        replaced = cc;
                      }

pub find_row-replace_row :
    (id : Option String) (log : Log) (row new : Row)
    → find_row id log ≡ some row
    → new.event_id ≡ row.event_id
    → find_row id (replace_row id new log) ≡ some new
find_row-replace_row id [] row new h e = absurd (cc)
find_row-replace_row id (r ∷ rs) row new h e = ground (arith, find_row-replace_row id rs row new)

-- The cosigned record holds the same content, and the signatures with at most one more.
pub record IsCosigned (record_ peer_signature new_record : Json) : Type 0 where
  pub content : Json
  pub signatures : List Json
  pub more : List Json
  pub content_read : subscript record_ "content" ≡ ok content
  pub signatures_read : (subscript record_ "signatures" >>= iterate) ≡ ok signatures
  pub built : new_record ≡ signed_record content (signatures ++ more)
  pub at_most : (more ≡ []) ⊎ (more ≡ peer_signature ∷ [])

split_more :
    (b : Bool) (xs : List Json) (x : Json)
    → (more : List Json) × ((if b then xs else xs ++ x ∷ []) ≡ xs ++ more)
      × ((more ≡ []) ⊎ (more ≡ x ∷ []))
split_more true xs x = ([], sym (append-nil xs), inl refl)
split_more false xs x = (x ∷ [], refl, inr refl)

pub cosigned→IsCosigned :
    (record_ peer_signature new_record : Json)
    → cosigned record_ peer_signature ≡ ok new_record
    → IsCosigned record_ peer_signature new_record
unfolding cosigned
cosigned→IsCosigned record_ sig new_record h =
    bind_ok (subscript record_ "content") _ h λ content content_ok h₁.
      bind_ok (subscript record_ "signatures") _ h₁ λ v v_ok h₂.
        bind_ok (iterate v) _ h₂ λ signatures signatures_ok h₃.
          bind_ok (signers signatures) _ h₃ λ existing existing_ok h₄.
            bind_ok (subscript sig "signed_by") _ h₄ λ signer signer_ok h₅.
              bind_ok (hashable signer) _ h₅ λ _ hashable_ok h₆.
                let (more, more_ok, at_most) =
                  split_more (is_member signer existing) signatures sig in
                record {
                  content = content;
                  signatures = signatures;
                  more = more;
                  content_read = content_ok;
                  signatures_read = rw v_ok signatures_ok;
                  built = sym (ok-injective h₆) ∙ ap (signed_record content) more_ok;
                  at_most = at_most;
                }

pub content-sort_keys :
    (content : Json) (signatures : List Json)
    → subscript (sort_keys (signed_record content signatures)) "content" ≡ ok (sort_keys content)
unfolding sort_keys insert
content-sort_keys content signatures = refl
