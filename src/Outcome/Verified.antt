-- ===== src/Outcome/Verified.antt =====
-- Exactly which outcome envelopes `verify_outcome` accepts.
use agent_trust_fabric.Prelude.{
  ◌≡◌, refl, ap, sym, ◌↔◌, true, Option, none, some, List, String, eq_iff, eq_refl, arith, ℕ,
}
use agent_trust_fabric.Errors.{
  ok, bind_ok, raise_if-eq-ok, raise_as, raise_as-eq-ok, key_error_as, key_error_as-eq-ok,
  not-eq-false, outcome_schema_mismatch, outcome_invalid_signature, ok-injective,
}
use agent_trust_fabric.Json.Value.{is_str-true}
use agent_trust_fabric.Json.{Json, str, null, is_str, get, subscript, or_else}
use agent_trust_fabric.Runtime.{Runtime}
use agent_trust_fabric.Signing.{verify_envelope}
use agent_trust_fabric.Signing.Accepts.{IsEnvelope, verify_envelope_iff}
use agent_trust_fabric.Outcome.{
  Outcome, payload_hash, check_schema, outcome_of, check_hash, verify_outcome,
}

found_str :
    (found : Option Json) (s : String) → is_str (or_else found null) s ≡ true → found ≡ some (str s)
found_str none s h = absurd (cc)
found_str (some (str t)) s h = ground (arith, eq_iff t s)
found_str (some _) s h = absurd (cc)

-- The content names the schema that is expected, if one is.
abbrev pub HasSchema : Json → Option String → Type 0
HasSchema content none = Unit
HasSchema content (some expected) = get content "schema_id" ≡ ok (some (str expected))

pub check_schema_iff :
    (content : Json) (expected : Option String)
    → (check_schema content expected ≡ ok tt) ↔ HasSchema content expected
unfolding check_schema
check_schema_iff content none = (λ h. tt, λ h. refl)
check_schema_iff content (some expected) = (
  λ h. bind_ok (get content "schema_id") _ h λ found found_ok h₁. rw found_ok (
      ap ok
        (found_str found expected (not-eq-false _ (raise_if-eq-ok _ outcome_schema_mismatch h₁)))),
  λ h. rw (h, eq_refl expected),
)

module _ ⦃rt : Runtime⦄ where
  -- The content has every attribute of an outcome, and its hash is that of its payload.
  pub record HasHash (content : Json) : Type 0 where
    pub outcome : Outcome
    pub read : outcome_of content ≡ ok outcome
    pub hash_read : subscript content "payload_hash" ≡ ok (str (payload_hash outcome))

  pub check_hash_iff : (content : Json) → (check_hash content ≡ ok tt) ↔ HasHash content
  unfolding check_hash
  check_hash_iff content = (
    λ h. bind_ok (outcome_of content) _ h λ o o_ok h₁.
        bind_ok (subscript content "payload_hash") _ h₁ λ found found_ok h₂. record {
          outcome = o;
          read = o_ok;
          hash_read = rw found_ok (
              ap ok (
                is_str-true found _
                  (not-eq-false _ (raise_if-eq-ok _ outcome_schema_mismatch h₂))));
        },
    λ c. rw (c.read, c.hash_read, eq_refl (payload_hash c.outcome)),
  )

  -- What an accepted envelope is.
  pub record IsVerified (envelope : Json) (key : List ℕ) (expected : Option String) (content : Json)
      : Type 0 where
    pub signature : Json
    pub content_read : subscript envelope "outcome" ≡ ok content
    pub signature_read : subscript envelope "signature" ≡ ok signature
    pub signed : IsEnvelope content signature key
    pub schema : HasSchema content expected
    pub hash : HasHash content

  verify_outcome→IsVerified :
      (envelope : Json) (key : List ℕ) (expected : Option String) (content : Json)
      → verify_outcome envelope key expected ≡ ok content
      → IsVerified envelope key expected content
  unfolding verify_outcome
  verify_outcome→IsVerified envelope key expected content h =
      bind_ok (key_error_as outcome_invalid_signature (subscript envelope "outcome")) _ h
        λ c c_ok h₁.
          bind_ok (key_error_as outcome_invalid_signature (subscript envelope "signature")) _ h₁
            λ signature signature_ok h₂.
              bind_ok (raise_as outcome_invalid_signature (verify_envelope c signature key)) _ h₂
                λ _ signed_ok h₃. bind_ok (check_schema c expected) _ h₃ λ _ schema_ok h₄.
                  bind_ok (check_hash c) _ h₄ λ _ hash_ok h₅. rw (sym (ok-injective h₅)) (record {
                    signature = signature;
                    content_read = key_error_as-eq-ok outcome_invalid_signature _ c_ok;
                    signature_read = key_error_as-eq-ok outcome_invalid_signature _ signature_ok;
                    signed =
                        (verify_envelope_iff c signature key).0
                          (raise_as-eq-ok outcome_invalid_signature _ signed_ok);
                    schema = (check_schema_iff c expected).0 schema_ok;
                    hash = (check_hash_iff c).0 hash_ok;
                  })

  -- verify_outcome accepts an envelope with given content exactly when the envelope holds a
  -- signature of that content by the delegatee's key, the content names the expected schema, if
  -- one is expected, it has a token_jti, a status, a payload, a schema_id and an executed_at, and
  -- its payload_hash is the hash of its payload.
  pub verify_outcome_iff :
      (envelope : Json) (key : List ℕ) (expected : Option String) (content : Json)
      → (verify_outcome envelope key expected ≡ ok content)
        ↔ IsVerified envelope key expected content
  unfolding verify_outcome
  verify_outcome_iff envelope key expected content = (
    verify_outcome→IsVerified envelope key expected content,
    λ v. rw (
      v.content_read,
      v.signature_read,
      (verify_envelope_iff content v.signature key).1 v.signed,
      (check_schema_iff content expected).1 v.schema,
      (check_hash_iff content).1 v.hash,
    ),
  )
