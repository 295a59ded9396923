-- ===== src/Agent/Numbered.antt =====
-- A token whose jti is a number passes the replay check however often it was used.
use agent_trust_fabric.Prelude.{
  ◌≡◌, refl, ap, Bool, true, false, some, [], ◌∷◌, String, if◌then◌else◌, All,
}
use agent_trust_fabric.Prelude.Int.{ℤ}
use agent_trust_fabric.Errors.{Result, ok, ◌>>=◌}
use agent_trust_fabric.Json.Value
use agent_trust_fabric.Json.{Json, Fields, num, str, obj, lookup, subscript}
use agent_trust_fabric.Runtime.{Runtime}
use agent_trust_fabric.Delegation.Verify.{verify_token}
use agent_trust_fabric.Audit.Event.{Stamp}
use agent_trust_fabric.Audit.Log.Columns.{Row, Log, bind_text, fits, in_order}
use agent_trust_fabric.Audit.Log.{records, all_events, has_jti}
use agent_trust_fabric.Agent.{Agent, PeerRecord, own_id, peer}
use agent_trust_fabric.Agent.Delegation.{
  read_payload, is_use, any_use, read_token, verify_read, verify_delegation, unless_null,
}
use agent_trust_fabric.Agent.Uses.{in_order-All}

-- The event in the row names its token by a text, as every event that the agent makes does.
pub record HasTextJti (r : Row) : Type 0 where
  pub fs : Fields
  pub jti : String
  pub content_read : subscript r.record_ "content" ≡ ok (obj fs)
  pub jti_read : lookup "token_jti" fs ≡ some (str jti)

any_use-num : (z : ℤ) (log : Log) → All HasTextJti log → any_use (num z) (records log) ≡ ok false
unfolding any_use is_use agent_trust_fabric.Json.Value.py_eq
any_use-num z [] h = refl
any_use-num z (r ∷ rs) h = rw (h.0.content_read, h.0.jti_read, any_use-num z rs h.1)

unused : (b : Bool) (m : Result Bool) → m ≡ ok false → (if b then m else ok false) ≡ ok false
unused true m h = h
unused false m h = refl

module _ ⦃rt : Runtime⦄ where
  read_token-num :
      (token : String) (z : ℤ) (payload iss : Json) (p : PeerRecord) (a : Agent)
      → read_payload token ≡ ok payload
      → subscript payload "iss" ≡ ok iss
      → subscript payload "jti" ≡ ok (num z)
      → peer iss a ≡ ok p
      → fits z ≡ true
      → All HasTextJti a.audit_log
      → read_token token a ≡ ok (record { iss = iss; peer_record = p; jti = num z; used = false })
  unfolding read_token has_jti bind_text all_events
  read_token-num token z payload iss p a parsed iss_read jti_read known fit texts =
      rw (parsed, iss_read, jti_read, known, fit)
        (ap
          (λ m. m >>= λ used. ok (record { iss = iss; peer_record = p; jti = num z; used = used }))
          (unused _ _
            (any_use-num z (in_order a.audit_log) (in_order-All HasTextJti a.audit_log texts))))

  -- A token whose jti is a number passes the replay check however often it was used. If the number
  -- fits into a column and every record in the log names its token by a text, verify_delegation
  -- ends for a known issuer as verify_token does with the issuer's key and manifest, and the agent
  -- stays as it was.
  pub verify_delegation_num :
      (token : String) (z : ℤ) (payload iss : Json) (p : PeerRecord) (a : Agent)
      → read_payload token ≡ ok payload
      → subscript payload "iss" ≡ ok iss
      → subscript payload "jti" ≡ ok (num z)
      → peer iss a ≡ ok p
      → fits z ≡ true
      → All HasTextJti a.audit_log
      → (stamp : Stamp) (now : ℤ) (required : String)
      → verify_delegation stamp now required token a ≡ (
        verify_token token p.public_key
            (own_id a)
            (some required)
            (unless_null p.manifest_content)
            now,
        a,
      )
  unfolding verify_delegation
  verify_delegation_num token z payload iss p a parsed iss_read jti_read known fit texts stamp now
        required =
      ap (verify_read stamp now required token a)
        (read_token-num token z payload iss p a parsed iss_read jti_read known fit texts)
