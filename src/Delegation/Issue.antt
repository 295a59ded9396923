-- ===== src/Delegation/Issue.antt =====
-- Issued tokens: the lifetime, and that the delegatee accepts them while they live.
pub mod Accepted
use agent_trust_fabric.Prelude.{
  ◌≡◌, refl, ◌∙◌, ◌↔◌, ◌⊎◌, inl, inr, Bool, true, false, not, ◌||◌, Option, String, ℕ, arith,
  Bool-cases,
}
use agent_trust_fabric.Prelude.Int.{ℤ, pos, ◌<ℤ◌, ◌≤ℤ◌, ◌+ℤ◌, leb_ℤ, ltb_ℤ}
use agent_trust_fabric.Errors.{
  Result, ok, err, ◌>>=◌, ◌>>◌, bind_ok, raise_if, raise_if-eq-ok, value_error,
}
use agent_trust_fabric.Runtime.{Runtime}
use agent_trust_fabric.Signing.{KeyPair, sign_compact}
use agent_trust_fabric.Signing.RoundTrip.{compact, sign_compact_lem}
use agent_trust_fabric.Delegation.Claims.{DelegationClaims, to_dict}
use agent_trust_fabric.Delegation.{Request, issue_token, claims_of, bad_ttl, max_ttl_seconds}

-- The lifetime that `issue_token` takes, as an interval.
abbrev pub IsTtl : ℤ → Type 0
IsTtl t = (pos 0 <ℤ t) × (t ≤ℤ pos max_ttl_seconds)

pub bad_ttl-false_iff : (t : ℤ) → (bad_ttl t ≡ false) ↔ IsTtl t
bad_ttl-false_iff t = ground arith

module _ ⦃rt : Runtime⦄ where
  pub issue_token_lem :
      (r : Request) (kp : KeyPair)
      → IsTtl r.expires_in
      → issue_token r kp ≡ sign_compact (to_dict (claims_of r)) kp
  unfolding issue_token
  issue_token_lem r kp h = rw ((bad_ttl-false_iff r.expires_in).1 h)

  -- issue_token returns a token exactly for a lifetime of 1 to 86400 seconds.
  pub issue_token_iff :
      (r : Request) (kp : KeyPair)
      → ((token : String) × (issue_token r kp ≡ ok token)) ↔ IsTtl r.expires_in
  unfolding issue_token
  issue_token_iff r kp = (
    λ (token, h).
        bind_ok (raise_if (bad_ttl r.expires_in) value_error) _ h
          λ _ good _. (bad_ttl-false_iff r.expires_in).0 (raise_if-eq-ok _ value_error good),
    λ h. (
      compact (to_dict (claims_of r)) kp,
      issue_token_lem r kp h ∙ sign_compact_lem (to_dict (claims_of r)) kp,
    ),
  )

-- The claims of a token issued for a lawful lifetime expire after they begin, and at most a day
-- later.
pub claims_of_lifetime :
    (r : Request)
    → IsTtl r.expires_in
    → ((claims_of r).nbf <ℤ (claims_of r).exp)
      × ((claims_of r).exp ≤ℤ (claims_of r).nbf +ℤ pos max_ttl_seconds)
unfolding claims_of ◌+ℤ◌
claims_of_lifetime r h = ground arith
