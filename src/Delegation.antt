-- ===== src/Delegation.antt =====
-- reference/py/src/atf/delegation.py: scoped delegation tokens.
pub mod Claims
pub mod Verify
pub mod Scope
pub mod Sound
pub mod Issue
pub mod Rejects
use agent_trust_fabric.Prelude.{
  ℕ, ◌≡◌, refl, Bool, ◌||◌, Option, none, some, List, [], ◌∷◌, map, String,
}
use Prim.Native.String.{◌++◌ as ◌++ˢ◌}
use agent_trust_fabric.Prelude.Int.{ℤ, pos, ◌+ℤ◌, leb_ℤ, ltb_ℤ}
use agent_trust_fabric.Errors.{Result, ok, ◌>>=◌, ◌>>◌, raise_if, value_error}
use agent_trust_fabric.Json.{Json, Fields, end, str, opt_str}
use agent_trust_fabric.Runtime.{Runtime}
use agent_trust_fabric.Signing.{KeyPair, sign_compact}
use agent_trust_fabric.Delegation.Claims.{DelegationClaims, to_dict}

abbrev pub max_ttl_seconds : ℕ
max_ttl_seconds = 86400

abbrev pub default_ttl_seconds : ℕ
default_ttl_seconds = 3600

-- What the caller of `issue_token` passes, with the reading of the clock and of the `uuid` source.
pub record Request : Type 0 where
  pub delegator_id : String
  pub delegatee_id : String
  pub scope : List String
  pub purpose : String
  pub constraints : Option Fields
  pub expires_in : ℤ
  pub audit_uri : Option String
  pub now : ℕ
  pub uuid : String

-- `constraints or {}`.
abbrev pub or_empty : Option Fields → Fields
or_empty none = end
or_empty (some fs) = fs

unfoldable pub claims_of : Request → DelegationClaims
claims_of r = record {
  iss = str r.delegator_id;
  sub = str r.delegatee_id;
  scope = map str r.scope;
  exp = pos r.now +ℤ r.expires_in;
  nbf = pos r.now;
  iat = pos r.now;
  jti = "tkn_" ++ˢ r.uuid;
  purpose = r.purpose;
  constraints = or_empty r.constraints;
  audit_uri = opt_str r.audit_uri;
}

-- `expires_in <= 0 or expires_in > MAX_TTL_SECONDS`.
abbrev pub bad_ttl : ℤ → Bool
bad_ttl expires_in = leb_ℤ expires_in (pos 0) || ltb_ℤ (pos max_ttl_seconds) expires_in

module _ ⦃rt : Runtime⦄ where
  unfoldable pub issue_token : Request → KeyPair → Result String
  unfolding claims_of to_dict
  issue_token r kp = do
    raise_if (bad_ttl r.expires_in) value_error
    sign_compact (to_dict (claims_of r)) kp
