-- ===== src/Delegation/Verify.antt =====
-- `verify_token` and `_scope_covers` of reference/py/src/atf/delegation.py.
use Prim.Native.String.{◌++◌ as ◌++ˢ◌}
use agent_trust_fabric.Prelude.{
  ℕ, Bool, true, false, not, Option, none, some, List, [], ◌∷◌, String, starts_with, if◌then◌else◌,
}
use agent_trust_fabric.Prelude.Int.{ℤ, leb_ℤ, ltb_ℤ}
use agent_trust_fabric.Errors.{
  Result, ok, ◌>>=◌, ◌>>◌, raise_if, raise_as, token_expired, token_not_yet_valid,
  token_insufficient_scope, token_invalid_signature,
}
use agent_trust_fabric.Json.{Json, subscript, iterate, integer, is_str, text}
use agent_trust_fabric.Manifest.{manifest_has_capability}
use agent_trust_fabric.Runtime.{Runtime}
use agent_trust_fabric.Signing.{verify_compact}
use agent_trust_fabric.Delegation.Claims.{DelegationClaims, build_claims}

-- The loop of `_scope_covers`; `s + "."` wants a text.
unfoldable pub scope_covers : List Json → String → Result Bool
scope_covers [] required = ok false
scope_covers (s ∷ ss) required = if is_str s required then ok true else do
  prefix ← text s
  if starts_with required (prefix ++ˢ ".") then ok true else scope_covers ss required

unfoldable pub check_required : Json → Option String → Result (Unit {0})
unfolding scope_covers
check_required payload none = ok tt
check_required payload (some required) = do
  scopes ← iterate (← subscript payload "scope")
  covered ← scope_covers scopes required
  raise_if (not covered) token_insufficient_scope

-- The loop over the scopes against the delegator's manifest.
unfoldable pub check_declared : Json → List Json → Result (Unit {0})
unfolding manifest_has_capability
check_declared content [] = ok tt
check_declared content (s ∷ ss) = do
  declared ← manifest_has_capability content s
  raise_if (not declared) token_insufficient_scope
  check_declared content ss

unfoldable pub check_manifest : Json → Option Json → Result (Unit {0})
unfolding check_declared
check_manifest payload none = ok tt
check_manifest payload (some content) = do
  scopes ← iterate (← subscript payload "scope")
  check_declared content scopes

unfoldable pub check_lifetime : Json → ℤ → Result (Unit {0})
check_lifetime payload now = do
  exp ← integer (← subscript payload "exp")
  raise_if (leb_ℤ exp now) token_expired
  nbf ← integer (← subscript payload "nbf")
  raise_if (ltb_ℤ now nbf) token_not_yet_valid

unfoldable pub check_sub : Json → String → Result (Unit {0})
check_sub payload expected = do
  sub ← subscript payload "sub"
  raise_if (not (is_str sub expected)) token_insufficient_scope

module _ ⦃rt : Runtime⦄ where
  -- What `verify_token` does with the payload of a token whose signature holds.
  unfoldable pub verify_payload :
      Json → String → Option String → Option Json → ℤ → Result DelegationClaims
  unfolding check_lifetime check_sub check_required check_manifest build_claims
  verify_payload payload expected_sub required_scope content now = do
    check_lifetime payload now
    check_sub payload expected_sub
    check_required payload required_scope
    check_manifest payload content
    build_claims payload

  -- `now` is the argument or the clock's reading.
  unfoldable pub verify_token :
      String → List ℕ → String → Option String → Option Json → ℤ → Result DelegationClaims
  unfolding verify_compact verify_payload
  verify_token token key expected_sub required_scope content now = do
    (_, payload) ← raise_as token_invalid_signature (verify_compact token key)
    verify_payload payload expected_sub required_scope content now
