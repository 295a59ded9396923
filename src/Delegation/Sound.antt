-- ===== src/Delegation/Sound.antt =====
-- Exactly which tokens `verify_token` accepts.
use agent_trust_fabric.Prelude.{◌≡◌, refl, ap, ◌↔◌, Option, none, some, List, String, eq_refl, ℕ}
use agent_trust_fabric.Prelude.Int.{ℤ, ◌<ℤ◌, ◌≤ℤ◌, leb_ℤ, leb_ℤ-false_iff, ltb_ℤ-false_iff}
use agent_trust_fabric.Errors.{
  ok, ◌>>=◌, bind_ok, through, raise_if, raise_if-eq-ok, raise_as, raise_as-eq-ok, not-eq-false,
  token_expired, token_not_yet_valid, token_insufficient_scope, token_invalid_signature,
}
use agent_trust_fabric.Json.Value.{is_str-true}
use agent_trust_fabric.Json.{Json, str, subscript, iterate, integer}
use agent_trust_fabric.Runtime.{Runtime}
use agent_trust_fabric.Signing.{verify_compact}
use agent_trust_fabric.Signing.Accepts.{IsToken, verify_compact_iff}
use agent_trust_fabric.Delegation.Claims.{DelegationClaims, build_claims}
use agent_trust_fabric.Delegation.Verify.{
  scope_covers, check_required, check_manifest, check_lifetime, check_sub, verify_payload,
  verify_token,
}
use agent_trust_fabric.Delegation.Scope.{
  ScopeCovers, scope_covers→ScopeCovers, ScopeCovers→scope_covers, AllDeclared, check_declared_iff,
}

-- `nbf ≤ now < exp`.
pub record IsAlive (payload : Json) (now : ℤ) : Type 0 where
  pub exp : ℤ
  pub nbf : ℤ
  pub exp_read : (subscript payload "exp" >>= integer) ≡ ok exp
  pub nbf_read : (subscript payload "nbf" >>= integer) ≡ ok nbf
  pub before_exp : now <ℤ exp
  pub after_nbf : nbf ≤ℤ now

check_lifetime→IsAlive :
    (payload : Json) (now : ℤ) → check_lifetime payload now ≡ ok tt → IsAlive payload now
unfolding check_lifetime
check_lifetime→IsAlive payload now h = bind_ok (subscript payload "exp") _ h λ e e_ok h₁.
    bind_ok (integer e) _ h₁ λ exp exp_ok h₂.
      bind_ok (raise_if (leb_ℤ exp now) token_expired) _ h₂ λ _ live h₃.
        bind_ok (subscript payload "nbf") _ h₃ λ n n_ok h₄.
          bind_ok (integer n) _ h₄ λ nbf nbf_ok h₅. record {
            exp = exp;
            nbf = nbf;
            exp_read = rw e_ok exp_ok;
            nbf_read = rw n_ok nbf_ok;
            before_exp = (leb_ℤ-false_iff exp now).0 (raise_if-eq-ok _ token_expired live);
            after_nbf = (ltb_ℤ-false_iff now nbf).0 (raise_if-eq-ok _ token_not_yet_valid h₅);
          }

pub IsAlive→check_lifetime :
    (payload : Json) (now : ℤ) → IsAlive payload now → check_lifetime payload now ≡ ok tt
unfolding check_lifetime
IsAlive→check_lifetime payload now a = through (subscript payload "exp") integer _ a.exp_read (
    rw ((leb_ℤ-false_iff a.exp now).1 a.before_exp) (
      through (subscript payload "nbf") integer _ a.nbf_read
        (rw ((ltb_ℤ-false_iff now a.nbf).1 a.after_nbf))))

-- The scopes of the payload cover what is required.
abbrev pub Covered : Json → Option String → Type 0
Covered payload none = Unit
Covered payload (some required) =
    (scopes : List Json) × ((subscript payload "scope" >>= iterate) ≡ ok scopes)
    × ScopeCovers scopes required

-- The delegator's manifest declares every scope of the payload.
abbrev pub Declared : Json → Option Json → Type 0
Declared payload none = Unit
Declared payload (some content) =
    (scopes : List Json) × ((subscript payload "scope" >>= iterate) ≡ ok scopes)
    × AllDeclared content scopes

check_required→Covered :
    (payload : Json) (r : Option String) → check_required payload r ≡ ok tt → Covered payload r
unfolding check_required
check_required→Covered payload none h = tt
check_required→Covered payload (some r) h = bind_ok (subscript payload "scope") _ h λ v v_ok h₁.
    bind_ok (iterate v) _ h₁ λ scopes scopes_ok h₂.
      bind_ok (scope_covers scopes r) _ h₂ λ covered covered_ok h₃. (
        scopes,
        rw v_ok scopes_ok,
        scope_covers→ScopeCovers scopes r
            (cc (covered_ok, not-eq-false _ (raise_if-eq-ok _ token_insufficient_scope h₃))),
      )

check_manifest→Declared :
    (payload : Json) (m : Option Json) → check_manifest payload m ≡ ok tt → Declared payload m
unfolding check_manifest
check_manifest→Declared payload none h = tt
check_manifest→Declared payload (some content) h =
    bind_ok (subscript payload "scope") _ h λ v v_ok h₁.
      bind_ok (iterate v) _ h₁
        λ scopes scopes_ok h₂. (scopes, rw v_ok scopes_ok, (check_declared_iff content scopes).0 h₂)

check_sub→is :
    (payload : Json) (s : String)
    → check_sub payload s ≡ ok tt
    → subscript payload "sub" ≡ ok (str s)
unfolding check_sub
check_sub→is payload s h = bind_ok (subscript payload "sub") _ h λ sub sub_ok h₁.
    rw sub_ok
      (ap ok (is_str-true sub s (not-eq-false _ (raise_if-eq-ok _ token_insufficient_scope h₁))))

pub check_required_of_Covered :
    (payload : Json) (r : Option String) → Covered payload r → check_required payload r ≡ ok tt
unfolding check_required
check_required_of_Covered payload none c = refl
check_required_of_Covered payload (some r) (scopes, read, c) =
    through (subscript payload "scope") iterate _ read (rw (ScopeCovers→scope_covers scopes r c))

check_manifest_of_Declared :
    (payload : Json) (m : Option Json) → Declared payload m → check_manifest payload m ≡ ok tt
unfolding check_manifest
check_manifest_of_Declared payload none d = refl
check_manifest_of_Declared payload (some content) (scopes, read, d) =
    through (subscript payload "scope") iterate _ read ((check_declared_iff content scopes).1 d)

pub check_sub_of_is :
    (payload : Json) (s : String)
    → subscript payload "sub" ≡ ok (str s)
    → check_sub payload s ≡ ok tt
unfolding check_sub
check_sub_of_is payload s h = rw (h, eq_refl s)

module _ ⦃rt : Runtime⦄ where
  -- What an accepted payload is, and the claims that are read from it.
  pub record IsDelegation (payload : Json) (sub : String) (required : Option String)
      (content : Option Json) (now : ℤ) (claims : DelegationClaims) : Type 0 where
    pub alive : IsAlive payload now
    pub addressed : subscript payload "sub" ≡ ok (str sub)
    pub covered : Covered payload required
    pub declared : Declared payload content
    pub claims_read : build_claims payload ≡ ok claims

  module _ (payload : Json) (sub : String) (required : Option String) (content : Option Json)
      (now : ℤ) (claims : DelegationClaims) where
    verify_payload→IsDelegation :
        verify_payload payload sub required content now ≡ ok claims
        → IsDelegation payload sub required content now claims
    unfolding verify_payload
    verify_payload→IsDelegation h = bind_ok (check_lifetime payload now) _ h λ _ alive h₁.
        bind_ok (check_sub payload sub) _ h₁ λ _ addressed h₂.
          bind_ok (check_required payload required) _ h₂ λ _ covered h₃.
            bind_ok (check_manifest payload content) _ h₃ λ _ declared h₄. record {
              alive = check_lifetime→IsAlive payload now alive;
              addressed = check_sub→is payload sub addressed;
              covered = check_required→Covered payload required covered;
              declared = check_manifest→Declared payload content declared;
              claims_read = h₄;
            }

    pub IsDelegation→verify_payload :
        IsDelegation payload sub required content now claims
        → verify_payload payload sub required content now ≡ ok claims
    unfolding verify_payload
    IsDelegation→verify_payload d = rw (
      IsAlive→check_lifetime payload now d.alive,
      check_sub_of_is payload sub d.addressed,
      check_required_of_Covered payload required d.covered,
      check_manifest_of_Declared payload content d.declared,
      d.claims_read,
    )

  verify_compact_of_raise_as :
      (token : String) (key : List ℕ) (p : Json × Json)
      → raise_as token_invalid_signature (verify_compact token key) ≡ ok p
      → IsToken token key p.0 p.1
  verify_compact_of_raise_as token key p h =
      (verify_compact_iff token key p.0 p.1).0 (raise_as-eq-ok token_invalid_signature _ h)

  module _ (token : String) (key : List ℕ) (sub : String) (required : Option String)
      (content : Option Json) (now : ℤ) (claims : DelegationClaims) where
    -- verify_token accepts a token with given claims exactly when the token has three parts, the
    -- fixed algorithm and a signature by the delegator's key, and its payload is alive (nbf <= now
    -- < exp), addressed to the verifier, covers the required scope, if one is required, has only
    -- scopes that the delegator's manifest declares, and reads as those claims.
    pub verify_token_iff : (verify_token token key sub required content now ≡ ok claims) ↔ (
        (head : Json) × (payload : Json) × IsToken token key head payload
        × IsDelegation payload sub required content now claims)
    unfolding verify_token
    verify_token_iff = (
      λ h. bind_ok (raise_as token_invalid_signature (verify_compact token key)) _ h λ p p_ok h₁. (
        p.0,
        p.1,
        verify_compact_of_raise_as token key p p_ok,
        verify_payload→IsDelegation p.1 sub required content now claims h₁,
      ),
      λ (head, payload, t, d).
          rw ((verify_compact_iff token key head payload).1 t)
            (IsDelegation→verify_payload payload sub required content now claims d),
    )
