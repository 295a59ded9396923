-- ===== src/Delegation/Rejects.antt =====
-- How `verify_token` refuses a token: one exception for each reason, in the order of the checks.
use agent_trust_fabric.Prelude.{
  ◌≡◌, ap, ◌∙◌, ◌≢◌, ◌⊎◌, [], ◌∷◌, map, Any, true, false, Option, some, List, String, eq_iff, arith,
  ℕ, Bool-cases, inl, inr,
}
use agent_trust_fabric.Prelude.Int.{ℤ, ◌<ℤ◌, ◌≤ℤ◌, leb_ℤ, ltb_ℤ}
use agent_trust_fabric.Errors.{
  ok, err, Exc, ◌>>=◌, through, Result-cases, token_expired, token_not_yet_valid,
  token_insufficient_scope, token_invalid_signature,
}
use agent_trust_fabric.Json.{Json, str, subscript, integer, iterate}
use agent_trust_fabric.Runtime.{Runtime}
use agent_trust_fabric.Signing.{verify_compact}
use agent_trust_fabric.Signing.Accepts.{IsToken, verify_compact_iff}
use agent_trust_fabric.Delegation.Verify.{
  check_lifetime, check_sub, check_required, check_declared, check_manifest, verify_payload,
  verify_token,
}
use agent_trust_fabric.Delegation.Scope.{scope_covers-strs}
use agent_trust_fabric.Manifest.{Manifest, manifest_content}
use agent_trust_fabric.Manifest.Covers.{
  Covers, any_covers, any_covers_iff, names, manifest_has_capability-content,
  manifest_has_capability_iff, Delegable,
}
use agent_trust_fabric.Delegation.Sound.{
  IsAlive, IsAlive→check_lifetime, Covered, check_sub_of_is, check_required_of_Covered,
}

late_check :
    (payload : Json) (exp now : ℤ)
    → (subscript payload "exp" >>= integer) ≡ ok exp
    → exp ≤ℤ now
    → check_lifetime payload now ≡ err token_expired
unfolding check_lifetime
late_check payload exp now read late =
    through (subscript payload "exp") integer _ read (rw (late_test exp now late))
  where
    late_test : (a b : ℤ) → a ≤ℤ b → leb_ℤ a b ≡ true
    late_test a b h = ground arith

early_check :
    (payload : Json) (exp nbf now : ℤ)
    → (subscript payload "exp" >>= integer) ≡ ok exp
    → (subscript payload "nbf" >>= integer) ≡ ok nbf
    → now <ℤ exp
    → now <ℤ nbf
    → check_lifetime payload now ≡ err token_not_yet_valid
unfolding check_lifetime
early_check payload exp nbf now exp_read nbf_read live soon =
    through (subscript payload "exp") integer _ exp_read (
      rw (live_test exp now live)
        (through (subscript payload "nbf") integer _ nbf_read (rw (soon_test now nbf soon))))
  where
    live_test : (a b : ℤ) → b <ℤ a → leb_ℤ a b ≡ false
    live_test a b h = ground arith

    soon_test : (a b : ℤ) → a <ℤ b → ltb_ℤ a b ≡ true
    soon_test a b h = ground arith

other_sub :
    (payload : Json) (sub expected : String)
    → subscript payload "sub" ≡ ok (str sub)
    → sub ≢ expected
    → check_sub payload expected ≡ err token_insufficient_scope
unfolding check_sub
other_sub payload sub expected read other = rw read (ground (arith, eq_iff sub expected))

-- The scopes of a payload, all of them texts.
abbrev pub HasScopes : Json → List String → Type 0
HasScopes payload scopes = (subscript payload "scope" >>= iterate) ≡ ok (map str scopes)

not_covered :
    (payload : Json) (scopes : List String) (required : String)
    → HasScopes payload scopes
    → ¬ Any (λ s. Covers s required) scopes
    → check_required payload (some required) ≡ err token_insufficient_scope
unfolding check_required
not_covered payload scopes required read none_covers =
    through (subscript payload "scope") iterate _ read
      (rw (scope_covers-strs scopes required, no_cover))
  where
    no_cover : any_covers scopes required ≡ false
    no_cover = elim (Bool-cases (any_covers scopes required)) [
      | inl is_yes ↦ absurd (none_covers ((any_covers_iff scopes required).0 is_yes))
      | inr is_no ↦ is_no
    ]

all_or_refused :
    (m : Manifest) (scopes : List String)
    → Delegable m scopes
      ⊎ (check_declared (manifest_content m) (map str scopes) ≡ err token_insufficient_scope)
unfolding check_declared
all_or_refused m [] = inl tt
all_or_refused m (s ∷ ss) = elim (Bool-cases (any_covers (names m.capabilities) s)) [
  | inl is_yes ↦ elim (all_or_refused m ss) [
    | inl rest ↦ inl (
      (manifest_has_capability_iff m s).0 (manifest_has_capability-content m s ∙ ap ok is_yes),
      rest,
    )
    | inr refused ↦ inr (rw (manifest_has_capability-content m s, is_yes, refused))
  ]
  | inr is_no ↦ inr (rw (manifest_has_capability-content m s, is_no))
]

not_declared :
    (payload : Json) (m : Manifest) (scopes : List String)
    → HasScopes payload scopes
    → ¬ Delegable m scopes
    → check_manifest payload (some (manifest_content m)) ≡ err token_insufficient_scope
unfolding check_manifest
not_declared payload m scopes read undeclared =
    through (subscript payload "scope") iterate _ read
      (elim (all_or_refused m scopes) [ inl all ↦ absurd (undeclared all) | inr refused ↦ refused ])

-- Why a signed payload is refused, each reason where those before it do not hold.
pub data IsRefused (payload : Json) (sub : String) (now : ℤ)
    : Option String → Option Json → Exc → Type 0 where
  expired :
      {required : Option String} {content : Option Json} (exp : ℤ)
      → (subscript payload "exp" >>= integer) ≡ ok exp
      → exp ≤ℤ now
      → IsRefused payload sub now required content token_expired
  early :
      {required : Option String} {content : Option Json} (exp nbf : ℤ)
      → (subscript payload "exp" >>= integer) ≡ ok exp
      → (subscript payload "nbf" >>= integer) ≡ ok nbf
      → now <ℤ exp
      → now <ℤ nbf
      → IsRefused payload sub now required content token_not_yet_valid
  misaddressed :
      {required : Option String} {content : Option Json} (named : String)
      → IsAlive payload now
      → subscript payload "sub" ≡ ok (str named)
      → named ≢ sub
      → IsRefused payload sub now required content token_insufficient_scope
  uncovered :
      {content : Option Json} (required : String) (scopes : List String)
      → IsAlive payload now
      → subscript payload "sub" ≡ ok (str sub)
      → HasScopes payload scopes
      → ¬ Any (λ s. Covers s required) scopes
      → IsRefused payload sub now (some required) content token_insufficient_scope
  undeclared :
      {required : Option String} (m : Manifest) (scopes : List String)
      → IsAlive payload now
      → subscript payload "sub" ≡ ok (str sub)
      → Covered payload required
      → HasScopes payload scopes
      → ¬ Delegable m scopes
      → IsRefused payload sub now required (some (manifest_content m)) token_insufficient_scope

module _ ⦃rt : Runtime⦄ (token : String) (key : List ℕ) (sub : String) (required : Option String)
    (content : Option Json) (now : ℤ) where
  -- A text that is no token signed with the given key, whatever header and payload it might have,
  -- is refused by verify_token as an invalid signature, whatever makes its verification fail.
  pub verify_token-forged :
      ((head payload : Json) → ¬ IsToken token key head payload)
      → verify_token token key sub required content now ≡ err token_invalid_signature
  unfolding verify_token
  verify_token-forged no-IsToken = elim (Result-cases (verify_compact token key)) [
    | inl ((head, payload), e) ↦
        absurd (no-IsToken head payload ((verify_compact_iff token key head payload).0 e))
    | inr (x, e) ↦ rw e
  ]

module _ ⦃rt : Runtime⦄ (payload : Json) (sub : String) (now : ℤ) where
  refuse :
      {required : Option String} {content : Option Json} {x : Exc}
      → IsRefused payload sub now required content x
      → verify_payload payload sub required content now ≡ err x
  unfolding verify_payload
  refuse (expired exp read late) = rw (late_check payload exp now read late)
  refuse (early exp nbf exp_read nbf_read live soon) =
      rw (early_check payload exp nbf now exp_read nbf_read live soon)
  refuse (misaddressed named alive read other) =
      rw (IsAlive→check_lifetime payload now alive, other_sub payload named sub read other)
  refuse (uncovered required scopes alive read has none_covers) = rw (
    IsAlive→check_lifetime payload now alive,
    check_sub_of_is payload sub read,
    not_covered payload scopes required has none_covers,
  )
  refuse {required} (undeclared m scopes alive read covered has not_all) = rw (
    IsAlive→check_lifetime payload now alive,
    check_sub_of_is payload sub read,
    check_required_of_Covered payload required covered,
    not_declared payload m scopes has not_all,
  )

  -- A properly signed token is refused as expired from exp on, before nbf as not yet valid, and
  -- while it lives as insufficient if it names another delegatee, if none of its scopes covers the
  -- required one, or if the delegator's manifest does not cover them all; each reason where those
  -- before it do not hold.
  pub verify_token-refused :
      (token : String) (key : List ℕ) (head : Json) {required : Option String}
      {content : Option Json} {x : Exc}
      → IsToken token key head payload
      → IsRefused payload sub now required content x
      → verify_token token key sub required content now ≡ err x
  unfolding verify_token
  verify_token-refused token key head t r =
      rw ((verify_compact_iff token key head payload).1 t) (refuse r)
