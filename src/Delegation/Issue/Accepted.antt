-- ===== src/Delegation/Issue/Accepted.antt =====
-- The delegatee accepts an issued token while it lives, with the claims that were issued.
use agent_trust_fabric.Prelude.{
  ◌≡◌, refl, ap, Option, none, some, List, [], ◌∷◌, map, String, Any, inl, inr,
}
use agent_trust_fabric.Prelude.Int.{ℤ, pos, ◌<ℤ◌, ◌≤ℤ◌, ◌+ℤ◌}
use agent_trust_fabric.Errors.{ok, ◌>>=◌, bind_ok}
use agent_trust_fabric.Json.{
  Json, Items, str, items, subscript, iterate, integer, opt_str, sort_keys,
}
use agent_trust_fabric.Json.Value.{to_list-items}
use agent_trust_fabric.Json.Keys.{sort_fields, sort_items, insert}
use agent_trust_fabric.Runtime.{Runtime, IsSignatureScheme}
use agent_trust_fabric.Signing.{KeyPair, header, sign_compact, verify_compact}
use agent_trust_fabric.Signing.RoundTrip.{LoadsBack, verify_compact-sign_compact}
use agent_trust_fabric.Manifest.{Manifest, manifest_content}
use agent_trust_fabric.Manifest.Covers.{Covers, manifest_has_capability_iff, Delegable}
use agent_trust_fabric.Delegation.{Request, issue_token, claims_of}
use agent_trust_fabric.Delegation.Claims.{DelegationClaims, to_dict, build_claims}
use agent_trust_fabric.Delegation.Verify.{verify_token}
use agent_trust_fabric.Delegation.Scope.{ScopeCovers, AllDeclared}
use agent_trust_fabric.Delegation.Sound.{Declared, IsDelegation, IsDelegation→verify_payload}
use agent_trust_fabric.Delegation.Issue.{IsTtl, issue_token_lem}

-- What arrives: the claims, the keys of the constraints sorted.
pub transmitted : DelegationClaims → DelegationClaims
transmitted c = record c { constraints = sort_fields c.constraints }

sort_items-strs : (ss : List String) → sort_items (items (map str ss)) ≡ items (map str ss)
unfolding sort_items
sort_items-strs [] = refl
sort_items-strs (s ∷ ss) = ap (λ (xs : Items). Items.cons (str s) xs) (sort_items-strs ss)

sort_keys-opt_str : (o : Option String) → sort_keys (opt_str o) ≡ opt_str o
unfolding sort_keys
sort_keys-opt_str none = refl
sort_keys-opt_str (some s) = refl

module _ (r : Request) where
  payload : Json
  payload = sort_keys (to_dict (claims_of r))

  exp_read : (subscript payload "exp" >>= integer) ≡ ok (pos r.now +ℤ r.expires_in)
  unfolding payload sort_keys insert to_dict claims_of
  exp_read = refl

  nbf_read : (subscript payload "nbf" >>= integer) ≡ ok (pos r.now)
  unfolding payload sort_keys insert to_dict claims_of
  nbf_read = refl

  sub_read : subscript payload "sub" ≡ ok (str r.delegatee_id)
  unfolding payload sort_keys insert to_dict claims_of
  sub_read = refl

  scope_read : (subscript payload "scope" >>= iterate) ≡ ok (map str r.scope)
  unfolding payload sort_keys insert to_dict claims_of
  scope_read = rw (sort_items-strs r.scope, to_list-items (map str r.scope))

  claims_read : ⦃rt : Runtime⦄ → build_claims payload ≡ ok (transmitted (claims_of r))
  unfolding payload sort_keys insert to_dict claims_of build_claims transmitted
  claims_read =
      rw (sort_items-strs r.scope, to_list-items (map str r.scope), sort_keys-opt_str r.audit_uri)

-- Texts that cover, as scopes of a payload.
ScopeCovers-of_Any :
    (ss : List String) (q : String) → Any (λ s. Covers s q) ss → ScopeCovers (map str ss) q
ScopeCovers-of_Any [] q h = h
ScopeCovers-of_Any (s ∷ ss) q (inl here) = (s, refl, inl here)
ScopeCovers-of_Any (s ∷ ss) q (inr there) = (s, refl, inr (ScopeCovers-of_Any ss q there))

AllDeclared-of_Delegable :
    (m : Manifest) (ss : List String)
    → Delegable m ss
    → AllDeclared (manifest_content m) (map str ss)
AllDeclared-of_Delegable m [] h = tt
AllDeclared-of_Delegable m (s ∷ ss) h =
    ((manifest_has_capability_iff m s).1 h.0, AllDeclared-of_Delegable m ss h.1)

module _ ⦃rt : Runtime⦄ (scheme : IsSignatureScheme rt) (kp : KeyPair)
    (own : kp.public_key ≡ rt.public_key kp.private_key) where
  accepts :
      (r : Request) (token : String) {sub : String} {required : Option String}
      {content : Option Json} {now : ℤ} {claims : DelegationClaims}
      → verify_compact token kp.public_key
        ≡ ok (sort_keys (header kp), sort_keys (to_dict (claims_of r)))
      → IsDelegation (payload r) sub required content now claims
      → verify_token token kp.public_key sub required content now ≡ ok claims
  unfolding verify_token payload
  accepts r token h d = rw h (IsDelegation→verify_payload _ _ _ _ _ _ d)

  -- The token of a request, under the manifest that the verifier has, if it has one.
  pub issued_token_accepted :
      (r : Request) (content : Option Json) (required : String) (now : ℤ)
      → IsTtl r.expires_in
      → LoadsBack (header kp)
      → LoadsBack (to_dict (claims_of r))
      → Any (λ s. Covers s required) r.scope
      → Declared (sort_keys (to_dict (claims_of r))) content
      → pos r.now ≤ℤ now
      → now <ℤ pos r.now +ℤ r.expires_in
      → (issue_token r kp >>= λ token.
          verify_token token kp.public_key r.delegatee_id (some required) content now)
        ≡ ok (transmitted (claims_of r))
  unfolding payload
  issued_token_accepted r content required now ttl lh lp covered declared started live =
      bind_ok (sign_compact (to_dict (claims_of r)) kp) _
        (verify_compact-sign_compact scheme kp own (to_dict (claims_of r)) lh lp)
        λ token signed verified.
          rw (issue_token_lem r kp ttl, signed)
            (accepts r token verified (record {
              alive = record {
                exp = pos r.now +ℤ r.expires_in;
                nbf = pos r.now;
                exp_read = exp_read r;
                nbf_read = nbf_read r;
                before_exp = live;
                after_nbf = started;
              };
              addressed = sub_read r;
              covered =
                  (map str r.scope, scope_read r, ScopeCovers-of_Any r.scope required covered);
              declared = declared;
              claims_read = claims_read r;
            }))

  -- A token issued for a lawful lifetime is accepted by its delegatee at every time from its issue
  -- until just before it expires, for every scope that one of its scopes covers and under every
  -- manifest that covers its scopes, with the claims that were issued. Assumed: the signature
  -- scheme, that the key pair is one, and that the parser reads back the header and the claims.
  pub verify_token-issue_token :
      (r : Request) (m : Manifest) (required : String) (now : ℤ)
      → IsTtl r.expires_in
      → LoadsBack (header kp)
      → LoadsBack (to_dict (claims_of r))
      → Any (λ s. Covers s required) r.scope
      → Delegable m r.scope
      → pos r.now ≤ℤ now
      → now <ℤ pos r.now +ℤ r.expires_in
      → (issue_token r kp >>= λ token.
          verify_token token kp.public_key r.delegatee_id
            (some required)
            (some (manifest_content m))
            now)
        ≡ ok (transmitted (claims_of r))
  unfolding payload
  verify_token-issue_token r m required now ttl lh lp covered delegable started live =
      issued_token_accepted r (some (manifest_content m)) required now ttl lh lp covered
        (map str r.scope, scope_read r, AllDeclared-of_Delegable m r.scope delegable) started live
