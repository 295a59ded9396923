-- ===== src/Agent/Delivers.antt =====
-- From one agent to another: the delegatee accepts the token that the delegator issues.
use agent_trust_fabric.Prelude.{◌≡◌, refl, ap, sym, ◌∙◌, false, some, List, String, ℕ, Any}
use Prim.Native.String.{◌++◌ as ◌++ˢ◌}
use agent_trust_fabric.Prelude.Int.{ℤ, pos, ◌<ℤ◌, ◌≤ℤ◌, ◌+ℤ◌}
use agent_trust_fabric.Errors.{Result, ok, ◌>>=◌, bind_ok, ok-injective}
use agent_trust_fabric.Json.{Json, str, subscript, sort_keys}
use agent_trust_fabric.Json.Keys.{insert}
use agent_trust_fabric.Runtime.{Runtime, IsSignatureScheme}
use agent_trust_fabric.Signing.{header, verify_compact}
use agent_trust_fabric.Signing.Accepts.{IsToken, verify_compact_iff}
use agent_trust_fabric.Signing.RoundTrip.{
  LoadsBack, compact, sign_compact_lem, verify_compact-compact,
}
use agent_trust_fabric.Manifest.{Manifest, manifest_content}
use agent_trust_fabric.Manifest.Covers.{Covers, Delegable}
use agent_trust_fabric.Delegation.{Request, issue_token, claims_of}
use agent_trust_fabric.Delegation.Claims.{DelegationClaims, to_dict}
use agent_trust_fabric.Delegation.Verify.{verify_token}
use agent_trust_fabric.Delegation.Issue.{IsTtl, issue_token_iff, issue_token_lem}
use agent_trust_fabric.Delegation.Issue.Accepted.{transmitted, verify_token-issue_token}
use agent_trust_fabric.Audit.Event.{Stamp}
use agent_trust_fabric.Audit.Log.Columns.{bind_text}
use agent_trust_fabric.Audit.Log.{any_jti, has_jti, append_self}
use agent_trust_fabric.Agent.{Agent, PeerRecord, own_id, peer}
use agent_trust_fabric.Agent.Delegation.{
  own_request, check_own_manifest, issue_delegation, read_payload, read_token, verify_read,
  verify_incoming, issued_event, verify_delegation, Incoming,
}

module _ ⦃rt : Runtime⦄ where
  -- What `issue_delegation` returns is a token that `issue_token` issues.
  pub issue_delegation-eq-ok :
      (r : Request) (stamp : Stamp) (a : Agent) (token : String) (a' : Agent)
      → issue_delegation r stamp a ≡ ok (token, a')
      → issue_token (own_request r a) a.keypair ≡ ok token
  unfolding issue_delegation
  issue_delegation-eq-ok r stamp a token a' h =
      bind_ok (check_own_manifest a.manifest_envelope r.scope) _ h λ _ _ h₁.
        bind_ok (issue_token (own_request r a) a.keypair) _ h₁ λ issued issued_ok h₂.
          bind_ok (read_payload issued) _ h₂ λ payload _ h₃.
            bind_ok (subscript payload "jti") _ h₃ λ jti _ h₄.
              bind_ok (append_self (issued_event r stamp jti a) a.keypair (own_id a) a.audit_log) _
                h₄ λ log _ h₅. issued_ok ∙ ap ok (ap token_of (ok-injective h₅))
    where
      token_of : String × Agent → String
      token_of p = p.0

  -- The second part of a signed token.
  pub read_payload-IsToken :
      (token : String) (key : List ℕ) (head payload : Json)
      → IsToken token key head payload
      → read_payload token ≡ ok payload
  unfolding read_payload
  read_payload-IsToken token key head payload t = rw (t.parts, t.payload_read)

  module _ (r : Request) where
    iss_of_payload : subscript (sort_keys (to_dict (claims_of r))) "iss" ≡ ok (str r.delegator_id)
    unfolding sort_keys insert to_dict claims_of
    iss_of_payload = refl

    pub jti_of_payload :
        subscript (sort_keys (to_dict (claims_of r))) "jti" ≡ ok (str ("tkn_" ++ˢ r.uuid))
    unfolding sort_keys insert to_dict claims_of
    jti_of_payload = refl

  -- A token with a jti that is not in the log.
  read_token-fresh :
      (b : Agent) (token j : String) (payload iss : Json) (p : PeerRecord)
      → read_payload token ≡ ok payload
      → subscript payload "iss" ≡ ok iss
      → subscript payload "jti" ≡ ok (str j)
      → peer iss b ≡ ok p
      → any_jti (some j) b.audit_log ≡ false
      → read_token token b ≡ ok (record { iss = iss; peer_record = p; jti = str j; used = false })
  unfolding read_token has_jti bind_text
  read_token-fresh b token j payload iss p parsed iss_read jti_read known fresh =
      rw (parsed, iss_read, jti_read, known, fresh)

  -- The peer record that the delegatee keeps of the delegator.
  abbrev pub record_of : Agent → Manifest → PeerRecord
  record_of a m = record {
    agent_id = own_id a;
    public_key = a.keypair.public_key;
    manifest_content = manifest_content m;
  }

  module _ (scheme : IsSignatureScheme rt) where
    -- The token of a successful call, verified.
    module _ (a : Agent) (own : a.keypair.public_key ≡ rt.public_key a.keypair.private_key)
        (r : Request) (lh : LoadsBack (header a.keypair)) (lp : LoadsBack (to_dict (claims_of r)))
        (token : String) (issued : issue_token r a.keypair ≡ ok token) where
      abbrev pub sent_payload : Json
      sent_payload = sort_keys (to_dict (claims_of r))

      ttl : IsTtl r.expires_in
      ttl = (issue_token_iff r a.keypair).0 (token, issued)

      same_token : compact (to_dict (claims_of r)) a.keypair ≡ token
      same_token = ok-injective (
          sym (sign_compact_lem (to_dict (claims_of r)) a.keypair)
          ∙ sym (issue_token_lem r a.keypair ttl)
          ∙ issued)

      verified :
          verify_compact token a.keypair.public_key
          ≡ ok (sort_keys (header a.keypair), sent_payload)
      verified =
          ap (λ t. verify_compact t a.keypair.public_key) (sym same_token)
          ∙ verify_compact-compact scheme a.keypair own (to_dict (claims_of r)) lh lp

      pub parsed : read_payload token ≡ ok sent_payload
      parsed =
          read_payload-IsToken token a.keypair.public_key (sort_keys (header a.keypair))
            sent_payload
            ((verify_compact_iff token a.keypair.public_key (sort_keys (header a.keypair))
                sent_payload).0
              verified)

      accepted :
          (m : Manifest) (required : String) (now : ℤ)
          → Any (λ s. Covers s required) r.scope
          → Delegable m r.scope
          → pos r.now ≤ℤ now
          → now <ℤ pos r.now +ℤ r.expires_in
          → verify_token token a.keypair.public_key r.delegatee_id
              (some required)
              (some (manifest_content m))
              now
            ≡ ok (transmitted (claims_of r))
      accepted m required now covered delegable started live =
          ap
            (λ (o : Result String). o >>= λ t.
              verify_token t a.keypair.public_key r.delegatee_id (some required)
                (some (manifest_content m)) now)
            (sym issued)
          ∙ verify_token-issue_token scheme a.keypair own r m required now ttl lh lp covered
              delegable started live

    incoming :
        (a b : Agent) (m : Manifest) (token required j : String) (now : ℤ)
        {claims : DelegationClaims} {sub : String}
        → sub ≡ own_id b
        → verify_token token a.keypair.public_key sub
            (some required)
            (some (manifest_content m))
            now
          ≡ ok claims
        → verify_incoming now required token
            (record {
              iss = str (own_id a);
              peer_record = record_of a m;
              jti = str j;
              used = false;
            })
            b
          ≡ ok claims
    unfolding manifest_content
    incoming a b m token required j now to_b h = rw to_b at h

    unread :
        (stamp : Stamp) (now : ℤ) (required token : String) (b : Agent) (t : Incoming)
        {claims : DelegationClaims}
        → read_token token b ≡ ok (record t { used = false })
        → verify_incoming now required token (record t { used = false }) b ≡ ok claims
        → verify_delegation stamp now required token b ≡ (ok claims, b)
    unfolding verify_delegation
    unread stamp now required token b t read verdict =
        ap (verify_read stamp now required token b) read
        ∙ ap (λ (o : Result DelegationClaims). (o, b)) verdict

    -- A token that an agent issues to another, which knows it as a peer with its key and a
    -- manifest that covers the scopes, is accepted from the second of its issue until just before
    -- it expires, for every scope that it covers, if its jti is not in the delegatee's log; the
    -- delegatee gets the claims that were issued, and its state stays as it was. Assumed: the
    -- signature scheme, that the delegator's key pair is one, and that the parser reads back the
    -- header and the claims.
    pub verify_delegation-issue_delegation :
        (a b a' : Agent) (r : Request) (m : Manifest) (stamp stamp' : Stamp)
        (token required : String) (now : ℤ)
        → a.keypair.public_key ≡ rt.public_key a.keypair.private_key
        → LoadsBack (header a.keypair)
        → LoadsBack (to_dict (claims_of (own_request r a)))
        → issue_delegation r stamp a ≡ ok (token, a')
        → r.delegatee_id ≡ own_id b
        → peer (str (own_id a)) b ≡ ok (record_of a m)
        → any_jti (some ("tkn_" ++ˢ r.uuid)) b.audit_log ≡ false
        → Any (λ s. Covers s required) r.scope
        → Delegable m r.scope
        → pos r.now ≤ℤ now
        → now <ℤ pos r.now +ℤ r.expires_in
        → verify_delegation stamp' now required token b
          ≡ (ok (transmitted (claims_of (own_request r a))), b)
    verify_delegation-issue_delegation a b a' r m stamp stamp' token required now own lh lp issued
          to_b known fresh covered delegable started live =
        let q = own_request r a in
        let made = issue_delegation-eq-ok r stamp a token a' issued in
        let known_payload = parsed a own q lh lp token made in
        let read =
          read_token-fresh b token ("tkn_" ++ˢ r.uuid) (sort_keys (to_dict (claims_of q)))
            (str (own_id a)) (record_of a m) known_payload (iss_of_payload q) (jti_of_payload q)
            known fresh in
        let verdict =
          incoming a b m token required ("tkn_" ++ˢ r.uuid) now to_b
            (accepted a own q lh lp token made m required now covered delegable started live) in
        unread stamp' now required token b
          (record {
            iss = str (own_id a);
            peer_record = record_of a m;
            jti = str ("tkn_" ++ˢ r.uuid);
            used = false;
          })
          read verdict
