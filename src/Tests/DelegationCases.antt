-- ===== src/Tests/DelegationCases.antt =====
-- The theorems on delegation tokens at concrete inputs.
use agent_trust_fabric.Prelude.{◌≡◌, refl, ◌↔◌, true, Any, inl, none, some, String, arith}
use agent_trust_fabric.Prelude.Text.{split}
use agent_trust_fabric.Prelude.Int.{pos, ◌<ℤ◌, ◌+ℤ◌}
use agent_trust_fabric.Errors.{ok, err, ◌>>=◌, token_expired, token_invalid_signature}
use agent_trust_fabric.Json.{Json, sort_keys, str}
use agent_trust_fabric.Json.Keys.{insert}
use agent_trust_fabric.Manifest.{manifest_content, manifest_has_capability}
use agent_trust_fabric.Manifest.Covers.{Covers, manifest_has_capability_iff}
use agent_trust_fabric.Signing.{header}
use agent_trust_fabric.Signing.Accepts.{IsToken}
use agent_trust_fabric.Delegation.{issue_token, claims_of}
use agent_trust_fabric.Delegation.Claims.{to_dict}
use agent_trust_fabric.Delegation.Verify.{verify_token}
use agent_trust_fabric.Delegation.Sound.{IsDelegation, verify_token_iff}
use agent_trust_fabric.Delegation.Rejects.{
  IsRefused, expired, verify_token-forged, verify_token-refused,
}
use agent_trust_fabric.Delegation.Issue.{IsTtl, issue_token_iff}
use agent_trust_fabric.Delegation.Issue.Accepted.{transmitted, verify_token-issue_token}
use agent_trust_fabric.Tests.Toy.{
  manifest, toy, toy-IsSignatureScheme, alice, bob_id, request, request_payload, token, header_back,
  payload_back, token-IsToken,
}

alive : pos 1010 <ℤ pos 1000 +ℤ pos 60
unfolding ◌+ℤ◌
alive = ground arith

verify_token-issue_token_example :
    (issue_token request alice >>= λ issued.
    verify_token issued alice.public_key bob_id
      (some "image")
      (some (manifest_content manifest))
      (pos 1010))
    ≡ ok (transmitted (claims_of request))
verify_token-issue_token_example =
    verify_token-issue_token toy-IsSignatureScheme alice refl request manifest "image" (pos 1010)
      (ground arith) header_back payload_back (inl (inl refl)) (inl (inl refl), tt) (ground arith)
      alive

verify_token_iff_example :
    (verify_token token alice.public_key bob_id (some "image") none (pos 1010)
      ≡ ok (claims_of request))
    ↔ ((head : Json) × (payload : Json) × IsToken token alice.public_key head payload
        × IsDelegation payload bob_id (some "image") none (pos 1010) (claims_of request))
verify_token_iff_example =
    verify_token_iff token alice.public_key bob_id (some "image") none (pos 1010)
      (claims_of request)

too_late : IsRefused (sort_keys request_payload) bob_id (pos 2000) (some "image") none token_expired
unfolding insert to_dict claims_of ◌+ℤ◌ sort_keys
too_late = expired (pos 1060) refl (ground arith)

verify_token-refused_example :
    verify_token token alice.public_key bob_id (some "image") none (pos 2000) ≡ err token_expired
verify_token-refused_example =
    verify_token-refused (sort_keys request_payload) bob_id (pos 2000) token alice.public_key
      (sort_keys (header alice)) token-IsToken too_late

no-IsToken : (head payload : Json) → ¬ IsToken "a.b" alice.public_key head payload
unfolding split
no-IsToken head payload t = let e = t.parts in absurd (cc)

verify_token-forged_example :
    verify_token "a.b" alice.public_key bob_id (some "image") none (pos 1010)
    ≡ err token_invalid_signature
verify_token-forged_example =
    verify_token-forged "a.b" alice.public_key bob_id (some "image") none (pos 1010) no-IsToken

issue_token_iff_example :
    ((issued : String) × (issue_token request alice ≡ ok issued)) ↔ IsTtl (pos 60)
issue_token_iff_example = issue_token_iff request alice

manifest_has_capability_iff_example :
    (manifest_has_capability (manifest_content manifest) (str "image.png") ≡ ok true)
    ↔ Any (λ c. Covers c.name "image.png") manifest.capabilities
manifest_has_capability_iff_example = manifest_has_capability_iff manifest "image.png"
