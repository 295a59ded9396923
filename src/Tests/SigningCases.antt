-- ===== src/Tests/SigningCases.antt =====
-- The theorems on bytes, tokens and envelopes at concrete inputs.
use agent_trust_fabric.Prelude.{◌≡◌, refl, ◌↔◌, [], ◌∷◌, arith}
use agent_trust_fabric.Errors.{ok, ◌>>=◌}
use agent_trust_fabric.Json.{sort_keys, null}
use agent_trust_fabric.Base64.{b64url_encode}
use agent_trust_fabric.Base64.Decoder.{b64url_decode}
use agent_trust_fabric.Base64.RoundTrip.{b64url_decode-encode}
use agent_trust_fabric.Signing.{
  header, sign_compact, verify_compact, sign_envelope, verify_envelope,
}
use agent_trust_fabric.Signing.Accepts.{
  IsToken, verify_compact_iff, IsEnvelope, verify_envelope_iff,
}
use agent_trust_fabric.Signing.RoundTrip.{verify_compact-sign_compact}
use agent_trust_fabric.Tests.Toy.{
  toy, toy-IsSignatureScheme, alice, alice_id, request_payload, token, header_back, payload_back,
}

b64url_decode-encode_example :
    b64url_decode (b64url_encode (255 ∷ 0 ∷ 62 ∷ 63 ∷ [])) ≡ ok (255 ∷ 0 ∷ 62 ∷ 63 ∷ [])
b64url_decode-encode_example =
    b64url_decode-encode (255 ∷ 0 ∷ 62 ∷ 63 ∷ [])
      (omega arith, (omega arith, (omega arith, (omega arith, tt))))

verify_compact-sign_compact_example :
    (sign_compact request_payload alice >>= λ signed. verify_compact signed alice.public_key)
    ≡ ok (sort_keys (header alice), sort_keys request_payload)
verify_compact-sign_compact_example =
    verify_compact-sign_compact toy-IsSignatureScheme alice refl request_payload header_back
      payload_back

verify_compact_iff_example :
    (verify_compact token alice.public_key
      ≡ ok (sort_keys (header alice), sort_keys request_payload))
    ↔ IsToken token alice.public_key (sort_keys (header alice)) (sort_keys request_payload)
verify_compact_iff_example =
    verify_compact_iff token alice.public_key (sort_keys (header alice)) (sort_keys request_payload)

verify_envelope_iff_example :
    (verify_envelope null (sign_envelope null alice alice_id) alice.public_key ≡ ok tt)
    ↔ IsEnvelope null (sign_envelope null alice alice_id) alice.public_key
verify_envelope_iff_example =
    verify_envelope_iff null (sign_envelope null alice alice_id) alice.public_key
