-- ===== src/Agent/Peers.antt =====
-- Registration of peers: what `register_peer` has checked, and that a published manifest passes.
use agent_trust_fabric.Prelude.{
  ◌≡◌, ◌↔◌, refl, ap, sym, ◌∙◌, Bool, true, false, not, Option, none, some, List, [], ◌∷◌, String,
  ℕ, arith, eq_iff, eq_refl, str_eq, if◌then◌else◌, All, IsByte, length, ◌⊎◌, map,
}
use agent_trust_fabric.Errors.{
  Result, ok, err, bind_ok, ok-injective, or_raise, raise_if, raise_if-eq-ok, raise_as,
  raise_as-eq-ok, key_error_as, key_error_as-eq-ok, not-eq-false, atf_error,
  manifest_invalid_signature,
}
use agent_trust_fabric.Json.Value.{is_str-true}
use agent_trust_fabric.Json.{Json, str, is_str, subscript}
use agent_trust_fabric.Runtime.{Runtime, IsSignatureScheme}
use agent_trust_fabric.Signing.{verify_envelope}
use agent_trust_fabric.Signing.Accepts.{IsEnvelope, verify_envelope_iff}
use agent_trust_fabric.Signing.RoundTrip.{verify_envelope-sign_envelope}
use agent_trust_fabric.Identity.{public_jwk}
use agent_trust_fabric.Identity.RoundTrip.{public_key_from_jwk-public_jwk}
use agent_trust_fabric.Manifest.{Capability, manifest_content, sign_manifest, verify_manifest}
use agent_trust_fabric.Agent.{
  Agent, PeerRecord, own_id, set_peer, find_peer, peer, capability, given_key,
  manifest_error_as_atf, publish_manifest, register_peer,
}

-- Setting a peer changes what is found at its id, and nothing else.
pub find_peer-set_peer :
    (k id : String) (p : PeerRecord) (peers : List (String × PeerRecord))
    → find_peer k (set_peer id p peers) ≡ (if str_eq id k then some p else find_peer k peers)
unfolding find_peer set_peer
find_peer-set_peer k id p [] = refl
find_peer-set_peer k id p ((j, q) ∷ rest) =
    ground (arith, eq_iff j id, eq_iff j k, eq_iff id k, find_peer-set_peer k id p rest)

module _ ⦃rt : Runtime⦄ where
  -- A manifest envelope whose content is signed with the key.
  pub record IsSignedManifest (envelope : Json) (key : List ℕ) (content : Json) : Type 0 where
    pub signature : Json
    pub content_read : subscript envelope "manifest" ≡ ok content
    pub signature_read : subscript envelope "signature" ≡ ok signature
    pub signed : IsEnvelope content signature key

  verify_manifest→IsSignedManifest :
      (envelope : Json) (key : List ℕ) (content : Json)
      → verify_manifest envelope key ≡ ok content
      → IsSignedManifest envelope key content
  unfolding verify_manifest
  verify_manifest→IsSignedManifest envelope key content h =
      bind_ok (key_error_as manifest_invalid_signature (subscript envelope "manifest")) _ h
        λ c c_ok h₁.
          bind_ok (key_error_as manifest_invalid_signature (subscript envelope "signature")) _ h₁
            λ signature signature_ok h₂.
              bind_ok (raise_as manifest_invalid_signature (verify_envelope c signature key)) _ h₂
                λ _ signed_ok h₃. rw (sym (ok-injective h₃)) (record {
                  signature = signature;
                  content_read = key_error_as-eq-ok manifest_invalid_signature _ c_ok;
                  signature_read = key_error_as-eq-ok manifest_invalid_signature _ signature_ok;
                  signed =
                      (verify_envelope_iff c signature key).0
                        (raise_as-eq-ok manifest_invalid_signature _ signed_ok);
                })

  IsSignedManifest→verify_manifest :
      (envelope : Json) (key : List ℕ) (content : Json)
      → IsSignedManifest envelope key content
      → verify_manifest envelope key ≡ ok content
  unfolding verify_manifest
  IsSignedManifest→verify_manifest envelope key content s =
      rw
        (s.content_read, s.signature_read, (verify_envelope_iff content s.signature key).1 s.signed)

  -- verify_manifest accepts an envelope, with its content, exactly when it holds a signature of
  -- the content with the key.
  pub verify_manifest_iff :
      (envelope : Json) (key : List ℕ) (content : Json)
      → (verify_manifest envelope key ≡ ok content) ↔ IsSignedManifest envelope key content
  verify_manifest_iff envelope key content = (
    verify_manifest→IsSignedManifest envelope key content,
    IsSignedManifest→verify_manifest envelope key content,
  )

  manifest_error_as_atf-eq-ok :
      (r : Result Json) {v : Json} → manifest_error_as_atf r ≡ ok v → r ≡ ok v
  manifest_error_as_atf-eq-ok (ok v) h = h
  manifest_error_as_atf-eq-ok (err manifest_invalid_signature) h = absurd (cc)
  manifest_error_as_atf-eq-ok (err _) h = h

  -- What a successful registration has checked, and the state that it leaves.
  pub record IsRegistered (agent_id : String) (jwk : Option Json) (public_key : Option (List ℕ))
      (envelope : Json) (a a' : Agent) : Type 0 where
    pub key : List ℕ
    pub content : Json
    pub key_given : given_key jwk public_key ≡ ok key
    pub signed : IsSignedManifest envelope key content
    pub named : subscript content "agent_id" ≡ ok (str agent_id)
    pub peers :
        a'.peers
        ≡ set_peer agent_id
            (record { agent_id = agent_id; public_key = key; manifest_content = content })
            a.peers

  register_peer→IsRegistered :
      (agent_id : String) (jwk : Option Json) (public_key : Option (List ℕ)) (envelope : Json)
      (a a' : Agent)
      → register_peer agent_id jwk public_key envelope a ≡ ok a'
      → IsRegistered agent_id jwk public_key envelope a a'
  unfolding register_peer
  register_peer→IsRegistered agent_id jwk public_key envelope a a' h =
      bind_ok (given_key jwk public_key) _ h λ key key_ok h₁.
        bind_ok (manifest_error_as_atf (verify_manifest envelope key)) _ h₁ λ content content_ok h₂.
          bind_ok (subscript content "agent_id") _ h₂ λ named named_ok h₃.
            bind_ok (raise_if (not (is_str named agent_id)) atf_error) _ h₃ λ _ same_ok h₄. record {
              key = key;
              content = content;
              key_given = key_ok;
              signed =
                  verify_manifest→IsSignedManifest envelope key content
                    (manifest_error_as_atf-eq-ok _ content_ok);
              named =
                  named_ok
                  ∙ ap ok (
                      is_str-true named agent_id
                        (not-eq-false _ (raise_if-eq-ok _ atf_error same_ok)));
              peers = ap (λ (x : Agent). x.peers) (sym (ok-injective h₄));
            }

  -- After a registration the id stands for a key and a manifest content such that the content
  -- names the id and the envelope holds a signature of it with that key; any other id stands for
  -- what it stood for.
  pub register_peer_lem :
      (agent_id k : String) (jwk : Option Json) (public_key : Option (List ℕ)) (envelope : Json)
      (a a' : Agent)
      → register_peer agent_id jwk public_key envelope a ≡ ok a'
      → (p : PeerRecord) × (given_key jwk public_key ≡ ok p.public_key)
        × IsSignedManifest envelope p.public_key p.manifest_content
        × (subscript p.manifest_content "agent_id" ≡ ok (str agent_id))
        × (peer (str k) a' ≡ (if str_eq agent_id k then ok p else peer (str k) a))
  unfolding peer
  register_peer_lem agent_id k jwk public_key envelope a a' h =
      let r = register_peer→IsRegistered agent_id jwk public_key envelope a a' h in
      let p : PeerRecord = record {
        agent_id = agent_id;
        public_key = r.key;
        manifest_content = r.content;
      } in
      (
        p,
        r.key_given,
        r.signed,
        r.named,
        rw (r.peers, find_peer-set_peer) (chosen (str_eq agent_id k) p _),
      )
    where
      chosen :
          (b : Bool) (p : PeerRecord) (o : Option PeerRecord)
          → or_raise (if b then some p else o) atf_error
            ≡ (if b then ok p else or_raise o atf_error)
      chosen true p o = refl
      chosen false p o = refl

  module _ (scheme : IsSignatureScheme rt) where
    -- Another agent registers an agent with its JWK and the manifest that it publishes, and then
    -- knows it by its id, with its key and the manifest's content. Assumed: the signature scheme,
    -- that the agent's key pair is one, and that its public key has 32 bytes.
    pub register_peer-publish_manifest :
        (a b : Agent) (capabilities : List (String ⊎ Capability)) (version description : String)
        → a.keypair.public_key ≡ rt.public_key a.keypair.private_key
        → All IsByte a.keypair.public_key
        → length a.keypair.public_key ≡ 32
        → register_peer
            (own_id a)
            (some (public_jwk a.keypair))
            none
            (publish_manifest capabilities version description a).0
            b
          ≡ ok (record b {
            peers =
                set_peer
                  (own_id a)
                  (record {
                    agent_id = own_id a;
                    public_key = a.keypair.public_key;
                    manifest_content = manifest_content (record {
                      agent_id = own_id a;
                      version = version;
                      capabilities = map capability capabilities;
                      evidence = [];
                      description = description;
                      homepage = none;
                    });
                  })
                  b.peers;
          })
    unfolding register_peer publish_manifest sign_manifest verify_manifest manifest_content
        given_key
    register_peer-publish_manifest a b capabilities version description own bytes size = rw (
      public_key_from_jwk-public_jwk a.keypair bytes size,
      verify_envelope-sign_envelope scheme a.keypair own _ _ (own_id a) refl,
      eq_refl (own_id a),
    )
