-- ===== src/Wire/Client/Bootstrap.antt =====
-- The well-known documents of an agent, fetched by another one.
use Prim.Native.String.{◌++◌ as ◌++ˢ◌}
use agent_trust_fabric.Prelude.{
  ◌≡◌, refl, ap, ◌∙◌, none, some, List, [], ◌∷◌, String, All, IsByte, length, ◌⊎◌, map, eq_refl,
}
use agent_trust_fabric.Errors.{Result, ok}
use agent_trust_fabric.Json.{Json, str, arr, items, subscript}
use agent_trust_fabric.Runtime.{Runtime, IsSignatureScheme}
use agent_trust_fabric.Identity.{jwks, public_jwk}
use agent_trust_fabric.Manifest.{Capability, manifest_content}
use agent_trust_fabric.Agent.{
  Agent, PeerRecord, own_id, peer, capability, publish_manifest, register_peer, set_peer,
}
use agent_trust_fabric.Agent.Peers.{find_peer-set_peer, register_peer-publish_manifest}
use agent_trust_fabric.Wire.Server.{jwks_endpoint, manifest_endpoint}
use agent_trust_fabric.Wire.Client.{HttpResponse, fetch_jwks, fetch_manifest, fetched}
use agent_trust_fabric.Wire.Executed.{answered_with}
use agent_trust_fabric.Wire.Completes.{received}

-- A document that an endpoint serves is what the client gets.
fetched-received : (body : Json) → fetched (received (answered_with body)) ≡ ok body
unfolding fetched
fetched-received body = refl

-- The peer record of an agent that has published.
abbrev pub published_peer : Agent → List (String ⊎ Capability) → String → String → PeerRecord
published_peer b capabilities version description = record {
  agent_id = own_id b;
  public_key = b.keypair.public_key;
  manifest_content = manifest_content (record {
    agent_id = own_id b;
    version = version;
    capabilities = map capability capabilities;
    evidence = [];
    description = description;
    homepage = none;
  });
}

module _ ⦃rt : Runtime⦄ where
  peer-set_peer :
      (a : Agent) (id : String) (p : PeerRecord)
      → peer (str id) (record a { peers = set_peer id p a.peers }) ≡ ok p
  unfolding peer
  peer-set_peer a id p = rw (find_peer-set_peer id id p a.peers, eq_refl id)

  -- After an agent publishes a manifest, another one that fetches its JWKS and its manifest from
  -- the well-known documents gets one key and an envelope with which register_peer succeeds, and
  -- then knows the agent by its id, with its key and the content of the manifest. Assumed: the
  -- signature scheme, that the agent's key pair is one and also that of its identity, that its
  -- public key has 32 bytes, and that the HTTP package delivers what the endpoints answer.
  pub fetch-publish_manifest :
      (scheme : IsSignatureScheme rt) (a b : Agent) (http_get : String → Result HttpResponse)
      (base_url : String) (capabilities : List (String ⊎ Capability)) (version description : String)
      → b.keypair.public_key ≡ rt.public_key b.keypair.private_key
      → All IsByte b.keypair.public_key
      → length b.keypair.public_key ≡ 32
      → b.identity.keypair ≡ b.keypair
      → http_get (base_url ++ˢ "/.well-known/atf/jwks.json")
        ≡ ok (received (jwks_endpoint (publish_manifest capabilities version description b).1))
      → http_get (base_url ++ˢ "/.well-known/atf/manifest.json")
        ≡ ok (received (manifest_endpoint (publish_manifest capabilities version description b).1))
      → (doc : Json) × (jwk : Json) × (envelope : Json) × (a' : Agent) × (fetch_jwks http_get
            base_url
          ≡ ok doc)
        × (subscript doc "keys" ≡ ok (arr (items (jwk ∷ []))))
        × (fetch_manifest http_get base_url ≡ ok envelope)
        × (register_peer (own_id b) (some jwk) none envelope a ≡ ok a')
        × (peer (str (own_id b)) a' ≡ ok (published_peer b capabilities version description))
  unfolding fetch_jwks fetch_manifest jwks_endpoint manifest_endpoint publish_manifest jwks
  fetch-publish_manifest scheme a b http_get base_url capabilities version description own bytes
        size same jwks_served manifest_served =
      let p = published_peer b capabilities version description in
      let envelope = (publish_manifest capabilities version description b).0 in
      (
        jwks b.identity,
        public_jwk b.identity.keypair,
        envelope,
        record a { peers = set_peer (own_id b) p a.peers },
        rw jwks_served (fetched-received (jwks b.identity)),
        refl,
        rw manifest_served (fetched-received envelope),
        ap (λ k. register_peer (own_id b) (some (public_jwk k)) none envelope a) same
            ∙ register_peer-publish_manifest scheme b a capabilities version description own bytes
                size,
        peer-set_peer a (own_id b) p,
      )
