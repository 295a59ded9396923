-- ===== src/Identity.antt =====
-- reference/py/src/atf/identity.py: agent URIs, JWKs and the identity document.
pub mod Uri
pub mod RoundTrip
pub mod Keys
use Prim.Native.String.{◌++◌ as ◌++ˢ◌}
use agent_trust_fabric.Prelude.{
  ℕ, ◌≡◌, refl, Bool, not, ◌||◌, Option, none, some, List, [], ◌∷◌, String, ◌==◌, length,
}
use agent_trust_fabric.Errors.{Result, ok, ◌>>=◌, ◌>>◌, raise_if, identity_error, value_error}
use agent_trust_fabric.Json.{
  Json, null, str, arr, dict, items, get, subscript, text, is_str, or_else, opt_str, truthy,
}
use agent_trust_fabric.Base64.{b64url_encode}
use agent_trust_fabric.Base64.Decoder.{b64url_decode}
use agent_trust_fabric.Signing.{alg, KeyPair}
use agent_trust_fabric.Identity.Uri.{agent_uri}

-- `KeyPair.public_jwk`.
unfoldable pub public_jwk : KeyPair → Json
public_jwk kp = dict (
    ("kty", str "OKP")
    ∷ ("crv", str "Ed25519")
    ∷ ("x", str (b64url_encode kp.public_key))
    ∷ ("kid", str kp.kid)
    ∷ ("alg", str alg)
    ∷ ("use", str "sig")
    ∷ [])

-- `x.get(k) != s`.
abbrev differs : Option Json → String → Bool
differs found s = not (is_str (or_else found null) s)

-- `public_key_from_jwk`: the package takes 32 bytes, and raises a `ValueError` for any other.
unfoldable pub public_key_from_jwk : Json → Result (List ℕ)
public_key_from_jwk jwk = do
  kty ← get jwk "kty"
  crv ← get jwk "crv"
  raise_if (differs kty "OKP" || differs crv "Ed25519") identity_error
  x ← text (← subscript jwk "x")
  raw ← b64url_decode x
  raise_if (not (length raw == 32)) value_error
  ok raw

pub record Identity : Type 0 where
  pub owner : String
  pub name : String
  pub keypair : KeyPair
  pub attestations : List Json
  pub manifest_uri : Option String

-- `Identity.agent_id`.
abbrev pub id_of : Identity → String
id_of i = agent_uri i.owner i.name i.keypair.kid

unfoldable pub jwks : Identity → Json
unfolding public_jwk
jwks i = dict (("keys", arr (items (public_jwk i.keypair ∷ []))) ∷ [])

unfoldable pub jwks_uri : String → Identity → String
jwks_uri scheme i = scheme ++ˢ "://" ++ˢ i.owner ++ˢ "/.well-known/atf/" ++ˢ i.name ++ˢ "/jwks.json"

unfoldable pub identity_document : Identity → Json
unfolding jwks_uri agent_uri
identity_document i = dict (
    ("id", str (id_of i))
    ∷ ("jwks_uri", str (jwks_uri "https" i))
    ∷ ("owner_org", str i.owner)
    ∷ ("attestations", arr (items i.attestations))
    ∷ ("manifest_uri", opt_str i.manifest_uri)
    ∷ [])
