-- ===== src/Identity/RoundTrip.antt =====
-- Agent URIs and JWKs are read back as they were written.
use Prim.Native.String.{◌++◌ as ◌++ˢ◌, ◌∷◌ as ◌∷ˢ◌, slice, len}
use text.Mathlib.TextLemmas.{cons-append, nil-append, append_assoc}
use text.Mathlib.TextPositions.{starts_with-append, slice-append_right, len-append}
use text.Mathlib.TextEquality.{starts_with_iff}
use agent_trust_fabric.Prelude.{
  ◌≡◌, ◌∙◌, ap, sym, true, not, String, starts_with, All, IsByte, length,
}
use agent_trust_fabric.Prelude.Text.{split_once, lacks}
use agent_trust_fabric.Prelude.Text.Laws.{lacks-append, split_once-append, split_once-eq-some}
use agent_trust_fabric.Errors.{
  Result, ok, ◌>>=◌, raise_if, or_raise, identity_error, bind_ok, raise_if-eq-ok, or_raise-eq-ok,
  not-eq-false, ok-injective,
}
use agent_trust_fabric.Base64.RoundTrip.{b64url_decode-encode}
use agent_trust_fabric.Signing.{KeyPair}
use agent_trust_fabric.Identity.Uri.{agent_prefix, agent_uri, parse_agent_uri}
use agent_trust_fabric.Identity.{public_jwk, public_key_from_jwk}

-- The 32 bytes of a public key are read back from the JWK that is made of them.
pub public_key_from_jwk-public_jwk :
    (kp : KeyPair)
    → All IsByte kp.public_key
    → length kp.public_key ≡ 32
    → public_key_from_jwk (public_jwk kp) ≡ ok kp.public_key
unfolding public_jwk public_key_from_jwk
public_key_from_jwk-public_jwk kp bytes size = rw (b64url_decode-encode kp.public_key bytes, size)

number_sign : (s : String) → "#" ++ˢ s ≡ "#" ∷ˢ s
number_sign s = cons-append "#" "" s ∙ ap (λ (t : String). "#" ∷ˢ t) (nil-append s)

slash : (s : String) → "/" ++ˢ s ≡ "/" ∷ˢ s
slash s = cons-append "/" "" s ∙ ap (λ (t : String). "/" ∷ˢ t) (nil-append s)

-- A URI is the prefix, the body up to the number sign, and the key id.
agent_uri-parts :
    (owner name kid : String)
    → agent_uri owner name kid ≡ agent_prefix ++ˢ ((owner ++ˢ ("/" ∷ˢ name)) ++ˢ ("#" ∷ˢ kid))
unfolding agent_uri
agent_uri-parts owner name kid = rw (
  append_assoc owner ("/" ∷ˢ name) ("#" ∷ˢ kid),
  cons-append "/" name ("#" ∷ˢ kid),
  number_sign kid,
  slash (name ++ˢ ("#" ∷ˢ kid)),
)

after_prefix :
    (rest : String)
    → slice (agent_prefix ++ˢ rest) (len agent_prefix) (len (agent_prefix ++ˢ rest)) ≡ rest
after_prefix rest =
    ap (λ n. slice (agent_prefix ++ˢ rest) (len agent_prefix) n) (len-append agent_prefix rest)
    ∙ slice-append_right agent_prefix rest

body_lacks :
    (owner name : String)
    → lacks b'#' owner ≡ true
    → lacks b'#' name ≡ true
    → lacks b'#' (owner ++ˢ ("/" ∷ˢ name)) ≡ true
body_lacks owner name ho hn = rw (lacks-append, ho, hn)

-- What `parse_agent_uri` does after the prefix.
unfoldable parse_rest : String → Result (String × String × String)
parse_rest rest = do
  (body, kid) ← or_raise (split_once b'#' rest) identity_error
  (owner, name) ← or_raise (split_once b'/' body) identity_error
  ok (owner, name, kid)

parse_agent_uri-prefix : (rest : String) → parse_agent_uri (agent_prefix ++ˢ rest) ≡ parse_rest rest
unfolding parse_agent_uri parse_rest
parse_agent_uri-prefix rest = rw (starts_with-append agent_prefix rest, after_prefix rest)

-- An agent URI is parsed into the owner, the name and the key id that it was built of, if the
-- owner has no slash and neither the owner nor the name has a number sign.
pub parse_agent_uri-agent_uri :
    (owner name kid : String)
    → lacks b'/' owner ≡ true
    → lacks b'#' owner ≡ true
    → lacks b'#' name ≡ true
    → parse_agent_uri (agent_uri owner name kid) ≡ ok (owner, name, kid)
unfolding parse_rest
parse_agent_uri-agent_uri owner name kid no_slash plain_owner plain_name = rw (
  agent_uri-parts,
  parse_agent_uri-prefix,
  split_once-append "#" (owner ++ˢ ("/" ∷ˢ name)) kid
      (body_lacks owner name plain_owner plain_name),
  split_once-append "/" owner name no_slash,
)

abbrev uri_of : String × String × String → String
uri_of p = agent_uri p.0 p.1 p.2

prefixed :
    (uri : String) {r : String × String × String}
    → parse_agent_uri uri ≡ ok r
    → starts_with uri agent_prefix ≡ true
unfolding parse_agent_uri
prefixed uri h =
    bind_ok (raise_if (not (starts_with uri agent_prefix)) identity_error) _ h
      λ _ e _. not-eq-false _ (raise_if-eq-ok _ identity_error e)

parse_rest-eq-ok :
    (rest : String) {owner name kid : String}
    → parse_rest rest ≡ ok (owner, name, kid)
    → agent_uri owner name kid ≡ agent_prefix ++ˢ rest
unfolding parse_rest
parse_rest-eq-ok rest {owner} {name} {kid} h =
    bind_ok (or_raise (split_once b'#' rest) identity_error) _ h λ p p_ok h₁.
      bind_ok (or_raise (split_once b'/' p.0) identity_error) _ h₁ λ q q_ok h₂.
        let outer = split_once-eq-some "#" rest (or_raise-eq-ok _ identity_error p_ok) in
        let inner = split_once-eq-some "/" p.0 (or_raise-eq-ok _ identity_error q_ok) in
        ap uri_of (sym (ok-injective h₂))
        ∙ agent_uri-parts q.0 q.1 p.1
        ∙ ap (λ b. agent_prefix ++ˢ (b ++ˢ ("#" ∷ˢ p.1))) (sym inner)
        ∙ ap (λ r. agent_prefix ++ˢ r) (sym outer)

-- Whatever parse_agent_uri accepts is the agent URI built of the parts that it returns.
pub agent_uri-parse_agent_uri :
    (uri : String) {owner name kid : String}
    → parse_agent_uri uri ≡ ok (owner, name, kid)
    → agent_uri owner name kid ≡ uri
agent_uri-parse_agent_uri uri h =
    let (rest, e) = (starts_with_iff uri agent_prefix).0 (prefixed uri h) in
    parse_rest-eq-ok rest (sym (parse_agent_uri-prefix rest) ∙ ap parse_agent_uri e ∙ h) ∙ e
