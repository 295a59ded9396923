-- ===== src/Identity/Keys.antt =====
-- `KeyPair.generate`, `private_pem` and `from_pem` of reference/py/src/atf/identity.py.
use agent_trust_fabric.Prelude.{ℕ, ◌≡◌, refl, sym, List, String}
use agent_trust_fabric.Errors.{Result, ok, err, ◌>>=◌, bind_ok, ok-injective, identity_error}
use agent_trust_fabric.Runtime.{Runtime, PemKey, ed25519, other_key, IsPemFormat}
use agent_trust_fabric.Signing.{KeyPair}

-- `isinstance(sk, Ed25519PrivateKey)`.
abbrev pub ed25519_only : PemKey → Result (List ℕ)
ed25519_only (ed25519 key) = ok key
ed25519_only other_key = err identity_error

module _ ⦃rt : Runtime⦄ where
  abbrev pub key_pair : String → List ℕ → KeyPair
  key_pair kid sk = record { kid = kid; private_key = sk; public_key = rt.public_key sk }

  -- `KeyPair.generate`; the private key that the package makes is an argument.
  unfoldable pub generate : List ℕ → String → KeyPair
  generate sk kid = key_pair kid sk

  unfoldable pub private_pem : KeyPair → List ℕ
  private_pem kp = rt.private_bytes kp.private_key

  unfoldable pub from_pem : List ℕ → String → Result KeyPair
  from_pem pem kid = do
    loaded ← rt.load_pem_private_key pem
    sk ← ed25519_only loaded
    ok (key_pair kid sk)

  -- A pair that was written is read back.
  pub from_pem-private_pem :
      (format : IsPemFormat rt) (sk : List ℕ) (kid : String)
      → from_pem (private_pem (generate sk kid)) kid ≡ ok (generate sk kid)
  unfolding from_pem private_pem generate
  from_pem-private_pem format sk kid = rw (format.load-private_bytes sk)

  -- Whatever is read is a pair.
  pub from_pem-owned :
      (pem : List ℕ) (kid : String) (kp : KeyPair)
      → from_pem pem kid ≡ ok kp
      → kp.public_key ≡ rt.public_key kp.private_key
  unfolding from_pem
  from_pem-owned pem kid kp h =
      bind_ok (rt.load_pem_private_key pem) _ h
        λ loaded _ h₁. bind_ok (ed25519_only loaded) _ h₁ λ sk _ h₂. rw (sym (ok-injective h₂)) refl
