-- ===== src/Runtime.antt =====
-- What the program takes from outside its repository: Ed25519 of the `cryptography` package, and
-- of Python's library SHA-256, the JSON parser and two conversions, as an interface.
use agent_trust_fabric.Prelude.{ℕ, ◌≡◌, Bool, true, Option, String, List, All, IsByte}
use agent_trust_fabric.Prelude.Int.{ℤ}
use agent_trust_fabric.Json.{Json, Fields}
use agent_trust_fabric.Errors.{Result, ok}

-- A private key in PEM is one of Ed25519, given by its raw bytes, or of another kind.
pub data PemKey : Type 0 where
  ed25519 : List ℕ → PemKey
  other_key : PemKey

-- A key is its raw bytes; `verify key signature message` is false where the package raises
-- `InvalidSignature`.
pub record Runtime : Type 0 where
  pub public_key : List ℕ → List ℕ
  pub sign : List ℕ → List ℕ → List ℕ
  pub verify : List ℕ → List ℕ → List ℕ → Bool
  -- `private_bytes(PEM, PKCS8, NoEncryption())`.
  pub private_bytes : List ℕ → List ℕ
  -- `load_pem_private_key(pem, password=None)`.
  pub load_pem_private_key : List ℕ → Result PemKey
  -- `hashlib.sha256(…).hexdigest()`.
  pub sha256_hex : List ℕ → String
  -- `json.loads` of bytes; `none` where it raises a `ValueError`.
  pub json_loads : List ℕ → Option Json
  -- `int(s)`; `none` where it raises a `ValueError`.
  pub int_of_str : String → Option ℤ
  -- `str(v)` of a `list` or a `dict`.
  pub str_of_container : Json → String
  -- `dict(v)` of a truthy value that is no `dict`, such as a list of pairs.
  pub dict_of : Json → Result Fields

-- The documented behaviour of a signature scheme: what a key signs, its public key verifies; and
-- a signature is a sequence of bytes.
pub record IsSignatureScheme (rt : Runtime) : Type 0 where
  pub verify-sign :
      (key message : List ℕ) → rt.verify (rt.public_key key) (rt.sign key message) message ≡ true
  pub sign-IsByte : (key message : List ℕ) → All IsByte (rt.sign key message)

-- The documented behaviour of the PEM format: a key that was written is read back.
pub record IsPemFormat (rt : Runtime) : Type 0 where
  pub load-private_bytes :
      (key : List ℕ) → rt.load_pem_private_key (rt.private_bytes key) ≡ ok (ed25519 key)
