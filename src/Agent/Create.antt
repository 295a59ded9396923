-- ===== src/Agent/Create.antt =====
-- `Agent.create` of reference/py/src/atf/agent.py, and what an agent leaves in its data directory.
pub mod Again
use agent_trust_fabric.Prelude.{
  ℕ, ◌≡◌, refl, ap, sym, ◌∙◌, Option, none, some, List, [], ◌∷◌, String, ◌⊎◌,
}
use agent_trust_fabric.Errors.{Result, ok, err, ◌>>=◌, json_decode_error}
use agent_trust_fabric.Json.{Json, sort_keys}
use agent_trust_fabric.Runtime.{Runtime, IsPemFormat}
use agent_trust_fabric.Signing.{KeyPair}
use agent_trust_fabric.Identity.Keys.{generate, private_pem, from_pem, from_pem-private_pem}
use agent_trust_fabric.Manifest.{Capability}
use agent_trust_fabric.Audit.Log.Columns.{Log}
use agent_trust_fabric.Agent.{Agent, publish_manifest}

-- The files of a data directory: the private key with the mode of its file, the manifest as the
-- value that `json.loads` gives of its text, which is `none` for a text that is no JSON, and the
-- database. A directory that is missing is one without files.
pub record DataDir : Type 0 where
  pub private_key_pem : Option (List ℕ)
  pub key_mode : Option ℕ
  pub manifest_json : Option (Option Json)
  pub audit_sqlite : Log

-- `0o600`.
abbrev pub owner_only : ℕ
owner_only = 384

-- `json.loads(m_path.read_text())`, if the manifest was published.
unfoldable pub load_manifest : Option (Option Json) → Result (Option Json)
load_manifest none = ok none
load_manifest (some none) = err json_decode_error
load_manifest (some (some envelope)) = ok (some envelope)

-- The file that `publish_manifest` writes.
unfoldable pub store_manifest : Json → DataDir → DataDir
store_manifest envelope dir = record dir { manifest_json = some (some (sort_keys envelope)) }

-- The database is the agent's log.
abbrev pub store_log : Log → DataDir → DataDir
store_log log dir = record dir { audit_sqlite = log }

-- The agent of a pair of keys and a directory.
unfoldable pub agent_of : String → String → DataDir → KeyPair → Result Agent
unfolding load_manifest
agent_of name owner dir kp = do
  envelope ← load_manifest dir.manifest_json
  ok (record {
    identity = record {
      owner = owner;
      name = name;
      keypair = kp;
      attestations = [];
      manifest_uri = none;
    };
    keypair = kp;
    audit_log = dir.audit_sqlite;
    manifest_envelope = envelope;
    peers = [];
  })

module _ ⦃rt : Runtime⦄ where
  -- The key that is in the directory, or the new one `sk`, which is written to it.
  unfoldable pub load_key : List ℕ → String → DataDir → Option (List ℕ) → Result KeyPair × DataDir
  unfolding generate private_pem from_pem
  load_key sk kid dir (some pem) = (from_pem pem kid, dir)
  load_key sk kid dir none =
      let kp = generate sk kid in
      (ok kp, record dir { private_key_pem = some (private_pem kp); key_mode = some owner_only })

  abbrev pub with_key : String → String → Result KeyPair × DataDir → Result Agent × DataDir
  with_key name owner (kp, dir) = (kp >>= agent_of name owner dir, dir)

  unfoldable pub create : List ℕ → String → String → String → DataDir → Result Agent × DataDir
  unfolding load_key agent_of
  create sk name owner kid dir = with_key name owner (load_key sk kid dir dir.private_key_pem)
