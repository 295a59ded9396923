-- ===== src/Audit/Event.antt =====
-- `AuditEvent`, `_chain_hash` and `verify_record_signatures`.
pub mod Received
use Prim.Native.String.{◌++◌ as ◌++ˢ◌}
use agent_trust_fabric.Prelude.{
  ℕ, Option, none, some, List, [], ◌∷◌, ◌++◌, String, str_eq, if◌then◌else◌,
}
use agent_trust_fabric.Prelude.Int.{ℤ}
use agent_trust_fabric.Errors.{
  Result, ok, err, ◌>>=◌, ◌>>◌, raise_as, type_error, cross_sign_failed,
}
use agent_trust_fabric.Json.{
  Json, Fields, null, num, str, arr, obj, nil, dict, items, get, subscript, iterate, or_else,
  canonical_json,
}
use agent_trust_fabric.Runtime.{Runtime}
use agent_trust_fabric.Signing.{codes, verify_envelope}
use agent_trust_fabric.Delegation.Claims.{py_int, py_dict}

-- The attributes may hold any value: the client fills them from a received content.
pub record AuditEvent : Type 0 where
  pub type : Json
  pub token_jti : Json
  pub delegator_id : Json
  pub delegatee_id : Json
  pub fields : Fields
  pub event_id : Json
  pub ts : ℤ

-- `AuditEvent.content`.
unfoldable pub event_content : AuditEvent → Json
event_content e = dict (
    ("event_id", e.event_id)
    ∷ ("ts", num e.ts)
    ∷ ("type", e.type)
    ∷ ("token_jti", e.token_jti)
    ∷ ("delegator_id", e.delegator_id)
    ∷ ("delegatee_id", e.delegatee_id)
    ∷ ("fields", obj e.fields)
    ∷ [])

-- The reading of the clock and of the `uuid` source for one new event.
pub record Stamp : Type 0 where
  pub ts : ℕ
  pub uuid : String

-- The default of `event_id`.
abbrev pub new_event_id : Stamp → String
new_event_id s = "evt_" ++ˢ s.uuid

-- The record that an event is stored as, with its signatures.
abbrev pub signed_record : Json → List Json → Json
signed_record content signatures =
    dict (("content", content) ∷ ("signatures", arr (items signatures)) ∷ [])

abbrev pub genesis_hash : String
genesis_hash = "sha256:0000000000000000000000000000000000000000000000000000000000000000"

abbrev lookup_key : String → List (String × List ℕ) → Option (List ℕ)
lookup_key k [] = none
lookup_key k ((j, key) ∷ keys) = if str_eq j k then some key else lookup_key k keys

-- `d.get(v)` on a `dict` of keys by agent: a `list` or a `dict` cannot be hashed.
abbrev pub get_key : Json → List (String × List ℕ) → Result (Option (List ℕ))
get_key (str s) keys = ok (lookup_key s keys)
get_key (arr _) keys = err type_error
get_key (obj _) keys = err type_error
get_key _ keys = ok none

abbrev known : Option (List ℕ) → Result (List ℕ)
known none = err cross_sign_failed
known (some key) = ok key

module _ ⦃rt : Runtime⦄ where
  unfoldable pub from_content : Json → Result AuditEvent
  unfolding py_int py_dict
  from_content content = do
    type ← subscript content "type"
    token_jti ← get content "token_jti"
    delegator_id ← get content "delegator_id"
    delegatee_id ← get content "delegatee_id"
    found ← get content "fields"
    fields ← py_dict (or_else found null)
    event_id ← subscript content "event_id"
    ts ← py_int (← subscript content "ts")
    ok (record {
      type = type;
      token_jti = or_else token_jti null;
      delegator_id = or_else delegator_id null;
      delegatee_id = or_else delegatee_id null;
      fields = fields;
      event_id = event_id;
      ts = ts;
    })

  -- The previous hash in ASCII, a line feed, and the canonical record.
  unfoldable pub chain_hash : String → Json → String
  chain_hash prev record_ =
      "sha256:" ++ˢ rt.sha256_hex (codes prev ++ (10 ∷ canonical_json record_))

  -- The loop of `verify_record_signatures`.
  unfoldable pub check_signatures : Json → List Json → List (String × List ℕ) → Result (Unit {0})
  check_signatures content [] keys = ok tt
  check_signatures content (sig ∷ sigs) keys = do
    signer ← get sig "signed_by"
    found ← get_key (or_else signer null) keys
    key ← known found
    raise_as cross_sign_failed (verify_envelope content sig key)
    check_signatures content sigs keys

  unfoldable pub verify_record_signatures : Json → List (String × List ℕ) → Result (Unit {0})
  unfolding check_signatures
  verify_record_signatures record_ keys = do
    content ← subscript record_ "content"
    found ← get record_ "signatures"
    signatures ← iterate (or_else found (arr nil))
    check_signatures content signatures keys
