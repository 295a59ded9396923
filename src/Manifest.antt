-- ===== src/Manifest.antt =====
-- reference/py/src/atf/manifest.py: capability manifests.
pub mod Covers
use Prim.Native.String.{◌++◌ as ◌++ˢ◌}
use agent_trust_fabric.Prelude.{
  ℕ, ◌≡◌, refl, Bool, true, false, Option, none, some, List, [], ◌∷◌, ◌++◌, map, String,
  starts_with, if◌then◌else◌,
}
use agent_trust_fabric.Errors.{
  Result, ok, err, ◌>>=◌, ◌>>◌, raise_as, key_error_as, attribute_error, manifest_invalid_signature,
}
use agent_trust_fabric.Json.{
  Json, Fields, end, field, str, arr, obj, nil, dict, items, opt_str, lookup, get, or_else, text,
  iterate, py_eq, subscript,
}
use agent_trust_fabric.Runtime.{Runtime}
use agent_trust_fabric.Signing.{KeyPair, sign_envelope, verify_envelope}

pub record Capability : Type 0 where
  pub name : String
  pub description : String
  pub metadata : Fields

-- The entry for the metadata, which an empty `dict` has not.
abbrev metadata_entry : Fields → List (String × Json)
metadata_entry end = []
metadata_entry (field k v fs) = ("metadata", obj (field k v fs)) ∷ []

-- `Capability.to_dict`.
unfoldable pub capability_dict : Capability → Json
capability_dict c =
    dict (
      (("name", str c.name) ∷ ("description", str c.description) ∷ []) ++ metadata_entry c.metadata)

pub record Manifest : Type 0 where
  pub agent_id : String
  pub version : String
  pub capabilities : List Capability
  pub evidence : List Json
  pub description : String
  pub homepage : Option String

-- `Manifest.to_content`.
unfoldable pub manifest_content : Manifest → Json
unfolding capability_dict
manifest_content m = dict (
    ("agent_id", str m.agent_id)
    ∷ ("version", str m.version)
    ∷ ("description", str m.description)
    ∷ ("homepage", opt_str m.homepage)
    ∷ ("capabilities", arr (items (map capability_dict m.capabilities)))
    ∷ ("evidence", arr (items m.evidence))
    ∷ [])

-- The attribute `startswith`, which only a text has.
abbrev pub with_startswith : Json → Result String
with_startswith (str s) = ok s
with_startswith _ = err attribute_error

-- The loop of `manifest_has_capability` over the declared capabilities.
unfoldable pub declares : List Json → Json → Result Bool
declares [] cap_name = ok false
declares (c ∷ cs) cap_name = do
  found ← get c "name"
  let declared = or_else found (str "")
  if py_eq cap_name declared then ok true else do
    name ← with_startswith cap_name
    prefix ← text declared
    if starts_with name (prefix ++ˢ ".") then ok true else declares cs cap_name

unfoldable pub manifest_has_capability : Json → Json → Result Bool
unfolding declares
manifest_has_capability content cap_name = do
  found ← get content "capabilities"
  capabilities ← iterate (or_else found (arr nil))
  declares capabilities cap_name

module _ ⦃rt : Runtime⦄ where
  unfoldable pub sign_manifest : Manifest → KeyPair → Json
  unfolding manifest_content
  sign_manifest m kp =
      let content = manifest_content m in
      dict (("manifest", content) ∷ ("signature", sign_envelope content kp m.agent_id) ∷ [])

  -- `envelope["manifest"]` and `envelope["signature"]`: only a missing key is caught.
  unfoldable pub verify_manifest : Json → List ℕ → Result Json
  verify_manifest envelope key = do
    content ← key_error_as manifest_invalid_signature (subscript envelope "manifest")
    signature ← key_error_as manifest_invalid_signature (subscript envelope "signature")
    raise_as manifest_invalid_signature (verify_envelope content signature key)
    ok content
