-- ===== src/Identity/Uri.antt =====
-- `_agent_uri` and `parse_agent_uri` of reference/py/src/atf/identity.py.
use Prim.Native.String.{◌++◌ as ◌++ˢ◌, slice, len}
use agent_trust_fabric.Prelude.{not, String, starts_with}
use agent_trust_fabric.Prelude.Text.{split_once}
use agent_trust_fabric.Errors.{Result, ok, ◌>>=◌, ◌>>◌, raise_if, or_raise, identity_error}

abbrev pub agent_prefix : String
agent_prefix = "agent://"

unfoldable pub agent_uri : String → String → String → String
agent_uri owner name kid = agent_prefix ++ˢ (owner ++ˢ ("/" ++ˢ (name ++ˢ ("#" ++ˢ kid))))

unfoldable pub parse_agent_uri : String → Result (String × String × String)
unfolding split_once
parse_agent_uri uri = do
  raise_if (not (starts_with uri agent_prefix)) identity_error
  let rest = slice uri (len agent_prefix) (len uri)
  (body, kid) ← or_raise (split_once b'#' rest) identity_error
  (owner, name) ← or_raise (split_once b'/' body) identity_error
  ok (owner, name, kid)
