-- ===== src/Cli.antt =====
-- reference/py/src/atf/cli.py: `_resolve`, how the command line names an agent.
pub mod Commands
pub mod Delegates
use text.Mathlib.TextPositions.{starts_with-append}
use agent_trust_fabric.Prelude.{
  ◌≡◌, true, not, ◌||◌, String, starts_with, if◌then◌else◌, Bool, ap, ◌∙◌,
}
use agent_trust_fabric.Prelude.Text.{lacks, rsplit_once}
use agent_trust_fabric.Errors.{Result, ok, ◌>>=◌, ◌>>◌, raise_if, or_raise, usage_error}
use agent_trust_fabric.Identity.Uri.{agent_prefix, agent_uri, parse_agent_uri}
use agent_trust_fabric.Identity.RoundTrip.{parse_agent_uri-agent_uri}

-- `owner, name, _ = …`.
abbrev pub owner_and_name : Result (String × String × String) → Result (String × String)
owner_and_name r = do (owner, name, _) ← r; ok (owner, name)

-- The branch for `owner.name`: the name is what follows the last dot.
abbrev pub from_pair : String → Result (String × String)
from_pair s = do
  raise_if (lacks b'.' s || not (lacks b'/' s)) usage_error
  or_raise (rsplit_once b'.' s) usage_error

unfoldable pub resolve : String → Result (String × String)
unfolding parse_agent_uri rsplit_once
resolve s = if starts_with s agent_prefix then owner_and_name (parse_agent_uri s) else from_pair s

uri_prefixed :
    (owner name kid : String) → starts_with (agent_uri owner name kid) agent_prefix ≡ true
unfolding agent_uri
uri_prefixed owner name kid = starts_with-append agent_prefix _

chosen : (b : Bool) (x y : Result (String × String)) → b ≡ true → (if b then x else y) ≡ x
chosen b x y h = rw h

-- The command line resolves an agent URI to the owner and the name that it was built of, if the
-- owner has no slash and neither the owner nor the name has a number sign.
pub resolve-agent_uri :
    (owner name kid : String)
    → lacks b'/' owner ≡ true
    → lacks b'#' owner ≡ true
    → lacks b'#' name ≡ true
    → resolve (agent_uri owner name kid) ≡ ok (owner, name)
unfolding resolve
resolve-agent_uri owner name kid no_slash plain_owner plain_name =
    chosen _ _ _ (uri_prefixed owner name kid)
    ∙ ap owner_and_name (parse_agent_uri-agent_uri owner name kid no_slash plain_owner plain_name)
