-- ===== src/Wire.antt =====
-- reference/py/src/atf/wire.py: the endpoints that an agent serves. A request is its token header
-- and its parsed body; a response is its HTTP status and its body. An exception that no endpoint
-- catches is answered with 500.
pub mod Server
pub mod Loop
pub mod Safe
pub mod Answered
pub mod Twice
pub mod Executed
pub mod Answers
pub mod Completes
pub mod Client
use agent_trust_fabric.Prelude.{
  ℕ, ◌≡◌, refl, Bool, true, false, not, Option, none, some, List, [], ◌∷◌, String, str_eq,
  if◌then◌else◌,
}
use agent_trust_fabric.Prelude.Text.{is_empty}
use agent_trust_fabric.Prelude.Int.{ℤ, pos}
use agent_trust_fabric.Errors
use agent_trust_fabric.Errors.{
  Exc, Result, ok, err, ◌>>=◌, ◌>>◌, is_atf_error, type_error, token_expired, token_not_yet_valid,
  token_invalid_signature, token_replay, token_insufficient_scope,
}
use agent_trust_fabric.Json.{Json, end, null, str, arr, obj, dict, get, or_else, truthy}
use agent_trust_fabric.Audit.Event.{Stamp}

-- What a handler ends in: a value, or an exception with its class name and message.
pub data Handled : Type 0 where
  returned : Json → Handled
  raised : String → String → Handled

pub record HandlerSpec : Type 0 where
  pub capability : String
  pub schema_id : String
  -- `none` for an end that `canonical_json` cannot encode: a value that is not JSON, or a lone
  -- surrogate in a text or a message.
  pub handler : Json → Option Handled

pub record Response : Type 0 where
  pub status : ℕ
  pub body : Json

abbrev pub failure : ℕ → Response
failure status = record { status = status; body = null }

-- The readings of the clock and of the uuid source during one `invoke`.
pub record Clock : Type 0 where
  pub replay : Stamp
  pub now : ℕ
  pub started : Stamp
  pub executed : ℕ
  pub completed : Stamp

-- The `except` clauses around `verify_delegation`.
unfoldable pub status_of : Exc → ℕ
unfolding is_atf_error
status_of token_expired = 401
status_of token_not_yet_valid = 401
status_of token_invalid_signature = 401
status_of token_replay = 409
status_of token_insufficient_scope = 403
status_of e = if is_atf_error e then 400 else 500

-- `body.get("payload", {}).get("action")`.
unfoldable pub action_of : Json → Result Json
action_of body = do
  payload ← get body "payload"
  action ← get (or_else payload (obj end)) "action"
  ok (or_else action null)

abbrev pub find_handler : String → List (String × HandlerSpec) → Option HandlerSpec
find_handler name [] = none
find_handler name ((n, s) ∷ rest) = if str_eq n name then some s else find_handler name rest

-- `handlers.get(action)`.
unfoldable pub get_handler : Json → List (String × HandlerSpec) → Result (Option HandlerSpec)
get_handler (str name) handlers = ok (find_handler name handlers)
get_handler (arr _) handlers = err type_error
get_handler (obj _) handlers = err type_error
get_handler _ handlers = ok none

-- What `invoke` does before it verifies the token: a status, or the token, the handler and the body.
pub data Routed : Type 0 where
  refused : ℕ → Routed
  routed : String → HandlerSpec → Json → Routed

abbrev pub route_handler : String → Json → Result (Option HandlerSpec) → Routed
route_handler token body (err e) = refused 500
route_handler token body (ok none) = refused 404
route_handler token body (ok (some spec)) = routed token spec body

abbrev pub route_action : List (String × HandlerSpec) → String → Json → Result Json → Routed
route_action handlers token body (err e) = refused 500
route_action handlers token body (ok action) =
    if truthy action then route_handler token body (get_handler action handlers) else refused 400

-- A body that is no JSON is `none`.
abbrev pub route_body : List (String × HandlerSpec) → String → Option Json → Routed
route_body handlers token none = refused 500
route_body handlers token (some body) = route_action handlers token body (action_of body)

unfoldable pub route : List (String × HandlerSpec) → Option String → Option Json → Routed
unfolding action_of get_handler
route handlers none body = refused 400
route handlers (some token) body =
    if is_empty token then refused 400 else route_body handlers token body
