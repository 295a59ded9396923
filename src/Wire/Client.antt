-- ===== src/Wire/Client.antt =====
-- `ATFClient` of reference/py/src/atf/wire.py: the delegator's side of a request. What the HTTP
-- package gives back, a response or an exception, is an argument.
pub mod Safe
pub mod Returned
pub mod Accepts
pub mod Disputed
pub mod Bootstrap
use Prim.Native.String.{◌++◌ as ◌++ˢ◌}
use agent_trust_fabric.Prelude.{
  ℕ, Bool, not, ◌&&◌, Option, none, some, List, [], ◌∷◌, String, if◌then◌else◌, leb,
}
use agent_trust_fabric.Errors.{
  Result, ok, err, ◌>>=◌, ◌>>◌, raise_if, or_raise, atf_error, json_decode_error, http_status_error,
  outcome_invalid_signature,
}
use agent_trust_fabric.Json.{Json, fields, null, str, dict, get, subscript, or_else}
use agent_trust_fabric.Runtime.{Runtime}
use agent_trust_fabric.Delegation.Claims.{py_str}
use agent_trust_fabric.Audit.Event.{AuditEvent, Stamp, from_content}
use agent_trust_fabric.Audit.Log.Columns.{Log}
use agent_trust_fabric.Audit.Log.{append_self, append_finalized, sign_only}
use agent_trust_fabric.Agent.{Agent, own_id, peer, verify_outcome_envelope}
use agent_trust_fabric.Agent.Delegation.{new_event, read_payload}
use agent_trust_fabric.Wire.Server.{with_log}

pub record HttpRequest : Type 0 where
  pub url : String
  pub headers : List (String × String)
  pub json : Json

-- A body that is no JSON is `none`.
pub record HttpResponse : Type 0 where
  pub status_code : ℕ
  pub json : Option Json

-- `r.json()`.
abbrev pub json_body : HttpResponse → Result Json
json_body r = or_raise r.json json_decode_error

-- `r.raise_for_status()`, `return r.json()`.
unfoldable pub fetched : HttpResponse → Result Json
fetched r = do
  raise_if (not (leb 200 r.status_code && leb r.status_code 299)) http_status_error
  json_body r

-- `fetch_jwks`: `http_get` gives the response to a request for a URL, or the package's exception.
unfoldable pub fetch_jwks : (String → Result HttpResponse) → String → Result Json
unfolding fetched
fetch_jwks http_get base_url = do
  r ← http_get (base_url ++ˢ "/.well-known/atf/jwks.json")
  fetched r

unfoldable pub fetch_manifest : (String → Result HttpResponse) → String → Result Json
unfolding fetched
fetch_manifest http_get base_url = do
  r ← http_get (base_url ++ˢ "/.well-known/atf/manifest.json")
  fetched r

-- The arguments of `ATFClient.invoke`.
pub record Call : Type 0 where
  pub base_url : String
  pub token : String
  pub payload : Json
  pub expected_schema_id : Option String
  pub delegatee_id : String
  pub cosign : Bool

-- What a call ends in: its result, the body that it has posted to the cosign endpoint, and the
-- agent. An exception of that post is logged and dropped, so its answer plays no part.
pub record Ended : Type 0 where
  pub result : Result Json
  pub pushed : Option Json
  pub agent : Agent

abbrev pub failed : Result Json → Agent → Ended
failed result a = record { result = result; pushed = none; agent = a }

-- The event of an outcome whose signature is not the delegatee's. `detail` is the message of the
-- exception.
abbrev pub disputed_event : Stamp → String → Json → String → Agent → AuditEvent
disputed_event stamp detail jti delegatee_id a =
    new_event stamp "delegation.disputed" jti (str (own_id a)) (str delegatee_id)
      (fields (("reason", str "outcome.invalid_signature") ∷ ("detail", str detail) ∷ []))

-- Once the dispute is recorded, the exception is raised again.
abbrev pub after_dispute : Agent → Result Log → Ended
after_dispute a (err e) = failed (err e) a
after_dispute a (ok log) = failed (err outcome_invalid_signature) (with_log a log)

-- The event that is stored with both signatures, the own signature and the log.
pub record Stored : Type 0 where
  pub event : AuditEvent
  pub my_sig : Json
  pub log : Log

abbrev pub cosign_body : Stored → Json
cosign_body s = dict (("event_id", s.event.event_id) ∷ ("signature", s.my_sig) ∷ [])

abbrev pub after_storing : Bool → Json → Agent → Result Stored → Ended
after_storing cosign resp a (err e) = failed (err e) a
after_storing cosign resp a (ok s) = record {
  result = ok resp;
  pushed = if cosign then some (cosign_body s) else none;
  agent = with_log a s.log;
}

-- The body of a response below 400.
unfoldable pub response_body : HttpResponse → Result Json
response_body r = do raise_if (leb 400 r.status_code) atf_error; json_body r

module _ ⦃rt : Runtime⦄ where
  -- The POST to the delegatee's `invoke`.
  abbrev pub request_of : Call → Json → Option Json → HttpRequest
  request_of call jti audit_uri = record {
    url = call.base_url ++ˢ "/atf/v1/invoke";
    headers =
        ("X-ATF-Token", call.token) ∷ ("Content-Type", "application/atf+json; version=0.1") ∷ [];
    json = dict (
        ("atf_version", str "0.1")
        ∷ ("request_id", str ("req_" ++ˢ py_str jti))
        ∷ ("payload", call.payload)
        ∷ ("audit_uri", or_else audit_uri null)
        ∷ []);
  }

  -- The request, and the jti that the client reads from the token.
  unfoldable pub invoke_request : Call → Result (Json × HttpRequest)
  unfolding read_payload
  invoke_request call = do
    claims ← read_payload call.token
    jti ← subscript claims "jti"
    audit_uri ← get claims "audit_uri"
    ok (jti, request_of call jti audit_uri)

  -- The delegatee's event, once its signature is checked, is stored with both signatures.
  unfoldable pub store_event : Json → String → Agent → Result Stored
  unfolding from_content sign_only peer append_finalized
  store_event resp delegatee_id a = do
    ae ← subscript resp "audit_event"
    event_content ← subscript ae "content"
    peer_sig ← subscript ae "signature"
    event ← from_content event_content
    let my_sig = sign_only event a.keypair (own_id a)
    p ← peer (str delegatee_id) a
    log ← append_finalized event my_sig peer_sig p.public_key a.audit_log
    ok (record { event = event; my_sig = my_sig; log = log })

  -- The `except` clause around the verification of the outcome, and what follows it.
  abbrev pub after_verdict : Stamp → String → Call → Json → Json → Agent → Result Json → Ended
  after_verdict stamp detail call jti resp a (ok _) =
      after_storing call.cosign resp a (store_event resp call.delegatee_id a)
  after_verdict stamp detail call jti resp a (err outcome_invalid_signature) = after_dispute a (
      append_self (disputed_event stamp detail jti call.delegatee_id a) a.keypair (own_id a)
        a.audit_log)
  after_verdict stamp detail call jti resp a (err e) = failed (err e) a

  abbrev pub after_outcome : Stamp → String → Call → Json → Json → Agent → Result Json → Ended
  after_outcome stamp detail call jti resp a (err e) = failed (err e) a
  after_outcome stamp detail call jti resp a (ok outcome) =
      after_verdict stamp detail call jti resp a
        (verify_outcome_envelope outcome (str call.delegatee_id) call.expected_schema_id a)

  abbrev pub after_body : Stamp → String → Call → Json → Agent → Result Json → Ended
  after_body stamp detail call jti a (err e) = failed (err e) a
  after_body stamp detail call jti a (ok resp) =
      after_outcome stamp detail call jti resp a (subscript resp "outcome")

  abbrev pub after_request :
      Stamp
      → String
      → Call
      → (HttpRequest → Result HttpResponse)
      → Agent
      → Result (Json × HttpRequest)
      → Ended
  after_request stamp detail call http_post a (err e) = failed (err e) a
  after_request stamp detail call http_post a (ok (jti, request)) =
      after_body stamp detail call jti a (do r ← http_post request; response_body r)

  -- `ATFClient.invoke`: `http_post` gives the response to a request, or the package's exception.
  unfoldable pub client_invoke :
      Stamp → String → Call → (HttpRequest → Result HttpResponse) → Agent → Ended
  unfolding invoke_request response_body verify_outcome_envelope store_event append_self
  client_invoke stamp detail call http_post a =
      after_request stamp detail call http_post a (invoke_request call)
