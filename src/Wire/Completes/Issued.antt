-- ===== src/Wire/Completes/Issued.antt =====
-- The whole demo of reference/py/examples/coding_to_image/run.py: from the token that the delegator
-- issues to the record that both parties hold.
use Prim.Native.String.{[] as nil_text, ◌∷◌ as ◌∷ˢ◌, ◌++◌ as ◌++ˢ◌}
use agent_trust_fabric.Prelude.{
  ◌≡◌, ◌≢◌, refl, ◌∙◌, true, false, none, some, Option, List, String, Any, if◌then◌else◌,
}
use agent_trust_fabric.Prelude.Text.{is_empty, split}
use agent_trust_fabric.Prelude.Int.{pos, ◌<ℤ◌, ◌≤ℤ◌, ◌+ℤ◌}
use agent_trust_fabric.Errors.{Result, ok, >>=-ok}
use agent_trust_fabric.Json.{Json, null, str, obj, end, truthy, get, or_else, subscript, sort_keys}
use agent_trust_fabric.Json.Keys.{insert}
use agent_trust_fabric.Runtime.{Runtime, IsSignatureScheme}
use agent_trust_fabric.Signing.{header}
use agent_trust_fabric.Signing.RoundTrip.{LoadsBack}
use agent_trust_fabric.Manifest.{Manifest}
use agent_trust_fabric.Manifest.Covers.{Covers, Delegable}
use agent_trust_fabric.Delegation.{Request, claims_of}
use agent_trust_fabric.Delegation.Claims.{to_dict, py_str}
use agent_trust_fabric.Delegation.Issue.Accepted.{transmitted}
use agent_trust_fabric.Audit.Event.{Stamp, new_event_id}
use agent_trust_fabric.Audit.Log.Columns.{Log, fits}
use agent_trust_fabric.Audit.Log.{find_row, any_jti}
use agent_trust_fabric.Agent.{Agent, PeerRecord, own_id, peer}
use agent_trust_fabric.Agent.Delegation.{own_request, issue_delegation, read_payload}
use agent_trust_fabric.Agent.Delivers.{
  issue_delegation-eq-ok, parsed, jti_of_payload, record_of, verify_delegation-issue_delegation,
}
use agent_trust_fabric.Wire.{
  Handled, HandlerSpec, Clock, routed, route, action_of, get_handler, find_handler,
}
use agent_trust_fabric.Wire.Server.{invoke, params_of, with_log}
use agent_trust_fabric.Wire.Twice.{peer-peers}
use agent_trust_fabric.Wire.Answers.{invoke_answers}
use agent_trust_fabric.Wire.Client.{
  HttpRequest, HttpResponse, Call, request_of, invoke_request, client_invoke,
}
use agent_trust_fabric.Wire.Completes.{IsCompleted, Expects, received}
use agent_trust_fabric.Wire.Completes.Ends.{delegation_completes}

-- The parameters that a payload comes with.
abbrev pub sent_params : Option Json → Json
sent_params found = if truthy (or_else found null) then or_else found null else obj end

module _ ⦃rt : Runtime⦄ where
  -- An empty text is no token.
  token_not_empty :
      (token : String) {payload : Json} → read_payload token ≡ ok payload → is_empty token ≡ false
  unfolding read_payload split
  token_not_empty nil_text h = absurd (cc)
  token_not_empty (c ∷ˢ s) h = refl

  -- The request that the client sends with a token that the agent has issued.
  abbrev pub request_for : Call → Request → Agent → HttpRequest
  request_for call r a =
      request_of call (str ("tkn_" ++ˢ r.uuid)) (some (str ("local://" ++ˢ own_id a)))

  -- A request of the client for a known action is routed to its handler.
  routes :
      (call : Call) (handlers : List (String × HandlerSpec)) (spec : HandlerSpec) (action : String)
      (jti : Json) (audit_uri : Option Json)
      → is_empty call.token ≡ false
      → get call.payload "action" ≡ ok (some (str action))
      → is_empty action ≡ false
      → find_handler action handlers ≡ some spec
      → route handlers (some call.token) (some (request_of call jti audit_uri).json)
        ≡ routed call.token spec (request_of call jti audit_uri).json
  unfolding route action_of get_handler
  routes call handlers spec action jti audit_uri present named not_empty found =
      rw (present, named, not_empty, found)

  params_sent :
      (call : Call) (jti : Json) (audit_uri found : Option Json)
      → get call.payload "params" ≡ ok found
      → params_of (request_of call jti audit_uri).json ≡ ok (sent_params found)
  unfolding params_of
  params_sent call jti audit_uri found h = rw h refl

  -- The claims that the client reads from an issued token.
  audit_uri_of_payload :
      (r : Request) (a : Agent)
      → get (sort_keys (to_dict (claims_of (own_request r a)))) "audit_uri"
        ≡ ok (some (str ("local://" ++ˢ own_id a)))
  unfolding sort_keys insert to_dict claims_of
  audit_uri_of_payload r a = refl

  module _ (scheme : IsSignatureScheme rt) (a b : Agent) (r : Request) (m : Manifest) (call : Call)
      (handlers : List (String × HandlerSpec)) (spec : HandlerSpec) (clock : Clock)
      (pb : PeerRecord) (action : String) (found : Option Json)
      (own_a : a.keypair.public_key ≡ rt.public_key a.keypair.private_key)
      (own_b : b.keypair.public_key ≡ rt.public_key b.keypair.private_key)
      (distinct : own_id a ≢ own_id b) (lh : LoadsBack (header a.keypair))
      (lp : LoadsBack (to_dict (claims_of (own_request r a))))
      (a_known : peer (str (own_id a)) b ≡ ok (record_of a m))
      (b_known : peer (str (own_id b)) a ≡ ok pb) (b_key : pb.public_key ≡ b.keypair.public_key)
      (to_b : r.delegatee_id ≡ own_id b) (covered : Any (λ s. Covers s spec.capability) r.scope)
      (delegable : Delegable m r.scope) (begun : pos r.now ≤ℤ pos clock.now)
      (live : pos clock.now <ℤ pos r.now +ℤ r.expires_in) (call_b : call.delegatee_id ≡ own_id b)
      (cosigning : call.cosign ≡ true) (expects : Expects call.expected_schema_id spec.schema_id)
      (action_sent : get call.payload "action" ≡ ok (some (str action)))
      (action_text : is_empty action ≡ false) (handled : find_handler action handlers ≡ some spec)
      (params_sent_ : get call.payload "params" ≡ ok found) (result : Handled)
      (ran : spec.handler (sent_params found) ≡ some result)
      (unseen : any_jti (some ("tkn_" ++ˢ r.uuid)) b.audit_log ≡ false)
      (started_fits : fits (pos clock.started.ts) ≡ true)
      (completed_fits : fits (pos clock.completed.ts) ≡ true)
      (started_new : find_row (some (new_event_id clock.started)) b.audit_log ≡ none)
      (completed_new : find_row (some (new_event_id clock.completed)) b.audit_log ≡ none)
      (differ : new_event_id clock.started ≢ new_event_id clock.completed) where
    answers :
        (stamp : Stamp) (a' : Agent)
        → issue_delegation r stamp a ≡ ok (call.token, a')
        → (invoke clock handlers (some call.token) (some (request_for call r a).json) b).0.status
          ≡ 200
    answers stamp a' issued =
        let q = own_request r a in
        let made = issue_delegation-eq-ok r stamp a call.token a' issued in
        let present = token_not_empty call.token (parsed scheme a own_a q lh lp call.token made) in
        let params_read =
          params_sent call (str ("tkn_" ++ˢ r.uuid)) (some (str ("local://" ++ˢ own_id a))) found
            params_sent_ in
        invoke_answers clock spec (request_for call r a).json (transmitted (claims_of q)) b
          (sent_params found) result (some (str ("req_" ++ˢ py_str (str ("tkn_" ++ˢ r.uuid)))))
          params_read ran refl started_fits completed_fits started_new completed_new differ handlers
          call.token (some (request_for call r a).json)
          (routes call handlers spec action (str ("tkn_" ++ˢ r.uuid))
            (some (str ("local://" ++ˢ own_id a))) present action_sent action_text handled)
          (verify_delegation-issue_delegation scheme a b a' r m stamp clock.replay call.token
            spec.capability (pos clock.now) own_a lh lp issued to_b a_known unseen covered delegable
            begun live)

    sends :
        (stamp : Stamp) (a' : Agent)
        → issue_delegation r stamp a ≡ ok (call.token, a')
        → invoke_request call ≡ ok (str ("tkn_" ++ˢ r.uuid), (request_for call r a))
    unfolding invoke_request
    sends stamp a' issued =
        let q = own_request r a in
        let made = issue_delegation-eq-ok r stamp a call.token a' issued in
        >>=-ok (read_payload call.token) _ (parsed scheme a own_a q lh lp call.token made) (
          >>=-ok (subscript (sort_keys (to_dict (claims_of q))) "jti") _ (jti_of_payload q) (
            >>=-ok (get (sort_keys (to_dict (claims_of q))) "audit_uri") _
              (audit_uri_of_payload r a) refl))

    completed :
        (stamp stamp' : Stamp) (detail : String) (http_post : HttpRequest → Result HttpResponse)
        (log : Log)
        → issue_delegation r stamp a ≡ ok (call.token, with_log a log)
        → find_row (some (new_event_id clock.completed)) log ≡ none
        → http_post (request_for call r a)
          ≡ ok (
              received
                (invoke clock handlers (some call.token) (some (request_for call r a).json) b).0)
        → IsCompleted
            (with_log a log)
            b
            (invoke clock handlers (some call.token) (some (request_for call r a).json) b).0.body
            (client_invoke stamp' detail call http_post (with_log a log))
            (invoke clock handlers (some call.token) (some (request_for call r a).json) b).1
    completed stamp stamp' detail http_post log issued new_id delivered =
        let jti = str ("tkn_" ++ˢ r.uuid) in
        let audit_uri : Option Json = some (str ("local://" ++ˢ own_id a)) in
        let present = token_not_empty call.token (
          parsed scheme a own_a (own_request r a) lh lp call.token
            (issue_delegation-eq-ok r stamp a call.token (with_log a log) issued)) in
        delegation_completes scheme (with_log a log) b own_a own_b distinct stamp' detail call
          http_post clock spec (request_for call r a).json jti (request_for call r a)
          (record_of a m) pb call_b cosigning expects (sends stamp (with_log a log) issued)
          (peer-peers (str (own_id b)) a (with_log a log) refl ∙ b_known) b_key a_known refl new_id
          handlers
          (routes call handlers spec action jti audit_uri present action_sent action_text handled)
          (answers stamp (with_log a log) issued) delivered
