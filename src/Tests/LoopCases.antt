-- ===== src/Tests/LoopCases.antt =====
-- The theorems on the event loop at concrete inputs.
use agent_trust_fabric.Prelude.{◌≡◌, ◌+◌, refl, List, [], ◌∷◌, none, some}
use agent_trust_fabric.Json.{sort_keys, canonical_json}
use agent_trust_fabric.Json.Keys.{insert}
use agent_trust_fabric.Prelude.Int.{◌+ℤ◌}
use agent_trust_fabric.Base64.{b64url_encode}
use agent_trust_fabric.Base64.Decoder.{b64url_decode}
use agent_trust_fabric.Signing.{encode_ascii}
use agent_trust_fabric.Identity.Uri.{agent_uri}
use agent_trust_fabric.Manifest.{manifest_content}
use agent_trust_fabric.Delegation.{claims_of}
use agent_trust_fabric.Delegation.Claims.{to_dict}
use agent_trust_fabric.Audit.Event.{event_content}
use agent_trust_fabric.Audit.Log.{find_row, pending_peer_count}
use agent_trust_fabric.Wire.{Clock, failure}
use agent_trust_fabric.Wire.Safe.{IsJournaled}
use agent_trust_fabric.Wire.Loop.{
  Running, answered, suspended, start_invoke, finish_invoke, Server, Turn, arrives, ends, cosigns,
  turn, turns,
}
use agent_trust_fabric.Wire.Loop.Turns.{turns-IsJournaled}
use agent_trust_fabric.Wire.Loop.Twice.{start_twice}
use agent_trust_fabric.Wire.Loop.Ends.{finish_invoke_answers}
use agent_trust_fabric.Tests.Toy.{toy, bob_agent, request, request_payload, token}
use agent_trust_fabric.Tests.AgentCases.{parsed, jti_read}
use agent_trust_fabric.Tests.WireCases.{
  stamp_of, drawn, clock, clock_2, image, handlers, body, is_routed,
}

abbrev clock_3 : Clock
clock_3 = record {
  replay = stamp_of "r3";
  now = 1030;
  started = stamp_of "s3";
  executed = 1030;
  completed = stamp_of "c3";
}

abbrev idle : Server
idle = record { agent = bob_agent; running = [] }

-- What the first request holds while it waits.
abbrev first : Running
first = record { spec = image; body = body; claims = claims_of request }

-- While the first request waits, a second one comes with the same token, and a cosignature that is
-- no JSON; then the first one ends.
abbrev meanwhile : List Turn
meanwhile = arrives clock_2 handlers (some token) (some body) ∷ cosigns none ∷ ends clock 0 ∷ []

abbrev later : Server
later = turns meanwhile (turn (arrives clock handlers (some token) (some body)) idle)

waits : (start_invoke clock handlers (some token) (some body) bob_agent).0 ≡ suspended first
unfolding start_invoke b64url_encode canonical_json insert to_dict claims_of ◌+ℤ◌ b64url_decode
    agent_uri encode_ascii manifest_content
waits = refl

later_fresh : find_row (some "evt_r3") later.agent.audit_log ≡ none
unfolding turn turns b64url_encode canonical_json insert to_dict claims_of ◌+ℤ◌ b64url_decode
    agent_uri encode_ascii manifest_content event_content
later_fresh = refl

start_twice_example :
    (start_invoke clock_3 handlers (some token) (some body) later.agent).0 ≡ answered (failure 409)
start_twice_example =
    start_twice clock clock_3 handlers handlers token "tkn_1" (some body) (some body) image image
      body body (sort_keys request_payload) idle first meanwhile
      (record { unique = tt; stored = tt }) tt parsed jti_read is_routed waits later refl is_routed
      refl later_fresh

turns-IsJournaled_example : IsJournaled bob_agent later.agent
unfolding turns
turns-IsJournaled_example =
    turns-IsJournaled (arrives clock handlers (some token) (some body) ∷ meanwhile) idle

finish_invoke_answers_example :
    ((finish_invoke clock_2 first bob_agent).0.status ≡ 200)
    × (pending_peer_count (finish_invoke clock_2 first bob_agent).1.audit_log
        ≡ pending_peer_count bob_agent.audit_log + 1)
finish_invoke_answers_example =
    finish_invoke_answers clock clock_2 handlers (some token) (some body) bob_agent bob_agent first
      waits (λ params read. (drawn, refl)) refl refl
