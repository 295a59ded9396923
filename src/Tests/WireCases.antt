-- ===== src/Tests/WireCases.antt =====
-- The theorems on the endpoints at concrete inputs.
use agent_trust_fabric.Prelude.{◌≡◌, refl, List, [], ◌∷◌, some, String}
use agent_trust_fabric.Prelude.Int.{pos, ◌+ℤ◌}
use agent_trust_fabric.Json.{Json, str, num, dict, canonical_json}
use agent_trust_fabric.Json.Keys.{insert}
use agent_trust_fabric.Audit.Event.{Stamp}
use agent_trust_fabric.Base64.{b64url_encode}
use agent_trust_fabric.Delegation.{claims_of}
use agent_trust_fabric.Delegation.Claims.{to_dict}
use agent_trust_fabric.Agent.{Agent}
use agent_trust_fabric.Wire.{Handled, HandlerSpec, returned, Clock, routed, route}
use agent_trust_fabric.Wire.Server.{invoke}
use agent_trust_fabric.Tests.Toy.{toy, bob_agent, token}

abbrev pub stamp_of : String → Stamp
stamp_of uuid = record { ts = 1010; uuid = uuid }

abbrev pub clock : Clock
clock = record {
  replay = stamp_of "r";
  now = 1010;
  started = stamp_of "s";
  executed = 1010;
  completed = stamp_of "c";
}

abbrev pub clock_2 : Clock
clock_2 = record {
  replay = stamp_of "r2";
  now = 1020;
  started = stamp_of "s2";
  executed = 1020;
  completed = stamp_of "c2";
}

abbrev pub drawn : Handled
drawn = returned (num (pos 5))

abbrev pub image : HandlerSpec
image = record { capability = "image"; schema_id = "image.v1"; handler = λ params. some drawn }

abbrev pub handlers : List (String × HandlerSpec)
handlers = ("image.generate", image) ∷ []

abbrev pub body : Json
body = dict (("payload", dict (("action", str "image.generate") ∷ [])) ∷ [])

abbrev served_agent : Agent
served_agent = (invoke clock handlers (some token) (some body) bob_agent).1

pub is_routed : route handlers (some token) (some body) ≡ routed token image body
unfolding route b64url_encode canonical_json insert to_dict claims_of ◌+ℤ◌
is_routed = refl
