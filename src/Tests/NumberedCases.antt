-- ===== src/Tests/NumberedCases.antt =====
-- The theorem on numbers as jti at a concrete input.
use agent_trust_fabric.Prelude.{◌≡◌, refl, [], some, All}
use agent_trust_fabric.Prelude.Int.{pos}
use agent_trust_fabric.Errors.{Result, ok, err}
use agent_trust_fabric.Json.{str, num, end, sort_keys, subscript}
use agent_trust_fabric.Json.Keys.{insert}
use agent_trust_fabric.Identity.Uri.{agent_uri}
use agent_trust_fabric.Delegation.Verify.{verify_token}
use agent_trust_fabric.Audit.Event.{AuditEvent, Stamp, event_content}
use agent_trust_fabric.Audit.Log.Columns.{Log}
use agent_trust_fabric.Audit.Log.{append_self}
use agent_trust_fabric.Agent.{Agent, own_id, peer}
use agent_trust_fabric.Agent.Delegation.{new_event, unless_null, verify_delegation}
use agent_trust_fabric.Agent.Numbered.{HasTextJti, verify_delegation_num}
use agent_trust_fabric.Tests.Toy.{
  toy, alice_id, bob_agent, alice_record, numbered, numbered_token, numbered_parsed,
}

abbrev stamp : Stamp
stamp = record { ts = 1010; uuid = "s" }

-- The start of the first use of the token, whose jti is written as a text.
abbrev used : AuditEvent
used = new_event stamp "delegation.started" (str "7") (str alice_id) (str (own_id bob_agent)) end

abbrev log_after : Result Log → Log
log_after (ok log) = log
log_after (err _) = []

abbrev used_bob : Agent
used_bob = record bob_agent {
  audit_log = log_after (append_self used bob_agent.keypair (own_id bob_agent) []);
}

iss_read : subscript (sort_keys numbered) "iss" ≡ ok (str alice_id)
unfolding sort_keys insert
iss_read = refl

jti_read : subscript (sort_keys numbered) "jti" ≡ ok (num (pos 7))
unfolding sort_keys insert
jti_read = refl

alice_is_known : peer (str alice_id) used_bob ≡ ok alice_record
unfolding peer agent_uri
alice_is_known = refl

used_text : All HasTextJti used_bob.audit_log
unfolding append_self sort_keys insert event_content
used_text = (record { fs = _; jti = "7"; content_read = refl; jti_read = refl }, tt)

verify_delegation_num_example :
    verify_delegation stamp (pos 1020) "image" numbered_token used_bob ≡ (
      verify_token numbered_token alice_record.public_key
          (own_id used_bob)
          (some "image")
          (unless_null alice_record.manifest_content)
          (pos 1020),
      used_bob,
    )
verify_delegation_num_example =
    verify_delegation_num numbered_token (pos 7) (sort_keys numbered) (str alice_id) alice_record
      used_bob numbered_parsed iss_read jti_read alice_is_known refl used_text stamp (pos 1020)
      "image"
