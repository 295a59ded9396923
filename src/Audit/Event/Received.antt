-- ===== src/Audit/Event/Received.antt =====
-- `AuditEvent.from_content` on the content of an event.
use agent_trust_fabric.Prelude.{◌≡◌, refl}
use agent_trust_fabric.Errors.{ok}
use agent_trust_fabric.Runtime.{Runtime}
use agent_trust_fabric.Audit.Event.{AuditEvent, event_content, from_content}

module _ ⦃rt : Runtime⦄ where
  -- An event is read back from its content.
  pub from_content-event_content : (e : AuditEvent) → from_content (event_content e) ≡ ok e
  unfolding from_content event_content
  from_content-event_content e = refl
