-- ===== src/Audit/Ledger.antt =====
-- What the audit log promises, without its rows: each event id stands for a record at most once, a
-- record is never taken back, and it changes only once, when the peer signs it.
pub mod Refines
use agent_trust_fabric.Prelude.{
  ◌≡◌, refl, ap, sym, ◌∙◌, Bool, true, false, Option, none, some, List, String, str_eq, eq_iff,
  arith, ℕ, if◌then◌else◌, Bool-cases, inl, inr, ◌⊎◌,
}
use agent_trust_fabric.Errors.{ok}
use agent_trust_fabric.Json.{Json, subscript, sort_keys}
use agent_trust_fabric.Runtime.{Runtime}
use agent_trust_fabric.Signing.{verify_envelope}
use agent_trust_fabric.Audit.Log.Columns.{bind_text}
use agent_trust_fabric.Audit.Log.{cosigned}

-- The record of an event, and whether the peer has yet to sign it.
pub record Entry : Type 0 where
  pub record_ : Json
  pub pending : Bool

abbrev pub Ledger : Type 0
Ledger = String → Option Entry

-- The entry at one id is another one, and the rest is the same.
abbrev pub Sets : String → Entry → Ledger → Ledger → Type 0
Sets id e l l' = (j : String) → l' j ≡ (if str_eq id j then some e else l j)

-- What is written: an event with its entry, or the peer's signature of a stored event.
pub data Write : Type 0 where
  stores : Json → Entry → Write
  signs : Json → Json → List ℕ → Write

module _ ⦃rt : Runtime⦄ where
  -- The change that a write makes.
  pub data Change : Write → Ledger → Ledger → Type 0 where
    adds :
        (event_id : Json) (id : String) (e : Entry) {l l' : Ledger}
        → bind_text event_id ≡ ok (some id)
        → l id ≡ none
        → Sets id e l l'
        → Change (stores event_id e) l l'
    -- An event whose id is `NULL` is no entry.
    unnamed :
        (event_id : Json) (e : Entry) {l l' : Ledger}
        → bind_text event_id ≡ ok none
        → ((j : String) → l' j ≡ l j)
        → Change (stores event_id e) l l'
    complete :
        (event_id : Json) (id : String) (old content signature new : Json) (key : List ℕ)
        {l l' : Ledger}
        → bind_text event_id ≡ ok (some id)
        → l id ≡ some (record { record_ = old; pending = true })
        → subscript old "content" ≡ ok content
        → verify_envelope content signature key ≡ ok tt
        → cosigned old signature ≡ ok new
        → Sets id (record { record_ = sort_keys new; pending = false }) l l'
        → Change (signs event_id signature key) l l'

  -- A complete entry stays as it is.
  pub Change-complete :
      {w : Write} {l l' : Ledger} (id : String) (r : Json)
      → Change w l l'
      → l id ≡ some (record { record_ = r; pending = false })
      → l' id ≡ some (record { record_ = r; pending = false })
  Change-complete id r (adds _ j e _ free sets) h = sets id ∙ ground (arith, eq_iff j id)
  Change-complete id r (unnamed _ _ _ same) h = same id ∙ h
  Change-complete id r (complete _ j old content signature new key _ waits _ _ _ sets) h =
      sets id ∙ ground (arith, eq_iff j id)
