-- ===== src/Audit.antt =====
-- reference/py/src/atf/audit.py: the audit log of one agent.
pub mod Event
pub mod Log
pub mod Ledger
