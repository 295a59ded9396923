-- ===== src/Tests.antt =====
-- A small runtime and concrete inputs, on which the theorems apply.
mod Toy
mod SigningCases
mod OutcomeCases
mod AuditCases
mod LedgerCases
mod AgentCases
mod NumberedCases
mod WireCases
mod LoopCases
mod CompletesCases
mod CliCases
mod FetchCases
mod DelegationCases
