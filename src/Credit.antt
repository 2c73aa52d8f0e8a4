-- ===== src/Credit.antt =====
-- The credit rules of packages/engine/src: collection and default (loan-collections.ts), loan
-- policy (credit-policy.ts), credit scores (credit-scoring.ts) and the circuit breakers of a bank
-- (bank-circuit-breakers.ts).
pub mod Collections
pub mod Policy
pub mod Circuit
pub mod Scoring
