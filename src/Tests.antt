-- ===== src/Tests.antt =====
-- Runs of the program on concrete inputs, and the theorems applied at them.
mod LedgerRuns
mod MoneyRuns
mod CreditRuns
mod RiskRuns
mod EconomyRuns
mod EnergyRuns
mod EngineRuns
mod RuleRuns
