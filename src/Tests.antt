-- ===== src/Tests.antt =====
-- Runs of the model on concrete inputs.
mod Data
mod Decisions
mod Rules
mod Ledgers
mod Amounts
mod Control
mod Records
mod Access
mod Publications
mod Gate
mod Payments
mod Retries
