-- ===== src/Money.antt =====
-- integrations/money: bank statements, their identities, and the checks before an import.
pub mod Amounts
pub mod Types
pub mod Identity
pub mod Check
pub mod Ledger
pub mod Statements
pub mod Days
