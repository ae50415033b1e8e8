-- ===== src/Observations.antt =====
-- integrations/timesheets/app/observations.ts: the data model of the observation log.
pub mod Coverage
pub mod Json
pub mod Types
pub mod Diff
pub mod Fold
