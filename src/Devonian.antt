-- ===== src/Devonian.antt =====
-- devonian: identifiers on several platforms, the merge of two versions of a record, and the copies
-- of records on another system.
pub mod Index
pub mod Reconcile
pub mod Reflect
