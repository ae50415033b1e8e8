-- ===== src/Devonian/Reflect.antt =====
-- devonian/src/reflect: records of one system are copied to another and kept in step.
pub mod Links
pub mod Client
pub mod Waiting
pub mod Copies
pub mod States
mod Tests
pub mod Marker
