-- ===== src/Willow.antt =====
-- integrations/willow-drop: decoding and verifying a Willow drop, and the rows made of its entries.
pub mod Reader
pub mod Encoding
pub mod William3
pub mod Drop
pub mod Text
pub mod Mapping
pub mod Upload
pub mod Rows
pub mod Import
