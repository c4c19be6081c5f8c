-- ===== src/Effects.antt =====
-- What the operations of the client (crates/stack_core/src/providers/appstore/client.rs) do to the
-- service: the reading ones change nothing, and an update changes the attributes that are given.
pub mod ReadOnly
pub mod Merged
