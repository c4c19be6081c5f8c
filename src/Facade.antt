-- ===== src/Facade.antt =====
-- The facade of the Dart binding (crates/stack_core/src/frb_api.rs): the export and the import of an
-- account, and the synchronization that hands its blobs to a Dart callback.
pub mod Clock
pub mod Scexport
pub mod Sync
