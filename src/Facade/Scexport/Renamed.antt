-- ===== src/Facade/Scexport/Renamed.antt =====
-- What the names of the secrets come to in a file and back (crates/stack_core/src/frb_api.rs).
pub mod Entries
pub mod Names
pub mod RoundTrip
