-- ===== src/TestFlight.antt =====
-- TestFlight (crates/stack_core/src/providers/appstore/client.rs): beta groups, their testers, and
-- what a beta test says of a build and of an app.
mod Documents
pub mod Groups
pub mod Localizations
unfoldable pub use Documents.*
