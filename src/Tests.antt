-- ===== src/Tests.antt =====
-- The theorems at concrete data.
mod Vault
pub mod Script
mod SubmissionRuns
mod OtherRuns
mod UploadRuns
pub mod AccountRuns
mod AnalyticsRuns
pub mod UserRuns
pub mod ListingRuns
mod EffectRuns
mod FacadeRuns
