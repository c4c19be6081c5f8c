-- ===== src/Signing.antt =====
-- What a team signs its apps with (crates/stack_core/src/providers/appstore/client.rs): devices,
-- bundle ids with their capabilities, certificates and provisioning profiles.
mod Documents
mod Credentials
pub mod Devices
pub mod Profiles
pub mod Resolved
pub mod Known
unfoldable pub use Documents.*
unfoldable pub use Credentials.*
use stack_connect_core.Prelude.{String}
use stack_connect_core.Error.{Parsed}

pub record Decoders : Type 0 where
  pub devices : String → Parsed DevicesResponse
  pub device : String → Parsed DeviceDocument
  pub bundle_ids : String → Parsed BundleIdsResponse
  pub bundle_id : String → Parsed BundleIdDocument
  pub capabilities : String → Parsed BundleIdCapabilitiesResponse
  pub capability : String → Parsed BundleIdCapabilityDocument
  pub certificates : String → Parsed CertificatesResponse
  pub certificate : String → Parsed CertificateDocument
  pub profiles : String → Parsed ProfilesResponse
  pub profile : String → Parsed ProfileDocument
