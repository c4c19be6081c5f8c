-- ===== src/Screenshots/Documents.antt =====
-- The documents of screenshots and what they are mapped to
-- (crates/stack_core/src/providers/appstore/client.rs, crates/stack_core/src/domain.rs).
use stack_connect_core.Prelude.{ℕ, ℤ, String, Option, List}
use stack_connect_core.Error.{Parsed}

pub record UploadOperation : Type 0 where
  pub method : String
  pub url : String
  pub length : ℤ
  pub offset : ℤ
  pub request_headers : List (String × String)

-- The resource with its attribute `uploadOperations`.
pub record AppScreenshotReservation : Type 0 where
  pub id : String
  pub upload_operations : List UploadOperation

pub record ImageAsset : Type 0 where
  pub template_url : Option String
  pub width : Option ℤ
  pub height : Option ℤ

pub record AppScreenshotAttributes : Type 0 where
  pub file_name : Option String
  pub file_size : Option ℤ
  pub image_asset : Option ImageAsset

pub record AppScreenshotResource : Type 0 where
  pub id : String
  pub attributes : AppScreenshotAttributes

pub record ScreenshotInfo : Type 0 where
  pub id : String
  pub image_url : Option String
  pub file_name : Option String
  pub file_size : Option ℤ
  pub width : Option ℤ
  pub height : Option ℤ

-- The decoders of the two documents, `Method::from_bytes`, and the digest of `Md5`.
pub record Decoders : Type 0 where
  pub reservation : String → Parsed AppScreenshotReservation
  pub screenshot : String → Parsed AppScreenshotResource
  pub method : String → Parsed String
  pub md5 : List ℕ → List ℕ
