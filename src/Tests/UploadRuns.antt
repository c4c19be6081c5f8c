-- ===== src/Tests/UploadRuns.antt =====
-- Runs of the upload of a screenshot
-- (crates/stack_core/src/providers/appstore/client.rs) against a scripted service.
use stack_connect_core.Prelude.{
  ℕ, ◌<◌, ◌^◌, ◌≡◌, ◌≢◌, refl, arith, ℤ, pos, negsuc, none, List, [], ◌∷◌, length, All,
}
use stack_connect_core.Error.{ok, panicked, parsed}
use stack_connect_core.Wire.{Session, answer, ◌>>=◌, exchange, pure, panic, log_line}
use stack_connect_core.Screenshots.{
  Decoders, UploadOperation, as_usize, start_of, end_of, send_upload, upload_each,
}
use stack_connect_core.Screenshots.Chunks.{
  Tiles, IsWithin, Uploaded, upload_each-Uploaded, upload_each-Safe,
}
use stack_connect_core.Tests.Script.{scripted, sample_client as client, ready}

abbrev any_method : Decoders
any_method = record {
  reservation = λ s. parsed (record { id = "s1"; upload_operations = [] });
  screenshot = λ s. parsed (record {
    id = "s1";
    attributes = record { file_name = none; file_size = none; image_asset = none };
  });
  method = λ m. parsed m;
  md5 = λ image. image;
}

abbrev operation : ℤ → ℤ → UploadOperation
operation offset size = record {
  method = "PUT";
  url = "https://cdn";
  length = size;
  offset = offset;
  request_headers = ("Content-Type", "image/png") ∷ [];
}

abbrev picture : List ℕ
picture = 1 ∷ 2 ∷ 3 ∷ 4 ∷ 5 ∷ []

abbrev two_chunks : List UploadOperation
two_chunks = operation (pos 0) (pos 3) ∷ operation (pos 3) (pos 2) ∷ []

abbrev accepting : Session scripted
accepting = ready (answer 200 "" ∷ answer 200 "" ∷ [])

picture_fits : length picture < 2 ^ 64
picture_fits = omega arith

two_chunks-Tiles : Tiles 0 two_chunks (length picture)
two_chunks-Tiles = (3, refl, refl, (2, refl, refl, refl))

both_taken : (upload_each any_method client two_chunks picture accepting).0 ≡ ok tt
unfolding upload_each start_of end_of as_usize send_upload exchange pure log_line ◌>>=◌
both_taken = refl

upload_each-Uploaded_example :
    Uploaded picture 0 accepting (upload_each any_method client two_chunks picture accepting).1
upload_each-Uploaded_example =
    upload_each-Uploaded any_method client picture two_chunks accepting picture_fits
      two_chunks-Tiles both_taken

two_chunks-IsWithin : All (IsWithin picture) two_chunks
two_chunks-IsWithin = ((_, _, refl, refl, omega arith), ((_, _, refl, refl, omega arith), tt))

upload_each-Safe_example :
    (upload_each any_method client two_chunks picture (ready [])).0 ≢ panicked
upload_each-Safe_example =
    upload_each-Safe any_method client picture two_chunks (ready []) (omega arith)
      two_chunks-IsWithin

-- An operation that ends behind the image, and one with a negative offset, make the upload panic.
too_long :
    (upload_each any_method client (operation (pos 3) (pos 3) ∷ []) picture accepting).0 ≡ panicked
unfolding upload_each start_of end_of as_usize send_upload panic ◌>>=◌
too_long = refl

negative_offset :
    (upload_each any_method client (operation (negsuc 0) (pos 3) ∷ []) picture accepting).0
    ≡ panicked
unfolding upload_each start_of end_of as_usize send_upload panic ◌>>=◌
negative_offset = refl
