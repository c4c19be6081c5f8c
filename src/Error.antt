-- ===== src/Error.antt =====
-- `StackError` (crates/stack_core/src/error.rs), and how a call of the core ends.
use stack_connect_core.Prelude.{ℕ, String, ◌<>◌, to_string}

pub data StackError : Type 0 where
  invalid_credentials : String → StackError
  auth : String → StackError
  pending_agreements : String → StackError
  http : ℕ → String → StackError
  decode : String → StackError
  network : String → StackError
  unsupported : String → StackError
  submission_not_removable : String → StackError

-- The `Display` that `thiserror` derives.
unfoldable pub display : StackError → String
unfolding to_string
display (invalid_credentials m) = "invalid credentials: " <> m
display (auth m) = "authentication failed: " <> m
display (pending_agreements m) = "pending agreements: " <> m
display (http status m) = "HTTP " <> to_string status <> ": " <> m
display (decode m) = "failed to decode response: " <> m
display (network m) = "network error: " <> m
display (unsupported m) = "unsupported capability: " <> m
display (submission_not_removable m) = "submission not removable: " <> m

-- `Ok`, `Err`, a panic (a slice or an index out of range), or a loop that has used up its fuel.
pub data Outcome {ℓ} (A : Type ℓ) : Type ℓ where
  ok : A → Outcome A
  err : StackError → Outcome A
  panicked : Outcome A
  unfinished : Outcome A

-- What a library function that returns a `Result` answers: its value, or the text of its error.
pub data Parsed {ℓ} (A : Type ℓ) : Type ℓ where
  parsed : A → Parsed A
  malformed : String → Parsed A
