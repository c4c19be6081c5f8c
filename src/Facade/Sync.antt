-- ===== src/Facade/Sync.antt =====
-- Connecting and synchronizing for the Dart host (crates/stack_core/src/frb_api.rs): the ports that
-- buffer what the core writes, and the calls that hand it to the host's callbacks.
pub mod Persisted
use stack_connect_core.Prelude.{
  ℕ, String, Bool, Option, none, some, List, [], ◌∷◌, ◌++◌, ◌==◌, if◌then◌else◌,
}
use stack_connect_core.Prelude.Table.{Table, insert, lookup, add_each}
use stack_connect_core.Error.{Outcome, ok, err, panicked, unfinished, Parsed}
use stack_connect_core.Wire.{Host, Session}
use stack_connect_core.Transport.{AppStoreClient}
use stack_connect_core.Connect.{ServiceKind, build}
use stack_connect_core.Apps.{AppInfo, AppBlob, AppsResponse, BlobStore, sync_apps}

pub record FrbCredential : Type 0 where
  pub key : String
  pub value : String

pub record MapCredentialStore : Type 0 where
  pub account_id : String
  pub secrets : Table String

abbrev collected : Table String → FrbCredential → Table String
collected m c = insert c.key c.value m

unfoldable pub new_credential_store : String → List FrbCredential → MapCredentialStore
unfolding add_each
new_credential_store account_id credentials = record {
  account_id = account_id;
  secrets = add_each collected [] credentials;
}

unfoldable pub stored_secret : MapCredentialStore → String → String → Option String
unfolding lookup
stored_secret m account_id key = if account_id == m.account_id then lookup key m.secrets else none

-- The provider is its client, and the log buffer is there if its logger is.
unfoldable pub connect : ServiceKind → String → List FrbCredential → Bool → Outcome AppStoreClient
unfolding new_credential_store stored_secret build
connect kind account_id credentials debug_logging =
    build (stored_secret (new_credential_store account_id credentials)) kind account_id
      debug_logging

-- `BufferingBlobStore`: the saves in the order in which they came.
abbrev pub Saves : Type 0
Saves = List (String × String × String)

abbrev pub buffering_blob_store : BlobStore
buffering_blob_store = record {
  Blobs = Saves;
  save = λ type_name id json saved. saved ++ ((type_name, id, json) ∷ []);
  fetch = λ type_name id saved. none;
}

-- `LogBuffer::flush`: the lines that are pending, which are the session's `log`, go to the sink.
unfoldable pub flush : {H : Host} → Session H × List String → Session H × List String
flush (s, sunk) = (record s { log = [] }, sunk ++ s.log)

unfoldable pub flush_logs : {H : Host} → Bool → Session H × List String → Session H × List String
unfolding flush
flush_logs log_buffer x = if log_buffer then flush x else x

-- `persist` is the Dart callback that saves a blob, and what it changes.
module _ {B : Type 0} (persist : String → String → String → B → B) where
  unfoldable pub persist_each : Saves → B → B
  persist_each [] b = b
  persist_each ((type_name, id, json) ∷ saves) b = persist_each saves (persist type_name id json b)

  -- From the core's result: a panic ends the call at once.
  unfoldable pub finished :
      {H : Host}
      → Bool
      → List String
      → B
      → Outcome (List AppInfo)
      → Session H
      → Saves
      → Outcome (List AppInfo) × (Session H × List String) × B
  unfolding flush_logs persist_each
  finished log_buffer sunk b (ok apps) s saves =
      (ok apps, flush_logs log_buffer (s, sunk), persist_each saves b)
  finished log_buffer sunk b (err e) s saves = (err e, flush_logs log_buffer (s, sunk), b)
  finished log_buffer sunk b panicked s saves = (panicked, (s, sunk), b)
  finished log_buffer sunk b unfinished s saves = (unfinished, (s, sunk), b)

  module _ {H : Host} (to_json : AppBlob → Parsed String)
      (read : String → Parsed AppsResponse) where
    -- `sync_apps` of the handle: the core's synchronization into the buffer, the flush of the log,
    -- and the saves in their order. The last components are the lines that the Dart logger has got
    -- and what the callback has changed.
    unfoldable pub sync_and_persist :
        AppStoreClient
        → String
        → ℕ
        → Session H
        → List String
        → B
        → Outcome (List AppInfo) × (Session H × List String) × B
    unfolding sync_apps finished
    sync_and_persist c account_id fuel s sunk b =
        let (result, s', saves) =
          sync_apps buffering_blob_store to_json account_id read c fuel s [] in
        finished c.debug_logger sunk b result s' saves
