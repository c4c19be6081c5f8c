-- ===== src/Apps.antt =====
-- The apps of an account (crates/stack_core/src/providers/appstore/client.rs) and their
-- synchronization into the store of the host (crates/stack_core/src/service/sync.rs).
pub mod Synced
use stack_connect_core.Prelude.{ℕ, String, ◌<>◌, Option, none, some, List, [], ◌∷◌, map}
use stack_connect_core.Error.{
  StackError, decode, Outcome, ok, err, panicked, unfinished, Parsed, parsed, malformed,
}
use stack_connect_core.Wire.{Host, Session, M, pure, decoded, ◌>>=◌}
use stack_connect_core.Transport.{AppStoreClient, get_page}
use stack_connect_core.Paging.{Links, next_page, follow, extend}

pub record AppAttributes : Type 0 where
  pub name : Option String
  pub bundle_id : Option String

pub record AppResource : Type 0 where
  pub id : String
  pub attributes : AppAttributes

pub record AppsResponse : Type 0 where
  pub apps : List AppResource
  pub links : Links

pub record AppInfo : Type 0 where
  pub id : String
  pub name : String
  pub bundle_id : String
  pub platform : Option String

-- `unwrap_or_default` of an optional text
abbrev or_default : Option String → String
or_default none = ""
or_default (some s) = s

unfoldable pub into_app_info : AppResource → AppInfo
into_app_info r = record {
  id = r.id;
  name = or_default r.attributes.name;
  bundle_id = or_default r.attributes.bundle_id;
  platform = none;
}

module _ {H : Host} (read : String → Parsed AppsResponse) (c : AppStoreClient) where
  unfoldable pub fetch_apps_at : String → M H (List AppInfo × Option String)
  unfolding into_app_info
  fetch_apps_at url = do
    body ← get_page c url
    page ← decoded "apps response: " (read body)
    pure (map into_app_info page.apps, next_page page.links)

  unfoldable pub fetch_apps : ℕ → M H (List AppInfo)
  fetch_apps fuel = follow (extend fetch_apps_at) fuel [] (some (c.base_url <> "/v1/apps"))

pub record AppBlob : Type 0 where
  pub id : String
  pub name : String
  pub bundle_id : String
  pub platform : Option String
  pub account_id : String

abbrev pub blob_type_app : String
blob_type_app = "app"

-- The host's `BlobStore`: what it holds, and its two operations that matter here.
pub record BlobStore : Type 1 where
  pub Blobs : Type 0
  pub save : String → String → String → Blobs → Blobs
  pub fetch : String → String → Blobs → Option String

abbrev pub blob_of : String → AppInfo → AppBlob
blob_of account_id app = record {
  id = app.id;
  name = app.name;
  bundle_id = app.bundle_id;
  platform = app.platform;
  account_id = account_id;
}

module _ (S : BlobStore) (to_json : AppBlob → Parsed String) (account_id : String) where
  -- The loop of `sync_apps`: what was saved before an error stays saved.
  unfoldable pub save_each : List AppInfo → S.Blobs → Outcome (Unit {0}) × S.Blobs
  save_each [] blobs = (ok tt, blobs)
  save_each (app ∷ apps) blobs = elim (to_json (blob_of account_id app)) [
    | malformed e ↦ (err (decode ("serialize app " <> app.id <> ": " <> e)), blobs)
    | parsed json ↦ save_each apps (S.save blob_type_app app.id json blobs)
  ]

  abbrev pub returning : {A B : Type 0} → A → Outcome (Unit {0}) × B → Outcome A × B
  returning a (ok u, b) = (ok a, b)
  returning a (err e, b) = (err e, b)
  returning a (panicked, b) = (panicked, b)
  returning a (unfinished, b) = (unfinished, b)

  -- From what the provider answered.
  abbrev pub save_fetched : Outcome (List AppInfo) → S.Blobs → Outcome (List AppInfo) × S.Blobs
  save_fetched (ok apps) blobs = returning apps (save_each apps blobs)
  save_fetched (err e) blobs = (err e, blobs)
  save_fetched panicked blobs = (panicked, blobs)
  save_fetched unfinished blobs = (unfinished, blobs)

  module _ {H : Host} (read : String → Parsed AppsResponse) (c : AppStoreClient) where
    unfoldable pub sync_apps :
        ℕ → Session H → S.Blobs → Outcome (List AppInfo) × Session H × S.Blobs
    unfolding save_each
    sync_apps fuel s blobs =
        let (fetched, s') = fetch_apps read c fuel s in
        let (result, blobs') = save_fetched fetched blobs in (result, s', blobs')
