-- ===== src/Tests/AccountRuns.antt =====
-- Runs of connecting, validating and synchronizing an account, and of the listing of submissions
-- (crates/stack_core/src/service/registry.rs, crates/stack_core/src/service/sync.rs,
-- crates/stack_core/src/providers/appstore/client.rs).
use stack_connect_core.Prelude.{
  ◌<>◌, ◌≡◌, ◌≢◌, refl, false, ◌&&◌, String, Option, none, some, List, [], ◌∷◌, map, and_then, ◌==◌,
  codes, if◌then◌else◌,
}
use stack_connect_core.Prelude.Table.{last_from}
use stack_connect_core.Error.{invalid_credentials, ok, err, Parsed, parsed, malformed}
use stack_connect_core.Wire.{
  Session, answer, ◌>>=◌, unix_now, cached, exchange, decoded, pure, log_line,
}
use stack_connect_core.Auth.{bearer_token, needs_refresh}
use stack_connect_core.Auth.Pem.{normalize_p8_pem}
use stack_connect_core.Auth.Pem.Laws.{normalize_p8_pem_twice}
use stack_connect_core.Paging.{follow}
use stack_connect_core.Transport.{AppStoreClient, get_page, validate, send_and_read}
use stack_connect_core.Transport.Errors.{as_validation, validate-eq-get_page}
use stack_connect_core.Submissions.{
  ReviewSubmissionResource, IncludedResource, app_store_versions, actors,
}
use stack_connect_core.Submissions.Listing.{
  into_review_submission, index_submissions, as_version, as_actor, display_name,
  into_review_submission-last,
}
use stack_connect_core.Paging.Tokens.{load_all}
use stack_connect_core.Builds.{BuildsResponse}
use stack_connect_core.Builds
use stack_connect_core.Builds.Fetch.{fetch_builds, fetch_builds_at, builds_url}
use stack_connect_core.Builds.Pages.{view, page, load_builds-eq-fetch}
use stack_connect_core.Apps.{
  AppInfo, AppBlob, AppsResponse, BlobStore, blob_type_app, fetch_apps, fetch_apps_at, save_each,
  sync_apps, into_app_info,
}
use stack_connect_core.Apps.Synced.{IsLawful, saved_as, sync_apps-last}
use stack_connect_core.Connect.{CredentialField, app_store_connect, credential_schema, build}
use stack_connect_core.Connect.Missing.{first_missing, build-first_missing}
use stack_connect_core.Tests.Script.{scripted, sample_client as client, ready}

normalize_p8_pem_twice_example :
    normalize_p8_pem (normalize_p8_pem (codes "MIGT AgEA")) ≡ normalize_p8_pem (codes "MIGT AgEA")
normalize_p8_pem_twice_example = normalize_p8_pem_twice (codes "MIGT AgEA")

abbrev rejected : Session scripted
rejected = ready (answer 401 "NOT_AUTHORIZED" ∷ [])

validate-eq-get_page_example :
    let page = get_page client (client.base_url <> "/v1/apps?limit=1") rejected in
    validate client rejected ≡ (as_validation page.0, page.1)
validate-eq-get_page_example = validate-eq-get_page client rejected

-- A credential store without the key id.
abbrev partial : String → String → Option String
partial account key = if key == "keyId" then none else some "secret"

build-first_missing_example :
    let missing =
      first_missing
        (partial "a1")
        (map (λ (f : CredentialField). f.key) (credential_schema app_store_connect)) in
    ((key : String)
      → missing ≡ some key
      → build partial app_store_connect "a1" false
        ≡ err (invalid_credentials ("missing credential: " <> key)))
    × (missing ≡ none
        → (made : AppStoreClient) × (build partial app_store_connect "a1" false ≡ ok made))
build-first_missing_example = build-first_missing partial app_store_connect "a1" false

-- A store that keeps its blobs in a list, the newest first.
abbrev find : String → String → List (String × String × String) → Option String
find t i [] = none
find t i ((type_name, id, json) ∷ blobs) =
    if (type_name == t) && (id == i) then some json else find t i blobs

abbrev pub listing : BlobStore
listing = record {
  Blobs = List (String × String × String);
  save = λ type_name id json blobs. (type_name, id, json) ∷ blobs;
  fetch = find;
}

listing-IsLawful : IsLawful listing
listing-IsLawful = record { fetch_save = λ type_name id json t i b. refl }

abbrev apps_page : AppsResponse
apps_page = record {
  apps =
      record { id = "1"; attributes = record { name = some "One"; bundle_id = some "com.one" } }
      ∷ record { id = "2"; attributes = record { name = none; bundle_id = none } }
      ∷ [];
  links = record { next = none };
}

abbrev pub read_apps : String → Parsed AppsResponse
read_apps s = if s == "apps" then parsed apps_page else malformed "expected value"

abbrev pub blob_text : AppBlob → Parsed String
blob_text blob = parsed (blob.name <> "@" <> blob.account_id)

abbrev pub online : Session scripted
online = ready (answer 200 "apps" ∷ [])

abbrev two_apps : List AppInfo
two_apps =
    record { id = "1"; name = "One"; bundle_id = "com.one"; platform = none }
    ∷ record { id = "2"; name = ""; bundle_id = ""; platform = none }
    ∷ []

synced : (sync_apps listing blob_text "a1" read_apps client 1 online []).0 ≡ ok two_apps
unfolding sync_apps save_each fetch_apps fetch_apps_at into_app_info follow get_page send_and_read
    bearer_token exchange decoded cached unix_now needs_refresh ◌>>=◌ log_line pure
synced = refl

sync_apps-last_example :
    let b' = (sync_apps listing blob_text "a1" read_apps client 1 online []).2 in
    ((fetch_apps read_apps client 1 online).0 ≡ ok two_apps)
    × ((id : String)
        → find blob_type_app id b'
          ≡ last_from (saved_as blob_text "a1") id (find blob_type_app id []) two_apps)
    × ((type_name id : String)
        → type_name ≢ blob_type_app
        → find type_name id b' ≡ find type_name id [])
sync_apps-last_example =
    sync_apps-last listing listing-IsLawful blob_text "a1" read_apps client 1 online [] two_apps
      synced

-- A version and an actor with the same id.
abbrev same_ids : List IncludedResource
same_ids =
    app_store_versions "x" (record { version_string = some "1.0" })
    ∷ actors "x" (record {
      user_first_name = some "Ada";
      user_last_name = some "L";
      user_email = some "ada@example.org";
      api_key_id = none;
      actor_type = none;
    })
    ∷ []

abbrev submission : ReviewSubmissionResource
submission = record {
  id = "r1";
  attributes = record { platform = none; submitted_date = none; state = some "IN_REVIEW" };
  relationships = record {
    app_store_version_for_review = record { resource = some (record { id = "x" }) };
    submitted_by_actor = record { resource = some (record { id = "x" }) };
  };
}

into_review_submission-last_example :
    let listed = into_review_submission "app" (index_submissions same_ids) submission in
    let submitter = last_from as_actor "x" none same_ids in
    (listed.version_string ≡ and_then (last_from as_version "x" none same_ids) (λ v. v))
    × (listed.submitted_by_name ≡ and_then submitter display_name)
    × (listed.submitted_by_email ≡ and_then submitter (λ a. a.user_email))
into_review_submission-last_example =
    into_review_submission-last "app" same_ids submission "x" "x" refl refl

abbrev empty_page : BuildsResponse
empty_page = record { builds = []; included = []; links = record { next = none } }

abbrev read_builds : Builds.Decoders
read_builds = record {
  builds = λ s. if s == "apps" then parsed empty_page else malformed "expected value";
  build = λ s. malformed "expected value";
}

load_builds-eq-fetch_example :
    load_all view
      (page read_builds client "app" 20)
      (fetch_builds_at read_builds client "app")
      (builds_url client "app" 20)
      0
      online
    ≡ fetch_builds read_builds client 1 "app" 20 online
load_builds-eq-fetch_example = load_builds-eq-fetch read_builds client "app" 20 0 online
