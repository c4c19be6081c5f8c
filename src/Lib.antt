-- ===== src/Lib.antt =====
-- Verification library of stack_core, the core of the App Store Connect client.
--
-- The program. `AppStoreClient` (crates/stack_core/src/providers/appstore/client.rs) is an HTTP
-- client for a JSON:API service. Each of its methods asks the authenticator
-- (crates/stack_core/src/auth/es256.rs) for a token, sends requests through `send_and_read`, maps a
-- response that is no success to a `StackError` (crates/stack_core/src/error.rs), and decodes the
-- body of a success; listings follow `links.next` from page to page. An account is connected by
-- crates/stack_core/src/service/registry.rs and synchronized by
-- crates/stack_core/src/service/sync.rs; crates/stack_core/src/crypto.rs reads and writes encrypted
-- account exports.
--
-- The files.
-- Prelude.antt: Booleans, lists, texts and tables; the `HashMap`s of the code are association lists
--   with the newest entry first, since they are only written by `insert` and read by `get`.
-- Error.antt: `StackError` with its `Display`, and how a call ends (`Outcome`).
-- Json.antt: the request bodies that `json!` builds.
-- Wire.antt: requests, the host (network, clock, signing library, JSON printer), the session of a
--   client (the world, the token cache, the requests sent and the lines logged so far) and actions
--   on it: what an action has changed stays changed when it fails. Wire/Emits is about what an
--   action sends, Wire/Outcomes about what it returns and that it ends, Wire/Inversion about chains.
-- Auth.antt: `sign_team_token`, `AppStoreAuthenticator::bearer_token` and, in Auth/Pem,
--   `normalize_p8_pem`. Auth/Validity is about the use of the cache, Auth/Genuine about
--   what the tokens say, Auth/Pem/Laws about the PEM text.
-- Transport.antt: `send_and_read`, the log, the error mapping, `get_page`, `post_json_2xx`,
--   `patch_no_content`, the DELETE of one resource, and `validate`. `delete_at`, `get_or_404`,
--   `patch_json_2xx`, `patch_unit`, `post_unit` and `delete_with` stand for text that several methods
--   of the client repeat. Transport/Requests and Transport/Once are about the requests they send,
--   Transport/Errors about their errors.
-- Paging.antt: the loop over pages, as `follow`; Paging/Loops is about what it sends, Paging/Tokens about a
--   host that loads page by page, Paging/Gathered about a loop that begins with some items,
--   Paging/Walks about the pages that a listing goes through, Paging/Kept about what each page
--   keeps. `read_page` and `fetch_all` are the loops that only map the items.
-- Reviews.antt: the customer reviews, with Reviews/Pages on the two ways to list them.
-- Submissions.antt: cancelling and discarding review submissions; submitting a version is in
--   Submissions/Submit, rejecting and releasing a version in Submissions/Withdraw, the listing in
--   Submissions/Listing. Submissions/Requests, Submissions/Discarding, Submissions/Cancelling,
--   Submissions/Submitting and Submissions/Submitted have theorems about them.
-- Builds.antt: builds and what their documents include, with the requests in Builds/Fetch;
--   Builds/Index is about `IncludedIndex`, Builds/Pages about the two ways to list builds,
--   Builds/Writes has the changes of a build.
-- Versions.antt: app store versions and phased releases.
-- TestFlight.antt: beta groups and testers (TestFlight/Groups), the localizations of a beta test and
--   its review contact (TestFlight/Localizations).
-- Listing.antt: the store listing; localizations and accessibility in Listing/Localizations, the app
--   information in Listing/Info with the request bodies in Listing/Bodies; Listing/Included is about
--   what is taken from `included`.
-- Users.antt: users and invitations; Users/Listed is about the two loops of `fetch_users`,
--   Users/Everyone about whom it lists.
-- Signing.antt: devices, bundle ids and capabilities (Signing/Devices), certificates and profiles
--   (Signing/Profiles); Signing/Resolved and Signing/Known are about the listings.
-- Analytics.antt: report requests and their listings; Analytics/Tsv is `parse_analytics_tsv`,
--   Analytics/Download is `download_analytics_segment`, each with modules for its theorems.
-- Effects.antt: theorems across the resources, on readings (Effects/ReadOnly) and on partial updates
--   (Effects/Merged).
-- Screenshots.antt: `upload_screenshot` and `send_upload`; Screenshots/Chunks is about the chunks;
--   Screenshots/Sets has the sets, Screenshots/Sets/Resolved is about their screenshots.
-- Apps.antt: `fetch_apps`, and `sync_apps` of crates/stack_core/src/service/sync.rs; Apps/Synced is
--   about what the host's store holds afterwards.
-- Connect.antt: the credential form and `build` of crates/stack_core/src/service/registry.rs;
--   Connect/Missing is about missing secrets.
-- Export.antt: `decrypt` and `encrypt` of crates/stack_core/src/crypto.rs, with Export/Bounds and
--   Export/RoundTrip.
-- Facade.antt: the core of crates/stack_core/src/frb_api.rs. Facade/Clock has `now_iso8601`, with
--   Facade/Clock/Calendar about the calendar; Facade/Scexport has `encrypt_scexport` and
--   `decrypt_scexport`, with Facade/Scexport/Renamed about the names of the secrets; Facade/Sync has
--   `connect` and `FrbSyncService::sync_apps`, with Facade/Sync/Persisted about what Dart gets.
-- Tests.antt: the theorems at concrete data.
--
-- Numbers and fuel. Lengths, statuses, limits and times are natural numbers; a Unix time in seconds
-- stays far below 2^63. Bytes are natural numbers. In the upload of a screenshot a `usize` has 64
-- bits, and the addition of two `i64` wraps around as in a release build. A loop over pages has
-- fuel, one unit a page, because the service decides how many pages there are: fuel for the pages
-- that the service gives is enough. The download of a segment has fuel in the same way, one unit a
-- chunk, and the cap plus one is enough where no chunk is empty. A run without enough fuel ends as
-- `unfinished`, which is neither a success nor an error.
--
-- Parameters. `serde_json`, `reqwest`, `jsonwebtoken`, AES-GCM, PBKDF2, HKDF, MD5, the clock and
-- the random bytes are fields of `Host`, of the `Decoders` records and of `Primitives`, or
-- arguments; a response that is read in chunks and the decompression are a `Streams`; the store of
-- the host is a `BlobStore`. What is used of them is in the hypotheses
-- `IsLawful` of Export/RoundTrip and of Apps/Synced.
--
-- Not modelled: the delegation from `Provider` and the capabilities to the client, and from the
-- handles of crates/stack_core/src/frb_api.rs to those, one line for each method and a flush of the
-- log; the bindings and the generated bridge code. Calls on one authenticator follow one another
-- here; the code guards its cache by a mutex.
pub mod Prelude
pub mod Error
pub mod Json
pub mod Wire
pub mod Auth
pub mod Transport
pub mod Paging
pub mod Reviews
pub mod Versions
pub mod Submissions
pub mod Builds
pub mod TestFlight
pub mod Listing
pub mod Screenshots
pub mod Users
pub mod Signing
pub mod Analytics
pub mod Apps
pub mod Connect
pub mod Effects
pub mod Export
pub mod Facade
pub mod Tests
