-- ===== src/Tests/OtherRuns.antt =====
-- Runs of the token cache, the page loops and the index of builds
-- (crates/stack_core/src/auth/es256.rs, crates/stack_core/src/providers/appstore/client.rs).
use stack_connect_core.Prelude.{
  ◌≤◌, pos, ◌≡◌, refl, arith, String, none, some, List, [], ◌∷◌, ◌==◌, if◌then◌else◌,
}
use stack_connect_core.Prelude.Table.{lookup, last_from}
use stack_connect_core.Error.{auth, ok, err, parsed, malformed}
use stack_connect_core.Wire.{Host, Session, answer, ◌>>=◌, raise, unix_now, cached}
use stack_connect_core.Auth.{bearer_token, needs_refresh, sign_team_token}
use stack_connect_core.Auth.Pem.{normalize_p8_pem}
use stack_connect_core.Auth.Genuine.{IsSigned, IsGenuine, IsLasting, bearer_token-IsGenuine}
use stack_connect_core.Wire.Outcomes.{OkHas}
use stack_connect_core.Auth.Validity.{now, Holds, bearer_token_reused, bearer_token_failed}
use stack_connect_core.Reviews.{
  Decoders, CustomerReviewResource, CustomerReviewsResponse, fetch_reviews_at, all_reviews_url,
  fetch_customer_reviews,
}
use stack_connect_core.Paging.Tokens.{load_all}
use stack_connect_core.Reviews.Pages.{view, page, load_reviews-eq-fetch}
use stack_connect_core.Builds.{
  BuildIncluded, pre_release_version, build_beta_detail, other, from_included,
}
use stack_connect_core.Builds.Index.{
  as_pre_release, as_beta_detail, as_review, as_group, as_localization, from_included-last,
}
use stack_connect_core.Tests.Script.{
  scripted, sample_auth, sample_client as client, ready, token_of_2000,
}

-- At time 1000 without a token.
abbrev starting : Session scripted
starting = record (ready []) { cache = none }

-- At time 1000 with a token that was signed at time 800.
abbrev underway : Session scripted
underway = record (ready []) { cache = some (record { token = "signed"; expires_at = 2000 }) }

underway-IsSigned : IsSigned scripted sample_auth "signed" 2000
unfolding normalize_p8_pem
underway-IsSigned = record {
  key = normalize_p8_pem [];
  claims = record { iss = "issuer"; iat = 800; exp = 2000; aud = "appstoreconnect-v1" };
  key_of = refl;
  token_of = refl;
  issuer = refl;
  audience = refl;
  ends = refl;
  life = refl;
}

bearer_token-IsGenuine_example :
    IsGenuine scripted sample_auth (bearer_token sample_auth underway).1.cache
    × OkHas (IsLasting scripted sample_auth (now underway)) (bearer_token sample_auth underway).0
bearer_token-IsGenuine_example =
    bearer_token-IsGenuine scripted sample_auth underway underway-IsSigned

ready-Holds : Holds (ready []) "t" 1500
ready-Holds = record { entry = token_of_2000; held = refl; same = refl; fresh = omega arith }

early : now (ready []) ≤ 1500
early = omega arith

bearer_token_reused_example :
    bearer_token sample_auth (ready [])
    ≡ (ok "t", record (ready []) { world = (scripted.clock (ready []).world).1 })
bearer_token_reused_example = bearer_token_reused sample_auth (ready []) "t" 1500 ready-Holds early

-- A host that cannot sign, with a token that has expired.
abbrev keyless : Host
keyless = record scripted { from_ec_pem = λ pem. malformed "no key" }

abbrev expired : Session keyless
expired = record {
  world = record { time = 9000; replies = [] };
  cache = some token_of_2000;
  sent = [];
  log = [];
}

unsigned : (bearer_token sample_auth expired).0 ≡ err (auth "invalid .p8 private key: no key")
unfolding bearer_token unix_now cached sign_team_token needs_refresh raise ◌>>=◌
unsigned = refl

bearer_token_failed_example : (bearer_token sample_auth expired).1.cache ≡ expired.cache
bearer_token_failed_example =
    bearer_token_failed sample_auth expired (auth "invalid .p8 private key: no key") unsigned

abbrev review : String → CustomerReviewResource
review id = record {
  id = id;
  attributes = record {
    rating = pos 5;
    title = none;
    body = none;
    reviewer_nickname = none;
    created_date = none;
    territory = none;
  };
  relationships = record { response = record { resource = none } };
}

abbrev first_page : CustomerReviewsResponse
first_page = record {
  reviews = review "a" ∷ [];
  included = [];
  links = record { next = some "next" };
}

abbrev last_page : CustomerReviewsResponse
last_page = record { reviews = review "b" ∷ []; included = []; links = record { next = some "" } }

abbrev by_text : Decoders
by_text = record {
  reviews = λ s. if s == "first" then parsed first_page else parsed last_page;
  response = λ s. malformed "expected value";
}

abbrev two_pages : Session scripted
two_pages = ready (answer 200 "first" ∷ answer 200 "last" ∷ [])

load_reviews-eq-fetch_example :
    load_all view
      (page by_text client "app")
      (fetch_reviews_at by_text client)
      (all_reviews_url client "app")
      2
      two_pages
    ≡ fetch_customer_reviews by_text client 3 "app" two_pages
load_reviews-eq-fetch_example = load_reviews-eq-fetch by_text client "app" 2 two_pages

-- Two entries of one type have the same id, and one of another type has it too.
abbrev included : List BuildIncluded
included =
    pre_release_version "x" (record { version = some "1.0"; platform = some "IOS" })
    ∷ other
    ∷ pre_release_version "x" (record { version = some "1.1"; platform = some "IOS" })
    ∷ build_beta_detail "x" (record {
      external_build_state = none;
      internal_build_state = none;
      auto_notify_enabled = none;
    })
    ∷ []

from_included-last_example :
    lookup "x" (from_included included).pre_release_versions
      ≡ last_from as_pre_release "x" none included
    × lookup "x" (from_included included).build_beta_details
      ≡ last_from as_beta_detail "x" none included
    × lookup "x" (from_included included).beta_app_review_submissions
      ≡ last_from as_review "x" none included
    × lookup "x" (from_included included).beta_groups ≡ last_from as_group "x" none included
    × lookup "x" (from_included included).beta_build_localizations
      ≡ last_from as_localization "x" none included
from_included-last_example = from_included-last "x" included
