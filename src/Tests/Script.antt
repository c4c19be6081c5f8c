-- ===== src/Tests/Script.antt =====
-- A host whose service answers from a script, and documents for it.
use stack_connect_core.Prelude.{ℕ, String, true, none, some, List, [], ◌∷◌, ◌==◌, if◌then◌else◌}
use stack_connect_core.Error.{parsed, malformed}
use stack_connect_core.Wire.{Host, Session, Reply, unsent, CachedToken}
use stack_connect_core.Auth.{AppStoreAuthenticator}
use stack_connect_core.Transport.{AppStoreClient}
use stack_connect_core.Submissions.{
  Decoders, ReviewSubmissionResource, ReviewSubmissionsResponse, ReviewSubmissionItemsResponse,
}

-- The time, and what the service answers to the next requests.
pub record Script : Type 0 where
  pub time : ℕ
  pub replies : List Reply

abbrev pub next_reply : ℕ → List Reply → Reply × Script
next_reply n [] = (unsent "connection refused", record { time = n; replies = [] })
next_reply n (r ∷ rs) = (r, record { time = n; replies = rs })

abbrev pub scripted : Host
scripted = record {
  World = Script;
  Key = List ℕ;
  clock = λ w. (some w.time, w);
  exchange = λ req w. next_reply w.time w.replies;
  build = λ req. none;
  pretty = λ bytes. none;
  utf8_lossy = λ bytes. "";
  utf8 = λ s. [];
  status_text = λ n. "status";
  from_ec_pem = λ pem. parsed pem;
  encode = λ header claims key. parsed "signed";
}

abbrev pub sample_auth : AppStoreAuthenticator
sample_auth = record { issuer_id = "issuer"; key_id = "K1"; private_key_p8 = [] }

abbrev pub sample_client : AppStoreClient
sample_client = record { base_url = "https://asc"; auth = sample_auth; debug_logger = true }

abbrev pub token_of_2000 : CachedToken
token_of_2000 = record { token = "t"; expires_at = 2000 }

-- At time 1000, with a cached token that expires at time 2000.
abbrev pub ready : List Reply → Session scripted
ready replies = record {
  world = record { time = 1000; replies = replies };
  cache = some token_of_2000;
  sent = [];
  log = [];
}

abbrev pub in_state : String → String → ReviewSubmissionResource
in_state id state = record {
  id = id;
  attributes = record { platform = some "IOS"; submitted_date = none; state = some state };
  relationships = record {
    app_store_version_for_review = record { resource = none };
    submitted_by_actor = record { resource = none };
  };
}

abbrev pub listed : ReviewSubmissionsResponse
listed = record {
  submissions = in_state "r1" "IN_REVIEW" ∷ in_state "d1" "READY_FOR_REVIEW" ∷ [];
  included = [];
  links = record { next = none };
}

abbrev pub drafts_listed : ReviewSubmissionsResponse
drafts_listed = record {
  submissions = in_state "d1" "READY_FOR_REVIEW" ∷ [];
  included = [];
  links = record { next = none };
}

abbrev pub one_item : ReviewSubmissionItemsResponse
one_item = record { items = record { id = "i1" } ∷ []; links = record { next = none } }

abbrev pub no_items : ReviewSubmissionItemsResponse
no_items = record { items = []; links = record { next = none } }

-- Each document is known by its text.
abbrev pub by_text : Decoders
by_text = record {
  submissions = λ s.
      if s == "listed"
      then parsed listed
      else if s == "drafts"
      then parsed drafts_listed
      else malformed "expected value";
  submission = λ s. if s == "" then malformed "end of input" else parsed (in_state "d1" s);
  created = λ s. parsed (record { id = "n1" });
  items = λ s. if s == "item" then parsed one_item else parsed no_items;
  version_submission = λ s. parsed none;
}
