-- ===== src/Submissions/Documents.antt =====
-- The JSON:API documents of review submissions that the client reads, with the fields that the
-- operations modelled here use
-- (crates/stack_core/src/providers/appstore/client.rs). The member `data` of a document is named
-- for what it holds.
use stack_connect_core.Prelude.{String, Option, List}
use stack_connect_core.Error.{Parsed}
use stack_connect_core.Paging.{Links, ToOneRelationship}

pub record ReviewSubmissionAttributes : Type 0 where
  pub platform : Option String
  pub submitted_date : Option String
  pub state : Option String

pub record ReviewSubmissionRelationships : Type 0 where
  pub app_store_version_for_review : ToOneRelationship
  pub submitted_by_actor : ToOneRelationship

pub record ReviewSubmissionResource : Type 0 where
  pub id : String
  pub attributes : ReviewSubmissionAttributes
  pub relationships : ReviewSubmissionRelationships

pub record AppStoreVersionAttributes : Type 0 where
  pub version_string : Option String

pub record ActorAttributes : Type 0 where
  pub user_first_name : Option String
  pub user_last_name : Option String
  pub user_email : Option String
  pub api_key_id : Option String
  pub actor_type : Option String

pub data IncludedResource : Type 0 where
  app_store_versions : String → AppStoreVersionAttributes → IncludedResource
  actors : String → ActorAttributes → IncludedResource
  other : IncludedResource

pub record ReviewSubmissionsResponse : Type 0 where
  pub submissions : List ReviewSubmissionResource
  pub included : List IncludedResource
  pub links : Links

pub record ReviewSubmissionItemResource : Type 0 where
  pub id : String

pub record ReviewSubmissionItemsResponse : Type 0 where
  pub items : List ReviewSubmissionItemResource
  pub links : Links

pub record IdResource : Type 0 where
  pub id : String

-- `serde_json::from_str` at each document; a single-resource document is given as its resource.
pub record Decoders : Type 0 where
  pub submissions : String → Parsed ReviewSubmissionsResponse
  pub submission : String → Parsed ReviewSubmissionResource
  pub created : String → Parsed IdResource
  pub items : String → Parsed ReviewSubmissionItemsResponse
  pub version_submission : String → Parsed (Option IdResource)
