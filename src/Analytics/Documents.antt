-- ===== src/Analytics/Documents.antt =====
-- The documents of analytics reports and what they are mapped to
-- (crates/stack_core/src/providers/appstore/client.rs, crates/stack_core/src/domain.rs).
use stack_connect_core.Prelude.{ℤ, String, Bool, Option, List, or_empty, or_false}
use stack_connect_core.Error.{Parsed}
use stack_connect_core.Paging.{Links}

pub record AnalyticsReportRequestAttributes : Type 0 where
  pub access_type : Option String
  pub stopped_due_to_inactivity : Option Bool

pub record AnalyticsReportRequestResource : Type 0 where
  pub id : String
  pub attributes : AnalyticsReportRequestAttributes

pub record AnalyticsReportRequestsResponse : Type 0 where
  pub resources : List AnalyticsReportRequestResource
  pub links : Links

pub record AnalyticsReportRequestDocument : Type 0 where
  pub resource : AnalyticsReportRequestResource

pub record AnalyticsReportAttributes : Type 0 where
  pub name : Option String
  pub category : Option String

pub record AnalyticsReportResource : Type 0 where
  pub id : String
  pub attributes : AnalyticsReportAttributes

pub record AnalyticsReportsResponse : Type 0 where
  pub resources : List AnalyticsReportResource
  pub links : Links

pub record AnalyticsReportInstanceAttributes : Type 0 where
  pub granularity : Option String
  pub processing_date : Option String

pub record AnalyticsReportInstanceResource : Type 0 where
  pub id : String
  pub attributes : AnalyticsReportInstanceAttributes

pub record AnalyticsReportInstancesResponse : Type 0 where
  pub resources : List AnalyticsReportInstanceResource
  pub links : Links

pub record AnalyticsReportSegmentAttributes : Type 0 where
  pub url : Option String
  pub checksum : Option String
  pub size_in_bytes : Option ℤ

pub record AnalyticsReportSegmentResource : Type 0 where
  pub id : String
  pub attributes : AnalyticsReportSegmentAttributes

pub record AnalyticsReportSegmentsResponse : Type 0 where
  pub resources : List AnalyticsReportSegmentResource
  pub links : Links

pub record AnalyticsReportRequest : Type 0 where
  pub id : String
  pub access_type : String
  pub stopped_due_to_inactivity : Bool

pub record AnalyticsReport : Type 0 where
  pub id : String
  pub name : String
  pub category : String

pub record AnalyticsReportInstance : Type 0 where
  pub id : String
  pub granularity : String
  pub processing_date : Option String

pub record AnalyticsReportSegment : Type 0 where
  pub id : String
  pub url : String
  pub checksum : Option String
  pub size_in_bytes : Option ℤ

pub record AnalyticsReportRequestsPage : Type 0 where
  pub requests : List AnalyticsReportRequest
  pub next_token : Option String

pub record AnalyticsReportsPage : Type 0 where
  pub reports : List AnalyticsReport
  pub next_token : Option String

pub record AnalyticsReportInstancesPage : Type 0 where
  pub instances : List AnalyticsReportInstance
  pub next_token : Option String

pub record AnalyticsReportSegmentsPage : Type 0 where
  pub segments : List AnalyticsReportSegment
  pub next_token : Option String

unfoldable pub into_request_info : AnalyticsReportRequestResource → AnalyticsReportRequest
into_request_info r = record {
  id = r.id;
  access_type = or_empty r.attributes.access_type;
  stopped_due_to_inactivity = or_false r.attributes.stopped_due_to_inactivity;
}

unfoldable pub into_report_info : AnalyticsReportResource → AnalyticsReport
into_report_info r = record {
  id = r.id;
  name = or_empty r.attributes.name;
  category = or_empty r.attributes.category;
}

unfoldable pub into_instance_info : AnalyticsReportInstanceResource → AnalyticsReportInstance
into_instance_info r = record {
  id = r.id;
  granularity = or_empty r.attributes.granularity;
  processing_date = r.attributes.processing_date;
}

unfoldable pub into_segment_info : AnalyticsReportSegmentResource → AnalyticsReportSegment
into_segment_info r = record {
  id = r.id;
  url = or_empty r.attributes.url;
  checksum = r.attributes.checksum;
  size_in_bytes = r.attributes.size_in_bytes;
}

pub record Decoders : Type 0 where
  pub request : String → Parsed AnalyticsReportRequestDocument
  pub requests : String → Parsed AnalyticsReportRequestsResponse
  pub reports : String → Parsed AnalyticsReportsResponse
  pub instances : String → Parsed AnalyticsReportInstancesResponse
  pub segments : String → Parsed AnalyticsReportSegmentsResponse
