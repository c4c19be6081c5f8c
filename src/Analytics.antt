-- ===== src/Analytics.antt =====
-- Analytics reports (crates/stack_core/src/providers/appstore/client.rs): the requests for reports,
-- the four listings that lead to a segment, and the segment's download.
mod Documents
pub mod Tsv
pub mod Download
unfoldable pub use Documents.*
use stack_connect_core.Prelude.{ℕ, String, ◌<>◌, Option, none, some, List, map, to_string}
use stack_connect_core.Json.{Json, text, member, end, object, single, document, to_one}
use stack_connect_core.Wire.{Host, M, pure, decoded, ◌>>=◌}
use stack_connect_core.Transport.{AppStoreClient, get_page, post_json_2xx}
use stack_connect_core.Paging.{next_page}

abbrev create_report_request_document : String → String → Json
create_report_request_document app_id access_type = document (
    object (
      member "type" (text "analyticsReportRequests") (
        member "attributes" (single "accessType" (text access_type))
          (member "relationships" (single "app" (to_one "apps" app_id)) end))))

-- The URL of the first page, with the filter that was asked for.
abbrev pub filtered : String → String → Option String → String
filtered url key none = url
filtered url key (some value) = url <> key <> value

-- The page behind a token, or else the first one.
abbrev pub page_or : String → Option String → String
page_or first none = first
page_or first (some token) = token

module _ {H : Host} (D : Decoders) (c : AppStoreClient) where
  unfoldable pub create_analytics_report_request : String → String → M H AnalyticsReportRequest
  create_analytics_report_request app_id access_type = do
    body ←
        post_json_2xx c (c.base_url <> "/v1/analyticsReportRequests")
          (create_report_request_document app_id access_type)
    made ← decoded "analytics report request response: " (D.request body)
    pure (into_request_info made.resource)

  unfoldable pub fetch_analytics_report_requests_page :
      String → Option String → ℕ → Option String → M H AnalyticsReportRequestsPage
  fetch_analytics_report_requests_page app_id filter_access_type limit page_token = do
    body ← get_page c (
        page_or
          (filtered
            (c.base_url
              <> "/v1/apps/"
              <> app_id
              <> "/analyticsReportRequests?limit="
              <> to_string limit)
            "&filter[accessType]=" filter_access_type)
          page_token)
    page ← decoded "analytics report requests response: " (D.requests body)
    pure (record {
      requests = map into_request_info page.resources;
      next_token = next_page page.links;
    })

  unfoldable pub fetch_analytics_reports_page :
      String → Option String → ℕ → Option String → M H AnalyticsReportsPage
  fetch_analytics_reports_page request_id filter_category limit page_token = do
    body ← get_page c (
        page_or
          (filtered
            (c.base_url
              <> "/v1/analyticsReportRequests/"
              <> request_id
              <> "/reports?limit="
              <> to_string limit)
            "&filter[category]=" filter_category)
          page_token)
    page ← decoded "analytics reports response: " (D.reports body)
    pure (record {
      reports = map into_report_info page.resources;
      next_token = next_page page.links;
    })

  unfoldable pub fetch_analytics_report_instances_page :
      String → Option String → ℕ → Option String → M H AnalyticsReportInstancesPage
  fetch_analytics_report_instances_page report_id filter_granularity limit page_token = do
    body ← get_page c (
        page_or
          (filtered
            (c.base_url
              <> "/v1/analyticsReports/"
              <> report_id
              <> "/instances?limit="
              <> to_string limit)
            "&filter[granularity]=" filter_granularity)
          page_token)
    page ← decoded "analytics report instances response: " (D.instances body)
    pure (record {
      instances = map into_instance_info page.resources;
      next_token = next_page page.links;
    })

  unfoldable pub fetch_analytics_report_segments_page :
      String → ℕ → Option String → M H AnalyticsReportSegmentsPage
  fetch_analytics_report_segments_page instance_id limit page_token = do
    body ← get_page c (
        page_or
          (c.base_url
            <> "/v1/analyticsReportInstances/"
            <> instance_id
            <> "/segments?limit="
            <> to_string limit)
          page_token)
    page ← decoded "analytics report segments response: " (D.segments body)
    pure (record {
      segments = map into_segment_info page.resources;
      next_token = next_page page.links;
    })
