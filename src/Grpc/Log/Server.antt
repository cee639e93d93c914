-- ===== src/Grpc/Log/Server.antt =====
-- The handlers of `LogServiceGrpc`, over any implementation of the service.
use text.Mathlib.Text.{◌==◌ as text_eq}
use reinhardt_cloud.Base.{
  ℕ, String, Bool, true, false, not, ◌||◌, Option, none, some, List, [], ◌∷◌, map, if◌then◌else◌,
}
use reinhardt_cloud.Base.Result.{Result, ok, err, map_err, map_ok, ◌>>=◌, ◌>>◌}
use reinhardt_cloud.Types.Log.{LogEntry, LogFilter}
use reinhardt_cloud.Core.ApiError.{ApiError}
use reinhardt_cloud.Core.Pagination.{PaginationParams, PaginatedResponse}
use reinhardt_cloud.Grpc.Wire.{Wire, Status, StatusResponse, permission_denied, api_error_to_status}
use reinhardt_cloud.Grpc.Log.Codec.{
  PbLogEntry, PbLogFilter, JsonText, proto_filter_to_domain, domain_entry_to_proto,
  entries_to_domain,
}

-- The trait `LogService` (crates/reinhardt-cloud-core/src/traits/log.rs), over the state `S` of an
-- implementation.
pub record LogService (Json S : Type 0) : Type 0 where
  pub push_logs : S → List (LogEntry Json) → S × Result (Unit {0}) ApiError
  -- what the stream yields
  pub tail_logs : S → LogFilter → Result (List (Result (LogEntry Json) ApiError)) ApiError
  pub list_logs :
      S → LogFilter → PaginationParams → Result (PaginatedResponse (LogEntry Json)) ApiError

pub record PaginationRequest : Type 0 where
  pub page : ℕ
  pub page_size : ℕ

pub record PaginationResponse : Type 0 where
  pub total : ℕ
  pub page : ℕ
  pub page_size : ℕ
  pub total_pages : ℕ

pub record ListLogsResponse : Type 0 where
  pub entries : List PbLogEntry
  pub pagination : Option PaginationResponse

-- `as_deref().is_some_and(|text| !text.is_empty())`
abbrev pub is_given : Option String → Bool
is_given none = false
is_given (some text) = not (text_eq text "")

unfoldable pub ensure_scoped_read_filter : LogFilter → Result (Unit {0}) Status
ensure_scoped_read_filter filter =
    if is_given filter.source || is_given filter.deployment_id
    then ok tt
    else err (permission_denied "log reads require source or deployment_id scope")

-- `req.pagination.map(..).unwrap_or_default()`
abbrev pub params_of : Option PaginationRequest → PaginationParams
params_of none = record { page = none; page_size = none }
params_of (some p) = record { page = some p.page; page_size = some p.page_size }

module _ (w : Wire) {Json : Type 0} (json : JsonText Json) {S : Type 0}
    (service : LogService Json S) where
  -- The loop of `push_logs` over what the client streams: batches, or an error of the transport.
  -- Each batch is pushed before the next one is read.
  unfoldable pub serve_push_logs :
      S → List (Result (List PbLogEntry) String) → S × Result StatusResponse Status
  unfolding api_error_to_status
  serve_push_logs s [] =
      (s, ok (record { success = true; message = "Received {total} log entries" }))
  serve_push_logs s (err e ∷ rest) = (s, err (Status.status_internal e))
  serve_push_logs s (ok batch ∷ rest) = elim (entries_to_domain w json batch) [
    | err e ↦ (s, err e)
    | ok entries ↦
        let (s', r) = service.push_logs s entries in
        let others = serve_push_logs s' rest in
        elim r [ err e ↦ (s', err (api_error_to_status e)) | ok u ↦ others ]
  ]

  unfoldable pub serve_tail_logs :
      S → Option PbLogFilter → Result (List (Result PbLogEntry Status)) Status
  unfolding proto_filter_to_domain ensure_scoped_read_filter api_error_to_status
  serve_tail_logs s pb_filter = do
    filter ← proto_filter_to_domain w pb_filter
    ensure_scoped_read_filter filter
    stream ← map_err api_error_to_status (service.tail_logs s filter)
    ok (map (λ r. map_ok (domain_entry_to_proto w json) (map_err api_error_to_status r)) stream)

  unfoldable pub list_response : PaginatedResponse (LogEntry Json) → ListLogsResponse
  list_response result = record {
    entries = map (domain_entry_to_proto w json) result.items;
    pagination = some (record {
      total = result.total;
      page = result.page;
      page_size = result.page_size;
      total_pages = result.total_pages;
    });
  }

  unfoldable pub serve_list_logs :
      S → Option PbLogFilter → Option PaginationRequest → Result ListLogsResponse Status
  unfolding proto_filter_to_domain ensure_scoped_read_filter api_error_to_status list_response
  serve_list_logs s pb_filter pagination = do
    filter ← proto_filter_to_domain w pb_filter
    ensure_scoped_read_filter filter
    result ← map_err api_error_to_status (service.list_logs s filter (params_of pagination))
    ok (list_response result)
