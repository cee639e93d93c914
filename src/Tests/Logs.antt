-- ===== src/Tests/Logs.antt =====
-- A buffer of two entries, and what agents push to it.
use reinhardt_cloud.Base.{
  string_eq, ◌==◌, if◌then◌else◌, ℕ, String, true, none, some, List, [], ◌∷◌, ◌++◌, map, length,
  filter, ◌≡◌, ◌≤◌, refl, arith,
}
use reinhardt_cloud.Base.Int
use reinhardt_cloud.Base.Result.{ok, err}
use reinhardt_cloud.Types.Log
use reinhardt_cloud.Types.Log.{LogEntry, LogFilter, rank, default_filter}
use reinhardt_cloud.Core.Pagination.{PaginationParams, max_u64}
use reinhardt_cloud.Core.Log.Defs.{
  LogBuffer, entry, empty_buffer, matches_filter, query, tail_logs, list_logs,
}
use reinhardt_cloud.Core.Log.Ring.{newest, joined, push_all, query-push_all}
use reinhardt_cloud.Core.Log.Pages.{first_pages, list_logs_complete}
use reinhardt_cloud.Grpc.Wire.{Status, invalid_argument, status_internal}
use reinhardt_cloud.Grpc.Log.Codec.{
  PbLogEntry, PbLogFilter, JsonText, entries_to_domain, proto_entry_to_domain,
  proto_timestamp_to_chrono, proto_filter_to_domain, optional_timestamp,
}
use reinhardt_cloud.Grpc.Log.Server.{
  ListLogsResponse, list_response, serve_push_logs, serve_list_logs, ensure_scoped_read_filter,
}
use reinhardt_cloud.Grpc.Log.Pushed.{local_service, sent, read, serve_push_logs-sent}
use reinhardt_cloud.Grpc.Log.Scoped.{IsScoped, serve_list_logs-IsScoped}
use reinhardt_cloud.Tests.Wire.{wire, wire-IsLawful}

abbrev line : ℕ → String → LogEntry String
line t message = record {
  timestamp = t;
  level = Log.warn;
  source = "web";
  message = message;
  metadata = none;
}

abbrev batches : List (List (LogEntry String))
batches =
    (line 1 "start" ∷ line 2 "ready" ∷ [])
    ∷ (record (line 3 "request") { metadata = some "nan" } ∷ [])
    ∷ []

abbrev from_web : LogFilter
from_web = record default_filter { source = some "web"; min_level = some Log.info }

query-push_all_example :
    (query (push_all (empty_buffer 2) batches) from_web
      ≡ filter (λ e. matches_filter e from_web) (newest 2 (joined batches)))
    × (tail_logs from_web (map entry (push_all (empty_buffer 2) batches).broadcast)
        ≡ filter (λ e. matches_filter e from_web) (joined batches))
query-push_all_example = query-push_all 2 batches from_web

abbrev buffer : LogBuffer String
buffer = record { entries = joined batches; capacity = 2; broadcast = joined batches }

abbrev two_by_two : PaginationParams
two_by_two = record { page = some 1; page_size = some 2 }

three : length (query buffer default_filter) ≤ max_u64
unfolding query matches_filter
three = ground arith

list_logs_complete_example :
    first_pages buffer default_filter
      (some 2)
      (list_logs buffer default_filter two_by_two).total_pages
    ≡ query buffer default_filter
list_logs_complete_example = list_logs_complete buffer default_filter two_by_two three

abbrev json : JsonText String
json = record { show_json = λ s. s; parse_json = λ s. if s == "nan" then none else some s }

abbrev untimed : PbLogEntry
untimed = record {
  timestamp = none;
  level = Int.pos 2;
  source = "web";
  message = "lost";
  metadata_json = none;
}

abbrev missing : Status
missing = invalid_argument "missing required timestamp"

untimed_lem : entries_to_domain wire json (untimed ∷ []) ≡ err missing
unfolding entries_to_domain proto_entry_to_domain proto_timestamp_to_chrono
untimed_lem = refl

serve_push_logs-sent_example :
    (serve_push_logs wire json
        (local_service [])
        (empty_buffer 2)
        (sent wire wire-IsLawful json batches)
      ≡ (
        push_all (empty_buffer 2) (read wire wire-IsLawful json batches),
        ok (record { success = true; message = "Received {total} log entries" }),
      ))
    × (serve_push_logs wire json
          (local_service [])
          (empty_buffer 2)
          (sent wire wire-IsLawful json batches ++ (ok (untimed ∷ []) ∷ []))
        ≡ (push_all (empty_buffer 2) (read wire wire-IsLawful json batches), err missing))
    × (serve_push_logs wire json
          (local_service [])
          (empty_buffer 2)
          (sent wire wire-IsLawful json batches ++ (err "reset" ∷ []))
        ≡ (
          push_all (empty_buffer 2) (read wire wire-IsLawful json batches),
          err (status_internal "reset"),
        ))
serve_push_logs-sent_example =
    serve_push_logs-sent wire wire-IsLawful json [] (empty_buffer 2) batches (untimed ∷ []) missing
      "reset" [] untimed_lem

abbrev web_filter : PbLogFilter
web_filter = record {
  source = some "web";
  min_level = none;
  since = none;
  until = none;
  search = none;
  deployment_id = none;
  namespace = none;
}

abbrev answer : ListLogsResponse
answer = list_response wire json (local_service []) (
    list_logs buffer (record default_filter { source = some "web" })
      (record { page = none; page_size = none }))

answered : serve_list_logs wire json (local_service []) buffer (some web_filter) none ≡ ok answer
unfolding serve_list_logs proto_filter_to_domain optional_timestamp ensure_scoped_read_filter
answered = refl

serve_list_logs-IsScoped_example : IsScoped wire json [] (some web_filter) answer
serve_list_logs-IsScoped_example =
    serve_list_logs-IsScoped wire json [] buffer (some web_filter) none answer answered
