-- ===== src/Grpc/Build/Server.antt =====
-- The handlers of the server and the calls of the client, over any implementation of the service.
use mathlib.Core.Option
use reinhardt_cloud.Base.{
  String, Bool, true, false, Option, none, some, List, [], ◌∷◌, ◌≡◌, text_append, if◌then◌else◌,
}
use reinhardt_cloud.Base.Result.{Result, ok, err, map_err, map_ok, ◌>>=◌}
use reinhardt_cloud.Types.Basic.{Uuid, DateTime}
use reinhardt_cloud.Types.Build.{BuildEvent, BuildStatus}
use reinhardt_cloud.Core.ApiError.{ApiError, internal}
use reinhardt_cloud.Grpc.Wire.{
  Wire, Status, StatusResponse, invalid_argument, status_internal, api_error_to_status,
  timestamp_from_chrono, proto_timestamp_to_chrono,
}
use reinhardt_cloud.Grpc.Build.Proto.{PbBuildEvent, PbBuildLog, BuildStatusResponse}
use reinhardt_cloud.Grpc.Build.Codec.{
  build_phase_to_proto, proto_phase_to_domain, domain_event_to_proto, proto_event_to_domain,
}

-- The trait `BuildService` (crates/reinhardt-cloud-core/src/traits/build.rs) for the calls on one
-- build, over the state `S` of an implementation.
pub record BuildService (S : Type 0) : Type 0 where
  pub cancel_build : S → Uuid → S × Result (Unit {0}) ApiError
  pub get_build_status : S → Uuid → Result BuildStatus ApiError

-- A connection of tonic that is not lost: the stream that the server gives becomes the one that the
-- client is given.
pub record Connection : Type 0 where
  pub carry : List (Result PbBuildEvent Status) → List (Result PbBuildEvent Status)

-- Messages arrive in order, and a status that is an error ends the stream: it goes into the trailers.
pub record IsStream (c : Connection) : Type 0 where
  pub carry_end : c.carry [] ≡ []
  pub carry_message :
      (x : PbBuildEvent) (rest : List (Result PbBuildEvent Status))
      → c.carry (ok x ∷ rest) ≡ ok x ∷ c.carry rest
  pub carry_error :
      (e : Status) (rest : List (Result PbBuildEvent Status)) → c.carry (err e ∷ rest) ≡ err e ∷ []

-- `.parse().map_err(|e| Status::invalid_argument(..))`
abbrev pub parse_build_id : Wire → String → Result Uuid Status
parse_build_id w build_id = elim (w.parse_uuid build_id) [
  | none ↦ err (invalid_argument "Invalid build_id: {e}")
  | some u ↦ ok u
]

abbrev pub outcome_text : Option Bool → String
outcome_text (some true) = "succeeded"
outcome_text (some false) = "failed"
outcome_text none = "completed (unknown outcome)"

unfoldable pub status_response : Wire → BuildStatus → BuildStatusResponse
unfolding build_phase_to_proto
status_response w status = record {
  build_id = w.show_uuid status.build_id;
  project_name = status.project_name;
  phase = build_phase_to_proto status.phase;
  completed = status.completed;
  success = status.success;
  started_at = timestamp_from_chrono w status.started_at;
  completed_at = elim status.completed_at [ none ↦ none | some t ↦ timestamp_from_chrono w t ];
}

module _ (w : Wire) {S : Type 0} (service : BuildService S) where
  -- `cancel_build` of the server
  unfoldable pub serve_cancel_build : S → String → S × Result StatusResponse Status
  unfolding api_error_to_status
  serve_cancel_build s build_id = elim (parse_build_id w build_id) [
    | err e ↦ (s, err e)
    | ok u ↦
        let (s', r) = service.cancel_build s u in
        (
          s',
          map_ok (λ _. record { success = true; message = "Build cancelled" })
              (map_err api_error_to_status r),
        )
  ]

  -- `get_build_status` of the server
  unfoldable pub serve_get_build_status : S → String → Result BuildStatusResponse Status
  unfolding api_error_to_status
  serve_get_build_status s build_id = do
    u ← parse_build_id w build_id
    status ← map_err api_error_to_status (service.get_build_status s u)
    ok (status_response w status)

  -- `stream_build_logs`: the messages, with the formatted values left out
  unfoldable pub serve_stream_build_logs : DateTime → S → String → Result (List PbBuildLog) Status
  unfolding api_error_to_status
  serve_stream_build_logs now s build_id = do
    u ← parse_build_id w build_id
    status ← map_err api_error_to_status (service.get_build_status s u)
    let first : PbBuildLog = record {
      message = "Build {} for app '{}' is in phase {}";
      timestamp = timestamp_from_chrono w now;
    }
    ok (
        if status.completed
        then first
          ∷ record {
            message = text_append "Build {} " (outcome_text status.success);
            timestamp = timestamp_from_chrono w now;
          }
          ∷ []
        else first ∷ [])

module _ (w : Wire) where
  -- the stream of `start_build` that the server hands to tonic; an error of the service becomes an
  -- internal status
  unfoldable pub serve_events :
      List (Result BuildEvent ApiError) → List (Result PbBuildEvent Status)
  serve_events [] = []
  serve_events (ok event ∷ rest) = ok (domain_event_to_proto w event) ∷ serve_events rest
  serve_events (err e ∷ rest) = err (status_internal "{e}") ∷ serve_events rest

  -- `filter_map` on the stream of `start_build` that tonic hands to the client
  unfoldable pub receive_events :
      DateTime → List (Result PbBuildEvent Status) → List (Result BuildEvent ApiError)
  receive_events now [] = []
  receive_events now (ok event ∷ rest) =
      let others = receive_events now rest in
      elim (proto_event_to_domain w now event) [ none ↦ others | some e ↦ ok e ∷ others ]
  receive_events now (err e ∷ rest) = err (internal "{e}") ∷ receive_events now rest

  -- what `GrpcBuildClient::get_build_status` makes of the response
  unfoldable pub receive_build_status :
      DateTime → Result BuildStatusResponse Status → Result BuildStatus ApiError
  receive_build_status now (err e) = err (internal "{e}")
  receive_build_status now (ok resp) = elim (w.parse_uuid resp.build_id) [
    | none ↦ err (internal "Invalid UUID: {e}")
    | some build_id ↦ ok (record {
      build_id = build_id;
      project_name = resp.project_name;
      phase = proto_phase_to_domain resp.phase;
      completed = resp.completed;
      success = resp.success;
      started_at = proto_timestamp_to_chrono w now resp.started_at;
      completed_at = Option.map (λ t. proto_timestamp_to_chrono w now (some t)) resp.completed_at;
    })
  ]

-- what `GrpcBuildClient::cancel_build` makes of the response
unfoldable pub receive_cancelled : Result StatusResponse Status → Result (Unit {0}) ApiError
receive_cancelled (ok response) = ok tt
receive_cancelled (err e) = err (internal "{e}")
