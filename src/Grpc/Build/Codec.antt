-- ===== src/Grpc/Build/Codec.antt =====
-- The conversions between the domain and the messages.
use mathlib.Core.Option
use reinhardt_cloud.Base.{Option, some, map, nat_eq, ◌==◌, if◌then◌else◌}
use reinhardt_cloud.Base.Int.{ℤ, pos, negsuc}
use reinhardt_cloud.Types.Basic.{DateTime}
use reinhardt_cloud.Types.Build.{
  BuildEvent, BuildPhase, BuildRequest, EnvVar, queued, pulling, building, pushing, finalizing,
}
use reinhardt_cloud.Grpc.Wire.{Wire, timestamp_from_chrono, proto_timestamp_to_chrono}
use reinhardt_cloud.Grpc.Build.Proto.{EventOneof, PbBuildEvent, PbEnvVar, StartBuildRequest}

-- the numbers of `enum BuildPhase` of build.proto; 0 is "unspecified"
unfoldable pub build_phase_to_proto : BuildPhase → ℤ
build_phase_to_proto queued = pos 1
build_phase_to_proto pulling = pos 2
build_phase_to_proto building = pos 3
build_phase_to_proto pushing = pos 4
build_phase_to_proto finalizing = pos 5

-- `try_from` fails for a number that the enum does not have
unfoldable pub proto_phase_to_domain : ℤ → BuildPhase
proto_phase_to_domain (negsuc n) = queued
proto_phase_to_domain (pos n) =
    if n == 1
    then queued
    else if n == 2
    then pulling
    else if n == 3
    then building
    else if n == 4
    then pushing
    else if n == 5
    then finalizing
    else queued

abbrev pub env_of_proto : PbEnvVar → EnvVar
env_of_proto e = record { key = e.key; value = e.value }

abbrev pub env_to_proto : EnvVar → PbEnvVar
env_to_proto e = record { key = e.key; value = e.value }

unfoldable pub proto_request_to_domain : StartBuildRequest → BuildRequest
proto_request_to_domain req = record {
  project_name = req.project_name;
  image = req.image;
  env_vars = map env_of_proto req.env_vars;
  dockerfile = req.dockerfile;
  context_path = req.context_path;
}

-- what `GrpcBuildClient::start_build` sends
unfoldable pub domain_request_to_proto : BuildRequest → StartBuildRequest
domain_request_to_proto request = record {
  project_name = request.project_name;
  image = request.image;
  env_vars = map env_to_proto request.env_vars;
  dockerfile = request.dockerfile;
  context_path = request.context_path;
}

module _ (w : Wire) where
  unfoldable pub domain_event_to_proto : BuildEvent → PbBuildEvent
  unfolding build_phase_to_proto
  domain_event_to_proto (BuildEvent.log message timestamp) = record {
    event = some (EventOneof.log message (timestamp_from_chrono w timestamp));
  }
  domain_event_to_proto (BuildEvent.phase_change phase timestamp) = record {
    event =
        some (
          EventOneof.phase_change (build_phase_to_proto phase) (timestamp_from_chrono w timestamp));
  }
  domain_event_to_proto (BuildEvent.artifact_ready artifact_url digest timestamp) = record {
    event =
        some (EventOneof.artifact_ready artifact_url digest (timestamp_from_chrono w timestamp));
  }
  domain_event_to_proto (BuildEvent.error message timestamp) = record {
    event = some (EventOneof.error message (timestamp_from_chrono w timestamp));
  }
  domain_event_to_proto (BuildEvent.complete success timestamp) = record {
    event = some (EventOneof.complete success (timestamp_from_chrono w timestamp));
  }

  event_of_oneof : DateTime → EventOneof → BuildEvent
  unfolding proto_phase_to_domain
  event_of_oneof now (EventOneof.log message timestamp) =
      BuildEvent.log message (proto_timestamp_to_chrono w now timestamp)
  event_of_oneof now (EventOneof.phase_change phase timestamp) =
      BuildEvent.phase_change (proto_phase_to_domain phase)
        (proto_timestamp_to_chrono w now timestamp)
  event_of_oneof now (EventOneof.artifact_ready artifact_url digest timestamp) =
      BuildEvent.artifact_ready artifact_url digest (proto_timestamp_to_chrono w now timestamp)
  event_of_oneof now (EventOneof.error message timestamp) =
      BuildEvent.error message (proto_timestamp_to_chrono w now timestamp)
  event_of_oneof now (EventOneof.complete success timestamp) =
      BuildEvent.complete success (proto_timestamp_to_chrono w now timestamp)

  -- an event with no `oneof` is skipped
  unfoldable pub proto_event_to_domain : DateTime → PbBuildEvent → Option BuildEvent
  unfolding event_of_oneof
  proto_event_to_domain now event = Option.map (event_of_oneof now) event.event
