-- ===== src/Grpc/Build/Roundtrip.antt =====
-- What the client receives is what the service answered.
use mathlib.Core.Option
use reinhardt_cloud.Base.{true, Option, none, some, List, [], ◌∷◌, map, ◌≡◌, refl, ◌∙◌, ap, arith}
use reinhardt_cloud.Base.Result.{Result, ok, err, map_err, map_ok, ◌>>=◌}
use reinhardt_cloud.Types.Basic.{Uuid, DateTime}
use reinhardt_cloud.Types.Build.{
  BuildEvent, BuildPhase, BuildRequest, BuildStatus, EnvVar, queued, pulling, building, pushing,
  finalizing,
}
use reinhardt_cloud.Core.ApiError.{ApiError, internal}
use reinhardt_cloud.Grpc.Wire.{
  Wire, IsLawful, status_internal, api_error_to_status, timestamp_from_chrono, timestamp_roundtrip,
  proto_timestamp_to_chrono,
}
use reinhardt_cloud.Grpc.Build.Codec.{
  build_phase_to_proto, proto_phase_to_domain, proto_request_to_domain, domain_request_to_proto,
  env_of_proto, env_to_proto, domain_event_to_proto, proto_event_to_domain,
}
use reinhardt_cloud.Grpc.Build.Server.{
  BuildService, Connection, IsStream, parse_build_id, status_response, serve_get_build_status,
  serve_cancel_build, receive_cancelled, serve_events, receive_events, receive_build_status,
}

pub phase_roundtrip :
    (phase : BuildPhase) → proto_phase_to_domain (build_phase_to_proto phase) ≡ phase
unfolding proto_phase_to_domain build_phase_to_proto
phase_roundtrip queued = refl
phase_roundtrip pulling = refl
phase_roundtrip building = refl
phase_roundtrip pushing = refl
phase_roundtrip finalizing = refl

env_roundtrip : (es : List EnvVar) → map env_of_proto (map env_to_proto es) ≡ es
env_roundtrip [] = refl
env_roundtrip (e ∷ es) = ap (λ l. e ∷ l) (env_roundtrip es)

-- The request that the server hands to the service is the one that the client was given.
pub request_roundtrip :
    (request : BuildRequest) → proto_request_to_domain (domain_request_to_proto request) ≡ request
unfolding proto_request_to_domain domain_request_to_proto
request_roundtrip request = λ i. record request { env_vars = env_roundtrip request.env_vars i }

module _ (w : Wire) (law : IsLawful w) where
  pub event_roundtrip :
      (now : DateTime) (e : BuildEvent)
      → proto_event_to_domain w now (domain_event_to_proto w e) ≡ some e
  unfolding proto_event_to_domain domain_event_to_proto
  event_roundtrip now (BuildEvent.log m t) = rw (timestamp_roundtrip w law now t)
  event_roundtrip now (BuildEvent.phase_change p t) =
      rw (timestamp_roundtrip w law now t, phase_roundtrip p)
  event_roundtrip now (BuildEvent.artifact_ready u d t) = rw (timestamp_roundtrip w law now t)
  event_roundtrip now (BuildEvent.error m t) = rw (timestamp_roundtrip w law now t)
  event_roundtrip now (BuildEvent.complete s t) = rw (timestamp_roundtrip w law now t)

  -- the events up to the first error of the service, and that error as the client sees it
  abbrev pub as_seen : List (Result BuildEvent ApiError) → List (Result BuildEvent ApiError)
  as_seen [] = []
  as_seen (ok e ∷ rest) = ok e ∷ as_seen rest
  as_seen (err e ∷ rest) = err (internal "{e}") ∷ []

  -- Given lawful conversions of times and a connection that carries messages in order and ends at an
  -- error, the client receives every event of a build up to the first error of the service, in order
  -- and unchanged, then that error as an internal one, and nothing after it.
  pub stream_roundtrip :
      (c : Connection) (stream : IsStream c) (now : DateTime)
      (events : List (Result BuildEvent ApiError))
      → receive_events w now (c.carry (serve_events w events)) ≡ as_seen events
  unfolding receive_events serve_events
  stream_roundtrip c stream now [] = ap (receive_events w now) stream.carry_end
  stream_roundtrip c stream now (ok e ∷ rest) =
      ap (receive_events w now) (stream.carry_message (domain_event_to_proto w e) _)
      ∙ (rw (event_roundtrip now e, receive_events)
          (ap (λ l. ok e ∷ l) (stream_roundtrip c stream now rest)))
  stream_roundtrip c stream now (err e ∷ rest) =
      ap (receive_events w now) (stream.carry_error (status_internal "{e}") _)

served_bind :
    (w : Wire) (r : Result BuildStatus ApiError)
    → (map_err api_error_to_status r >>= λ status. ok (status_response w status))
      ≡ map_ok (status_response w) (map_err api_error_to_status r)
served_bind w (ok a) = refl
served_bind w (err e) = refl

module _ (w : Wire) (law : IsLawful w) {S : Type 0} (service : BuildService S) (s : S)
    (now : DateTime) where
  completed_at_roundtrip :
      (t : Option DateTime)
      → Option.map
          (λ t. proto_timestamp_to_chrono w now (some t))
          (elim t [ none ↦ none | some t ↦ timestamp_from_chrono w t ])
        ≡ t
  unfolding timestamp_from_chrono
  completed_at_roundtrip none = refl
  completed_at_roundtrip (some t) = ap {B = Option DateTime} some (timestamp_roundtrip w law now t)

  status_received :
      (status : BuildStatus)
      → receive_build_status w now (ok (status_response w status)) ≡ ok status
  unfolding receive_build_status status_response
  status_received status =
      rw (law.parse_uuid-show_uuid status.build_id, receive_build_status)
        (λ i. ok (record status {
          phase = phase_roundtrip status.phase i;
          started_at = timestamp_roundtrip w law now status.started_at i;
          completed_at = completed_at_roundtrip status.completed_at i;
        }))

  parsed : (u : Uuid) → parse_build_id w (w.show_uuid u) ≡ ok u
  parsed u = ground (arith, law.parse_uuid-show_uuid u)

  served :
      (u : Uuid)
      → serve_get_build_status w service s (w.show_uuid u)
        ≡ map_ok (status_response w) (map_err api_error_to_status (service.get_build_status s u))
  unfolding serve_get_build_status
  served u =
      ap
        (λ r. r >>= λ v. map_err api_error_to_status (service.get_build_status s v) >>= λ status.
          ok (status_response w status))
        (parsed u)
      ∙ served_bind w (service.get_build_status s u)

  received :
      (r : Result BuildStatus ApiError)
      → receive_build_status w now (map_ok (status_response w) (map_err api_error_to_status r))
        ≡ map_err (λ _. internal "{e}") r
  unfolding receive_build_status
  received (ok status) = status_received status
  received (err e) = refl

  -- Given lawful conversions, a client that asks for the status of a build over gRPC gets what the
  -- service answers, with every field unchanged; any error arrives as an internal error, whatever
  -- its class was.
  pub status_roundtrip :
      (u : Uuid)
      → receive_build_status w now (serve_get_build_status w service s (w.show_uuid u))
        ≡ map_err (λ _. internal "{e}") (service.get_build_status s u)
  status_roundtrip u =
      ap (receive_build_status w now) (served u) ∙ received (service.get_build_status s u)

  cancel_received :
      (r : Result (Unit {0}) ApiError)
      → receive_cancelled (
          map_ok
            (λ _. record { success = true; message = "Build cancelled" })
            (map_err api_error_to_status r))
        ≡ map_err (λ _. internal "{e}") r
  unfolding receive_cancelled
  cancel_received (ok done) = refl
  cancel_received (err e) = refl

  -- Given lawful conversions, a client that cancels a build over gRPC has the effect on the service
  -- that the service's own operation has, and gets its answer, with any error as an internal one.
  pub cancel_roundtrip :
      (u : Uuid)
      → ((serve_cancel_build w service s (w.show_uuid u)).0 ≡ (service.cancel_build s u).0)
        × (receive_cancelled (serve_cancel_build w service s (w.show_uuid u)).1
            ≡ map_err (λ _. internal "{e}") (service.cancel_build s u).1)
  unfolding serve_cancel_build
  cancel_roundtrip u =
      rw (law.parse_uuid-show_uuid u, serve_cancel_build)
        (refl, cancel_received (service.cancel_build s u).1)
