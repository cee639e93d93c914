-- ===== src/Tests/Wire.antt =====
-- A clock and identifiers that are lawful, and what is sent over them.
use Prim.Native.Char.{nul}
use Prim.Native.String as NativeString
use reinhardt_cloud.Base.{
  ℕ, zero, suc, String, true, false, Option, none, some, List, [], ◌∷◌, ◌≡◌, refl, arith, ap,
}
use reinhardt_cloud.Base.Int.{ℤ, pos, negsuc}
use reinhardt_cloud.Base.Result.{Result, ok, err}
use reinhardt_cloud.Types.Basic.{DateTime}
use reinhardt_cloud.Types.Build
use reinhardt_cloud.Types.Build.{BuildEvent, BuildRequest, BuildStatus}
use reinhardt_cloud.Core.ApiError.{ApiError, internal, not_found}
use reinhardt_cloud.Grpc.Wire.{Wire, IsLawful, Status}
use reinhardt_cloud.Grpc.Build.Server.{
  BuildService, Connection, IsStream, serve_events, receive_events,
}
use reinhardt_cloud.Grpc.Build.Proto.{PbBuildEvent}
use reinhardt_cloud.Grpc.Build.Roundtrip.{stream_roundtrip}

-- an identifier as that many zero characters
pub unary : ℕ → String
unary zero = NativeString.[]
unary (suc n) = NativeString.◌∷◌ nul (unary n)

pub tally : String → ℕ
tally NativeString.[] = 0
tally (NativeString.◌∷◌ c s) = suc (tally s)

tally-unary : (n : ℕ) → tally (unary n) ≡ n
unfolding tally unary
tally-unary zero = refl
tally-unary (suc n) = ap suc (tally-unary n)

-- whole seconds only
pub from_seconds : ℤ → ℕ → Option DateTime
from_seconds (pos s) n = some s
from_seconds (negsuc s) n = none

abbrev pub wire : Wire
wire = record {
  timestamp = pos;
  subsec_nanos = λ t. 0;
  from_timestamp = from_seconds;
  show_uuid = unary;
  parse_uuid = λ s. some (tally s);
}

pub wire-IsLawful : IsLawful wire
unfolding from_seconds
wire-IsLawful = record {
  subsec_nanos-lt = λ t. ground arith;
  from_timestamp-timestamp = λ t. refl;
  parse_uuid-show_uuid = λ u. ap some (tally-unary u);
}

abbrev request : BuildRequest
request = record {
  project_name = "web";
  image = "registry/web";
  env_vars = record { key = "PORT"; value = "80" } ∷ [];
  dockerfile = none;
  context_path = some ".";
}

abbrev events : List (Result BuildEvent ApiError)
events =
    ok (BuildEvent.phase_change Build.pulling 7)
    ∷ err (not_found "gone")
    ∷ ok (BuildEvent.complete true 9)
    ∷ []

-- messages up to the first error
abbrev carried : List (Result PbBuildEvent Status) → List (Result PbBuildEvent Status)
carried [] = []
carried (ok x ∷ rest) = ok x ∷ carried rest
carried (err e ∷ rest) = err e ∷ []

abbrev connection : Connection
connection = record { carry = carried }

connection-IsStream : IsStream connection
connection-IsStream = record {
  carry_end = refl;
  carry_message = λ x rest. refl;
  carry_error = λ e rest. refl;
}

stream_roundtrip_example :
    receive_events wire 100 (connection.carry (serve_events wire events))
    ≡ ok (BuildEvent.phase_change Build.pulling 7) ∷ err (internal "{e}") ∷ []
stream_roundtrip_example =
    stream_roundtrip wire wire-IsLawful connection connection-IsStream 100 events

abbrev status : BuildStatus
status = record {
  build_id = 3;
  project_name = "web";
  phase = Build.pushing;
  completed = false;
  success = none;
  started_at = 5;
  completed_at = none;
}

-- a service that knows one build
abbrev service : BuildService (Unit {0})
service = record { cancel_build = λ s u. (s, ok tt); get_build_status = λ s u. ok status }
