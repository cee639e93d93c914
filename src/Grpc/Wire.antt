-- ===== src/Grpc/Wire.antt =====
-- What the gRPC services share: statuses, timestamps and identifiers on the wire. The three services
-- (crates/reinhardt-cloud-grpc/src/services/{build,log,cluster_agent}.rs) each hold a copy.
use reinhardt_cloud.Base.{
  Bool, ℕ, ◌-◌, ◌^◌, ◌<◌, ◌≡◌, String, Option, none, some, arith, ltb, if◌then◌else◌,
}
use reinhardt_cloud.Base.Int.{ℤ, pos, negsuc}
use reinhardt_cloud.Types.Basic.{Uuid, DateTime}
use reinhardt_cloud.Core.ApiError.{
  ApiError, unauthorized, forbidden, not_found, bad_request, internal,
}

-- the codes of `tonic::Status` that the services use, each with its message
pub data Status : Type 0 where
  status_not_found invalid_argument unauthenticated permission_denied status_internal :
      String → Status

unfoldable pub api_error_to_status : ApiError → Status
api_error_to_status (not_found msg) = status_not_found msg
api_error_to_status (bad_request msg) = invalid_argument msg
api_error_to_status (unauthorized msg) = unauthenticated msg
api_error_to_status (forbidden msg) = permission_denied msg
api_error_to_status (internal msg) = status_internal msg

-- crates/reinhardt-cloud-proto/proto/common.proto
pub record StatusResponse : Type 0 where
  pub success : Bool
  pub message : String

-- `prost_types::Timestamp`: `seconds` is an i64, `nanos` an i32
pub record Timestamp : Type 0 where
  pub seconds : ℤ
  pub nanos : ℤ

-- What the program takes from `chrono` and `uuid`.
pub record Wire : Type 0 where
  -- `DateTime::timestamp`, `DateTime::timestamp_subsec_nanos`, `DateTime::from_timestamp`
  pub timestamp : DateTime → ℤ
  pub subsec_nanos : DateTime → ℕ
  pub from_timestamp : ℤ → ℕ → Option DateTime
  -- `Uuid::to_string`, `Uuid::parse_str`
  pub show_uuid : Uuid → String
  pub parse_uuid : String → Option Uuid

-- What their documentation states.
pub record IsLawful (w : Wire) : Type 0 where
  -- a leap second counts up to two seconds of nanoseconds
  pub subsec_nanos-lt : (t : DateTime) → w.subsec_nanos t < 2_000_000_000
  pub from_timestamp-timestamp :
      (t : DateTime) → w.from_timestamp (w.timestamp t) (w.subsec_nanos t) ≡ some t
  pub parse_uuid-show_uuid : (u : Uuid) → w.parse_uuid (w.show_uuid u) ≡ some u

-- a `u32` as an `i32`: the upper half of the range is negative
unfoldable pub as_i32 : ℕ → ℤ
as_i32 n = if ltb n (2 ^ 31) then pos n else negsuc (2 ^ 32 - 1 - n)

-- an `i32` as a `u32` by `try_into().unwrap_or(0)`
unfoldable pub u32_or_zero : ℤ → ℕ
u32_or_zero (pos n) = n
u32_or_zero (negsuc n) = 0

module _ (w : Wire) where
  unfoldable pub timestamp_from_chrono : DateTime → Option Timestamp
  unfolding as_i32
  timestamp_from_chrono dt =
      some (record { seconds = w.timestamp dt; nanos = as_i32 (w.subsec_nanos dt) })

  -- `and_then(from_timestamp)`, and the present time if there is none
  unfoldable pub proto_timestamp_to_chrono : DateTime → Option Timestamp → DateTime
  unfolding u32_or_zero
  proto_timestamp_to_chrono now none = now
  proto_timestamp_to_chrono now (some t) = elim (w.from_timestamp t.seconds (u32_or_zero t.nanos)) [
    | none ↦ now
    | some dt ↦ dt
  ]

u32_or_zero-as_i32 : (n : ℕ) → n < 2 ^ 31 → u32_or_zero (as_i32 n) ≡ n
unfolding u32_or_zero as_i32
u32_or_zero-as_i32 n h = ground arith

module _ (w : Wire) (law : IsLawful w) where
  -- the nanoseconds survive the way through an `i32`
  pub nanos_roundtrip : (t : DateTime) → u32_or_zero (as_i32 (w.subsec_nanos t)) ≡ w.subsec_nanos t
  nanos_roundtrip t = u32_or_zero-as_i32 _ (omega (arith, law.subsec_nanos-lt t))

  pub from_wire :
      (t : DateTime)
      → w.from_timestamp (w.timestamp t) (u32_or_zero (as_i32 (w.subsec_nanos t))) ≡ some t
  from_wire t = rw (nanos_roundtrip t) (law.from_timestamp-timestamp t)

  -- a timestamp that was sent is the one received, whatever the time of receipt
  pub timestamp_roundtrip :
      (now t : DateTime) → proto_timestamp_to_chrono w now (timestamp_from_chrono w t) ≡ t
  unfolding proto_timestamp_to_chrono timestamp_from_chrono
  timestamp_roundtrip now t = rw (from_wire t, proto_timestamp_to_chrono)
