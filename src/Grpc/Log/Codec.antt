-- ===== src/Grpc/Log/Codec.antt =====
-- The messages of crates/reinhardt-cloud-proto/proto/log.proto and their conversions.
use mathlib.Core.Option
use reinhardt_cloud.Base.{
  String, Option, none, some, List, [], ◌∷◌, nat_eq, ◌==◌, if◌then◌else◌, ◌≡◌, refl,
}
use reinhardt_cloud.Base.Int.{ℤ, pos, negsuc}
use reinhardt_cloud.Base.Result.{Result, ok, err, map_ok, ◌>>=◌}
use reinhardt_cloud.Types.Basic.{DateTime}
use reinhardt_cloud.Types.Log.{
  LogEntry, LogFilter, LogLevel, debug, info, warn, error, default_filter,
}
use reinhardt_cloud.Grpc.Wire.{
  Wire, IsLawful, Status, Timestamp, invalid_argument, timestamp_from_chrono, u32_or_zero,
  from_wire,
}

pub record PbLogEntry : Type 0 where
  pub timestamp : Option Timestamp
  pub level : ℤ
  pub source : String
  pub message : String
  pub metadata_json : Option String

pub record PbLogFilter : Type 0 where
  pub source : Option String
  pub min_level : Option ℤ
  pub since : Option Timestamp
  pub until : Option Timestamp
  pub search : Option String
  pub deployment_id : Option String
  pub namespace : Option String

-- What the program takes from `serde_json`: `Value::to_string` and `from_str`. That the one reads
-- what the other wrote is not relied on: a number, or a deep value, may not come back as it was.
pub record JsonText (Json : Type 0) : Type 0 where
  pub show_json : Json → String
  pub parse_json : String → Option Json

-- the numbers of `enum LogLevel`; 0 is "unspecified", and is read as "info" like an unknown number
unfoldable pub proto_level_to_domain : ℤ → LogLevel
proto_level_to_domain (negsuc n) = info
proto_level_to_domain (pos n) =
    if n == 1
    then debug
    else if n == 2
    then info
    else if n == 3
    then warn
    else if n == 4
    then error
    else info

unfoldable pub domain_level_to_proto : LogLevel → ℤ
domain_level_to_proto debug = pos 1
domain_level_to_proto info = pos 2
domain_level_to_proto warn = pos 3
domain_level_to_proto error = pos 4

module _ (w : Wire) where
  -- unlike its namesakes in the other services, this one refuses what it cannot read
  unfoldable pub proto_timestamp_to_chrono : Option Timestamp → Result DateTime Status
  unfolding u32_or_zero
  proto_timestamp_to_chrono none = err (invalid_argument "missing required timestamp")
  proto_timestamp_to_chrono (some t) = elim (w.from_timestamp t.seconds (u32_or_zero t.nanos)) [
    | none ↦ err (invalid_argument "invalid timestamp: seconds={}, nanos={}")
    | some dt ↦ ok dt
  ]

  -- `.map(|t| proto_timestamp_to_chrono(Some(t))).transpose()`
  unfoldable pub optional_timestamp : Option Timestamp → Result (Option DateTime) Status
  unfolding proto_timestamp_to_chrono
  optional_timestamp none = ok none
  optional_timestamp (some t) = map_ok some (proto_timestamp_to_chrono (some t))

  unfoldable pub proto_filter_to_domain : Option PbLogFilter → Result LogFilter Status
  unfolding optional_timestamp proto_level_to_domain
  proto_filter_to_domain none = ok default_filter
  proto_filter_to_domain (some f) = do
    since ← optional_timestamp f.since
    until ← optional_timestamp f.until
    ok (record {
      source = f.source;
      namespace = f.namespace;
      min_level = Option.map proto_level_to_domain f.min_level;
      since = since;
      until = until;
      search = f.search;
      deployment_id = f.deployment_id;
    })

  module _ {Json : Type 0} (json : JsonText Json) where
    -- `and_then(|s| serde_json::from_str(s).ok())`
    abbrev pub metadata_of : Option String → Option Json
    metadata_of none = none
    metadata_of (some s) = json.parse_json s

    unfoldable pub proto_entry_to_domain : PbLogEntry → Result (LogEntry Json) Status
    unfolding proto_timestamp_to_chrono proto_level_to_domain
    proto_entry_to_domain entry = do
      timestamp ← proto_timestamp_to_chrono entry.timestamp
      ok (record {
        timestamp = timestamp;
        level = proto_level_to_domain entry.level;
        source = entry.source;
        message = entry.message;
        metadata = metadata_of entry.metadata_json;
      })

    unfoldable pub domain_entry_to_proto : LogEntry Json → PbLogEntry
    unfolding domain_level_to_proto
    domain_entry_to_proto entry = record {
      timestamp = timestamp_from_chrono w entry.timestamp;
      level = domain_level_to_proto entry.level;
      source = entry.source;
      message = entry.message;
      metadata_json = Option.map json.show_json entry.metadata;
    }

    -- `.map(proto_entry_to_domain).collect::<Result<Vec<_>, _>>()`
    unfoldable pub entries_to_domain : List PbLogEntry → Result (List (LogEntry Json)) Status
    entries_to_domain [] = ok []
    entries_to_domain (p ∷ ps) = do
      e ← proto_entry_to_domain p
      es ← entries_to_domain ps
      ok (e ∷ es)

level_roundtrip : (l : LogLevel) → proto_level_to_domain (domain_level_to_proto l) ≡ l
unfolding proto_level_to_domain domain_level_to_proto
level_roundtrip debug = refl
level_roundtrip info = refl
level_roundtrip warn = refl
level_roundtrip error = refl

module _ (w : Wire) (law : IsLawful w) {Json : Type 0} (json : JsonText Json) where
  time_roundtrip : (t : DateTime) → proto_timestamp_to_chrono w (timestamp_from_chrono w t) ≡ ok t
  unfolding proto_timestamp_to_chrono timestamp_from_chrono
  time_roundtrip t = rw (from_wire w law t) refl

  -- what the text of metadata is read as, nothing if it cannot be read
  abbrev pub reread : Option Json → Option Json
  reread none = none
  reread (some j) = json.parse_json (json.show_json j)

  -- an entry with its metadata as they are read from their text
  abbrev pub arrived : LogEntry Json → LogEntry Json
  arrived e = record e { metadata = reread e.metadata }

  metadata_roundtrip :
      (m : Option Json) → metadata_of w json (Option.map json.show_json m) ≡ reread m
  metadata_roundtrip none = refl
  metadata_roundtrip (some j) = refl

  -- Given lawful conversions of times, an entry of a log that is sent is the entry that is received,
  -- but for its metadata, which are what their text is read as.
  pub entry_roundtrip :
      (e : LogEntry Json)
      → proto_entry_to_domain w json (domain_entry_to_proto w json e) ≡ ok (arrived e)
  unfolding proto_entry_to_domain domain_entry_to_proto
  entry_roundtrip e = rw (time_roundtrip e.timestamp) (λ i.
      ok (record e {
        level = level_roundtrip e.level i;
        metadata = metadata_roundtrip e.metadata i;
      }))
