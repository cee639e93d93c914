-- ===== src/Types/Log.antt =====
-- crates/reinhardt-cloud-types/src/log.rs: log entries and the filters that select them.
use reinhardt_cloud.Base.{ℕ, String, Option, none}
use reinhardt_cloud.Types.Basic.{DateTime}

pub data LogLevel : Type 0 where
  debug info warn error : LogLevel

-- the order that `derive(PartialOrd, Ord)` gives: the position of the variant
unfoldable pub rank : LogLevel → ℕ
rank debug = 0
rank info = 1
rank warn = 2
rank error = 3

-- `Json` is the type `serde_json::Value`, which the program only passes on.
pub record LogEntry (Json : Type 0) : Type 0 where
  pub timestamp : DateTime
  pub level : LogLevel
  pub source : String
  pub message : String
  pub metadata : Option Json

pub record LogFilter : Type 0 where
  pub source : Option String
  pub namespace : Option String
  pub min_level : Option LogLevel
  pub since : Option DateTime
  pub until : Option DateTime
  pub search : Option String
  pub deployment_id : Option String

-- `impl Default for LogFilter`
abbrev pub default_filter : LogFilter
default_filter = record {
  source = none;
  namespace = none;
  min_level = none;
  since = none;
  until = none;
  search = none;
  deployment_id = none;
}
