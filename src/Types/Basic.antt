-- ===== src/Types/Basic.antt =====
-- Identifiers and instants, which the program takes from `uuid` and `chrono`.
use reinhardt_cloud.Base.{ℕ}

-- `uuid::Uuid`: its 128-bit value. A new one is an argument of the operation that draws it.
abbrev pub Uuid : Type 0
Uuid = ℕ

-- `chrono::DateTime<Utc>`: the nanoseconds since the earliest instant that chrono can hold.
-- `Utc::now()` is an argument of the operation that reads the clock.
abbrev pub DateTime : Type 0
DateTime = ℕ

abbrev pub nanos_per_sec : ℕ
nanos_per_sec = 1_000_000_000

-- `f64`, which the program only copies: its 64 bits.
abbrev pub Float64 : Type 0
Float64 = ℕ
