-- ===== src/Core/Log/Defs.antt =====
-- crates/reinhardt-cloud-core/src/services/log/buffer.rs and local.rs: the buffer and its service.
use text.Mathlib.Text.{find?}
use reinhardt_cloud.Base.{
  ℕ, ltb, Bool, true, false, not, Option, none, some, is_some, List, [], ◌∷◌, ◌++◌, String,
  string_eq, ◌==◌, length, drop, take, filter, if◌then◌else◌,
}
use reinhardt_cloud.Types.Log.{LogEntry, LogFilter, rank}
use reinhardt_cloud.Core.Pagination.{PaginationParams, PaginatedResponse, page_size, offset, new}

abbrev pub default_capacity : ℕ
default_capacity = 10_000

-- `broadcast_tx` is a channel of tokio: here, what was sent over it so far.
pub record LogBuffer (Json : Type 0) : Type 0 where
  pub entries : List (LogEntry Json)
  pub capacity : ℕ
  pub broadcast : List (LogEntry Json)

-- `message.contains(search)`
abbrev pub contains : String → String → Bool
contains message search = is_some (find? message search)

-- one test of the filter: `if let Some(x) = restriction && fails(x) { return false; }`
abbrev pub passes {ℓ} : {A : Type ℓ} → Option A → (A → Bool) → Bool → Bool
passes none fails rest = rest
passes (some x) fails rest = if fails x then false else rest

-- what an event of a broadcast receiver is
pub data Received (Json : Type 0) : Type 0 where
  entry : LogEntry Json → Received Json
  lagged : ℕ → Received Json
  closed : Received Json

module _ {Json : Type 0} where
  abbrev pub empty_buffer : ℕ → LogBuffer Json
  empty_buffer capacity = record { entries = List.[]; capacity = capacity; broadcast = List.[] }

  -- `LogBuffer::default`
  abbrev pub default_buffer : LogBuffer Json
  default_buffer = empty_buffer default_capacity

  -- one round of the loop: `push_back`, and `pop_front` if that is one too many
  unfoldable pub push_entry : LogBuffer Json → LogEntry Json → LogBuffer Json
  push_entry buf e =
      let longer = buf.entries ++ (e ∷ []) in
      record {
        entries = if ltb buf.capacity (length longer) then drop 1 longer else longer;
        capacity = buf.capacity;
        broadcast = buf.broadcast ++ (e ∷ []);
      }

  unfoldable pub push : LogBuffer Json → List (LogEntry Json) → LogBuffer Json
  push buf [] = buf
  push buf (e ∷ es) = push (push_entry buf e) es

  unfoldable pub matches_filter : LogEntry Json → LogFilter → Bool
  unfolding rank
  matches_filter e f =
      passes f.source (λ source. not (e.source == source))
        (passes f.min_level (λ min_level. ltb (rank e.level) (rank min_level))
          (passes f.since (λ since. ltb e.timestamp since)
            (passes f.until (λ until. ltb until e.timestamp)
              (passes f.search (λ search. not (contains e.message search))
                (passes f.deployment_id (λ deployment_id. not (e.source == deployment_id)) true)))))

  unfoldable pub query : LogBuffer Json → LogFilter → List (LogEntry Json)
  query buf f = filter (λ e. matches_filter e f) buf.entries

  unfoldable pub len : LogBuffer Json → ℕ
  len buf = length buf.entries

  unfoldable pub is_empty : LogBuffer Json → Bool
  is_empty buf = elim buf.entries [ [] ↦ true | ◌∷◌ e es ↦ false ]

  -- what the stream of `tail_logs` yields, from what its receiver hands it
  unfoldable pub tail_logs : LogFilter → List (Received Json) → List (LogEntry Json)
  tail_logs f [] = []
  tail_logs f (entry e ∷ rest) =
      let later = tail_logs f rest in if matches_filter e f then e ∷ later else later
  tail_logs f (lagged n ∷ rest) = tail_logs f rest
  tail_logs f (closed ∷ rest) = []

  unfoldable pub list_logs :
      LogBuffer Json → LogFilter → PaginationParams → PaginatedResponse (LogEntry Json)
  list_logs buf f pagination =
      let all = query buf f in
      new (take (page_size pagination) (drop (offset pagination) all)) (length all) pagination
