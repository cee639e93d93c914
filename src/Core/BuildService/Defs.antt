-- ===== src/Core/BuildService/Defs.antt =====
-- The builds, the task that runs each (`run_build_pipeline`), and the operations of the clients.
-- The task keeps its local variables beside the entry of its build: entries are never removed, and
-- a task reads and writes its own entry only. `Utc::now()` and the digest of the image are
-- arguments of a step, and so is the branch of `select!` that wakes it.
use reinhardt_cloud.Base.{
  String, Bool, true, false, none, some, List, [], ◌∷◌, ◌++◌, ◌≡◌, nat_eq, if◌then◌else◌,
  text_append,
}
use reinhardt_cloud.Base.Result.{Result, ok, err}
use reinhardt_cloud.Base.Map.{Map, get, insert, modify}
use reinhardt_cloud.Types.Basic.{Uuid, DateTime}
use reinhardt_cloud.Types.Build.{
  BuildEvent, BuildPhase, BuildRequest, BuildStatus, queued, pulling, building, pushing, finalizing,
  log, phase_change, artifact_ready, error, complete,
}
use reinhardt_cloud.Core.ApiError.{ApiError, not_found, bad_request}

-- the phases of the pipeline with their messages
abbrev pub Stage : Type 0
Stage = BuildPhase × String

abbrev pub phases : List Stage
phases =
    (pulling, "Pulling base image...")
    ∷ (building, "Building application...")
    ∷ (pushing, "Pushing image to registry...")
    ∷ (finalizing, "Finalizing build...")
    ∷ []

-- where a task stands: before each of its effects, and at its wait
pub data Point : Type 0 where
  -- at the head of the loop, with the phases left
  head : List Stage → Point
  -- the phase was announced, and is not yet in the status
  announced : Stage → List Stage → Point
  logging : Stage → List Stage → Point
  -- in `select!`
  sleeping : List Stage → Point
  -- the cancellation was reported, and is not yet in the status
  failing : Point
  publishing : Point
  completing : Point
  -- the success was reported, and is not yet in the status
  marking : Point
  finished : Point

-- an entry of `builds` and its task: the status, whether the token is cancelled, the image, what
-- was sent on the channel, and where the task stands
pub record Build : Type 0 where
  pub status : BuildStatus
  pub cancelled : Bool
  pub image : String
  pub sent : List BuildEvent
  pub point : Point

abbrev pub Builds : Type 0
Builds = Map Uuid Build

-- what a step of a task takes from outside: the time, the digest, and whether the wait is over
-- because of the timer
pub record Tick : Type 0 where
  pub now : DateTime
  pub digest : String
  pub slept : Bool

-- `let _ = tx.send(event).await`: an error of the channel is ignored
abbrev pub send : BuildEvent → Build → Build
send event b = record b { sent = b.sent ++ event ∷ [] }

unfoldable pub update_build_completed : Bool → DateTime → Build → Build
update_build_completed success now b = record b {
  status = record b.status { completed = true; success = some success; completed_at = some now };
}

-- the report of a cancellation, in the two places of the loop
abbrev pub report_cancelled : DateTime → Build → Build
report_cancelled now b = record (send (error "Build cancelled by user" now) b) { point = failing }

-- one step of `run_build_pipeline` at a point
unfoldable pub advance_at : Point → Tick → Build → Build
unfolding update_build_completed
advance_at (head []) t b = record b { point = publishing }
advance_at (head (stage ∷ rest)) t b =
    if b.cancelled
    then report_cancelled t.now b
    else record (send (phase_change stage.0 t.now) b) { point = announced stage rest }
advance_at (announced stage rest) t b = record b {
  status = record b.status { phase = stage.0 };
  point = logging stage rest;
}
advance_at (logging stage rest) t b = record (send (log stage.1 t.now) b) { point = sleeping rest }
advance_at (sleeping rest) t b =
    if t.slept
    then record b { point = head rest }
    else if b.cancelled
    then report_cancelled t.now b
    else b
advance_at failing t b = record (update_build_completed false t.now b) { point = finished }
advance_at publishing t b =
    record (send (artifact_ready (text_append b.image (text_append "@" t.digest)) t.digest t.now)
      b) { point = completing }
advance_at completing t b = record (send (complete true t.now) b) { point = marking }
advance_at marking t b = record (update_build_completed true t.now b) { point = finished }
advance_at finished t b = b

unfoldable pub advance : Tick → Build → Build
unfolding advance_at
advance t b = advance_at b.point t b

-- the entry that `start_build` inserts, with its task about to enter the loop
abbrev pub started : Uuid → BuildRequest → DateTime → Build
started build_id request now = record {
  status = record {
    build_id = build_id;
    project_name = request.project_name;
    phase = queued;
    completed = false;
    success = none;
    started_at = now;
    completed_at = none;
  };
  cancelled = false;
  image = request.image;
  sent = [];
  point = head phases;
}

-- `build_id` is the one that `Uuid::now_v7` draws
unfoldable pub start_build : Builds → Uuid → BuildRequest → DateTime → Builds
start_build m build_id request now = insert build_id (started build_id request now) m

unfoldable pub cancel_build : Builds → Uuid → Builds × Result (Unit {0}) ApiError
cancel_build m build_id = elim (get build_id m) [
  | none ↦ (m, err (not_found "Build {build_id} not found"))
  | some b ↦
      if b.status.completed
      then (m, err (bad_request "Build {build_id} already completed"))
      else (modify build_id (λ b. record b { cancelled = true }) m, ok tt)
]

unfoldable pub get_build_status : Builds → Uuid → Result BuildStatus ApiError
get_build_status m build_id = elim (get build_id m) [
  | none ↦ err (not_found "Build {build_id} not found")
  | some b ↦ ok b.status
]

-- What can happen to the service: clients start and cancel builds, and tasks move, in any order.
pub data Step (m : Builds) : Builds → Type 0 where
  start :
      (build_id : Uuid) (request : BuildRequest) (now : DateTime)
      → get build_id m ≡ none
      → Step m (start_build m build_id request now)
  cancel : (build_id : Uuid) → Step m (cancel_build m build_id).0
  tick : (build_id : Uuid) (t : Tick) → Step m (modify build_id (advance t) m)

pub data Reach : Builds → Type 0 where
  boot : Reach []
  next : {m m' : Builds} → Reach m → Step m m' → Reach m'
