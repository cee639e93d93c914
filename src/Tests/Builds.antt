-- ===== src/Tests/Builds.antt =====
-- A service with one build.
use reinhardt_cloud.Base.{
  ℕ, zero, suc, true, false, none, some, List, [], ◌∷◌, ◌≡◌, refl, arith, All, nat_eq,
}
use reinhardt_cloud.Base.Map.{get, modify, insert}
use reinhardt_cloud.Types.Build.{BuildRequest}
use reinhardt_cloud.Core.BuildService.Defs
use reinhardt_cloud.Core.BuildService.Defs.{
  Build, Builds, Tick, Reach, boot, next, start, cancel, tick, started, finished,
}
use reinhardt_cloud.Core.BuildService.Progress.{
  Input, move, cancelling, react_all, IsTimed, react_all-finished, react_all-late,
}
use reinhardt_cloud.Core.BuildService.Clients.{HasOutcome, completed_outcome}

abbrev request : BuildRequest
request = record {
  project_name = "web";
  image = "registry/web";
  env_vars = [];
  dockerfile = none;
  context_path = none;
}

abbrev beat : Tick
beat = record { now = 5; digest = "sha256:0"; slept = true }

abbrev beats : ℕ → List Input
beats zero = []
beats (suc n) = move beat ∷ beats n

beats-IsTimed : (n : ℕ) → All IsTimed (beats n)
beats-IsTimed zero = tt
beats-IsTimed (suc n) = (refl, beats-IsTimed n)

abbrev build : Build
build = started 1 request 0

-- the same build, before it publishes
abbrev late_build : Build
late_build = record build { point = Defs.publishing }

react_all-finished_example : (react_all (beats 20) build).point ≡ finished
react_all-finished_example = react_all-finished (beats 20) build (beats-IsTimed 20) (ground arith)

react_all-late_example : (react_all (cancelling ∷ beats 20) late_build).status.success ≡ some true
react_all-late_example = react_all-late (beats 20) late_build (beats-IsTimed 20) (ground arith) tt

-- started, cancelled, reported and settled
abbrev begun : Builds
begun = Defs.start_build [] 1 request 0

abbrev told : Builds
told = (Defs.cancel_build begun 1).0

abbrev reported : Builds
reported = modify 1 (Defs.advance beat) told

abbrev ended : Builds
ended = modify 1 (Defs.advance beat) reported

reach : Reach ended
unfolding get
reach =
    next {m = reported}
      (next {m = told} (next {m = begun} (next {m = []} boot (start 1 request 0 refl)) (cancel 1))
        (tick 1 beat))
      (tick 1 beat)

abbrev ended_build : Build
ended_build =
    record (Defs.update_build_completed false 5
      (Defs.report_cancelled 5 (record build { cancelled = true }))) { point = finished }

ended_entry : get 1 ended ≡ some ended_build
unfolding get modify insert Defs.start_build Defs.cancel_build Defs.advance Defs.advance_at
    Defs.update_build_completed
ended_entry = refl

ended_completed : ended_build.status.completed ≡ true
unfolding Defs.update_build_completed
ended_completed = refl

completed_outcome_example : HasOutcome ended_build
completed_outcome_example =
    completed_outcome {m = ended} reach 1 ended_build ended_entry ended_completed
