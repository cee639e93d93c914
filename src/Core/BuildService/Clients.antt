-- ===== src/Core/BuildService/Clients.antt =====
-- What clients see of a build: the answers to cancelling it and to asking for its status.
use mathlib.Core.Option
use reinhardt_cloud.Base.{
  Bool, true, false, Option, none, some, List, map, ◌≡◌, refl, ◌∙◌, ◌⊎◌, inl, inr, nat_eq, arith,
  ◌==◌, nat_beq_iff, subst, if◌then◌else◌,
}
use reinhardt_cloud.Base.Map.{get, get-modify}
use reinhardt_cloud.Base.Result.{ok, err}
use reinhardt_cloud.Types.Basic.{Uuid}
use reinhardt_cloud.Types.Build.{BuildStatus}
use reinhardt_cloud.Core.ApiError.{not_found, bad_request}
use reinhardt_cloud.Core.BuildService.Defs.{Point, finished, Build, Builds, Reach, cancel_build}
use reinhardt_cloud.Core.BuildService.Runs.{
  IsRun, Settled, Reach-AreRuns, kind, Kind, success_trace, IsFailureTrace, History, Accounts,
  Blames,
}

-- the point of a task follows from the status that clients see
Settled-finished : (p : Point) (s : BuildStatus) → Settled p s → s.completed ≡ true → p ≡ finished
Settled-finished finished s h c = refl
Settled-finished _ s h c = cc

-- a build, with its token cancelled if it is not completed
abbrev pub marked : Build → Build
marked b = record b { cancelled = if b.status.completed then b.cancelled else true }

-- A cancellation is answered by the state of the build: an unknown one is not found, a completed
-- one is refused, and any other is accepted. It marks that build if it is not completed, and leaves
-- it otherwise as it was, and every other build too.
pub cancel_build_lem :
    (m : Builds) (k j : Uuid)
    → ((cancel_build m k).1 ≡ elim (get k m) [
      | none ↦ err (not_found "Build {build_id} not found")
      | some b ↦
          if b.status.completed
          then err (bad_request "Build {build_id} already completed")
          else ok tt
    ])
      × (get j (cancel_build m k).0 ≡ (if k == j then Option.map marked (get j m) else get j m))
unfolding cancel_build
cancel_build_lem m k j = (
  ground arith,
  ground (arith, nat_beq_iff k j, get-modify k j (λ b. record b { cancelled = true }) m),
)

-- the two ways in which a build ends
abbrev pub HasOutcome : Build → Type 0
HasOutcome b =
    ((b.status.success ≡ some true) × (map kind b.sent ≡ success_trace))
    ⊎ ((b.status.success ≡ some false) × IsFailureTrace (map kind b.sent) × (b.cancelled ≡ true))

outcome_of :
    (success : Option Bool) {ks : List Kind} {cancelled : Bool}
    → Accounts success ks
    → (success ≡ some false → cancelled ≡ true)
    → ((success ≡ some true) × (ks ≡ success_trace))
      ⊎ ((success ≡ some false) × IsFailureTrace ks × (cancelled ≡ true))
outcome_of none a f = absurd a
outcome_of (some true) a f = inl (refl, a)
outcome_of (some false) a f = inr (refl, a, f refl)

ended_outcome : (p : Point) (b : Build) → p ≡ finished → b.point ≡ p → IsRun b → HasOutcome b
ended_outcome p b end at run =
    outcome_of b.status.success
      (subst (λ q. History q b.status.success (map kind b.sent)) (at ∙ end) run.history)
      (subst (λ q. Blames q b.status.success b.cancelled) (at ∙ end) run.blames)

-- Whatever clients and tasks do, a build whose status says that it is completed has either
-- succeeded, and sent all phases, the artifact and the success, or was cancelled, has failed, and
-- sent some of the phases and the error.
pub completed_outcome :
    {m : Builds}
    → Reach m
    → (k : Uuid) (b : Build) → get k m ≡ some b
    → b.status.completed ≡ true
    → HasOutcome b
completed_outcome reach k b h c =
    let run = Reach-AreRuns reach k b h in
    ended_outcome b.point b (Settled-finished b.point b.status run.settled c) refl run
