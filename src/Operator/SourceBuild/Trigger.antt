-- ===== src/Operator/SourceBuild/Trigger.antt =====
-- The annotations that ask for a build are cleared last, so that a call that fails loses no build.
use reinhardt_cloud.Base.{
  String, true, false, Option, none, some, List, [], ◌∷◌, ◌++◌, ◌≡◌, ◌⊎◌, refl, inl, inr,
}
use reinhardt_cloud.Base.Result.{Result, ok, err}
use reinhardt_cloud.Types.Crd.{BuildStatus, Project}
use reinhardt_cloud.Operator.Error.{Error}
use reinhardt_cloud.Operator.SourceBuild.Defs.{BuildDecision, Job, blocking_failed_build_status}
use reinhardt_cloud.Operator.SourceBuild.Patch.{StatusPatch, build_status_patch}
use reinhardt_cloud.Operator.SourceBuild.Reconcile.{
  Effect, created_job, patched_status, cleared_annotations, Call, done, failed_call, Action, Api,
  lift, ◌>>=◌, ◌>>◌, perform, accepted, patch_build_status, watch_job, follow_build, decide_build,
  reconcile_source_build,
}

module _ (app : Project) (api : Api) (now : String) (build : BuildStatus) where
  -- the status of the project with the build in it, as it is accepted
  abbrev pub record_patch : StatusPatch
  record_patch = build_status_patch app build (accepted app api now) now

  abbrev pub recorded : Effect
  recorded = patched_status record_patch

  -- the job is there: it was found, without a change, or there was none and it was created
  abbrev pub HasJob : Result (Option Job) Error → List Call → Type 0
  HasJob found before =
      ((job : Job) × ((found ≡ ok (some job)) × (before ≡ [])))
      ⊎ ((expected : Job) × ((job : Job) × ((found ≡ ok none)
              × ((api.job_for build ≡ ok expected)
                  × ((api.create_job expected ≡ ok job)
                      × (before ≡ done (created_job build.job_name) ∷ []))))))

  -- the job is not there, and the call that failed with this error is the reason
  abbrev pub LacksJob : Result (Option Job) Error → Error → List Call → Type 0
  LacksJob found e calls =
      ((found ≡ err e) × (calls ≡ []))
      ⊎ ((found ≡ ok none) × ((api.job_for build ≡ err e) × (calls ≡ [])))
      ⊎ ((expected : Job) × ((found ≡ ok none)
            × ((api.job_for build ≡ ok expected)
                × ((api.create_job expected ≡ err e)
                    × (calls ≡ failed_call (created_job build.job_name) ∷ [])))))

  -- after these calls: the record fails; or the record is made and the clearing fails; or both are
  -- made, and other calls may follow
  abbrev pub Records : List Call → List Call → Result BuildDecision Error → Type 0
  Records before calls r =
      ((e : Error) × ((api.patch_status record_patch ≡ err e)
          × ((r ≡ err e) × (calls ≡ before ++ failed_call recorded ∷ []))))
      ⊎ ((e : Error) × ((api.patch_status record_patch ≡ ok tt)
            × ((api.patch_annotations ≡ err e)
                × ((r ≡ err e)
                    × (calls ≡ before ++ done recorded ∷ failed_call cleared_annotations ∷ [])))))
      ⊎ ((rest : List Call) × ((api.patch_status record_patch ≡ ok tt)
            × ((api.patch_annotations ≡ ok tt)
                × (calls ≡ before ++ done recorded ∷ done cleared_annotations ∷ rest))))

  abbrev pub KeepsTrigger : Result (Option Job) Error → Action BuildDecision → Type 0
  KeepsTrigger found outcome =
      ((e : Error) × ((outcome.1 ≡ err e) × LacksJob found e outcome.0))
      ⊎ ((before : List Call) × (HasJob found before × Records before outcome.0 outcome.1))

  -- the two calls for a build that is accepted, and what follows
  start-Records :
      (before : List Call) (patched cleared : Result (Unit {0}) Error) (rest : Action BuildDecision)
      → api.patch_status record_patch ≡ patched
      → api.patch_annotations ≡ cleared
      → Records before
          (before ++ (perform recorded patched >> perform cleared_annotations cleared >> rest).0)
          (perform recorded patched >> perform cleared_annotations cleared >> rest).1
  start-Records before (err e) cleared rest p c = inl (e, (p, (refl, refl)))
  start-Records before (ok u) (err e) rest p c = inr (inl (e, (p, (c, (refl, refl)))))
  start-Records before (ok u) (ok v) rest p c = inr (inr (rest.0, (p, (c, refl))))

  watch_job-Records :
      (before : List Call) (job : Job)
      → Records before
          (before ++ (watch_job app api now true build job).0)
          (watch_job app api now true build job).1
  unfolding watch_job patch_build_status
  watch_job-Records before job =
      start-Records before (api.patch_status record_patch) api.patch_annotations _ refl refl

  -- the creation of the job, and what follows
  created-KeepsTrigger :
      (expected : Job) (created : Result Job Error)
      → api.job_for build ≡ ok expected
      → api.create_job expected ≡ created
      → KeepsTrigger (ok none) (
          perform (created_job build.job_name) created >>= λ job.
          watch_job app api now true build job)
  created-KeepsTrigger expected (err e) j c =
      inl (e, (refl, inr (inr (expected, (refl, (j, (c, refl)))))))
  created-KeepsTrigger expected (ok job) j c = inr (
    done (created_job build.job_name) ∷ [],
    (
      inr (expected, (job, (refl, (j, (c, refl))))),
      watch_job-Records (done (created_job build.job_name) ∷ []) job,
    ),
  )

  create-KeepsTrigger :
      (expected : Result Job Error)
      → api.job_for build ≡ expected
      → KeepsTrigger (ok none) (
          lift expected >>= λ expected_job.
          perform (created_job build.job_name) (api.create_job expected_job) >>= λ job.
          watch_job app api now true build job)
  create-KeepsTrigger (err e) j = inl (e, (refl, inr (inl (refl, (j, refl)))))
  create-KeepsTrigger (ok expected) j =
      created-KeepsTrigger expected (api.create_job expected) j refl

  follow-KeepsTrigger :
      (found : Result (Option Job) Error)
      → KeepsTrigger found (lift found >>= λ live_job. follow_build app api now true build live_job)
  unfolding follow_build
  follow-KeepsTrigger (err e) = inl (e, (refl, inl (refl, refl)))
  follow-KeepsTrigger (ok (some job)) =
      inr ([], (inl (job, (refl, refl)), watch_job-Records [] job))
  follow-KeepsTrigger (ok none) = create-KeepsTrigger (api.job_for build) refl

  -- When a build is asked for, the annotations that ask for it are cleared only after its job was
  -- found or, where there was none, created, and after the build was written into the status of the
  -- project, all with success. If one of these calls fails, it is the last one that is made, and its
  -- error is returned.
  pub reconcile_source_build-KeepsTrigger :
      KeepsTrigger
        (api.get_job build.job_name)
        (reconcile_source_build app api now false (ok (some build)))
  unfolding reconcile_source_build decide_build blocking_failed_build_status
  reconcile_source_build-KeepsTrigger = follow-KeepsTrigger (api.get_job build.job_name)
