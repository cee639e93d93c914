-- ===== src/Tests/SourceBuild.antt =====
-- A project with a build of its source, whose last one had failed.
use reinhardt_cloud.Base.{false, none, some, [], ◌∷◌, ◌≡◌, refl}
use reinhardt_cloud.Base.Int.{pos}
use reinhardt_cloud.Base.Result.{ok, err}
use reinhardt_cloud.Types.Crd
use reinhardt_cloud.Operator.Error.{missing_field}
use reinhardt_cloud.Operator.SourceBuild.Reconcile.{Api, reconcile_source_build}
use reinhardt_cloud.Operator.SourceBuild.Trigger.{KeepsTrigger, reconcile_source_build-KeepsTrigger}
use reinhardt_cloud.Types.Crd.{BuildStatus, ProjectStatus, Project}
use reinhardt_cloud.Operator.SourceBuild.Defs
use reinhardt_cloud.Operator.SourceBuild.Defs.{
  build_of, job_running, job_succeeded, update_production_image,
}
use reinhardt_cloud.Operator.SourceBuild.Patch
use reinhardt_cloud.Operator.SourceBuild.Patch.{transition_build_status}
use reinhardt_cloud.Operator.SourceBuild.Exclusive.{patch_of, Reports, patch_of-Reports}
use reinhardt_cloud.Operator.SourceBuild.Decisions.{gate-RollsOut}

abbrev build : BuildStatus
build = record {
  phase = Crd.pending;
  target = Crd.production;
  trigger = "abc";
  job_name = "web-build";
  image = "registry/web:abc";
  image_tag = "web-abc";
  preview_name = none;
  pr_number = none;
  branch = some "main";
  reason = none;
  message = none;
  started_at = some "monday";
  last_transition_time = some "monday";
}

abbrev status : ProjectStatus
status = record {
  phase = some Crd.degraded_phase;
  conditions =
      record {
        type = Crd.degraded;
        status = Crd.is_true;
        reason = "BuildFailed";
        message = "";
        last_transition_time = some "sunday";
        observed_generation = some (pos 1);
      }
      ∷ [];
  observed_generation = some (pos 1);
  ready_replicas = some (pos 0);
  build = some build;
  database = none;
  cache = none;
  redis_credentials_secret_uid = none;
  redis_credentials_secret_digest = none;
  worker = none;
  previews = [];
}

abbrev app : Project
app = record { name = "web"; generation = some (pos 2); has_database = false; status = some status }

patch_of-Reports_example : Reports job_running (patch_of app build job_running "tuesday" "tuesday")
patch_of-Reports_example = patch_of-Reports app build job_running "tuesday" "tuesday"

abbrev done : BuildStatus
done =
    transition_build_status app build Crd.succeeded "BuildSucceeded" "Kaniko build Job succeeded"
      "tuesday"

rolled_out :
    Defs.source_build_gate_action
      (Patch.build_decision_from_job_state app build job_succeeded "tuesday").0
    ≡ update_production_image done
unfolding Defs.source_build_gate_action Patch.build_decision_from_job_state transition_build_status
rolled_out = refl

gate-RollsOut_example :
    (job_succeeded ≡ job_succeeded)
    × (build.target ≡ Crd.production)
    × (done.image ≡ "registry/web:abc")
    × (done.phase ≡ Crd.succeeded)
gate-RollsOut_example =
    gate-RollsOut app build job_succeeded "tuesday" Crd.production done rolled_out

-- an API where the job is there already, and the annotations cannot be cleared
abbrev api : Api
api = record {
  get_job = λ name. ok (some (record { status = none; backoff_limit = none }));
  job_for = λ b. ok (record { status = none; backoff_limit = none });
  create_job = λ job. ok job;
  patch_status = λ patch. ok tt;
  patch_annotations = err (missing_field "metadata");
}

reconcile_source_build-KeepsTrigger_example :
    KeepsTrigger app api "friday" build
      (api.get_job build.job_name)
      (reconcile_source_build app api "friday" false (ok (some build)))
reconcile_source_build-KeepsTrigger_example =
    reconcile_source_build-KeepsTrigger app api "friday" build
