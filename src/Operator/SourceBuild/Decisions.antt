-- ===== src/Operator/SourceBuild/Decisions.antt =====
-- What follows from the state of a build's job, and that asking again changes nothing.
use reinhardt_cloud.Base.{
  String, Bool, true, Option, none, some, ◌≡◌, refl, ap, sym, arith, ==_refl, string_eq, ◌==◌,
  nat_eq, ◌&&◌,
}
use reinhardt_cloud.Types.Crd.{
  BuildPhase, succeeded, BuildTargetKind, production, preview, BuildStatus, ProjectStatus, Project,
}
use reinhardt_cloud.Operator.SourceBuild.Defs.{
  JobBuildState, job_running, job_succeeded, job_failed, SourceBuildGateAction,
  update_production_image, update_preview, source_build_gate_action, is_phase, phase_tag,
  filter_option, or_else,
}
use reinhardt_cloud.Operator.SourceBuild.Patch.{
  transition_build_status, preserved_build_time, build_decision_from_job_state,
}

-- what the gate does for a build whose job is in a state
abbrev pub gate : Project → BuildStatus → JobBuildState → String → SourceBuildGateAction
gate app build job_state now =
    source_build_gate_action (build_decision_from_job_state app build job_state now).0

-- the action rolls out an image of this target
abbrev pub RollsOut : SourceBuildGateAction → BuildTargetKind → BuildStatus → Type 0
RollsOut action production b = action ≡ update_production_image b
RollsOut action preview b = action ≡ update_preview b

routed :
    (t target : BuildTargetKind) (s b : BuildStatus)
    → RollsOut
        (elim t [ production ↦ update_production_image s | preview ↦ update_preview s ])
        target
        b
    → (t ≡ target) × (s ≡ b)
routed production production s b h = (refl, ground arith)
routed production preview s b h = absurd (ground arith)
routed preview production s b h = absurd (ground arith)
routed preview preview s b h = (refl, ground arith)

rolled_out :
    (app : Project) (build : BuildStatus) (now : String) (target : BuildTargetKind)
    (b : BuildStatus)
    → RollsOut (gate app build job_succeeded now) target b
    → (job_succeeded ≡ job_succeeded)
      × (build.target ≡ target)
      × (b.image ≡ build.image)
      × (b.phase ≡ succeeded)
unfolding source_build_gate_action build_decision_from_job_state transition_build_status
rolled_out app build now target b h =
    let (same_target, same_build) = routed build.target target _ b h in
    (refl, same_target, sym (ap (λ s. s.image) same_build), sym (ap (λ s. s.phase) same_build))

-- An image is rolled out to a target only after its build's job has succeeded; it is the image of
-- that build, and the target is the build's own.
pub gate-RollsOut :
    (app : Project) (build : BuildStatus) (job_state : JobBuildState) (now : String)
    (target : BuildTargetKind) (b : BuildStatus)
    → RollsOut (gate app build job_state now) target b
    → (job_state ≡ job_succeeded)
      × (build.target ≡ target)
      × (b.image ≡ build.image)
      × (b.phase ≡ succeeded)
unfolding source_build_gate_action build_decision_from_job_state transition_build_status
gate-RollsOut app build job_running now production b h = absurd (ground arith)
gate-RollsOut app build job_running now preview b h = absurd (ground arith)
gate-RollsOut app build (job_failed reason message) now production b h = absurd (ground arith)
gate-RollsOut app build (job_failed reason message) now preview b h = absurd (ground arith)
gate-RollsOut app build job_succeeded now production b h = rolled_out app build now production b h
gate-RollsOut app build job_succeeded now preview b h = rolled_out app build now preview b h

-- a project with this build in its status
abbrev pub with_build : Project → ProjectStatus → BuildStatus → Project
with_build app status build = record app { status = some (record status { build = some build }) }

is_phase_refl : (p : BuildPhase) → is_phase p p ≡ true
unfolding is_phase
is_phase_refl p = ==_refl (phase_tag p)

kept_if :
    (p : BuildStatus → Bool) (b : BuildStatus)
    → p b ≡ true
    → Path
        (Option String)
        (elim (filter_option p (some b)) [ none ↦ none | some e ↦ e.last_transition_time ])
        b.last_transition_time
kept_if p b h = rw h refl

-- the time of a stored transition is preserved
stored_time :
    (app : Project) (status : ProjectStatus) (build : BuildStatus) (phase : BuildPhase)
    (reason message now : String)
    → preserved_build_time
        (with_build app status (transition_build_status app build phase reason message now))
        build
        phase
      ≡ (transition_build_status app build phase reason message now).last_transition_time
unfolding preserved_build_time transition_build_status
stored_time app status build phase reason message now =
    kept_if
      (λ existing.
        is_phase existing.phase phase
        && (existing.trigger == build.trigger)
        && (existing.job_name == build.job_name))
      (transition_build_status app build phase reason message now)
      (rw (is_phase_refl phase, ==_refl build.trigger, ==_refl build.job_name) refl)

-- If a transition has been stored and the job is found in the same state again, the transition
-- gives the stored build, with the time of the first one.
pub transition_build_status-again :
    (app : Project) (status : ProjectStatus) (build : BuildStatus) (phase : BuildPhase)
    (reason message now later : String)
    → transition_build_status
        (with_build app status (transition_build_status app build phase reason message now))
        build
        phase
        reason
        message
        later
      ≡ transition_build_status app build phase reason message now
unfolding transition_build_status
transition_build_status-again app status build phase reason message now later = λ i. record build {
  phase = phase;
  reason = some reason;
  message = some message;
  last_transition_time =
      some (or_else later (stored_time app status build phase reason message now i));
}
