-- ===== src/Operator/SourceBuild/Preview.antt =====
-- The patch that clears the build of a preview that is deleted.
use mathlib.Core.Option
use mathlib.Core.Option.{some-injective}
use reinhardt_cloud.Base.{
  String, Bool, true, false, ◌&&◌, ◌||◌, not, Option, none, some, ◌≡◌, ◌∙◌, refl, ap, sym, subst,
  Bool-cases, ◌==◌, string_eq, text_append, inl, inr, arith,
}
use reinhardt_cloud.Base.Int.{ℤ}
use reinhardt_cloud.Types.Crd.{
  progressing, degraded, condition_type_eq, type_beq, is_false, BuildTargetKind, production,
  preview, BuildStatus, Project,
}
use reinhardt_cloud.Operator.Conditions.{Conditions, status_at, conditions_of}
use reinhardt_cloud.Operator.SourceBuild.Defs.{build_of, filter_option}
use reinhardt_cloud.Operator.SourceBuild.Patch.{
  build_condition, preserve_transition_time, upsert_condition,
}
use reinhardt_cloud.Operator.SourceBuild.Exclusive.{status-upsert}

abbrev pub is_preview : BuildTargetKind → Bool
is_preview production = false
is_preview preview = true

-- `option.as_deref() == Some(text)`
abbrev pub holds : Option String → String → Bool
holds none text = false
holds (some t) text = t == text

unfoldable pub preview_build_matches : BuildStatus → String → String → Bool
preview_build_matches build pr_number preview_name =
    is_preview build.target
    && ((not (pr_number == "") && holds build.pr_number pr_number)
        || holds build.preview_name preview_name)

unfoldable pub matching_preview_build_status : Project → String → String → Option BuildStatus
unfolding preview_build_matches
matching_preview_build_status app pr_number preview_name =
    filter_option (λ b. preview_build_matches b pr_number preview_name) (build_of app)

-- the fields of the merge patch; the build is set to null
pub record ClearPatch : Type 0 where
  pub conditions : Conditions
  pub observed_generation : Option ℤ

unfoldable pub cleared_conditions : Project → String → String → Conditions
unfolding preserve_transition_time
cleared_conditions app message now =
    upsert_condition
      (preserve_transition_time app
        (build_condition degraded is_false "PreviewDeleted" message app.generation now))
      (upsert_condition
        (preserve_transition_time app
          (build_condition progressing is_false "PreviewDeleted" message app.generation now))
        (conditions_of app))

unfoldable pub clear_preview_build_status_patch :
    Project → String → String → String → Option ClearPatch
unfolding matching_preview_build_status cleared_conditions
clear_preview_build_status_patch app pr_number preview_name now =
    Option.map
      (λ _. record {
        conditions =
            cleared_conditions app
              (text_append "Preview build for "
                (text_append preview_name " was cancelled because the preview was deleted"))
              now;
        observed_generation = app.generation;
      })
      (matching_preview_build_status app pr_number preview_name)

cleared_statuses :
    (app : Project) (message now : String)
    → (status_at progressing (cleared_conditions app message now) ≡ some is_false)
      × (status_at degraded (cleared_conditions app message now) ≡ some is_false)
unfolding cleared_conditions preserve_transition_time type_beq
cleared_statuses app message now = (
  status-upsert _ progressing _ ∙ status-upsert _ progressing (conditions_of app),
  status-upsert _ degraded _,
)

constant_some :
    {A B : Type 0} (o : Option A) (q p : B)
    → Option.map (λ _. q) o ≡ some p
    → (q ≡ p) × ((a : A) × (o ≡ some a))
constant_some none q p h = absurd (ground arith)
constant_some (some a) q p h = (some-injective q p h, (a, refl))

filtered_some :
    {A : Type 0} (f : A → Bool) (o : Option A) (a : A)
    → filter_option f o ≡ some a
    → (o ≡ some a) × (f a ≡ true)
filtered_some f none a h = absurd (ground arith)
filtered_some f (some c) a h = elim (Bool-cases (f c)) [
  | inl held ↦
      let e : c ≡ a = some-injective c a (rw held at h) in
      (ap some e, subst (λ x. f x ≡ true) e held)
  | inr lost ↦ absurd (ground (arith, lost))
]

of_preview : (t : BuildTargetKind) (rest : Bool) → (is_preview t && rest) ≡ true → t ≡ preview
of_preview production rest h = absurd (ground arith)
of_preview preview rest h = refl

-- If a deleted preview has a patch, the build in the status is a preview's, and after the patch the
-- project neither progresses nor is degraded.
pub clear_preview_build_status_patch_lem :
    (app : Project) (pr_number preview_name now : String) (p : ClearPatch)
    → clear_preview_build_status_patch app pr_number preview_name now ≡ some p
    → (status_at progressing p.conditions ≡ some is_false)
      × (status_at degraded p.conditions ≡ some is_false)
      × ((b : BuildStatus) × (build_of app ≡ some b) × (b.target ≡ preview))
unfolding clear_preview_build_status_patch matching_preview_build_status preview_build_matches
clear_preview_build_status_patch_lem app pr_number preview_name now p h =
    let (same, (b, matched)) =
      constant_some (matching_preview_build_status app pr_number preview_name) _ p h in
    let (here, passed) = filtered_some _ (build_of app) b matched in
    let (stopped, clear) = cleared_statuses app _ now in
    (
      ap (λ (q : ClearPatch). status_at progressing q.conditions) (sym same) ∙ stopped,
      ap (λ (q : ClearPatch). status_at degraded q.conditions) (sym same) ∙ clear,
      (b, here, of_preview b.target _ passed),
    )
