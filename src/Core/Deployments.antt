-- ===== src/Core/Deployments.antt =====
-- crates/reinhardt-cloud-core/src/services/deployment.rs: the statuses of a deployment, and image
-- references.
use reinhardt_cloud.Base.{
  ℕ, Bool, true, false, any, List, [], ◌∷◌, length, ◌≡◌, ◌≤◌, arith, nat_eq, ◌==◌, if◌then◌else◌,
}
use reinhardt_cloud.Base.Result.{Result, ok, err}
use reinhardt_cloud.Base.Text.{Text}
use reinhardt_cloud.Core.ApiError.{ApiError, bad_request}

-- crates/reinhardt-cloud-types/src/deployment.rs
pub data DeploymentStatus : Type 0 where
  pending running failed succeeded : DeploymentStatus

unfoldable pub is_transition : DeploymentStatus → DeploymentStatus → Bool
is_transition pending running = true
is_transition pending failed = true
is_transition running succeeded = true
is_transition running failed = true
is_transition _ _ = false

unfoldable pub validate_status_transition :
    DeploymentStatus → DeploymentStatus → Result (Unit {0}) ApiError
unfolding is_transition
validate_status_transition current target =
    if is_transition current target
    then ok tt
    else err (bad_request "invalid status transition from {current:?} to {target:?}")

abbrev pub space : ℕ
space = 32

unfoldable pub validate_image_ref : Text → Result (Unit {0}) ApiError
validate_image_ref [] = err (bad_request "image reference cannot be empty")
validate_image_ref (c ∷ cs) =
    if any (λ b. b == space) (c ∷ cs)
    then err (bad_request "image reference must not contain spaces")
    else ok tt

-- each status of the list follows the one before it by a transition that is allowed
abbrev pub IsHistory : DeploymentStatus → List DeploymentStatus → Type 0
IsHistory s [] = Unit
IsHistory s (t ∷ ts) = (validate_status_transition s t ≡ ok tt) × IsHistory t ts

-- how many transitions a status is from the end at most
abbrev pub left : DeploymentStatus → ℕ
left pending = 2
left running = 1
left failed = 0
left succeeded = 0

transition-left :
    (s t : DeploymentStatus) → validate_status_transition s t ≡ ok tt → ℕ.suc (left t) ≤ left s
unfolding validate_status_transition is_transition
transition-left s t h = ground (arith, h)

history-left :
    (s : DeploymentStatus) (ts : List DeploymentStatus) → IsHistory s ts → length ts ≤ left s
history-left s [] h = ground arith
history-left s (t ∷ ts) h = omega (arith, transition-left s t h.0, history-left t ts h.1)

-- A deployment has two transitions at most, whatever its status, and none from a status that says
-- that it failed or succeeded.
pub history_bound :
    (s : DeploymentStatus) (ts : List DeploymentStatus)
    → IsHistory s ts
    → (length ts ≤ 2) × (length ts ≤ left s)
history_bound s ts h =
    let most : left s ≤ 2 = ground arith in
    (omega (arith, most, history-left s ts h), history-left s ts h)
