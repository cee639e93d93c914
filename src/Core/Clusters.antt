-- ===== src/Core/Clusters.antt =====
-- crates/reinhardt-cloud-core/src/services/cluster.rs: the names of clusters.
pub mod Names
use reinhardt_cloud.Base.{
  String, Bool, not, ◌&&◌, ◌||◌, true, false, List, [], ◌∷◌, length, all, ltb, nat_eq, ◌==◌,
  if◌then◌else◌, ℕ,
}
use reinhardt_cloud.Base.Result.{Result, ok, err}
use reinhardt_cloud.Base.Text.{Text, dash, last, is_ascii_lowercase, is_ascii_digit}
use reinhardt_cloud.Core.ApiError.{ApiError, bad_request}

-- the closure of `chars().all(..)`
unfoldable pub is_name_char : ℕ → Bool
unfolding is_ascii_lowercase is_ascii_digit
is_name_char c = is_ascii_lowercase c || is_ascii_digit c || (c == dash)

unfoldable pub validate_cluster_name : Text → Result (Unit {0}) ApiError
unfolding is_name_char last
validate_cluster_name [] = err (bad_request "cluster name cannot be empty")
validate_cluster_name (first ∷ rest) =
    if ltb 63 (length (first ∷ rest))
    then err (bad_request "cluster name must be 63 characters or fewer")
    else if not (all is_name_char (first ∷ rest))
    then err
        (bad_request "cluster name must contain only lowercase alphanumeric characters and hyphens")
    else if (first == dash) || (last first rest == dash)
    then err (bad_request "cluster name must not start or end with a hyphen")
    else ok tt
