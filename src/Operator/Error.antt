-- ===== src/Operator/Error.antt =====
-- crates/reinhardt-cloud-operator/src/error.rs: the operator's errors and their backoff classes.
use reinhardt_cloud.Base.{ℕ, zero, suc, String, List, ◌≡◌, refl, nat_eq, ◌==◌, ◌||◌, if◌then◌else◌}
use reinhardt_cloud.Base.Int.{ℤ}

-- `kube::Error`: an answer of the API with its code, or any other
pub data KubeError : Type 0 where
  api : ℕ → KubeError
  other : KubeError

-- An error, and what a `Box<dyn Error>` can hold: an error of this type, which `downcast_ref` finds,
-- or another one, with or without a source.
mutual
  pub data Error : Type 0 where
    kube : KubeError → Error
    serialization : Error
    finalizer : Source → Error
    missing_field : String → Error
    missing_namespace : String → Error
    owner_reference : String → Error
    -- kind, namespace, name, project_namespace, project_name
    resource_ownership_conflict : String → String → String → String → String → Error
    -- field, port
    invalid_port : String → ℤ → Error
    -- field, seconds
    invalid_probe_period : String → ℤ → Error
    invalid_static_root : String → Error
    conflicting_pages_env : List String → Error
    -- namespace, name, project_uid
    service_account_ownership : String → String → String → Error
    -- app, secret, allowed_prefixes
    invalid_image_pull_secret : String → String → String → Error
    database_provisioning : String → Error
    platform_controller_missing : String → Error
    secret_generation : String → Error
    credentials_missing : String → Error
    -- actual, expected
    invalid_credentials_secret : String → String → Error
    build_failed : String → Error
    plugin_config_render : String → Error
    invalid_plugin_spec : String → Error
    -- expected, actual
    tenant_mismatch : String → String → Error
    invalid_tenant : String → Error
    invalid_ingress_host : String → Error
    invalid_budget : String → Error
    -- namespace, remaining
    preview_projects_terminating : String → ℕ → Error
    namespace_not_provisioned : String → Error

  pub data Source : Type 0 where
    typed : Error → Source
    wrapping : Source → Source
    bare : Source

pub data BackoffClass : Type 0 where
  transient dependency_not_ready permanent ownership_conflict : BackoffClass

unfoldable pub as_metric_label : BackoffClass → String
as_metric_label transient = "transient"
as_metric_label dependency_not_ready = "dependency_not_ready"
as_metric_label permanent = "permanent"
as_metric_label ownership_conflict = "ownership_conflict"

unfoldable pub kube_status_class : KubeError → BackoffClass
kube_status_class (api code) =
    if code == 404 || code == 409 then dependency_not_ready else transient
kube_status_class other = transient

unfoldable mutual
  unfolding kube_status_class

  pub backoff_class : Error → BackoffClass
  backoff_class (missing_field _) = permanent
  backoff_class (invalid_port _ _) = permanent
  backoff_class (invalid_probe_period _ _) = permanent
  backoff_class (invalid_static_root _) = permanent
  backoff_class (conflicting_pages_env _) = permanent
  backoff_class (invalid_plugin_spec _) = permanent
  backoff_class (database_provisioning _) = permanent
  backoff_class (service_account_ownership _ _ _) = permanent
  backoff_class (invalid_image_pull_secret _ _ _) = permanent
  backoff_class (tenant_mismatch _ _) = permanent
  backoff_class (invalid_tenant _) = permanent
  backoff_class (invalid_budget _) = permanent
  backoff_class (invalid_ingress_host _) = permanent
  backoff_class (invalid_credentials_secret _ _) = permanent
  backoff_class (resource_ownership_conflict _ _ _ _ _) = ownership_conflict
  backoff_class (kube kube_err) = kube_status_class kube_err
  backoff_class (preview_projects_terminating _ _) = dependency_not_ready
  backoff_class (namespace_not_provisioned _) = dependency_not_ready
  backoff_class (finalizer source) = nested_backoff_class source
  backoff_class _ = transient

  -- the loop that follows `source()`
  pub nested_backoff_class : Source → BackoffClass
  nested_backoff_class (typed error) = backoff_class error
  nested_backoff_class (wrapping next) = nested_backoff_class next
  nested_backoff_class bare = transient

-- `error` inside `n` errors of other types
abbrev pub wrapped : ℕ → Error → Source
wrapped zero error = typed error
wrapped (suc n) error = wrapping (wrapped n error)

nested-wrapped :
    (n : ℕ) (error : Error) → nested_backoff_class (wrapped n error) ≡ backoff_class error
unfolding backoff_class nested_backoff_class
nested-wrapped zero error = refl
nested-wrapped (suc n) error = nested-wrapped n error

-- An error that comes back through the finalizer, however deep it is wrapped there, has the class
-- that it has by itself.
pub backoff_class-finalizer :
    (n : ℕ) (error : Error) → backoff_class (finalizer (wrapped n error)) ≡ backoff_class error
unfolding backoff_class nested_backoff_class
backoff_class-finalizer n error = nested-wrapped n error
