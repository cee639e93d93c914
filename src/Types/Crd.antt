-- ===== src/Types/Crd.antt =====
-- crates/reinhardt-cloud-types/src/crd/status.rs and enums.rs: the status of a `Project`.
use reinhardt_cloud.Base.{
  ℕ, zero, suc, String, Bool, true, Option, List, ◌↔◌, ◌≡◌, Eq, nat_beq, nat_beq_iff, refl, sym, ap,
  ◌∙◌,
}
use reinhardt_cloud.Base.Int.{ℤ}

pub data ConditionType : Type 0 where
  ready progressing degraded migration_ready database_ready : ConditionType
  cache_ready worker_ready ingress_ready tls_ready autoscaler_ready : ConditionType

pub data ConditionStatus : Type 0 where
  is_true is_false unknown : ConditionStatus

-- the place of a variant, by which the derived equality compares
abbrev pub type_tag : ConditionType → ℕ
type_tag ready = 0
type_tag progressing = 1
type_tag degraded = 2
type_tag migration_ready = 3
type_tag database_ready = 4
type_tag cache_ready = 5
type_tag worker_ready = 6
type_tag ingress_ready = 7
type_tag tls_ready = 8
type_tag autoscaler_ready = 9

abbrev type_at : ℕ → ConditionType
type_at zero = ready
type_at (suc zero) = progressing
type_at (suc (suc zero)) = degraded
type_at (suc (suc (suc zero))) = migration_ready
type_at (suc (suc (suc (suc zero)))) = database_ready
type_at (suc (suc (suc (suc (suc zero))))) = cache_ready
type_at (suc (suc (suc (suc (suc (suc zero)))))) = worker_ready
type_at (suc (suc (suc (suc (suc (suc (suc zero))))))) = ingress_ready
type_at (suc (suc (suc (suc (suc (suc (suc (suc zero)))))))) = tls_ready
type_at _ = autoscaler_ready

type_at-tag : (t : ConditionType) → type_at (type_tag t) ≡ t
type_at-tag ready = refl
type_at-tag progressing = refl
type_at-tag degraded = refl
type_at-tag migration_ready = refl
type_at-tag database_ready = refl
type_at-tag cache_ready = refl
type_at-tag worker_ready = refl
type_at-tag ingress_ready = refl
type_at-tag tls_ready = refl
type_at-tag autoscaler_ready = refl

abbrev pub status_tag : ConditionStatus → ℕ
status_tag is_true = 0
status_tag is_false = 1
status_tag unknown = 2

abbrev status_at : ℕ → ConditionStatus
status_at zero = is_true
status_at (suc zero) = is_false
status_at _ = unknown

status_at-tag : (t : ConditionStatus) → status_at (status_tag t) ≡ t
status_at-tag is_true = refl
status_at-tag is_false = refl
status_at-tag unknown = refl

-- equality by a tag that determines the value
tag_beq_iff {ℓ} :
    {A : Type ℓ} (tag : A → ℕ) (back : ℕ → A)
    → ((a : A) → back (tag a) ≡ a)
    → (a b : A) → (nat_beq (tag a) (tag b) ≡ true) ↔ (a ≡ b)
tag_beq_iff tag back inv a b = (
  λ h. sym (inv a) ∙ ap back ((nat_beq_iff (tag a) (tag b)).0 h) ∙ inv b,
  λ e. (nat_beq_iff (tag a) (tag b)).1 (ap tag e),
)

unfoldable pub type_beq : ConditionType → ConditionType → Bool
type_beq a b = nat_beq (type_tag a) (type_tag b)

unfoldable pub status_beq : ConditionStatus → ConditionStatus → Bool
status_beq a b = nat_beq (status_tag a) (status_tag b)

pub type_beq_iff : (a b : ConditionType) → (type_beq a b ≡ true) ↔ (a ≡ b)
unfolding type_beq
type_beq_iff = tag_beq_iff type_tag type_at type_at-tag

pub status_beq_iff : (a b : ConditionStatus) → (status_beq a b ≡ true) ↔ (a ≡ b)
unfolding status_beq
status_beq_iff = tag_beq_iff status_tag status_at status_at-tag

instance abbrev pub condition_type_eq : Eq ConditionType
condition_type_eq = record { beq = type_beq; beq_iff = type_beq_iff }

instance abbrev pub condition_status_eq : Eq ConditionStatus
condition_status_eq = record { beq = status_beq; beq_iff = status_beq_iff }

pub record ProjectCondition : Type 0 where
  -- `type_`
  pub type : ConditionType
  pub status : ConditionStatus
  pub reason : String
  pub message : String
  pub last_transition_time : Option String
  pub observed_generation : Option ℤ

pub data ProjectPhase : Type 0 where
  pending_phase provisioning_phase deploying_phase running_phase : ProjectPhase
  degraded_phase failed_phase terminating_phase : ProjectPhase

-- the lifecycle of a source build
pub data BuildPhase : Type 0 where
  pending running succeeded failed : BuildPhase

pub data BuildTargetKind : Type 0 where
  production preview : BuildTargetKind

pub record BuildStatus : Type 0 where
  pub phase : BuildPhase
  pub target : BuildTargetKind
  pub trigger : String
  pub job_name : String
  pub image : String
  pub image_tag : String
  pub preview_name : Option String
  pub pr_number : Option String
  pub branch : Option String
  pub reason : Option String
  pub message : Option String
  pub started_at : Option String
  pub last_transition_time : Option String

-- `ResourcePhase` of crd/database.rs
pub data ResourcePhase : Type 0 where
  resource_pending resource_provisioning resource_ready resource_failed : ResourcePhase

pub record DatabaseStatus : Type 0 where
  pub phase : ResourcePhase
  pub endpoint : Option String
  pub credentials_secret : Option String

pub record CacheStatus : Type 0 where
  pub phase : ResourcePhase
  pub endpoint : Option String

pub record WorkerStatus : Type 0 where
  pub ready_replicas : Option ℤ

pub record PreviewStatus : Type 0 where
  pub name : String
  pub pr_number : String
  pub url : Option String
  pub phase : Option ProjectPhase
  pub ready_replicas : Option ℤ
  pub last_activity : Option String

pub record ProjectStatus : Type 0 where
  pub phase : Option ProjectPhase
  pub conditions : List ProjectCondition
  pub observed_generation : Option ℤ
  pub ready_replicas : Option ℤ
  pub build : Option BuildStatus
  pub database : Option DatabaseStatus
  pub cache : Option CacheStatus
  pub redis_credentials_secret_uid : Option String
  pub redis_credentials_secret_digest : Option String
  pub worker : Option WorkerStatus
  pub previews : List PreviewStatus

-- What the operator's status functions read of a `Project`: its name, its generation, whether its
-- spec has a database, and its status.
pub record Project : Type 0 where
  pub name : String
  pub generation : Option ℤ
  pub has_database : Bool
  pub status : Option ProjectStatus
