-- ===== src/Operator/Conditions.antt =====
-- crates/reinhardt-cloud-operator/src/reconciler.rs: the list of a project's conditions
-- (`build_condition`, `should_update_transition_time` and `upsert_project_condition`).
use mathlib.Core.Option
use mathlib.Core.Option.{some-injective}
use reinhardt_cloud.Base.{
  String, Bool, true, Option, none, some, List, [], ◌∷◌, ◌≡◌, refl, ap, sym, subst, ◌==◌, not,
  if◌then◌else◌, arith, Bool-cases, inl, inr,
}
use reinhardt_cloud.Types.Crd.{
  ConditionType, ConditionStatus, condition_type_eq, condition_status_eq, type_beq_iff,
  ProjectCondition, Project,
}

abbrev pub Conditions : Type 0
Conditions = List ProjectCondition

-- `conditions.iter().find(|condition| condition.type_ == type_)`
unfoldable pub find_condition : ConditionType → Conditions → Option ProjectCondition
find_condition t [] = none
find_condition t (c ∷ cs) = if c.type == t then some c else find_condition t cs

-- the conditions of an object, none if it has no status yet
abbrev pub conditions_of : Project → Conditions
conditions_of app = elim app.status [ none ↦ List.[] | some status ↦ status.conditions ]

unfoldable pub should_update_transition_time : Option ConditionStatus → ConditionStatus → Bool
should_update_transition_time none new_status = true
should_update_transition_time (some existing) new_status = not (existing == new_status)

-- the time of a condition: that of the existing one if its status is the same, or else `now`
unfoldable pub transition_time : Option ProjectCondition → ConditionStatus → String → Option String
unfolding should_update_transition_time
transition_time none status now =
    if should_update_transition_time none status then some now else none
transition_time (some existing) status now =
    if should_update_transition_time (some existing.status) status
    then some now
    else existing.last_transition_time

-- `now` is what `chrono::Utc::now().to_rfc3339()` would give at that point
unfoldable pub build_condition :
    Project → ConditionType → ConditionStatus → String → String → String → ProjectCondition
unfolding find_condition transition_time
build_condition app condition_type status reason message now = record {
  type = condition_type;
  status = status;
  reason = reason;
  message = message;
  last_transition_time =
      transition_time (find_condition condition_type (conditions_of app)) status now;
  observed_generation = app.generation;
}

unfoldable pub upsert_project_condition : ProjectCondition → Conditions → Conditions
upsert_project_condition next [] = next ∷ []
upsert_project_condition next (existing ∷ cs) =
    if existing.type == next.type then next ∷ cs else existing ∷ upsert_project_condition next cs

-- `for condition in child_conditions { upsert_project_condition(&mut conditions, condition) }`
unfoldable pub upsert_all : List ProjectCondition → Conditions → Conditions
upsert_all [] cs = cs
upsert_all (c ∷ children) cs = upsert_all children (upsert_project_condition c cs)

-- What is found after an upsert: the new condition at its own type, and what was there at others.
pub find-upsert :
    (c : ProjectCondition) (t : ConditionType) (cs : Conditions)
    → find_condition t (upsert_project_condition c cs)
      ≡ (if c.type == t then some c else find_condition t cs)
unfolding find_condition upsert_project_condition
find-upsert c t [] = refl
find-upsert c t (d ∷ cs) = ground (
  arith,
  type_beq_iff c.type t,
  type_beq_iff d.type t,
  type_beq_iff d.type c.type,
  find-upsert c t cs,
)

-- what is there already is not changed by an upsert
pub upsert_present :
    (c : ProjectCondition) (cs : Conditions)
    → find_condition c.type cs ≡ some c
    → upsert_project_condition c cs ≡ cs
unfolding find_condition upsert_project_condition
upsert_present c [] h = absurd (ground arith)
upsert_present c (d ∷ cs) h = elim (Bool-cases (d.type == c.type)) [
  | inl same ↦ rw same (ap (λ e. e ∷ cs) (sym (some-injective d c (rw same at h))))
  | inr other ↦ rw other (ap (λ l. d ∷ l) (upsert_present c cs (rw other at h)))
]

-- no type stands twice
unfoldable pub HasDistinctTypes : Conditions → Type 0
HasDistinctTypes [] = Unit
HasDistinctTypes (c ∷ cs) = (find_condition c.type cs ≡ none) × HasDistinctTypes cs

pub upsert-HasDistinctTypes :
    (c : ProjectCondition) (cs : Conditions)
    → HasDistinctTypes cs
    → HasDistinctTypes (upsert_project_condition c cs)
unfolding HasDistinctTypes find_condition upsert_project_condition
upsert-HasDistinctTypes c [] h = (refl, tt)
upsert-HasDistinctTypes c (d ∷ cs) h = elim (Bool-cases (d.type == c.type)) [
  | inl same ↦
      let e : d.type ≡ c.type = (type_beq_iff d.type c.type).0 same in
      rw same (subst (λ t. find_condition t cs ≡ none) e h.0, h.1)
  | inr other ↦
      let gone : find_condition d.type (upsert_project_condition c cs) ≡ none = ground (
        arith,
        find-upsert c d.type cs,
        h.0,
        type_beq_iff c.type d.type,
        type_beq_iff d.type c.type,
      ) in
      rw other (gone, upsert-HasDistinctTypes c cs h.1)
]

-- the status that a list gives to a type of condition
abbrev pub status_at : ConditionType → Conditions → Option ConditionStatus
status_at t cs = Option.map (λ c. c.status) (find_condition t cs)
