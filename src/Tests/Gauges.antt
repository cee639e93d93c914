-- ===== src/Tests/Gauges.antt =====
-- Two projects that get ready, and one that is deleted.
use reinhardt_cloud.Base.{String, List, [], ◌∷◌, ◌≡◌, string_eq, pair_eq}
use reinhardt_cloud.Base.Int.{pos}
use reinhardt_cloud.Base.Map.{Map, IsUnique, get}
use reinhardt_cloud.Types.Crd.{deploying_phase, running_phase}
use reinhardt_cloud.Operator.Gauges.Defs.{phase_label}
use reinhardt_cloud.Operator.Gauges.Counts
use reinhardt_cloud.Operator.Gauges.Counts.{
  Op, last_phase, count_label, apply_all, managed_apps_lem,
}

abbrev web : String × String
web = ("prod", "web")

abbrev shop : String × String
shop = ("prod", "shop")

abbrev ops : List (Op (String × String))
ops =
    Counts.clean_up web
    ∷ Counts.record_phase shop (phase_label running_phase)
    ∷ Counts.record_phase web (phase_label running_phase)
    ∷ Counts.record_phase web (phase_label deploying_phase)
    ∷ []

managed_apps_lem_example :
    (m : Map (String × String) String) × (IsUnique m
      × (((key : String × String) → get key m ≡ last_phase key ops)
          × ((l : String) → (apply_all ops).managed_apps l ≡ pos (count_label l m))))
managed_apps_lem_example = managed_apps_lem ops
