-- ===== src/Grpc/Agent/Refused.antt =====
-- Calls whose caller is not known to be an agent of a cluster.
use reinhardt_cloud.Base.{String, Bool, Option, none, some, List, ◌≡◌, ◌⊎◌, refl, inl, inr, arith}
use reinhardt_cloud.Base.Result.{Result, err}
use reinhardt_cloud.Types.Basic.{DateTime}
use reinhardt_cloud.Grpc.Wire.{Wire, Status, Timestamp, permission_denied}
use reinhardt_cloud.Grpc.Registry.Defs.{AgentRegistry, Sender}
use reinhardt_cloud.Grpc.Agent.Codec.{PbAgentEvent}
use reinhardt_cloud.Grpc.Agent.Service.{
  AgentHealthReport, authenticated_cluster_id, serve_agent_stream, serve_report_health,
  serve_report_deploy_status,
}

-- the token named no cluster
abbrev pub IsUnknown : Wire → Option String → Type 0
IsUnknown w claims =
    (claims ≡ none) ⊎ ((text : String) × ((claims ≡ some text) × (w.parse_uuid text ≡ none)))

-- a refusal that permits nothing
abbrev pub IsDenial : Status → Type 0
IsDenial status = (message : String) × (status ≡ permission_denied message)

unknown-denied :
    (w : Wire) (claims : Option String)
    → IsUnknown w claims
    → (message : String) × (authenticated_cluster_id w claims ≡ err (permission_denied message))
unfolding authenticated_cluster_id
unknown-denied w none h = ("Agent identity required", refl)
unknown-denied w (some text) (inl h) = absurd (ground (arith, h))
unknown-denied w (some text) (inr (other, (here, bad))) =
    ("Agent token carries an invalid cluster_id", ground (arith, here, bad))

module _ (w : Wire) (r : AgentRegistry) (claims : Option String) (unknown : IsUnknown w claims)
    (now : DateTime) where
  -- A call without a token, or whose token does not name a cluster, is denied with one and the same
  -- status by all three methods, whatever it sends, and the registry stays as it is.
  pub unknown-refused :
      (incoming : List (Result PbAgentEvent String)) (tx : Sender) (report : AgentHealthReport)
      (project_name : String) (success : Bool) (message : String) (timestamp : Option Timestamp)
      → (denied : String) × (serve_agent_stream w r claims incoming now tx
          ≡ (r, err (permission_denied denied)))
        × (serve_report_health w r claims report now ≡ (r, err (permission_denied denied)))
        × (serve_report_deploy_status w claims now project_name success message timestamp
            ≡ err (permission_denied denied))
  unfolding serve_agent_stream serve_report_health serve_report_deploy_status
  unknown-refused incoming tx report project_name success message timestamp =
      let (denied, refused) = unknown-denied w claims unknown in
      (
        denied,
        rw (refused, serve_agent_stream) refl,
        rw (refused, serve_report_health) refl,
        rw (refused, serve_report_deploy_status) refl,
      )
