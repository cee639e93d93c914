-- ===== src/Grpc/Agent/Ended.antt =====
-- A stream that ends, and what its tasks leave behind.
use reinhardt_cloud.Base.{
  ◌≡◌, refl, ◌∙◌, inl, inr, Bool, false, Bool-cases, none, some, List, [], ◌∷◌, arith, nat_eq, ◌==◌,
  if_intro, if◌then◌else◌, Option-cases,
}
use reinhardt_cloud.Base.Map.{get, get-remove, get-insert}
use reinhardt_cloud.Base.Result.{Result, ok, err}
use reinhardt_cloud.Types.Basic.{Uuid, DateTime}
use reinhardt_cloud.Types.Agent as Agent
use reinhardt_cloud.Types.Agent.{AgentEvent}
use reinhardt_cloud.Core.ApiError.{ApiError}
use reinhardt_cloud.Grpc.Registry.Defs.{AgentRegistry, heartbeat, unregister_if}
use reinhardt_cloud.Grpc.Registry.Fields.{field-heartbeat}
use reinhardt_cloud.Grpc.Registry.Generations.{generation_at}
use reinhardt_cloud.Grpc.Agent.Service.{Session, pump_event, end_task, pump}

heartbeat-other :
    (r : AgentRegistry) (i k : Uuid) (now : DateTime)
    → (i == k) ≡ false
    → get k (heartbeat r i now).agents ≡ get k r.agents
unfolding heartbeat
heartbeat-other r i k now ne = elim (Option-cases (get i r.agents)) [
  | inl gone ↦ rw (gone, heartbeat) refl
  | inr (c, here) ↦
      ground (arith, here, ne, get-insert i k (record c { last_heartbeat = now }) r.agents)
]

module _ (s : Session) where
  abbrev IsCurrent : AgentRegistry → Type 0
  IsCurrent r = generation_at r s.agent_id ≡ some s.generation

  pump_event-IsCurrent :
      (r : AgentRegistry) (now : DateTime) (event : Result AgentEvent ApiError)
      → IsCurrent r
      → IsCurrent (pump_event s r now event).0
  unfolding pump_event
  pump_event-IsCurrent r now (ok (Agent.heartbeat id t)) h =
      if_intro (λ (p : AgentRegistry × Bool). IsCurrent p.0) (id == s.agent_id)
        (λ _.
          field-heartbeat (λ c. c.generation) (λ c now. refl) (λ c h now. refl) r s.agent_id id now
          ∙ h)
        (λ _. h)
  pump_event-IsCurrent r now (ok (Agent.connected i n t)) h = h
  pump_event-IsCurrent r now (ok (Agent.deploy_status p o m t)) h = h
  pump_event-IsCurrent r now (ok (Agent.error m t)) h = h
  pump_event-IsCurrent r now (ok (Agent.command_status p c o m t)) h = h
  pump_event-IsCurrent r now (err e) h = h

  -- an end removes the session's own connection and nothing else
  end_task_lem :
      (r : AgentRegistry) (k : Uuid)
      → IsCurrent r
      → get k (end_task s r).agents ≡ (if s.agent_id == k then none else get k r.agents)
  unfolding end_task unregister_if
  end_task_lem r k h = elim (Option-cases (get s.agent_id r.agents)) [
    | inl gone ↦ absurd (ground (arith, gone, h))
    | inr (c, here) ↦ ground (arith, here, h, get-remove s.agent_id k r.agents)
  ]

  pump_event-other :
      (r : AgentRegistry) (now : DateTime) (event : Result AgentEvent ApiError) (k : Uuid)
      → (s.agent_id == k) ≡ false
      → get k (pump_event s r now event).0.agents ≡ get k r.agents
  unfolding pump_event
  pump_event-other r now (ok (Agent.heartbeat id t)) k ne =
      if_intro (λ (p : AgentRegistry × Bool). get k p.0.agents ≡ get k r.agents) (id == s.agent_id)
        (λ own. heartbeat-other r id k now (ground (arith, own, ne))) (λ _. refl)
  pump_event-other r now (ok (Agent.connected i n t)) k ne = refl
  pump_event-other r now (ok (Agent.deploy_status p o m t)) k ne = refl
  pump_event-other r now (ok (Agent.error m t)) k ne = refl
  pump_event-other r now (ok (Agent.command_status p c o m t)) k ne = refl
  pump_event-other r now (err e) k ne = refl

  -- what an event leaves where the end of the session leaves it too
  unchanged :
      (r : AgentRegistry) (now : DateTime) (event : Result AgentEvent ApiError) (k : Uuid)
      → (if s.agent_id == k then none else get k (pump_event s r now event).0.agents)
        ≡ (if s.agent_id == k then none else get k r.agents)
  unchanged r now event k = elim (Bool-cases (s.agent_id == k)) [
    | inl own ↦ rw own refl
    | inr other ↦ rw other (pump_event-other r now event k other)
  ]

  -- While a session's connection is the current one of its agent, its task over the events removes
  -- it when the events end or break off, however many there are, and changes nothing at any other
  -- agent.
  pub pump-removes :
      (r : AgentRegistry) (events : List (DateTime × Result AgentEvent ApiError)) (k : Uuid)
      → generation_at r s.agent_id ≡ some s.generation
      → get k (pump s r events).agents ≡ (if s.agent_id == k then none else get k r.agents)
  unfolding pump
  pump-removes r [] k h = end_task_lem r k h
  pump-removes r (e ∷ rest) k h =
      let r' = (pump_event s r e.0 e.1).0 in
      let current = pump_event-IsCurrent r e.0 e.1 h in
      if_intro
        (λ (q : AgentRegistry). get k q.agents ≡ (if s.agent_id == k then none else get k r.agents))
        (pump_event s r e.0 e.1).1 (λ _. pump-removes r' rest k current ∙ unchanged r e.0 e.1 k)
        (λ _. end_task_lem r' k current ∙ unchanged r e.0 e.1 k)
