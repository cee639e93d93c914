-- ===== src/Grpc/Interceptor/Authorized.antt =====
-- What lets a request through to the log service.
use reinhardt_cloud.Base.{
  String, Bool, true, false, if_intro, some, ◌≡◌, ◌≢◌, ◌↔◌, ◌⊎◌, inl, inr, refl, sym, ap, subst,
  ◌∙◌, arith, string_eq, eq_iff, nat_eq, ◌==◌, if◌then◌else◌,
}
use reinhardt_cloud.Base.Result.{Result, ok, err, ok-injective}
use reinhardt_cloud.Grpc.Wire.{Status}
use reinhardt_cloud.Grpc.Interceptor.Defs.{
  Request, public_paths, log_service_push_logs_path, contains, call_with_path, JwtInterceptor,
  AgentJwtInterceptor, LogServiceJwtInterceptor, is_agent_path, not_agent, user_at, agent_at, Jwt,
  authenticate_user, call_user, authenticate_agent, call_agent, call_log,
}
use mathlib.Core.Bool.{true≢false}
use reinhardt_cloud.Grpc.Interceptor.Tokens.{IsUser, IsAgent, user_lem, agent_lem}

-- a test succeeds by one of its branches
if-eq_ok :
    {A : Type 0} (b : Bool) (x y : Result A Status) (a : A)
    → ((if b then x else y) ≡ ok a) ↔ (((b ≡ true) × (x ≡ ok a)) ⊎ ((b ≡ false) × (y ≡ ok a)))
if-eq_ok true x y a =
    (λ h. inl (refl, h), λ s. elim s [ inl p ↦ p.1 | inr q ↦ absurd (true≢false q.0) ])
if-eq_ok false x y a =
    (λ h. inr (refl, h), λ s. elim s [ inl p ↦ absurd (true≢false (sym p.0)) | inr q ↦ q.1 ])

differ :
    (path : String)
    → path ≢ log_service_push_logs_path
    → (path == log_service_push_logs_path) ≡ false
differ path h = ground (arith, h, eq_iff path log_service_push_logs_path)

push-is_agent_path : (path : String) → path ≡ log_service_push_logs_path → is_agent_path path ≡ true
unfolding is_agent_path
push-is_agent_path path h =
    if_intro (λ b. b ≡ true) (path == log_service_push_logs_path) (λ _. refl)
      (λ other. absurd (ground (arith, h, other, eq_iff path log_service_push_logs_path)))

module _ {E : Type 0} (jwt : Jwt E) where
  -- what lets a request to this path through
  abbrev pub IsAdmitted : LogServiceJwtInterceptor → String → Request → Request → Type 0
  IsAdmitted self path request request' =
      ((path ≡ log_service_push_logs_path)
        × IsAgent jwt self.agent.secret self.agent.token_validator request request')
      ⊎ ((path ≢ log_service_push_logs_path)
          × (((contains public_paths path ≡ true) × (request ≡ request'))
              ⊎ ((contains public_paths path ≡ false)
                  × IsUser jwt self.user.secret request request')))

  push_lem :
      (self : AgentJwtInterceptor) (path : String) (request request' : Request)
      → path ≡ log_service_push_logs_path
      → request.path ≡ some path
      → (call_agent jwt self request ≡ ok request')
        ↔ IsAgent jwt self.secret self.token_validator request request'
  unfolding call_agent
  push_lem self path request request' push at =
      subst
        (λ o.
          (agent_at jwt self request o ≡ ok request')
          ↔ IsAgent jwt self.secret self.token_validator request request')
        (sym at)
        (subst
          (λ b.
            ((if b then authenticate_agent jwt self request else err not_agent) ≡ ok request')
            ↔ IsAgent jwt self.secret self.token_validator request request')
          (sym (push-is_agent_path path push)) (agent_lem jwt self request request'))

  other_lem :
      (self : JwtInterceptor) (path : String) (request request' : Request)
      → request.path ≡ some path
      → (call_user jwt self request ≡ ok request') ↔ (
          ((contains public_paths path ≡ true) × (request ≡ request'))
          ⊎ ((contains public_paths path ≡ false) × IsUser jwt self.secret request request'))
  unfolding call_user
  other_lem self path request request' at =
      subst
        (λ o. (user_at jwt self request o ≡ ok request') ↔ (
          ((contains public_paths path ≡ true) × (request ≡ request'))
          ⊎ ((contains public_paths path ≡ false) × IsUser jwt self.secret request request')))
        (sym at)
        (
          λ h.
              elim ((if-eq_ok (contains public_paths path) (ok request)
                  (authenticate_user jwt self request) request').0
                h) [
                  | inl p ↦ inl (p.0, ok-injective request request' p.1)
                  | inr q ↦ inr (q.0, (user_lem jwt self request request').0 q.1)
                ],
          λ s.
              (if-eq_ok (contains public_paths path) (ok request)
                  (authenticate_user jwt self request) request').1
                (elim s [
                  | inl p ↦ inl (p.0, ap ok p.1)
                  | inr q ↦ inr (q.0, (user_lem jwt self request request').1 q.1)
                ]),
        )

  -- The interceptor of the log service lets a request to a path through just when the path is that of
  -- `PushLogs` and the request carries the token of an agent that has a cluster and passes the
  -- validator, or the path is another one that is public or the request carries the token of a
  -- user. The claims of that token are added, and nothing else. The path is the one of the URI,
  -- whatever path the request carries.
  pub call_log_iff :
      (self : LogServiceJwtInterceptor) (path : String) (request request' : Request)
      → (call_with_path (call_log jwt self) path request ≡ ok request')
        ↔ IsAdmitted self path (record request { path = some path }) request'
  unfolding call_with_path call_log
  call_log_iff self path request request' =
      let placed = record request { path = some path } in
      let same = eq_iff path log_service_push_logs_path in
      let split =
        if-eq_ok (path == log_service_push_logs_path) (call_agent jwt self.agent placed)
          (call_user jwt self.user placed) request' in
      (
        λ h. elim (split.0 h) [
          | inl p ↦
              inl (same.0 p.0, (push_lem self.agent path placed request' (same.0 p.0) refl).0 p.1)
          | inr q ↦ inr (
            λ e. true≢false (sym (same.1 e) ∙ q.0),
            (other_lem self.user path placed request' refl).0 q.1,
          )
        ],
        λ s. split.1 (elim s [
          | inl p ↦ inl (same.1 p.0, (push_lem self.agent path placed request' p.0 refl).1 p.1)
          | inr q ↦ inr (differ path q.0, (other_lem self.user path placed request' refl).1 q.1)
        ]),
      )
