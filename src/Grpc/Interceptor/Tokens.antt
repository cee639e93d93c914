-- ===== src/Grpc/Interceptor/Tokens.antt =====
-- The tokens of users and of agents.
use reinhardt_cloud.Base.{
  String, false, Option, none, some, ◌≡◌, ◌↔◌, refl, ap, subst, ◌∙◌, arith, string_eq, nat_eq,
  if◌then◌else◌,
}
use reinhardt_cloud.Base.Result.{ok, err, bind-eq_ok, ok-bind, map_err, map_err-eq_ok, ok-injective}
use reinhardt_cloud.Base.Text.{Text}
use reinhardt_cloud.Grpc.Wire.{Status, unauthenticated}
use reinhardt_cloud.Grpc.Interceptor.Defs.{
  Claims, AgentClaims, Request, is_blank, JwtInterceptor, AgentTokenValidator, AgentJwtInterceptor,
  Jwt, bearer_token, verify_agent_token, validate_user_token, check_validator, validate_agent_token,
  authenticate_user, authenticate_agent,
}
use reinhardt_cloud.Grpc.Interceptor.Bearer.{IsBearer, bearer_value_iff}

abbrev missing_user : String
missing_user = "Missing authorization token"

-- what the refusal of an agent's token says
abbrev invalid_agent : {E : Type 0} → E → Status
invalid_agent e = unauthenticated "Invalid agent token: {e}"

abbrev missing_agent : String
missing_agent = "Missing agent authorization token"

unblank_iff :
    {E : Type 0} (e : E) (claims claims' : AgentClaims)
    → ((if is_blank claims.cluster_id then err e else ok claims) ≡ ok claims')
      ↔ ((claims ≡ claims') × (is_blank claims.cluster_id ≡ false))
unblank_iff e claims claims' = ground arith

module _ {E : Type 0} (jwt : Jwt E) where
  -- The token decodes to claims of a user, and the claims are all that is added to the request.
  abbrev pub IsUser : Text → Request → Request → Type 0
  IsUser secret request request' =
      (token : String) × ((claims : Claims) × (IsBearer jwt request.authorization token
          × ((jwt.decode token secret ≡ ok claims)
              × (record request { claims = some claims } ≡ request'))))

  -- the stateful validator, if there is one, takes the token
  abbrev pub Takes : Option AgentTokenValidator → String → AgentClaims → Type 0
  Takes none token claims = Unit {0}
  Takes (some validator) token claims = validator token claims ≡ ok tt

  -- The token decodes to claims of an agent with a cluster, the validator takes it, and the claims
  -- are all that is added to the request.
  abbrev pub IsAgent : Text → Option AgentTokenValidator → Request → Request → Type 0
  IsAgent secret validator request request' =
      (token : String) × ((claims : AgentClaims) × (IsBearer jwt request.authorization token
          × ((jwt.decode_agent token secret ≡ ok claims)
              × ((is_blank claims.cluster_id ≡ false)
                  × (Takes validator token claims
                      × (record request { agent_claims = some claims } ≡ request'))))))

  pub user_lem :
      (self : JwtInterceptor) (request request' : Request)
      → (authenticate_user jwt self request ≡ ok request') ↔ IsUser self.secret request request'
  unfolding authenticate_user bearer_token validate_user_token
  user_lem self request request' = (
    λ h.
        let (token, (a, h1)) = bind-eq_ok (bearer_token jwt missing_user request) _ request' h in
        let (claims, (b, h2)) = bind-eq_ok (validate_user_token jwt self token) _ request' h1 in
        (
          token,
          (
            claims,
            (
              (bearer_value_iff jwt missing_user request.authorization token).0 a,
              (
                (map_err-eq_ok _ (jwt.decode token self.secret) claims).0 b,
                ok-injective _ request' h2,
              ),
            ),
          ),
        ),
    λ (token, (claims, (bears, (decodes, same)))).
        ok-bind (bearer_token jwt missing_user request) _ token request'
          ((bearer_value_iff jwt missing_user request.authorization token).1 bears)
          (ok-bind (validate_user_token jwt self token) _ claims request'
            ((map_err-eq_ok _ (jwt.decode token self.secret) claims).1 decodes) (ap ok same)),
  )

  verify_agent_token_iff :
      (token : String) (secret : Text) (claims : AgentClaims)
      → (verify_agent_token jwt token secret ≡ ok claims)
        ↔ ((jwt.decode_agent token secret ≡ ok claims) × (is_blank claims.cluster_id ≡ false))
  unfolding verify_agent_token
  verify_agent_token_iff token secret claims = (
    λ h.
        let (found, (a, h1)) = bind-eq_ok (jwt.decode_agent token secret) _ claims h in
        let (same, given) = (unblank_iff jwt.invalid_token found claims).0 h1 in
        (a ∙ ap ok same, subst (λ c. is_blank c.cluster_id ≡ false) same given),
    λ (decodes, given).
        ok-bind (jwt.decode_agent token secret) _ claims claims decodes
          ((unblank_iff jwt.invalid_token claims claims).1 (refl, given)),
  )

  Takes-iff :
      (validator : Option AgentTokenValidator) (token : String) (claims : AgentClaims)
      → (check_validator jwt validator token claims ≡ ok tt) ↔ Takes validator token claims
  Takes-iff none token claims = (λ h. tt, λ h. refl)
  Takes-iff (some validator) token claims = (λ h. h, λ h. h)

  validate_agent_token_iff :
      (self : AgentJwtInterceptor) (token : String) (claims : AgentClaims)
      → (validate_agent_token jwt self token ≡ ok claims) ↔ (
          (jwt.decode_agent token self.secret ≡ ok claims)
          × ((is_blank claims.cluster_id ≡ false) × Takes self.token_validator token claims))
  unfolding validate_agent_token
  validate_agent_token_iff self token claims = (
    λ h.
        let (found, (a, h1)) =
          bind-eq_ok (map_err invalid_agent (verify_agent_token jwt token self.secret)) _ claims
            h in
        let (u, (b, h2)) =
          bind-eq_ok (check_validator jwt self.token_validator token found) _ claims h1 in
        let same = ok-injective found claims h2 in
        let (decodes, given) = (verify_agent_token_iff token self.secret claims).0 (
          (map_err-eq_ok invalid_agent (verify_agent_token jwt token self.secret) claims).0
            (a ∙ ap ok same)) in
        (
          decodes,
          (
            given,
            (Takes-iff self.token_validator token claims).0
                (subst (λ c. check_validator jwt self.token_validator token c ≡ ok tt) same b),
          ),
        ),
    λ (decodes, (given, takes)).
        ok-bind (map_err invalid_agent (verify_agent_token jwt token self.secret)) _ claims claims
          ((map_err-eq_ok invalid_agent (verify_agent_token jwt token self.secret) claims).1
            ((verify_agent_token_iff token self.secret claims).1 (decodes, given)))
          (ok-bind (check_validator jwt self.token_validator token claims) _ tt claims
            ((Takes-iff self.token_validator token claims).1 takes) refl),
  )

  pub agent_lem :
      (self : AgentJwtInterceptor) (request request' : Request)
      → (authenticate_agent jwt self request ≡ ok request')
        ↔ IsAgent self.secret self.token_validator request request'
  unfolding authenticate_agent bearer_token
  agent_lem self request request' = (
    λ h.
        let (token, (a, h1)) = bind-eq_ok (bearer_token jwt missing_agent request) _ request' h in
        let (claims, (b, h2)) = bind-eq_ok (validate_agent_token jwt self token) _ request' h1 in
        let (decodes, (given, takes)) = (validate_agent_token_iff self token claims).0 b in
        (
          token,
          (
            claims,
            (
              (bearer_value_iff jwt missing_agent request.authorization token).0 a,
              (decodes, (given, (takes, ok-injective _ request' h2))),
            ),
          ),
        ),
    λ (token, (claims, (bears, (decodes, (given, (takes, same)))))).
        ok-bind (bearer_token jwt missing_agent request) _ token request'
          ((bearer_value_iff jwt missing_agent request.authorization token).1 bears)
          (ok-bind (validate_agent_token jwt self token) _ claims request'
            ((validate_agent_token_iff self token claims).1 (decodes, (given, takes)))
            (ap ok same)),
  )
