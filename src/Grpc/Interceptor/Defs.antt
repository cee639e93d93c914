-- ===== src/Grpc/Interceptor/Defs.antt =====
-- The interceptors. What tonic keeps of a request is the record `Request`: the path and the claims
-- are its extensions. `MetadataValue::to_str` and the decoding of a token are parameters.
use reinhardt_cloud.Base.{
  ℕ, String, Bool, true, false, ◌&&◌, ◌||◌, Option, none, some, List, [], ◌∷◌, nat_eq, string_eq,
  ◌==◌, if◌then◌else◌,
}
use reinhardt_cloud.Base.Int.{ℤ}
use reinhardt_cloud.Base.Result.{Result, ok, err, ◌>>=◌, map_err}
use reinhardt_cloud.Base.Text.{Text, between}
use reinhardt_cloud.Grpc.Wire.{Status, unauthenticated}
use Prim.Native.Char.{code}
use text.Mathlib.Text.{starts_with}

-- the claims of a user
pub record Claims : Type 0 where
  pub sub : String
  pub username : String
  pub exp : ℤ
  pub iat : ℤ

pub record AgentClaims : Type 0 where
  pub sub : String
  pub cluster_id : String
  pub exp : ℤ
  pub iat : ℤ
  pub iss : String
  pub aud : String

pub record Request : Type 0 where
  -- the extension `GrpcPath`
  pub path : Option String
  -- the bytes of the metadata value `authorization`
  pub authorization : Option Text
  pub claims : Option Claims
  pub agent_claims : Option AgentClaims

abbrev pub public_paths : List String
public_paths =
    "/grpc.health.v1.Health/Check" ∷ "/grpc.health.v1.Health/Watch"
    ∷ "/grpc.reflection.v1alpha.ServerReflection/ServerReflectionInfo"
    ∷ "/grpc.reflection.v1.ServerReflection/ServerReflectionInfo" ∷ []

abbrev pub agent_path_prefixes : List String
agent_path_prefixes = "/reinhardt.cloud.cluster_agent.AgentService/" ∷ []

abbrev pub log_service_push_logs_path : String
log_service_push_logs_path = "/reinhardt.cloud.log.LogService/PushLogs"

-- `PUBLIC_PATHS.contains(&path)`
unfoldable pub contains : List String → String → Bool
contains [] path = false
contains (p ∷ ps) path = (p == path) || contains ps path

-- `str::strip_prefix`
unfoldable pub strip_prefix : String → String → Option String
strip_prefix String.[] s = some s
strip_prefix (String.◌∷◌ c p) String.[] = none
strip_prefix (String.◌∷◌ c p) (String.◌∷◌ d s) =
    let rest = strip_prefix p s in if code c == code d then rest else none

-- `char::is_whitespace`
unfoldable pub is_whitespace : ℕ → Bool
is_whitespace c =
    between 9 13 c
    || c == 32
    || c == 133
    || c == 160
    || c == 5760
    || between 8192 8202 c
    || c == 8232
    || c == 8233
    || c == 8239
    || c == 8287
    || c == 12288

-- `trim().is_empty()`
unfoldable pub is_blank : String → Bool
unfolding is_whitespace
is_blank String.[] = true
is_blank (String.◌∷◌ c s) = is_whitespace (code c) && is_blank s

-- `GrpcPathService::call`: the path of the URI replaces whatever path the request carries
unfoldable pub call_with_path : {R : Type 0} → (Request → R) → String → Request → R
call_with_path inner path request = inner (record request { path = some path })

pub record JwtInterceptor : Type 0 where
  pub secret : Text

abbrev pub AgentTokenValidator : Type 0
AgentTokenValidator = String → AgentClaims → Result (Unit {0}) Status

pub record AgentJwtInterceptor : Type 0 where
  pub secret : Text
  pub token_validator : Option AgentTokenValidator

pub record LogServiceJwtInterceptor : Type 0 where
  pub user : JwtInterceptor
  pub agent : AgentJwtInterceptor

-- `LogServiceJwtInterceptor::new` and `with_agent_token_validator`
abbrev pub log_service_interceptor : Text → Option AgentTokenValidator → LogServiceJwtInterceptor
log_service_interceptor secret validator = record {
  user = record { secret = secret };
  agent = record { secret = secret; token_validator = validator };
}

-- `starts_with` of one of the prefixes
unfoldable pub any_prefix : List String → String → Bool
any_prefix [] path = false
any_prefix (p ∷ ps) path = starts_with path p || any_prefix ps path

unfoldable pub is_agent_path : String → Bool
unfolding any_prefix
is_agent_path full_path =
    if full_path == log_service_push_logs_path
    then true
    else any_prefix agent_path_prefixes full_path

-- What the program takes from tonic and from jsonwebtoken, whose errors are the type `E`.
pub record Jwt (E : Type 0) : Type 0 where
  -- `MetadataValue::to_str`
  pub to_str : Text → Option String
  -- `decode` with the default validation, at the two types of claims: a token and a secret
  pub decode : String → Text → Result Claims E
  pub decode_agent : String → Text → Result AgentClaims E
  -- `ErrorKind::InvalidToken`
  pub invalid_token : E

-- `strip_prefix("Bearer ")` and `ok_or_else`
abbrev pub bearer_text : String → Option String → Result String Status
bearer_text message none = err (unauthenticated message)
bearer_text message (some s) = elim (strip_prefix "Bearer " s) [
  | none ↦ err (unauthenticated message)
  | some token ↦ ok token
]

abbrev pub not_agent : Status
not_agent = unauthenticated "Not an agent path; cannot authorize request with the agent interceptor"

module _ {E : Type 0} (jwt : Jwt E) where
  abbrev pub bearer_value : String → Option Text → Result String Status
  bearer_value message none = err (unauthenticated message)
  bearer_value message (some v) = bearer_text message (jwt.to_str v)

  -- the Bearer token of the metadata, or a refusal with this message
  unfoldable pub bearer_token : String → Request → Result String Status
  unfolding strip_prefix
  bearer_token message request = bearer_value message request.authorization

  unfoldable pub verify_agent_token : String → Text → Result AgentClaims E
  unfolding is_blank
  verify_agent_token token secret = do
    claims ← jwt.decode_agent token secret
    if is_blank claims.cluster_id then err jwt.invalid_token else ok claims

  unfoldable pub validate_user_token : JwtInterceptor → String → Result Claims Status
  validate_user_token self token =
      map_err (λ e. unauthenticated "Invalid token: {e}") (jwt.decode token self.secret)

  -- the stateful validator, if one is attached
  abbrev pub check_validator :
      Option AgentTokenValidator → String → AgentClaims → Result (Unit {0}) Status
  check_validator none token claims = ok tt
  check_validator (some validator) token claims = validator token claims

  unfoldable pub validate_agent_token : AgentJwtInterceptor → String → Result AgentClaims Status
  unfolding verify_agent_token
  validate_agent_token self token = do
    claims ←
        map_err (λ e. unauthenticated "Invalid agent token: {e}")
          (verify_agent_token token self.secret)
    accepted ← check_validator self.token_validator token claims
    ok claims

  -- the call of a request that is not at a public path
  unfoldable pub authenticate_user : JwtInterceptor → Request → Result Request Status
  unfolding bearer_token validate_user_token
  authenticate_user self request = do
    token ← bearer_token "Missing authorization token" request
    claims ← validate_user_token self token
    ok (record request { claims = some claims })

  abbrev pub user_at : JwtInterceptor → Request → Option String → Result Request Status
  user_at self request none = authenticate_user self request
  user_at self request (some path) =
      if contains public_paths path then ok request else authenticate_user self request

  -- `JwtInterceptor::call`
  unfoldable pub call_user : JwtInterceptor → Request → Result Request Status
  unfolding contains authenticate_user
  call_user self request = user_at self request request.path

  -- the call of a request at an agent path
  unfoldable pub authenticate_agent : AgentJwtInterceptor → Request → Result Request Status
  unfolding bearer_token validate_agent_token
  authenticate_agent self request = do
    token ← bearer_token "Missing agent authorization token" request
    claims ← validate_agent_token self token
    ok (record request { agent_claims = some claims })

  abbrev pub agent_at : AgentJwtInterceptor → Request → Option String → Result Request Status
  agent_at self request none =
      err (unauthenticated "Missing gRPC path; cannot authorize agent request")
  agent_at self request (some path) =
      if is_agent_path path then authenticate_agent self request else err not_agent

  -- `AgentJwtInterceptor::call`
  unfoldable pub call_agent : AgentJwtInterceptor → Request → Result Request Status
  unfolding is_agent_path authenticate_agent
  call_agent self request = agent_at self request request.path

  abbrev pub log_at : LogServiceJwtInterceptor → Request → Option String → Result Request Status
  log_at self request none =
      err (unauthenticated "Missing gRPC path; cannot authorize log service request")
  log_at self request (some path) =
      if path == log_service_push_logs_path
      then call_agent self.agent request
      else call_user self.user request

  -- `LogServiceJwtInterceptor::call`
  unfoldable pub call_log : LogServiceJwtInterceptor → Request → Result Request Status
  unfolding call_user call_agent
  call_log self request = log_at self request request.path
