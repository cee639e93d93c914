-- ===== src/Tests/Tokens.antt =====
-- An agent pushes logs with its token.
use reinhardt_cloud.Base.{
  String, false, some, none, [], ◌∷◌, inl, refl, ◌≡◌, ◌==◌, string_eq, if◌then◌else◌,
}
use reinhardt_cloud.Base.Int.{pos}
use reinhardt_cloud.Base.Result.{Result, ok, err}
use reinhardt_cloud.Grpc.Wire.{Status}
use reinhardt_cloud.Grpc.Interceptor.Defs.{
  AgentClaims, Request, Jwt, LogServiceJwtInterceptor, log_service_push_logs_path,
  log_service_interceptor, is_blank, call_with_path, call_log,
}
use reinhardt_cloud.Grpc.Interceptor.Authorized.{IsAdmitted, call_log_iff}

abbrev cluster_claims : AgentClaims
cluster_claims = record {
  sub = "c1";
  cluster_id = "c1";
  exp = pos 3600;
  iat = pos 0;
  iss = "";
  aud = "";
}

abbrev jwt : Jwt String
jwt = record {
  to_str = λ v. some "Bearer t1";
  decode = λ token secret. err "no user";
  decode_agent = λ token secret. if token == "t1" then ok cluster_claims else err "unknown";
  invalid_token = "InvalidToken";
}

abbrev accept : String → AgentClaims → Result (Unit {0}) Status
accept token claims = ok tt

abbrev guarded : LogServiceJwtInterceptor
guarded = log_service_interceptor (7 ∷ []) (some accept)

abbrev request : Request
request = record {
  path = some "/grpc.health.v1.Health/Check";
  authorization = some (66 ∷ []);
  claims = none;
  agent_claims = none;
}

abbrev placed : Request
placed = record request { path = some log_service_push_logs_path }

abbrev admitted : Request
admitted = record placed { agent_claims = some cluster_claims }

cluster-given : is_blank "c1" ≡ false
unfolding is_blank
cluster-given = refl

push_IsAdmitted : IsAdmitted jwt guarded log_service_push_logs_path placed admitted
push_IsAdmitted = inl (
  refl,
  ("t1", (cluster_claims, ((66 ∷ [], (refl, refl)), (refl, (cluster-given, (refl, refl)))))),
)

call_log_iff_example :
    call_with_path (call_log jwt guarded) log_service_push_logs_path request ≡ ok admitted
call_log_iff_example =
    (call_log_iff jwt guarded log_service_push_logs_path request admitted).1 push_IsAdmitted
