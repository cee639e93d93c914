-- ===== src/Tests/Infrastructure.antt =====
-- A database, a bucket, a record and a secret.
use reinhardt_cloud.Base.{none, some, false, [], ◌∷◌, refl, ◌≡◌}
use reinhardt_cloud.Base.Result.{ok}
use reinhardt_cloud.Types.Infrastructure.{InfrastructureSpec, validate}
use reinhardt_cloud.Types.Infrastructure.Safe.{IsPlainSpec, validate-IsPlain}

abbrev spec : InfrastructureSpec
spec = record {
  postgres =
      some (record { tier = none; version = some (49 ∷ 54 ∷ []); backup_retention_days = some 7 });
  buckets = some (record { name = 97 ∷ 45 ∷ 98 ∷ []; public = false } ∷ []);
  dns = some (record { host = 97 ∷ 46 ∷ 98 ∷ []; record_type = "CNAME" } ∷ []);
  secrets = some (record { name = 107 ∷ []; description = some (97 ∷ 32 ∷ 98 ∷ []) } ∷ []);
}

validate-spec : validate spec ≡ ok tt
unfolding validate
validate-spec = refl

validate-IsPlain_example : IsPlainSpec spec
validate-IsPlain_example = validate-IsPlain spec validate-spec
