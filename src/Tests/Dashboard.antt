-- ===== src/Tests/Dashboard.antt =====
-- A slug, and a name that gives none.
use reinhardt_cloud.Base.{◌≡◌, arith, [], ◌∷◌}
use reinhardt_cloud.Base.Result.{ok}
use reinhardt_cloud.Base.Text.{Text}
use reinhardt_cloud.Dashboard.Slugs.Defs.{validate_slug, sanitize_username_to_slug}
use reinhardt_cloud.Dashboard.Slugs.Sanitized.{IsHexSuffix, sanitize_username_to_slug_lem}

-- "a-1"
abbrev label : Text
label = 97 ∷ 45 ∷ 49 ∷ []

-- "0a1b2c3d"
abbrev suffix : Text
suffix = 48 ∷ 97 ∷ 49 ∷ 98 ∷ 50 ∷ 99 ∷ 51 ∷ 100 ∷ []

suffix-IsHexSuffix : IsHexSuffix suffix
suffix-IsHexSuffix = ground arith

-- "_9."
abbrev username : Text
username = 95 ∷ 57 ∷ 46 ∷ []

sanitize_username_to_slug_lem_example :
    validate_slug (sanitize_username_to_slug suffix username) ≡ ok tt
sanitize_username_to_slug_lem_example =
    sanitize_username_to_slug_lem suffix username suffix-IsHexSuffix
