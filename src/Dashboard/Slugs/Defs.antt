-- ===== src/Dashboard/Slugs/Defs.antt =====
-- A text is the list of its characters, by their numbers. A slug that passes has ASCII characters
-- only, whose numbers are the bytes that `validate_slug` reads.
use reinhardt_cloud.Base.{
  ℕ, ltb, Bool, true, false, not, ◌||◌, [], ◌∷◌, ◌++◌, String, length, take, all, nat_eq, ◌==◌,
  if◌then◌else◌,
}
use reinhardt_cloud.Base.Result.{Result, ok, err}
use reinhardt_cloud.Base.Text.{
  Text, dash, is_ascii_lowercase, is_ascii_digit, is_ascii_alphanumeric, to_ascii_lowercase, last,
}

abbrev pub max_slug_len : ℕ
max_slug_len = 63

unfoldable pub is_slug_byte : ℕ → Bool
unfolding is_ascii_lowercase is_ascii_digit
is_slug_byte b = is_ascii_lowercase b || is_ascii_digit b || (b == dash)

unfoldable pub validate_slug : Text → Result (Unit {0}) String
unfolding last is_slug_byte is_ascii_lowercase is_ascii_digit
validate_slug [] = err "slug is empty"
validate_slug (first ∷ rest) =
    if ltb max_slug_len (length (first ∷ rest))
    then err "slug exceeds 63 characters"
    else if not (is_ascii_lowercase first)
    then err "slug must start with a lowercase letter"
    else if not (is_ascii_lowercase (last first rest) || is_ascii_digit (last first rest))
    then err "slug must end with a lowercase letter or digit"
    else if not (all is_slug_byte (first ∷ rest))
    then err "slug contains invalid characters"
    else ok tt

-- the closure of `flat_map`: '-', '_', '.' and ' ' become a dash
unfoldable pub lower_char : ℕ → Text
unfolding is_ascii_alphanumeric to_ascii_lowercase
lower_char c =
    if is_ascii_alphanumeric c
    then to_ascii_lowercase c ∷ []
    else if (c == 45) || (c == 95) || (c == 46) || (c == 32)
    then dash ∷ []
    else []

unfoldable pub lowered : Text → Text
unfolding lower_char
lowered [] = []
lowered (c ∷ cs) = lower_char c ++ lowered cs

-- the loop over `lowered.chars()`, with `prev_dash`: what it pushes
unfoldable pub collapse : Bool → Text → Text
collapse prev_dash [] = []
collapse prev_dash (c ∷ cs) =
    let after_dash = collapse true cs in
    let after_other = collapse false cs in
    if c == dash then (if prev_dash then after_dash else c ∷ after_dash) else c ∷ after_other

-- `while s.ends_with('-') { s.pop(); }`
unfoldable pub trim_end : Text → Text
trim_end [] = []
trim_end (c ∷ cs) = elim (trim_end cs) [
  | [] ↦ if c == dash then [] else c ∷ []
  | ◌∷◌ d ds ↦ c ∷ d ∷ ds
]

-- the part of the slug that comes from the name, at most 63 characters long
unfoldable pub shortened : Text → Text
unfolding trim_end
shortened collapsed =
    if ltb max_slug_len (length collapsed)
    then trim_end (take max_slug_len collapsed)
    else collapsed

-- "user-"
abbrev pub user_prefix : Text
user_prefix = 117 ∷ 115 ∷ 101 ∷ 114 ∷ 45 ∷ []

unfoldable pub or_user : Text → Text → Text
unfolding is_ascii_digit
or_user suffix [] = user_prefix ++ suffix
or_user suffix (c ∷ cs) = if is_ascii_digit c then user_prefix ++ suffix else c ∷ cs

-- `suffix` is what `Uuid::new_v4().simple().to_string()[..8]` gives
unfoldable pub sanitize_username_to_slug : Text → Text → Text
unfolding lowered collapse trim_end shortened or_user
sanitize_username_to_slug suffix username =
    or_user suffix (shortened (trim_end (collapse true (lowered username))))
