-- ===== src/Versions/Version.antt =====
-- crates/protocol/src/version.rs: `SchemaVersion`, its text and its compatibility. A text is the list of
-- its characters' codes. `u16::from_str` takes one leading plus sign; `{}` prints decimal digits.
use sinan.Prelude.{
  ℕ, zero, suc, ◌+◌, ◌-◌, ◌*◌, ◌/◌, ◌%◌, Bool, true, false, not, ◌&&◌, ◌||◌, List, [], ◌∷◌, ◌++◌,
  Option, none, some, Result, ok, ◌>>=◌, ◌>>◌, reject_if, ok_or, ltb, leb, ◌==◌, any, if◌then◌else◌,
}

pub record SchemaVersion : Type 0 where
  pub major : ℕ
  pub minor : ℕ

abbrev pub supported_schema_version : SchemaVersion
supported_schema_version = record { major = 1; minor = 0 }

pub data SchemaCompatibility : Type 0 where
  exact older_minor higher_minor : SchemaCompatibility

pub data SchemaVersionError : Type 0 where
  invalid_format : List ℕ → SchemaVersionError
  major_mismatch : (received supported : ℕ) → SchemaVersionError

unfoldable pub compare_minor : ℕ → ℕ → SchemaCompatibility
compare_minor received supported =
    if ltb received supported
    then older_minor
    else if received == supported
    then exact
    else higher_minor

unfoldable pub compatibility_with :
    SchemaVersion → SchemaVersion → Result SchemaVersionError SchemaCompatibility
compatibility_with v supported = do
  reject_if (not (v.major == supported.major)) (major_mismatch v.major supported.major)
  ok (compare_minor v.minor supported.minor)

abbrev pub dot : ℕ
dot = 46

abbrev pub u16_max : ℕ
u16_max = 65535

-- The decimal digits of a number below 10 ^ fuel; a `u16` has at most five.
unfoldable pub decimal : ℕ → ℕ → List ℕ
decimal zero n = []
decimal (suc fuel) n =
    let front = decimal fuel (n / 10) in
    if ltb n 10 then (48 + n) ∷ [] else front ++ (48 + n % 10) ∷ []

-- "ecp.v".
abbrev pub version_prefix : List ℕ
version_prefix = 101 ∷ 99 ∷ 112 ∷ 46 ∷ 118 ∷ []

-- `Display`.
unfoldable pub print_version : SchemaVersion → List ℕ
print_version v = version_prefix ++ (decimal 5 v.major ++ (dot ∷ decimal 5 v.minor))

unfoldable pub is_digit : ℕ → Bool
is_digit c = leb 48 c && leb c 57

-- The digits of `u16::from_str`, after those that gave `value`, with the test for an overflow.
unfoldable pub parse_digits : ℕ → List ℕ → Option ℕ
parse_digits value [] = some value
parse_digits value (c ∷ cs) =
    let rest = parse_digits (value * 10 + (c - 48)) cs in
    if is_digit c && leb (value * 10 + (c - 48)) u16_max then rest else none

-- `u16::from_str`.
unfoldable pub parse_u16 : List ℕ → Option ℕ
parse_u16 [] = none
parse_u16 (c ∷ []) = parse_digits 0 (c ∷ [])
parse_u16 (c ∷ d ∷ cs) =
    let signed = parse_digits 0 (d ∷ cs) in if c == 43 then signed else parse_digits 0 (c ∷ d ∷ cs)

-- `str::strip_prefix`.
unfoldable pub strip_prefix : List ℕ → List ℕ → Option (List ℕ)
strip_prefix [] s = some s
strip_prefix (p ∷ ps) [] = none
strip_prefix (p ∷ ps) (c ∷ cs) = let rest = strip_prefix ps cs in if p == c then rest else none

-- `str::split_once('.')`.
abbrev pub split_cons : ℕ → Option (List ℕ × List ℕ) → Option (List ℕ × List ℕ)
split_cons c none = none
split_cons c (some (before, after)) = some (c ∷ before, after)

unfoldable pub split_once : List ℕ → Option (List ℕ × List ℕ)
split_once [] = none
split_once (c ∷ cs) =
    let rest = split_once cs in if c == dot then some ([], cs) else split_cons c rest

abbrev pub is_empty : List ℕ → Bool
is_empty [] = true
is_empty (c ∷ cs) = false

-- `FromStr`.
unfoldable pub parse_version : List ℕ → Result SchemaVersionError SchemaVersion
parse_version value = do
  version ← ok_or (strip_prefix version_prefix value) (invalid_format value)
  (major, minor) ← ok_or (split_once version) (invalid_format value)
  reject_if (is_empty major || is_empty minor || any (λ c. c == dot) minor) (invalid_format value)
  major ← ok_or (parse_u16 major) (invalid_format value)
  minor ← ok_or (parse_u16 minor) (invalid_format value)
  ok (record { major = major; minor = minor })
