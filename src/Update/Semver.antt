-- ===== src/Update/Semver.antt =====
-- update/release.go: `semver`, `parseSemver` and `Newer`.
pub mod Order
use mathlib.Core.List.{List}
use hadron_desktop.Base.{
  ℕ, ◌+◌, ◌-◌, ◌*◌, ◌^◌, Bool, true, false, ◌&&◌, Option, none, some, [], ◌∷◌, ltb, leb, ◌==◌,
  if◌then◌else◌,
}
use hadron_desktop.Base.Text.{Text, text_eq, text_lt, trim_prefix, cut, split, is_empty}

pub record Semver : Type 0 where
  pub major : ℕ
  pub minor : ℕ
  pub patch : ℕ
  pub pre : Text

-- `v, _, _ = strings.Cut(s, sep)` and `before, after, _ = strings.Cut(s, sep)`.
abbrev pub cut_or : Option (Text × Text) → Text → Text × Text
cut_or none s = (s, [])
cut_or (some p) s = p

-- A run of decimal digits; `none` at any other character.
digits_value : ℕ → Text → Option ℕ
digits_value n [] = some n
digits_value n (c ∷ s) =
    let rest = digits_value (n * 10 + (c - b'0')) s in
    if leb b'0' c && leb c b'9' then rest else none

unsigned : Text → Option ℕ
unfolding digits_value
unsigned [] = none
unsigned (c ∷ s) = digits_value 0 (c ∷ s)

-- What `strconv.Atoi` returns: an error, or an `int` by its sign and its absolute value.
pub data Atoi : Type 0 where
  invalid : Atoi
  positive : ℕ → Atoi
  negative : ℕ → Atoi

in_range : Option ℕ → ℕ → (ℕ → Atoi) → Atoi
in_range none limit f = invalid
in_range (some n) limit f = if ltb n limit then f n else invalid

unfoldable pub atoi : Text → Atoi
unfolding unsigned in_range
atoi [] = invalid
atoi (c ∷ s) =
    if c == b'-'
    then in_range (unsigned s) (2 ^ 63 + 1) negative
    else if c == b'+'
    then in_range (unsigned s) (2 ^ 63) positive
    else in_range (unsigned (c ∷ s)) (2 ^ 63) positive

-- The body of the loop over the parts: an error or a negative number fails.
part : Atoi → Option ℕ
part invalid = none
part (positive n) = some n
part (negative n) = if n == 0 then some 0 else none

parts3 : List Text → Text → Option Semver
unfolding part atoi
parts3 (a ∷ b ∷ c ∷ []) pre = elim (part (atoi a)) [
  | none ↦ none
  | some x ↦ elim (part (atoi b)) [
    | none ↦ none
    | some y ↦ elim (part (atoi c)) [
      | none ↦ none
      | some z ↦ some (record { major = x; minor = y; patch = z; pre = pre })
    ]
  ]
]
parts3 _ pre = none

unfoldable pub parse_semver : Text → Option Semver
unfolding parts3 cut split trim_prefix
parse_semver s =
    let s' = trim_prefix s (b'v' ∷ []) in
    let (s'', _) = cut_or (cut s' b'+') s' in
    let (core, pre) = cut_or (cut s'' b'-') s'' in parts3 (split core b'.') pre

-- The `switch` on the pre-release parts: a release beats its own prereleases.
newer_pre : Text → Text → Bool
unfolding text_eq text_lt is_empty
newer_pre c cur =
    if text_eq c cur
    then false
    else if is_empty c
    then true
    else if is_empty cur
    then false
    else text_lt cur c

-- The comparison of two versions that parse.
newer_semver : Semver → Semver → Bool
newer_semver c cur =
    if c.major == cur.major
    then if c.minor == cur.minor
      then if c.patch == cur.patch then newer_pre c.pre cur.pre else ltb cur.patch c.patch
      else ltb cur.minor c.minor
    else ltb cur.major c.major

newer_parsed : Option Semver → Option Semver → Bool
newer_parsed none cur = false
newer_parsed (some c) none = true
newer_parsed (some c) (some cur) = newer_semver c cur

-- `Newer(candidate, current)`
unfoldable pub newer : Text → Text → Bool
unfolding newer_parsed newer_semver newer_pre parse_semver
newer candidate current = newer_parsed (parse_semver candidate) (parse_semver current)
