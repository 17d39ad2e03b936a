-- ===== src/Update/Ref.antt =====
-- update/ref.go: OCI image references.
pub mod Parts
pub mod RoundTrip
use hadron_desktop.Base.{
  ℕ, Bool, true, false, not, ◌&&◌, ◌||◌, Option, none, some, [], ◌∷◌, ◌++◌, ◌==◌, if◌then◌else◌,
}
use hadron_desktop.Base.Text.{Text, text, text_eq, cut, cut_last, contains, is_empty}
use hadron_desktop.Base.Regex.{
  Regex, cls, seq, alt, star, opt, plus, times, up_to, chr, literal, range, full_match,
}

pub record ImageRef : Type 0 where
  pub host : Text
  pub name : Text
  pub tag : Text
  pub digest : Text

-- The character classes of the patterns.
abbrev is_lower_alnum : ℕ → Bool
is_lower_alnum c = range b'a' b'z' c || range b'0' b'9' c

abbrev is_alnum : ℕ → Bool
is_alnum c = range b'A' b'Z' c || range b'a' b'z' c || range b'0' b'9' c

abbrev is_tag_head : ℕ → Bool
is_tag_head c = is_alnum c || c == b'_'

abbrev is_tag_char : ℕ → Bool
is_tag_char c = is_tag_head c || c == b'.' || c == b'-'

abbrev is_host_char : ℕ → Bool
is_host_char c = is_alnum c || c == b'.' || c == b'-'

abbrev is_hex : ℕ → Bool
is_hex c = range b'a' b'f' c || range b'0' b'9' c

-- `[._]|__|-+`
abbrev separator : Regex
separator =
    alt (cls (λ c. c == b'.' || c == b'_')) (alt (seq (chr b'_') (chr b'_')) (plus (chr b'-')))

-- `[a-z0-9]+(?:(?:[._]|__|-+)[a-z0-9]+)*`
abbrev component : Regex
component = seq (plus (cls is_lower_alnum)) (star (seq separator (plus (cls is_lower_alnum))))

unfoldable pub name_re : Regex
name_re = seq component (star (seq (chr b'/') component))

unfoldable pub tag_re : Regex
tag_re = seq (cls is_tag_head) (up_to 127 (cls is_tag_char))

-- `refDigestRe`, and `sha256Digest` of update/registry.go
unfoldable pub digest_re : Regex
unfolding text
digest_re = seq (literal (text "sha256:")) (times 64 (cls is_hex))

unfoldable pub host_re : Regex
host_re = seq (cls is_alnum) (
    seq (opt (seq (star (cls is_host_char)) (cls is_alnum)))
      (opt (seq (chr b':') (plus (cls (range b'0' b'9'))))))

pub data RefError : Type 0 where
  bad_digest host_required invalid_tag bad_name tag_or_digest_required : RefError

pub data Parsed : Type 0 where
  ok : ImageRef → Parsed
  err : RefError → Parsed

-- The last checks: the name, and that the reference has a tag or a digest.
parse_name : Text → Text → Text → Text → Parsed
unfolding is_empty
parse_name digest host tag name =
    if not (full_match name_re name)
    then err bad_name
    else if is_empty tag && is_empty digest
    then err tag_or_digest_required
    else ok (record { host = host; name = name; tag = tag; digest = digest })

-- The last colon of the rest, if it stands behind the last slash, begins the tag.
parse_tag : Text → Text → Text → Option (Text × Text) → Parsed
unfolding contains parse_name
parse_tag digest host rest none = parse_name digest host [] rest
parse_tag digest host rest (some (name, tag)) =
    if contains tag b'/'
    then parse_name digest host [] rest
    else if full_match tag_re tag
    then parse_name digest host tag name
    else err invalid_tag

-- A registry host, by its form and because it holds a dot or a colon, or is localhost.
unfoldable pub is_host : Text → Bool
unfolding contains text_eq
is_host host =
    full_match host_re host
    && (contains host b'.' || contains host b':' || text_eq host (text "localhost"))

parse_host : Text → Option (Text × Text) → Parsed
unfolding parse_tag is_host cut_last
parse_host digest none = err host_required
parse_host digest (some (host, rest)) =
    if is_host host then parse_tag digest host rest (cut_last rest b':') else err host_required

parse_digest : Text → Option (Text × Text) → Parsed
unfolding parse_host cut
parse_digest s none = parse_host [] (cut s b'/')
parse_digest s (some (rest, digest)) =
    if full_match digest_re digest then parse_host digest (cut rest b'/') else err bad_digest

-- `ParseRef(s)`
unfoldable pub parse_ref : Text → Parsed
unfolding parse_digest
parse_ref s = parse_digest s (cut s b'@')

unfoldable pub repo : ImageRef → Text
repo r = r.host ++ (b'/' ∷ r.name)

prefixed : ℕ → Text → Text
prefixed c [] = []
prefixed c (d ∷ s) = c ∷ d ∷ s

-- `String()`
unfoldable pub ref_string : ImageRef → Text
unfolding repo prefixed
ref_string r = repo r ++ (prefixed b':' r.tag ++ prefixed b'@' r.digest)

-- `Reference()`
unfoldable pub reference : ImageRef → Text
unfolding is_empty
reference r = if is_empty r.digest then r.tag else r.digest
