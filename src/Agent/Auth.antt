-- ===== src/Agent/Auth.antt =====
-- agent/internal/auth/token.go: the bearer credentials, their digests and the rotation of them. A
-- text stands for its bytes, an instant for its nanoseconds since the zero time; SHA-256 is an
-- argument.
pub mod Payload
pub mod Verify
use hadron_desktop.Base.{
  ℕ, ◌+◌, ◌-◌, ◌*◌, ◌/◌, ◌%◌, ◌^◌, Bool, true, false, not, ◌&&◌, ◌||◌, Option, none, some, List, [],
  ◌∷◌, ◌++◌, length, take, drop, ltb, leb, ◌==◌, if◌then◌else◌,
}
use hadron_desktop.Base.Text.{
  Text, text, text_eq, all, has_prefix, trim_prefix, is_empty, hex_encode,
}
use hadron_desktop.Base.Regex.{range}
use hadron_desktop.Agent.Wire.{ErrorCode, served, forbidden, unauthenticated}

-- `Class`, a string of which two values are known.
pub data Class : Type 0 where
  user admin : Class
  unknown : Text → Class

pub class_eq : Class → Class → Bool
class_eq user user = true
class_eq admin admin = true
class_eq (unknown s) (unknown t) = text_eq s t
class_eq c d = false

-- `prefixByClass`
unfoldable pub prefix_by_class : Class → Option Text
unfolding text
prefix_by_class user = some (text "hdn_u_")
prefix_by_class admin = some (text "hdn_a_")
prefix_by_class (unknown s) = none

pub scope_for_class : Class → Text
scope_for_class admin = text "hadron:admin"
scope_for_class user = text "hadron:user"
scope_for_class (unknown s) = text "hadron:user"

abbrev pub digest_prefix : Text
digest_prefix = text "sha256:"

abbrev digest_hex_len : ℕ
digest_hex_len = 64

pub data DigestError : Type 0 where
  no_prefix bad_length not_lower_hex : DigestError

abbrev is_lower_hex : ℕ → Bool
is_lower_hex c = range b'0' b'9' c || range b'a' b'f' c

-- `Digest.Validate`
unfoldable validate_hex : Text → Option DigestError
unfolding all
validate_hex h =
    if not (length h == digest_hex_len)
    then some bad_length
    else if all is_lower_hex h
    then none
    else some not_lower_hex

unfoldable pub validate_digest : Text → Option DigestError
unfolding validate_hex has_prefix
validate_digest d =
    if not (has_prefix d digest_prefix) then some no_prefix else validate_hex (drop 7 d)

-- `Digest.hex64`
pub hex64 : Text → Text
hex64 d = drop 7 d

-- `digestBearer`
unfoldable pub digest_bearer : (Text → List ℕ) → Text → Text
digest_bearer sha256 bearer = digest_prefix ++ hex_encode (sha256 bearer)

abbrev pub is_url_char : ℕ → Bool
is_url_char c =
    range b'A' b'Z' c || range b'a' b'z' c || range b'0' b'9' c || c == b'-' || c == b'_'

-- `base64.RawURLEncoding.DecodeString`, by the length of what it decodes: it skips line breaks, and
-- fails at another character and at one character left over.
count_char : ℕ → Option ℕ → Option ℕ
count_char c none = none
count_char c (some n) =
    if c == 10 || c == 13 then some n else if is_url_char c then some (n + 1) else none

count_chars : Text → Option ℕ
unfolding count_char
count_chars [] = some 0
count_chars (c ∷ s) = count_char c (count_chars s)

decoded_of : Option ℕ → Option ℕ
decoded_of none = none
decoded_of (some n) = if n % 4 == 1 then none else some (n * 6 / 8)

-- `isWellFormedPayload`
is_decoded : Option ℕ → Bool
is_decoded none = false
is_decoded (some n) = n == 32

pub is_well_formed_payload : Text → Bool
unfolding is_decoded decoded_of count_chars
is_well_formed_payload payload =
    if not (length payload == 43) then false else is_decoded (decoded_of (count_chars payload))

pub data VerifyError : Type 0 where
  malformed_bearer wrong_class invalid_bearer : VerifyError

pub data Parsed : Type 0 where
  of_class : Class → Parsed
  malformed : Parsed

-- `parseBearerClass`, with the order in which the range over the map visits the classes.
parse_payload : Class → Text → Parsed
unfolding is_well_formed_payload
parse_payload c payload = if is_well_formed_payload payload then of_class c else malformed

parse_prefix : Class → Option Text → Text → Parsed → Parsed
unfolding parse_payload has_prefix trim_prefix
parse_prefix c none raw next = next
parse_prefix c (some p) raw next =
    if has_prefix raw p then parse_payload c (trim_prefix raw p) else next

unfoldable pub parse_bearer_class : List Class → Text → Parsed
unfolding parse_prefix
parse_bearer_class [] raw = malformed
parse_bearer_class (c ∷ order) raw =
    parse_prefix c (prefix_by_class c) raw (parse_bearer_class order raw)

-- `RotationConfig`; the zero time is 0.
pub record RotationConfig : Type 0 where
  pub current : Text
  pub previous : Text
  pub previous_valid_until : ℕ

pub data ConfigError : Type 0 where
  bad_current bad_previous : DigestError → ConfigError
  until_without_previous same_digest no_until overlap_too_long : ConfigError

abbrev pub max_rotation_overlap : ℕ
max_rotation_overlap = 24 * 3_600 * 10 ^ 9

abbrev pub or_config :
    (DigestError → ConfigError) → Option DigestError → Option ConfigError → Option ConfigError
or_config f none next = next
or_config f (some e) next = some (f e)

-- `RotationConfig.validate(now)`
unfoldable pub validate_rotation : ℕ → RotationConfig → Option ConfigError
unfolding validate_digest is_empty text_eq
validate_rotation now cfg = or_config bad_current (validate_digest cfg.current) (
    if is_empty cfg.previous
    then if not (cfg.previous_valid_until == 0) then some until_without_previous else none
    else or_config bad_previous (validate_digest cfg.previous) (
        if text_eq cfg.previous cfg.current
        then some same_digest
        else if cfg.previous_valid_until == 0
        then some no_until
        else if ltb max_rotation_overlap (cfg.previous_valid_until - now)
        then some overlap_too_long
        else none))

pub record Verifier : Type 0 where
  pub user : RotationConfig
  pub admin : RotationConfig

pub data Built : Type 0 where
  built : Verifier → Built
  bad_user bad_admin : ConfigError → Built

-- `newVerifierAt(now, user, admin)`
build_from : Option ConfigError → Option ConfigError → Verifier → Built
build_from (some e) a v = bad_user e
build_from none (some e) v = bad_admin e
build_from none none v = built v

unfoldable pub new_verifier_at : ℕ → RotationConfig → RotationConfig → Built
unfolding build_from validate_rotation
new_verifier_at now u a =
    build_from (validate_rotation now u) (validate_rotation now a) (record { user = u; admin = a })

-- `configFor`
abbrev pub config_for : Verifier → Class → RotationConfig
config_for v admin = v.admin
config_for v user = v.user
config_for v (unknown s) = v.user

-- `TokenInfo`, with the private credential.
pub record TokenInfo : Type 0 where
  pub scope : Text
  pub user_id : Text
  pub class : Class
  pub bearer : Text

pub data Verified : Type 0 where
  ok : TokenInfo → Verified
  err : VerifyError → Verified

-- The comparisons with the current and the previous digest.
matches : RotationConfig → ℕ → Text → Bool
unfolding text_eq is_empty
matches cfg now digest =
    text_eq digest cfg.current
    || (not (is_empty cfg.previous)
        && (text_eq digest cfg.previous && leb now cfg.previous_valid_until))

verify_parsed : (Text → List ℕ) → ℕ → Verifier → Text → Class → Parsed → Verified
unfolding matches class_eq
verify_parsed sha256 now v raw required malformed = err malformed_bearer
verify_parsed sha256 now v raw required (of_class c) =
    if not (class_eq c required)
    then err wrong_class
    else if not (matches (config_for v c) now (digest_bearer sha256 raw))
    then err invalid_bearer
    else ok (record {
      scope = scope_for_class c;
      user_id = take 16 (hex64 (digest_bearer sha256 raw));
      class = c;
      bearer = raw;
    })

-- `Verifier.Verify(rawBearer, requiredClass)` at an instant.
unfoldable pub verify : (Text → List ℕ) → List Class → ℕ → Verifier → Text → Class → Verified
unfolding verify_parsed
verify sha256 order now v raw required =
    verify_parsed sha256 now v raw required (parse_bearer_class order raw)

-- `Code`; the packages that call it have errors of their own.
pub data AuthError : Type 0 where
  of_verify : VerifyError → AuthError
  other_error : AuthError

unfoldable pub code : Option AuthError → ErrorCode
code none = served
code (some (of_verify wrong_class)) = forbidden
code (some (of_verify malformed_bearer)) = unauthenticated
code (some (of_verify invalid_bearer)) = unauthenticated
code (some other_error) = unauthenticated
