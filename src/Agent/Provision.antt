-- ===== src/Agent/Provision.antt =====
-- agent/internal/provision/config.go: the hadron_agent sections of the files under /oem, merged,
-- defaulted and validated. YAML, the split of an address, IP addresses and RFC 3339 instants are
-- arguments. The nested sections are flattened; a file's section and the accumulator, which have the
-- same leaves, are one record.
pub mod Rotations
pub mod Secrets
pub mod Loading
pub mod Stored
use hadron_desktop.Base.{
  ℕ, ◌-◌, ◌*◌, ◌^◌, Bool, true, false, not, ◌&&◌, ◌||◌, Option, none, some, List, [], ◌∷◌, ltb,
  ◌==◌, if◌then◌else◌,
}
use hadron_desktop.Base.Text.{Text, text, text_eq, is_empty}
use hadron_desktop.Base.Int.{ℤ, pos}
use hadron_desktop.Update.Semver.{Atoi, invalid, positive, negative, atoi}
use hadron_desktop.Agent.Auth.{
  ConfigError, bad_current, bad_previous, until_without_previous, same_digest, no_until,
  overlap_too_long, or_config, validate_digest, max_rotation_overlap,
}

-- `rawAgent` and `accumulator`: what was set, if anything.
pub record Raw : Type 0 where
  pub enabled : Option Bool
  pub listen : Option Text
  pub mdns : Option Bool
  pub insecure_loopback : Option Bool
  pub user_token_hash : Option Text
  pub user_previous_token_hash : Option Text
  pub user_previous_valid_until : Option Text
  pub admin_token_hash : Option Text
  pub admin_previous_token_hash : Option Text
  pub admin_previous_valid_until : Option Text
  pub certificate_pem : Option Text
  pub private_key_pem : Option Text
  pub max_concurrent_calls : Option ℤ
  pub max_processes : Option ℤ
  pub max_request_bytes : Option ℤ

abbrev pub nothing : Raw
nothing = record {
  enabled = none;
  listen = none;
  mdns = none;
  insecure_loopback = none;
  user_token_hash = none;
  user_previous_token_hash = none;
  user_previous_valid_until = none;
  admin_token_hash = none;
  admin_previous_token_hash = none;
  admin_previous_valid_until = none;
  certificate_pem = none;
  private_key_pem = none;
  max_concurrent_calls = none;
  max_processes = none;
  max_request_bytes = none;
}

-- The last file that sets a field wins.
abbrev pub later {ℓ} : {A : Type ℓ} → Option A → Option A → Option A
later acc none = acc
later acc (some v) = some v

-- `mergeSecret`; `none` is a conflict.
conflicts : Option Text → Text → Bool
unfolding is_empty text_eq
conflicts none s = false
conflicts (some t) s = not (is_empty t) && not (text_eq t s)

unfoldable pub merge_secret : Option Text → Option Text → Option (Option Text)
unfolding conflicts is_empty
merge_secret acc none = some acc
merge_secret acc (some s) =
    if is_empty s then some acc else if conflicts acc s then none else some (some s)

pub data Secret : Type 0 where
  user_current user_previous admin_current admin_previous : Secret

pub data Merged : Type 0 where
  merged : Raw → Merged
  conflict : Secret → Merged

-- `accumulator.merge`
with_secrets :
    Option (Option Text)
    → Option (Option Text)
    → Option (Option Text)
    → Option (Option Text)
    → Raw
    → Raw
    → Merged
with_secrets none p c q a f = conflict user_current
with_secrets (some u) none c q a f = conflict user_previous
with_secrets (some u) (some p) none q a f = conflict admin_current
with_secrets (some u) (some p) (some c) none a f = conflict admin_previous
with_secrets (some u) (some p) (some c) (some q) a f = merged (record {
  enabled = later a.enabled f.enabled;
  listen = later a.listen f.listen;
  mdns = later a.mdns f.mdns;
  insecure_loopback = later a.insecure_loopback f.insecure_loopback;
  user_token_hash = u;
  user_previous_token_hash = p;
  user_previous_valid_until = later a.user_previous_valid_until f.user_previous_valid_until;
  admin_token_hash = c;
  admin_previous_token_hash = q;
  admin_previous_valid_until = later a.admin_previous_valid_until f.admin_previous_valid_until;
  certificate_pem = later a.certificate_pem f.certificate_pem;
  private_key_pem = later a.private_key_pem f.private_key_pem;
  max_concurrent_calls = later a.max_concurrent_calls f.max_concurrent_calls;
  max_processes = later a.max_processes f.max_processes;
  max_request_bytes = later a.max_request_bytes f.max_request_bytes;
})

unfoldable pub merge : Raw → Raw → Merged
unfolding with_secrets merge_secret
merge a f =
    with_secrets (merge_secret a.user_token_hash f.user_token_hash)
      (merge_secret a.user_previous_token_hash f.user_previous_token_hash)
      (merge_secret a.admin_token_hash f.admin_token_hash)
      (merge_secret a.admin_previous_token_hash f.admin_previous_token_hash) a f

-- `Config`, flattened.
pub record Config : Type 0 where
  pub enabled : Bool
  pub listen : Text
  pub mdns : Bool
  pub insecure_loopback : Bool
  pub user_token_hash : Text
  pub user_previous_token_hash : Text
  pub user_previous_valid_until : ℕ
  pub admin_token_hash : Text
  pub admin_previous_token_hash : Text
  pub admin_previous_valid_until : ℕ
  pub certificate_pem : Text
  pub private_key_pem : Text
  pub max_concurrent_calls : ℤ
  pub max_processes : ℤ
  pub max_request_bytes : ℤ

abbrev default_listen : Text
default_listen = text "0.0.0.0:7443"

abbrev default_max_concurrent_calls : ℤ
default_max_concurrent_calls = pos 16

abbrev default_max_processes : ℤ
default_max_processes = pos 16

abbrev default_max_request_bytes : ℤ
default_max_request_bytes = pos (2 * 2 ^ 20)

abbrev deref {ℓ} : {A : Type ℓ} → Option A → A → A
deref none def = def
deref (some v) def = v

pub data ListenError : Type 0 where
  bad_address bad_port zero_port not_loopback : ListenError

pub data Invalid : Type 0 where
  bad_listen : ListenError → Invalid
  bad_user_pair bad_admin_pair : ConfigError → Invalid
  half_tls : Invalid

pub data LoadError : Type 0 where
  unreadable malformed bad_user_time bad_admin_time : LoadError
  conflicting : Secret → LoadError
  invalid_config : Invalid → LoadError

-- What `os.ReadFile` and `decodeHadronAgent` give for one file.
pub data FileDoc : Type 0 where
  no_read bad_yaml no_section : FileDoc
  section : Raw → FileDoc

pub data Folded : Type 0 where
  folded : Raw → Folded
  stopped : LoadError → Folded

-- The loop of `Load`, over the files in the order of their names.
fold_merged : Merged → (Raw → Folded) → Folded
fold_merged (merged a) next = next a
fold_merged (conflict k) next = stopped (conflicting k)

unfoldable pub merge_files : Raw → List FileDoc → Folded
unfolding fold_merged merge
merge_files a [] = folded a
merge_files a (no_read ∷ docs) = stopped unreadable
merge_files a (bad_yaml ∷ docs) = stopped malformed
merge_files a (no_section ∷ docs) = merge_files a docs
merge_files a (section f ∷ docs) = fold_merged (merge a f) (λ b. merge_files b docs)

-- `parseOptionalTime`; the zero time is 0.
parse_optional_time : (Text → Option ℕ) → Text → Option ℕ
unfolding is_empty
parse_optional_time parse_time s = if is_empty s then some 0 else parse_time s

pub data Loaded : Type 0 where
  loaded : Config → Loaded
  failed : LoadError → Loaded

-- `accumulator.resolve`
with_times : Raw → Option ℕ → Option ℕ → Loaded
unfolding text
with_times a none v = failed bad_user_time
with_times a (some u) none = failed bad_admin_time
with_times a (some u) (some v) = loaded (record {
  enabled = deref a.enabled true;
  listen = deref a.listen default_listen;
  mdns = deref a.mdns true;
  insecure_loopback = deref a.insecure_loopback false;
  user_token_hash = deref a.user_token_hash [];
  user_previous_token_hash = deref a.user_previous_token_hash [];
  user_previous_valid_until = u;
  admin_token_hash = deref a.admin_token_hash [];
  admin_previous_token_hash = deref a.admin_previous_token_hash [];
  admin_previous_valid_until = v;
  certificate_pem = deref a.certificate_pem [];
  private_key_pem = deref a.private_key_pem [];
  max_concurrent_calls = deref a.max_concurrent_calls default_max_concurrent_calls;
  max_processes = deref a.max_processes default_max_processes;
  max_request_bytes = deref a.max_request_bytes default_max_request_bytes;
})

unfoldable pub resolve : (Text → Option ℕ) → Raw → Loaded
unfolding with_times parse_optional_time
resolve parse_time a =
    with_times a (parse_optional_time parse_time (deref a.user_previous_valid_until []))
      (parse_optional_time parse_time (deref a.admin_previous_valid_until []))

-- `isLoopbackHost`; the argument is whether a text is an address of the loopback interface.
unfoldable pub is_loopback_host : (Text → Bool) → Text → Bool
unfolding is_empty text_eq text
is_loopback_host is_loopback_ip host =
    if is_empty host
    then false
    else if text_eq host (text "localhost")
    then true
    else is_loopback_ip host

-- `Endpoint.validate`
validate_port : Bool → Atoi → Option ListenError
validate_port exposed invalid = some bad_port
validate_port exposed (positive n) =
    if n == 0 then some zero_port else if exposed then some not_loopback else none
validate_port exposed (negative n) =
    if n == 0 then some zero_port else if exposed then some not_loopback else none

validate_parts : (Text → Bool) → Bool → Option (Text × Text) → Option ListenError
unfolding validate_port is_loopback_host atoi
validate_parts is_loopback_ip insecure none = some bad_address
validate_parts is_loopback_ip insecure (some (host, port)) =
    validate_port (insecure && not (is_loopback_host is_loopback_ip host)) (atoi port)

unfoldable pub validate_endpoint :
    (Text → Option (Text × Text)) → (Text → Bool) → Config → Option ListenError
unfolding validate_parts
validate_endpoint split_host_port is_loopback_ip c =
    validate_parts is_loopback_ip c.insecure_loopback (split_host_port c.listen)

-- `validateAuthPair`; its errors are those of the rotation that it mirrors.
validate_previous : Text → Text → ℕ → ℕ → Option ConfigError
unfolding is_empty text_eq validate_digest
validate_previous current previous valid_until now =
    if is_empty previous
    then if not (valid_until == 0) then some until_without_previous else none
    else or_config bad_previous (validate_digest previous) (
        if text_eq previous current
        then some same_digest
        else if valid_until == 0
        then some no_until
        else if ltb max_rotation_overlap (valid_until - now)
        then some overlap_too_long
        else none)

unfoldable pub validate_auth_pair : Text → Text → ℕ → ℕ → Option ConfigError
unfolding validate_previous is_empty validate_digest
validate_auth_pair current previous valid_until now =
    if is_empty current
    then validate_previous current previous valid_until now
    else or_config bad_current (validate_digest current)
        (validate_previous current previous valid_until now)

differ : Bool → Bool → Bool
differ true b = not b
differ false b = b

or_invalid {ℓ} : {E : Type ℓ} → (E → Invalid) → Option E → Option Invalid → Option Invalid
or_invalid f none next = next
or_invalid f (some e) next = some (f e)

-- `Config.validateAt`
unfoldable pub validate_at :
    (Text → Option (Text × Text)) → (Text → Bool) → Config → ℕ → Option Invalid
unfolding or_invalid validate_endpoint validate_auth_pair is_empty differ
validate_at split_host_port is_loopback_ip c now =
    or_invalid bad_listen (validate_endpoint split_host_port is_loopback_ip c) (
      or_invalid bad_user_pair
        (validate_auth_pair c.user_token_hash c.user_previous_token_hash c.user_previous_valid_until
          now)
        (or_invalid bad_admin_pair
          (validate_auth_pair c.admin_token_hash c.admin_previous_token_hash
            c.admin_previous_valid_until now)
          (if differ (is_empty c.certificate_pem) (is_empty c.private_key_pem)
            then some half_tls
            else none)))

-- `Load`, at an instant.
check_config : Option Invalid → Config → Loaded
check_config none c = loaded c
check_config (some e) c = failed (invalid_config e)

check_resolved : (Config → Option Invalid) → Loaded → Loaded
unfolding check_config
check_resolved validate (failed e) = failed e
check_resolved validate (loaded c) = check_config (validate c) c

resolve_folded : (Text → Option ℕ) → Folded → Loaded
unfolding resolve
resolve_folded parse_time (stopped e) = failed e
resolve_folded parse_time (folded a) = resolve parse_time a

unfoldable pub load :
    (Text → Option (Text × Text)) → (Text → Bool) → (Text → Option ℕ) → List FileDoc → ℕ → Loaded
unfolding check_resolved resolve_folded merge_files validate_at
load split_host_port is_loopback_ip parse_time docs now =
    check_resolved (λ c. validate_at split_host_port is_loopback_ip c now)
      (resolve_folded parse_time (merge_files nothing docs))
