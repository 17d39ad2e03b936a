-- ===== src/Agent/Provision/Stored.antt =====
-- agent/internal/provision/state.go and serviceconfig.go: the rotation of a bearer class on disk, how
-- Materialize chooses it and Rotate replaces it, and how the services read it. The format of an
-- instant and its reverse are arguments, and so is what `auth.Generate` returns.
pub mod Rotating
pub mod Rerun
use hadron_desktop.Base.{
  ℕ, ◌+◌, Bool, true, false, not, ◌&&◌, Option, none, some, [], ◌++◌, replicate, ltb, ◌==◌,
  if◌then◌else◌,
}
use hadron_desktop.Base.Text.{Text, text, is_empty}
use hadron_desktop.Agent.Auth.{
  Class, user, admin, unknown, RotationConfig, max_rotation_overlap, digest_prefix,
}
use hadron_desktop.Agent.Provision.{Config}

pub record Rotation : Type 0 where
  pub current : Text
  pub previous : Text
  pub previous_valid_until : Text

-- The two rotations of `GatewayConfig`, whose other fields no rotation changes.
pub record GatewayConfig : Type 0 where
  pub user : Rotation
  pub admin : Rotation

-- `rotationFromConfig`
unfoldable pub rotation_from_config : (ℕ → Text) → Text → Text → ℕ → Rotation
rotation_from_config format_time current previous valid_until = record {
  current = current;
  previous = previous;
  previous_valid_until = if valid_until == 0 then [] else format_time valid_until;
}

pub data RotationError : Type 0 where
  until_without_digest digest_without_until bad_until : RotationError

pub data Restored : Type 0 where
  restored : RotationConfig → Restored
  corrupt : RotationError → Restored

-- `Rotation.AuthRotation`
with_until : Rotation → Option ℕ → Restored
with_until r none = corrupt bad_until
with_until r (some t) =
    restored (record { current = r.current; previous = r.previous; previous_valid_until = t })

unfoldable pub auth_rotation : (Text → Option ℕ) → Rotation → Restored
unfolding with_until is_empty
auth_rotation parse_time r =
    if is_empty r.previous
    then if not (is_empty r.previous_valid_until)
      then corrupt until_without_digest
      else restored (record { current = r.current; previous = []; previous_valid_until = 0 })
    else if is_empty r.previous_valid_until
    then corrupt digest_without_until
    else with_until r (parse_time r.previous_valid_until)

-- `resolveUserRotation`: the rotation, and a bearer that was generated.
pub data UserResolved : Type 0 where
  resolved : Rotation → Option Text → UserResolved
  not_generated : UserResolved

fresh : Option (Text × Text) → UserResolved
fresh none = not_generated
fresh (some (bearer, digest)) =
    resolved (record { current = digest; previous = []; previous_valid_until = [] }) (some bearer)

persisted_user : Option GatewayConfig → Option (Text × Text) → UserResolved
unfolding fresh is_empty
persisted_user none generated = fresh generated
persisted_user (some gw) generated =
    if not (is_empty gw.user.current) then resolved gw.user none else fresh generated

unfoldable pub resolve_user_rotation :
    (ℕ → Text) → Config → Option GatewayConfig → Option (Text × Text) → UserResolved
unfolding persisted_user rotation_from_config is_empty
resolve_user_rotation format_time c existing generated =
    if not (is_empty c.user_token_hash)
    then resolved
        (rotation_from_config format_time c.user_token_hash c.user_previous_token_hash
          c.user_previous_valid_until)
        none
    else persisted_user existing generated

-- `resolveAdminRotation`; `none` stands for a class that is not enabled.
persisted_admin : Option GatewayConfig → Option Rotation
unfolding is_empty
persisted_admin none = none
persisted_admin (some gw) = if not (is_empty gw.admin.current) then some gw.admin else none

unfoldable pub resolve_admin_rotation : (ℕ → Text) → Config → Option GatewayConfig → Option Rotation
unfolding persisted_admin rotation_from_config is_empty
resolve_admin_rotation format_time c existing =
    if not (is_empty c.admin_token_hash)
    then some (
        rotation_from_config format_time c.admin_token_hash c.admin_previous_token_hash
          c.admin_previous_valid_until)
    else persisted_admin existing

-- `makeRotation`
unfoldable pub make_rotation : Rotation → Text → Text → ℕ → Rotation
unfolding is_empty
make_rotation old new_digest valid_until overlap =
    if ltb 0 overlap && not (is_empty old.current)
    then record { current = new_digest; previous = old.current; previous_valid_until = valid_until }
    else record { current = new_digest; previous = []; previous_valid_until = [] }

pub data RotateError : Type 0 where
  overlap_exceeds unknown_class no_config generate_failed no_admin : RotateError

pub data Planned : Type 0 where
  planned : GatewayConfig → Planned
  refused : RotateError → Planned

-- `Rotate` up to the configuration that it writes; an overlap below zero, which it refuses first,
-- has no value here.
replaced : Class → GatewayConfig → Text → Text → ℕ → Planned
unfolding make_rotation is_empty
replaced user gw digest valid_until overlap =
    planned (record gw { user = make_rotation gw.user digest valid_until overlap })
replaced admin gw digest valid_until overlap =
    if is_empty gw.admin.current
    then refused no_admin
    else planned (record gw { admin = make_rotation gw.admin digest valid_until overlap })
replaced (unknown s) gw digest valid_until overlap = refused unknown_class

-- `validUntil`
unfoldable pub until_of : (ℕ → Text) → ℕ → ℕ → Text
until_of format_time now overlap = if ltb 0 overlap then format_time (now + overlap) else []

abbrev is_class : Class → Bool
is_class user = true
is_class admin = true
is_class (unknown s) = false

with_generated : (Text → Planned) → Option Text → Planned
with_generated f none = refused generate_failed
with_generated f (some digest) = f digest

with_config : Option GatewayConfig → (GatewayConfig → Planned) → Planned
with_config none f = refused no_config
with_config (some gw) f = f gw

unfoldable pub rotate : (ℕ → Text) → ℕ → Class → ℕ → Option GatewayConfig → Option Text → Planned
unfolding with_config with_generated replaced until_of
rotate format_time now c overlap existing generated =
    if ltb max_rotation_overlap overlap
    then refused overlap_exceeds
    else if not (is_class c)
    then refused unknown_class
    else with_config existing (λ gw.
      with_generated (λ digest. replaced c gw digest (until_of format_time now overlap) overlap)
        generated)

-- `resolveRotation` of agent/cmd/hadron-agent/main.go, with the value of the environment variable.
abbrev unusable_digest : Text
unusable_digest = digest_prefix ++ replicate 64 b'0'

unfoldable pub resolve_digest : Text → Text → Text
unfolding is_empty
resolve_digest flag_val env_val = if not (is_empty flag_val) then flag_val else env_val

abbrev alone : Text → RotationConfig
alone digest = record { current = digest; previous = []; previous_valid_until = 0 }

provisioned_rotation : (Text → Option ℕ) → Option Rotation → Restored
unfolding auth_rotation is_empty text
provisioned_rotation parse_time none = restored (alone unusable_digest)
provisioned_rotation parse_time (some r) =
    if not (is_empty r.current)
    then auth_rotation parse_time r
    else restored (alone unusable_digest)

unfoldable pub resolve_rotation : (Text → Option ℕ) → Text → Text → Option Rotation → Restored
unfolding provisioned_rotation resolve_digest is_empty
resolve_rotation parse_time flag_val env_val provisioned =
    let d = resolve_digest flag_val env_val in
    if not (is_empty d) then restored (alone d) else provisioned_rotation parse_time provisioned
