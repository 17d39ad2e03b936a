-- ===== src/Agent/Tests/Rotated.antt =====
-- A rotation that is stored and read back.
use hadron_desktop.Base.{
  ℕ, ◌+◌, ◌-◌, ◌%◌, ◌*◌, ◌/◌, ◌^◌, ◌≡◌, ◌≢◌, refl, ltb, Option, none, some, [], ◌∷◌, ◌++◌,
  replicate, true, false, if◌then◌else◌, arith,
}
use hadron_desktop.Base.Text.{Text, text, text_eq, text_eq_iff, is_empty}
use hadron_desktop.Agent.Auth.{
  RotationConfig, digest_prefix, validate_digest, validate_rotation, user,
}
use hadron_desktop.Base.Int.{pos}
use hadron_desktop.Agent.Provision.{Config, validate_auth_pair}
use hadron_desktop.Agent.Provision.Stored.{
  Rotation, GatewayConfig, resolved, resolve_user_rotation, resolve_rotation, rotation_from_config,
  restored, auth_rotation, make_rotation, until_of, rotate, refused, overlap_exceeds, no_config,
}
use hadron_desktop.Agent.Provision.Stored.Rerun.{rerun_keeps_user}
use hadron_desktop.Agent.Provision.Stored.Rotating.{
  auth_rotation-rotation_from_config, make_rotation-validate_rotation,
}

abbrev digest : ℕ → Text
digest c = digest_prefix ++ replicate 64 c

-- An instant is written as the number of its seconds.
abbrev format_time : ℕ → Text
format_time t = t / 10 ^ 9 ∷ []

abbrev parse_time : Text → Option ℕ
parse_time [] = none
parse_time (s ∷ rest) = some (s * 10 ^ 9)

abbrev both : RotationConfig
both = record { current = digest b'1'; previous = digest b'2'; previous_valid_until = 7 * 10 ^ 9 }

auth_rotation-rotation_from_config_example :
    auth_rotation parse_time
      (rotation_from_config format_time (digest b'1') (digest b'2') (7 * 10 ^ 9))
    ≡ restored both
unfolding text validate_auth_pair
auth_rotation-rotation_from_config_example =
    auth_rotation-rotation_from_config format_time parse_time both 5 refl refl refl

abbrev old : Rotation
old = record { current = digest b'1'; previous = []; previous_valid_until = [] }

differ : digest b'2' ≢ digest b'1'
unfolding text text_eq
differ same =
    let h : false ≡ true = (text_eq_iff (digest b'2') (digest b'1')).1 same in absurd (cc (h))

make_rotation-validate_rotation_example :
    (r : RotationConfig) × (auth_rotation parse_time
        (make_rotation old (digest b'2') (until_of format_time (3 * 10 ^ 9 + 1) (10 ^ 9)) (10 ^ 9))
      ≡ restored r)
    × (validate_rotation (3 * 10 ^ 9 + 1) r ≡ none)
    × (r.current ≡ digest b'2')
    × (r.previous ≡ (if ltb 0 (10 ^ 9) then digest b'1' else []))
    × (r.previous_valid_until ≡ (
        if ltb 0 (10 ^ 9) then 3 * 10 ^ 9 + 1 + 10 ^ 9 - (3 * 10 ^ 9 + 1 + 10 ^ 9) % 10 ^ 9 else 0))
unfolding text is_empty validate_digest
make_rotation-validate_rotation_example =
    make_rotation-validate_rotation format_time parse_time old (digest b'2') (3 * 10 ^ 9 + 1)
      (10 ^ 9) refl refl refl refl refl differ (omega arith) (omega arith)

day_and_more : rotate format_time 5 user (25 * 3_600 * 10 ^ 9) none none ≡ refused overlap_exceeds
unfolding rotate
day_and_more = refl

unprovisioned : rotate format_time 5 user 0 none none ≡ refused no_config
unfolding rotate
unprovisioned = refl

-- The first run generates a bearer, the second one keeps its digest.
abbrev unset : Config
unset = record {
  enabled = true;
  listen = [];
  mdns = true;
  insecure_loopback = false;
  user_token_hash = [];
  user_previous_token_hash = [];
  user_previous_valid_until = 0;
  admin_token_hash = [];
  admin_previous_token_hash = [];
  admin_previous_valid_until = 0;
  certificate_pem = [];
  private_key_pem = [];
  max_concurrent_calls = pos 16;
  max_processes = pos 16;
  max_request_bytes = pos 1;
}

abbrev written : GatewayConfig
written = record {
  user = old;
  admin = record { current = []; previous = []; previous_valid_until = [] };
}

rerun_keeps_user_example :
    resolve_user_rotation format_time unset (some written) none ≡ resolved old none
unfolding resolve_user_rotation text is_empty
rerun_keeps_user_example =
    rerun_keeps_user format_time unset none (some (text "bearer", digest b'1')) none written
      (some (text "bearer")) refl refl

flag_wins :
    resolve_rotation parse_time (digest b'4') (digest b'5') (some old)
    ≡ restored (record { current = digest b'4'; previous = []; previous_valid_until = 0 })
unfolding resolve_rotation text
flag_wins = refl
