-- ===== src/Agent/Tests/Provisioning.antt =====
-- Files of /oem that agree on their digests, and others.
use mathlib.Core.List.{Memᴰ}
use hadron_desktop.Base.{
  ℕ, ◌≡◌, refl, Bool, true, false, Option, none, some, List, [], ◌∷◌, ◌++◌, replicate,
}
use hadron_desktop.Base.Text.{Text, text, cut}
use hadron_desktop.Agent.Auth.{built, new_verifier_at, digest_prefix}
use hadron_desktop.Agent.Provision.{
  Raw, nothing, user_current, FileDoc, section, no_section, Config, Loaded, loaded, failed,
  conflicting, invalid_config, half_tls, bad_listen, not_loopback, load,
}
use hadron_desktop.Base.Int.{pos}
use hadron_desktop.Agent.Provision.Loading.{load_agrees, load_builds}
use hadron_desktop.Agent.Provision.Rotations.{user_rotation, admin_rotation}

abbrev digest : ℕ → Text
digest c = digest_prefix ++ replicate 64 c

-- The first colon parts the host from the port, no address is of the loopback interface, and no
-- text is an instant.
abbrev split_host_port : Text → Option (Text × Text)
split_host_port t = cut t b':'

abbrev is_loopback_ip : Text → Bool
is_loopback_ip t = false

abbrev parse_time : Text → Option ℕ
parse_time t = none

unfoldable users : Raw
unfolding text
users = record nothing { user_token_hash = some (digest b'1') }

unfoldable both : Raw
unfolding text
both = record nothing {
  user_token_hash = some [];
  admin_token_hash = some (digest b'2');
  enabled = some false;
}

unfoldable others : Raw
unfolding text
others = record nothing { user_token_hash = some (digest b'3') }

abbrev docs : List FileDoc
docs = section users ∷ no_section ∷ section both ∷ []

unfoldable run : List FileDoc → Loaded
unfolding load
run fs = load split_host_port is_loopback_ip parse_time fs 5

unfoldable config : Config
unfolding text
config = record {
  enabled = false;
  listen = text "0.0.0.0:7443";
  mdns = true;
  insecure_loopback = false;
  user_token_hash = digest b'1';
  user_previous_token_hash = [];
  user_previous_valid_until = 0;
  admin_token_hash = digest b'2';
  admin_previous_token_hash = [];
  admin_previous_valid_until = 0;
  certificate_pem = [];
  private_key_pem = [];
  max_concurrent_calls = pos 16;
  max_processes = pos 16;
  max_request_bytes = pos 2_097_152;
}

run-docs : run docs ≡ loaded config
unfolding run users both config text cut
run-docs = refl

other_digest : run (section others ∷ docs) ≡ failed (conflicting user_current)
unfolding run users both others text cut
other_digest = refl

load_agrees_example : config.user_token_hash ≡ digest b'1'
unfolding run users
load_agrees_example =
    load_agrees split_host_port is_loopback_ip parse_time docs 5 config run-docs user_current users
      (digest b'1') (Memᴰ.head refl) refl refl

load_builds_example :
    new_verifier_at 5 (user_rotation config) (admin_rotation config)
    ≡ built (record { user = user_rotation config; admin = admin_rotation config })
unfolding run config
load_builds_example =
    load_builds split_host_port is_loopback_ip parse_time docs 5 config run-docs refl refl

-- One half of the TLS material alone, and a plain listener on every interface.
half :
    run (section (record users { certificate_pem = some (text "PEM") }) ∷ [])
    ≡ failed (invalid_config half_tls)
unfolding run users text cut
half = refl

plain :
    run (section (record nothing { insecure_loopback = some true }) ∷ [])
    ≡ failed (invalid_config (bad_listen not_loopback))
unfolding run text cut
plain = refl
