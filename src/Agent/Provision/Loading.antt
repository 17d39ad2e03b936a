-- ===== src/Agent/Provision/Loading.antt =====
-- What a successful load says of the files and of the configuration.
use mathlib.Core.Path.{subst}
use mathlib.Core.List.{Memᴰ}
use hadron_desktop.Base.{ℕ, Bool, false, Option, none, some, List, [], ◌≡◌, refl, sym, ap, ◌∙◌}
use hadron_desktop.Base.Text.{Text, is_empty}
use hadron_desktop.Agent.Auth.{built, new_verifier_at}
use hadron_desktop.Agent.Provision.{
  Raw, nothing, Secret, user_current, user_previous, admin_current, admin_previous, Config, deref,
  Invalid, FileDoc, section, Folded, folded, stopped, merge_files, Loaded, loaded, failed,
  with_times, resolve, validate_at, check_config, check_resolved, resolve_folded, load,
}
use hadron_desktop.Agent.Provision.Secrets.{secret_of, merge_files-agrees}
use hadron_desktop.Agent.Provision.Rotations.{
  user_rotation, admin_rotation, validate_at-new_verifier_at,
}

abbrev pub config_secret : Secret → Config → Text
config_secret user_current c = c.user_token_hash
config_secret user_previous c = c.user_previous_token_hash
config_secret admin_current c = c.admin_token_hash
config_secret admin_previous c = c.admin_previous_token_hash

abbrev loaded_or : Config → Loaded → Config
loaded_or c (loaded d) = d
loaded_or c (failed e) = c

check_config-eq_loaded :
    (o : Option Invalid) (c d : Config) → check_config o c ≡ loaded d → (o ≡ none) × (c ≡ d)
unfolding check_config
check_config-eq_loaded none c d e = (refl, ap (loaded_or c) e)
check_config-eq_loaded (some x) c d e = cc (e)

check_resolved-eq_loaded :
    (validate : Config → Option Invalid) (l : Loaded) (d : Config)
    → check_resolved validate l ≡ loaded d
    → (l ≡ loaded d) × (validate d ≡ none)
unfolding check_resolved
check_resolved-eq_loaded validate (failed x) d e = cc (e)
check_resolved-eq_loaded validate (loaded c) d e =
    let (v, p) = check_config-eq_loaded (validate c) c d e in
    (ap loaded p, subst (λ x. validate x ≡ none) p v)

with_times-config_secret :
    (k : Secret) (a : Raw) (u v : Option ℕ) (c : Config)
    → with_times a u v ≡ loaded c
    → config_secret k c ≡ deref (secret_of k a) []
unfolding with_times
with_times-config_secret k a none v c e = cc (e)
with_times-config_secret k a (some u) none c e = cc (e)
with_times-config_secret user_current a (some u) (some v) c e =
    sym (ap (λ l. (loaded_or c l).user_token_hash) e)
with_times-config_secret user_previous a (some u) (some v) c e =
    sym (ap (λ l. (loaded_or c l).user_previous_token_hash) e)
with_times-config_secret admin_current a (some u) (some v) c e =
    sym (ap (λ l. (loaded_or c l).admin_token_hash) e)
with_times-config_secret admin_previous a (some u) (some v) c e =
    sym (ap (λ l. (loaded_or c l).admin_previous_token_hash) e)

resolve_folded-eq_loaded :
    (parse_time : Text → Option ℕ) (r : Folded) (c : Config)
    → resolve_folded parse_time r ≡ loaded c
    → (a : Raw) × (r ≡ folded a) × ((k : Secret) → config_secret k c ≡ deref (secret_of k a) [])
unfolding resolve_folded resolve
resolve_folded-eq_loaded parse_time (stopped x) c e = cc (e)
resolve_folded-eq_loaded parse_time (folded a) c e =
    (a, refl, λ k. with_times-config_secret k a _ _ c e)

module _ (split_host_port : Text → Option (Text × Text)) (is_loopback_ip : Text → Bool)
    (parse_time : Text → Option ℕ) (docs : List FileDoc) (now : ℕ) (c : Config)
    (success : load split_host_port is_loopback_ip parse_time docs now ≡ loaded c) where
  load-eq_loaded :
      (resolve_folded parse_time (merge_files nothing docs) ≡ loaded c)
      × (validate_at split_host_port is_loopback_ip c now ≡ none)
  unfolding load
  load-eq_loaded =
      check_resolved-eq_loaded (λ x. validate_at split_host_port is_loopback_ip x now)
        (resolve_folded parse_time (merge_files nothing docs)) c success

  -- After a load that succeeds, whatever non-empty digest a file sets is the one of the
  -- configuration, for each of the four digests: a file that sets another fails the load, and an
  -- empty one changes nothing.
  pub load_agrees :
      (k : Secret) (f : Raw) (s : Text)
      → Memᴰ (section f) docs
      → secret_of k f ≡ some s
      → is_empty s ≡ false
      → config_secret k c ≡ s
  load_agrees k f s m e n =
      let (a, r, secrets) =
        resolve_folded-eq_loaded parse_time (merge_files nothing docs) c load-eq_loaded.0 in
      secrets k ∙ ap (λ o. deref o []) (merge_files-agrees k s nothing a f docs r m e n)

  -- A configuration that was loaded, with a current digest for both classes, is one that
  -- `newVerifierAt` accepts at the instant of the load, with the two rotations of the configuration.
  pub load_builds :
      is_empty c.user_token_hash ≡ false
      → is_empty c.admin_token_hash ≡ false
      → new_verifier_at now (user_rotation c) (admin_rotation c)
        ≡ built (record { user = user_rotation c; admin = admin_rotation c })
  load_builds eu ea =
      validate_at-new_verifier_at split_host_port is_loopback_ip c now load-eq_loaded.1 eu ea
