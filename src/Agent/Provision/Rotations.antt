-- ===== src/Agent/Provision/Rotations.antt =====
-- The two classes of a configuration, against the verifier that is built from them.
use hadron_desktop.Base.{ℕ, Bool, false, Option, none, some, ◌≡◌, refl, sym, ◌∙◌}
use hadron_desktop.Base.Text.{Text, is_empty}
use hadron_desktop.Agent.Auth.{RotationConfig, validate_rotation, built, new_verifier_at}
use hadron_desktop.Agent.Auth.Verify.{new_verifier_at-eq_built}
use hadron_desktop.Agent.Provision.{
  Config, Invalid, or_invalid, validate_previous, validate_auth_pair, validate_at,
}

-- The two rotations that a configuration describes.
abbrev pub user_rotation : Config → RotationConfig
user_rotation c = record {
  current = c.user_token_hash;
  previous = c.user_previous_token_hash;
  previous_valid_until = c.user_previous_valid_until;
}

abbrev pub admin_rotation : Config → RotationConfig
admin_rotation c = record {
  current = c.admin_token_hash;
  previous = c.admin_previous_token_hash;
  previous_valid_until = c.admin_previous_valid_until;
}

-- For a class that has a current digest, `validateAuthPair` is `RotationConfig.validate`: the same
-- triples pass, and the others fail with the same error.
pub validate_auth_pair-validate_rotation :
    (r : RotationConfig) (now : ℕ)
    → is_empty r.current ≡ false
    → validate_auth_pair r.current r.previous r.previous_valid_until now ≡ validate_rotation now r
unfolding validate_auth_pair validate_previous validate_rotation
validate_auth_pair-validate_rotation r now e = rw e refl

or_invalid-eq_none {ℓ} :
    {E : Type ℓ} (f : E → Invalid) (o : Option E) (next : Option Invalid)
    → or_invalid f o next ≡ none
    → (o ≡ none) × (next ≡ none)
unfolding or_invalid
or_invalid-eq_none f none next e = (refl, e)
or_invalid-eq_none f (some x) next e = cc (e)

-- A configuration that passes `validateAt` and has a current digest for both classes is one that
-- `newVerifierAt` accepts at the same instant, with the two rotations of the configuration.
pub validate_at-new_verifier_at :
    (split_host_port : Text → Option (Text × Text)) (is_loopback_ip : Text → Bool) (c : Config)
    (now : ℕ)
    → validate_at split_host_port is_loopback_ip c now ≡ none
    → is_empty c.user_token_hash ≡ false
    → is_empty c.admin_token_hash ≡ false
    → new_verifier_at now (user_rotation c) (admin_rotation c)
      ≡ built (record { user = user_rotation c; admin = admin_rotation c })
unfolding validate_at
validate_at-new_verifier_at split_host_port is_loopback_ip c now v eu ea =
    let (l, v1) = or_invalid-eq_none _ _ _ v in
    let (u, v2) = or_invalid-eq_none _ _ _ v1 in
    let (a, t) = or_invalid-eq_none _ _ _ v2 in
    new_verifier_at-eq_built now (user_rotation c) (admin_rotation c)
      (sym (validate_auth_pair-validate_rotation (user_rotation c) now eu) ∙ u)
      (sym (validate_auth_pair-validate_rotation (admin_rotation c) now ea) ∙ a)
