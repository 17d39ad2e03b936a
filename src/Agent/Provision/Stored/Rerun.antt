-- ===== src/Agent/Provision/Stored/Rerun.antt =====
-- A second run of Materialize.
use hadron_desktop.Base.{
  ℕ, false, Option, none, some, ◌≡◌, refl, sym, ap, ◌∙◌, Bool-cases, inl, inr,
}
use hadron_desktop.Base.Text.{Text, is_empty}
use hadron_desktop.Agent.Provision.{Config}
use hadron_desktop.Agent.Provision.Stored.{
  Rotation, GatewayConfig, rotation_from_config, UserResolved, resolved, not_generated,
  persisted_user, resolve_user_rotation,
}

abbrev rotation_or : Rotation → UserResolved → Rotation
rotation_or r (resolved s bearer) = s
rotation_or r not_generated = r

-- A digest of the configuration comes first.
configured :
    (format_time : ℕ → Text) (c : Config) (existing : Option GatewayConfig)
    (generated : Option (Text × Text))
    → is_empty c.user_token_hash ≡ false
    → resolve_user_rotation format_time c existing generated
      ≡ resolved
          (rotation_from_config format_time c.user_token_hash c.user_previous_token_hash
            c.user_previous_valid_until)
          none
unfolding resolve_user_rotation
configured format_time c existing generated h = rw h refl

-- Once a run of Materialize has stored a user rotation with a current digest, a
-- later run under the same configuration chooses that rotation again, and no bearer is generated.
pub rerun_keeps_user :
    (format_time : ℕ → Text) (c : Config) (existing : Option GatewayConfig)
    (generated later_generated : Option (Text × Text)) (gw : GatewayConfig) (bearer : Option Text)
    → resolve_user_rotation format_time c existing generated ≡ resolved gw.user bearer
    → is_empty gw.user.current ≡ false
    → resolve_user_rotation format_time c (some gw) later_generated ≡ resolved gw.user none
unfolding resolve_user_rotation persisted_user
rerun_keeps_user format_time c existing generated later_generated gw bearer e set =
    elim (Bool-cases (is_empty c.user_token_hash)) [
      | inl h ↦ rw (h, set) refl
      | inr h ↦
          let first = configured format_time c existing generated h in
          configured format_time c (some gw) later_generated h
          ∙ ap (λ r. resolved (rotation_or gw.user r) none) (sym first ∙ e)
    ]
