-- ===== src/Agent/Gateway/Door.antt =====
-- Which bearers the gateway admits, and which of them reach the root helper.
use hadron_desktop.Base.{
  ℕ, ◌+◌, ◌≡◌, ◌≢◌, ◌↔◌, ◌⊎◌, inl, inr, refl, sym, ap, ◌∙◌, Bool, true, false, Option, none, some,
  List, Bool-cases, ltb, not, if◌then◌else◌, arith,
}
use hadron_desktop.Base.Text.{Text}
use hadron_desktop.Agent.Wire.{Tool, computer_use, browser}
use hadron_desktop.Agent.Auth.{
  Class, user, admin, unknown, Verifier, config_for, Verified, ok, err, verify, digest_bearer,
}
use hadron_desktop.Agent.Auth.Verify.{
  IsOrder, IsBearer, IsAccepted, token_of, verify_iff, bearer_class,
}
use hadron_desktop.Agent.Control.{Controller}
use hadron_desktop.Agent.Control
use hadron_desktop.Agent.Gateway.{
  Gateway, Stamped, first_ok, verify_bearer, Target, root_helper, forwarded, is_privileged, pick,
  dispatch, admit, start_call, Config, Made, made, not_made, no_session, new_gateway, new_with,
  new_listening, gateway_of, listen_of, validate_listen, validate_host, is_loopback_host, NewError,
}

-- What the middleware stores for a bearer of a class.
abbrev pub stamped : (Text → List ℕ) → ℕ → Gateway → Class → Text → Stamped
stamped sha256 now g c raw = record {
  token = token_of sha256 c raw;
  expiration = now + g.token_ttl;
}

-- The bearer is of the class, and its digest is accepted for it.
abbrev pub Presents : (Text → List ℕ) → ℕ → Gateway → Class → Text → Type 0
Presents sha256 now g c raw =
    IsBearer c raw × IsAccepted (config_for g.verifier c) now (digest_bearer sha256 raw)

-- The middleware's answer to a bearer of a class.
abbrev pub Admitted : (Text → List ℕ) → ℕ → Gateway → Class → Text → Stamped → Type 0
Admitted sha256 now g c raw s = Presents sha256 now g c raw × (s ≡ stamped sha256 now g c raw)

user-ne-admin : user ≢ admin
user-ne-admin e = cc (e)

module _ (sha256 : Text → List ℕ) (order : List Class) (now : ℕ) (g : Gateway) (raw : Text)
    (every : IsOrder order) where
  first_sound :
      (c : Class) (next : Option Stamped) (s : Stamped) (o : Verified)
      → verify sha256 order now g.verifier raw c ≡ o
      → first_ok g now o next ≡ some s
      → (Presents sha256 now g c raw × (s ≡ stamped sha256 now g c raw)) ⊎ (next ≡ some s)
  unfolding first_ok
  first_sound c next s (err e) k h = inr h
  first_sound c next s (ok t) k h =
      let (w, a, same) = (verify_iff sha256 order now g.verifier raw c t every).0 k in
      inl ((w, a), cc (same))

  first_complete :
      (c : Class) (next : Option Stamped)
      → Presents sha256 now g c raw
      → first_ok g now (verify sha256 order now g.verifier raw c) next
        ≡ some (stamped sha256 now g c raw)
  unfolding first_ok
  first_complete c next (w, a) =
      rw
        ((verify_iff sha256 order now g.verifier raw c (token_of sha256 c raw) every).1
          (w, a, refl))
        refl

  first_other :
      (c : Class) (next : Option Stamped) (o : Verified)
      → verify sha256 order now g.verifier raw c ≡ o
      → ¬ IsBearer c raw
      → first_ok g now o next ≡ next
  unfolding first_ok
  first_other c next (err e) k h = refl
  first_other c next (ok t) k h =
      absurd (h ((verify_iff sha256 order now g.verifier raw c t every).0 k).0)

  second_sound :
      (s : Stamped)
      → Admitted sha256 now g user raw s
        ⊎ (first_ok g now (verify sha256 order now g.verifier raw admin) none ≡ some s)
      → Admitted sha256 now g user raw s ⊎ Admitted sha256 now g admin raw s
  second_sound s (inl h) = inl h
  second_sound s (inr h) =
      elim (first_sound admin none s (verify sha256 order now g.verifier raw admin) refl h) [
        | inl k ↦ inr k
        | inr k ↦ absurd (cc (k))
      ]

  both_complete :
      (s : Stamped)
      → Admitted sha256 now g user raw s ⊎ Admitted sha256 now g admin raw s
      → verify_bearer sha256 order now g raw ≡ some s
  unfolding verify_bearer
  both_complete s (inl (p, e)) =
      first_complete user (first_ok g now (verify sha256 order now g.verifier raw admin) none) p
      ∙ ap some (sym e)
  both_complete s (inr (p, e)) =
      first_other user (first_ok g now (verify sha256 order now g.verifier raw admin) none)
        (verify sha256 order now g.verifier raw user) refl
        (λ w. user-ne-admin (bearer_class user admin raw w p.0))
      ∙ first_complete admin none p
      ∙ ap some (sym e)

  -- The middleware admits a bearer exactly if it is one of the user or of the admin class which the
  -- verifier accepts for that class, and stores the token of that class, which expires the
  -- configured time later.
  pub verify_bearer_iff :
      (s : Stamped)
      → (verify_bearer sha256 order now g raw ≡ some s)
        ↔ (Admitted sha256 now g user raw s ⊎ Admitted sha256 now g admin raw s)
  unfolding verify_bearer
  verify_bearer_iff s = (
    λ h. second_sound s (first_sound user _ s (verify sha256 order now g.verifier raw user) refl h),
    both_complete s,
  )

pick-eq_root :
    (has_root : Bool) (c : Class) (tool : Tool) (header sent : Text)
    → pick has_root c tool header ≡ some (root_helper, sent)
    → (is_privileged c tool ≡ true) × (sent ≡ header)
unfolding pick
pick-eq_root has_root c tool header sent h = (ground arith, ground arith)

-- The calls that an administrator sends to the root helper.
privileged_class :
    (c : Class) (tool : Tool)
    → is_privileged c tool ≡ true
    → (c ≡ admin) × (tool ≢ computer_use) × (tool ≢ browser)
unfolding is_privileged
privileged_class admin computer_use h = absurd (cc h)
privileged_class admin browser h = absurd (cc h)
privileged_class admin tool h = (refl, λ e. cc (e), λ e. cc (e))
privileged_class user tool h = absurd (cc h)
privileged_class (unknown s) tool h = absurd (cc h)

dispatch-eq_root :
    (o : Option (Target × Text)) (n gen : ℕ) (sent : Text)
    → dispatch o n ≡ forwarded root_helper sent gen
    → o ≡ some (root_helper, sent)
unfolding dispatch
dispatch-eq_root none n gen sent h = absurd (cc h)
dispatch-eq_root (some (t, header)) n gen sent h = ground arith

admit-eq_root :
    (o : Option ℕ) (g : Gateway) (c : Class) (tool : Tool) (header sent : Text) (gen : ℕ)
    → admit o g c tool header ≡ forwarded root_helper sent gen
    → pick g.has_root c tool header ≡ some (root_helper, sent)
unfolding admit
admit-eq_root none g c tool header sent gen h = absurd (cc h)
admit-eq_root (some n) g c tool header sent gen h = elim (Bool-cases (ltb g.in_use g.max_calls)) [
  | inl e ↦ dispatch-eq_root (pick g.has_root c tool header) n gen sent (rw e at h)
  | inr e ↦ absurd (cc (rw e at h))
]

-- A call that the gateway forwards to the root helper was let in with a bearer of the admin class
-- which the verifier accepts, is for another tool than computer_use and browser, and carries the
-- client's header as it is.
pub root_needs_admin :
    (sha256 : Text → List ℕ) (order : List Class) (now : ℕ) (g : Gateway) (raw : Text) (s : Stamped)
    (tool : Tool) (header sent : Text) (gen : ℕ)
    → IsOrder order
    → verify_bearer sha256 order now g raw ≡ some s
    → start_call g (some s.token) tool header ≡ forwarded root_helper sent gen
    → Presents sha256 now g admin raw × (tool ≢ computer_use) × (tool ≢ browser) × (sent ≡ header)
unfolding start_call
root_needs_admin sha256 order now g raw s tool header sent gen every h k =
    let picked =
      admit-eq_root (Control.enter g.controller) g s.token.class tool header sent gen k in
    let (privileged, same) = pick-eq_root g.has_root s.token.class tool header sent picked in
    let (is_admin, not_computer, not_browser) = privileged_class s.token.class tool privileged in
    (
      admin_presented ((verify_bearer_iff sha256 order now g raw every s).0 h) is_admin,
      not_computer,
      not_browser,
      same,
    )
  where
    admin_presented :
        Admitted sha256 now g user raw s ⊎ Admitted sha256 now g admin raw s
        → s.token.class ≡ admin
        → Presents sha256 now g admin raw
    admin_presented (inl (p, e)) a =
        absurd (user-ne-admin (sym (ap (λ (t : Stamped). t.token.class) e) ∙ a))
    admin_presented (inr (p, e)) a = p

new_listening-eq_made :
    (o : Option NewError) (cfg : Config) (g h : Gateway)
    → new_listening o cfg g ≡ made h
    → (o ≡ none) × (g ≡ h) × ((cfg.has_tls ≡ true) ⊎ (cfg.insecure_loopback ≡ true))
unfolding new_listening
new_listening-eq_made (some e) cfg g h k = absurd (cc k)
new_listening-eq_made none cfg g h k = ground arith

past_session :
    (b : Bool) (next : Made) (g : Gateway)
    → (if not b then not_made no_session else next) ≡ made g
    → next ≡ made g
past_session b next g h = ground arith

module _ (host_of : Text → Option Text) (is_loopback_ip : Text → Bool) where
  validate_host-eq_none :
      (o : Option Text) (insecure : Bool)
      → validate_host host_of is_loopback_ip o insecure ≡ none
      → insecure ≡ true
      → (host : Text) × (o ≡ some host) × (is_loopback_host host_of is_loopback_ip host ≡ true)
  unfolding validate_host
  validate_host-eq_none none insecure h e = absurd (cc h)
  validate_host-eq_none (some host) insecure h e = (host, refl, ground arith)

  listening :
      (cfg : Config) (v : Verifier) (c : Controller) (g : Gateway)
      → new_listening
          (validate_listen host_of is_loopback_ip (listen_of cfg) cfg.insecure_loopback)
          cfg
          (gateway_of cfg v c)
        ≡ made g
      → g.has_tls ≡ false
      → (host : Text) × (host_of g.listen_addr ≡ some host)
        × (is_loopback_host host_of is_loopback_ip host ≡ true)
  unfolding validate_listen
  listening cfg v c g h p =
      let (valid, same, secure) = new_listening-eq_made _ cfg (gateway_of cfg v c) g h in
      let (host, e, l) =
        validate_host-eq_none (host_of (listen_of cfg)) cfg.insecure_loopback valid
          (insecure secure same) in
      (host, ap (λ (k : Gateway). host_of k.listen_addr) (sym same) ∙ e, l)
    where
      insecure :
          (cfg.has_tls ≡ true) ⊎ (cfg.insecure_loopback ≡ true)
          → gateway_of cfg v c ≡ g
          → cfg.insecure_loopback ≡ true
      insecure (inl t) same = cc (ap (λ (k : Gateway). k.has_tls) same, p, t)
      insecure (inr i) same = i

  new_with-eq_made :
      (cfg : Config) (v : Option Verifier) (c : Option Controller) (g : Gateway)
      → new_with host_of is_loopback_ip cfg v c ≡ made g
      → g.has_tls ≡ false
      → (host : Text) × (host_of g.listen_addr ≡ some host)
        × (is_loopback_host host_of is_loopback_ip host ≡ true)
  unfolding new_with
  new_with-eq_made cfg none c g h p = absurd (cc h)
  new_with-eq_made cfg (some v) none g h p = absurd (cc h)
  new_with-eq_made cfg (some v) (some c) g h p =
      listening cfg v c g (past_session cfg.has_session _ g h) p

  -- A gateway that is made without TLS listens on an address whose host names the loopback interface.
  pub plain_is_loopback :
      (cfg : Config) (g : Gateway)
      → new_gateway host_of is_loopback_ip cfg ≡ made g
      → g.has_tls ≡ false
      → (host : Text) × (host_of g.listen_addr ≡ some host)
        × (is_loopback_host host_of is_loopback_ip host ≡ true)
  unfolding new_gateway
  plain_is_loopback cfg g h p = new_with-eq_made cfg cfg.verifier cfg.controller g h p
