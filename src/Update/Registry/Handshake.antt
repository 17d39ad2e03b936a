-- ===== src/Update/Registry/Handshake.antt =====
-- Which requests a look-up sends, and how many.
use hadron_desktop.Base.{
  ℕ, ◌+◌, ◌≤◌, ◌≡◌, ◌≢◌, ◌⊎◌, Bool-cases, ap, inl, inr, refl, Bool, true, false, not, Option, none,
  some, List, [], ◌∷◌, ◌++◌, All, length, ◌==◌, append_assoc, if◌then◌else◌, arith,
}
use hadron_desktop.Base.Text.{
  Text, text, text_eq_iff, is_empty, is_empty_iff, has_prefix, trim_right, get, Dict,
}
use hadron_desktop.Base.Cuts.{has_prefix_iff}
use hadron_desktop.Base.Regex.{full_match}
use hadron_desktop.Update.Ref.{ImageRef, reference, digest_re}
use hadron_desktop.Update.Registry.{
  Method, get_method, Request, Entry, Manifest, Web, RegError, Result, ok, err, Client, new_client,
  M, ◌>>=◌, return, fail, ask, send, registry_base, is_https, trim_slashes, token_realm_allowed,
  query_of, bearer_params, token_response, ask_realm, from_realm, anonymous_token, store_token,
  keep_token, new_token, retry, challenged, do_request, checked, fetch, manifest_url, blob_url,
  child_of, decoded, child_config, config_of_child, config_in, config_digest, is_our_platform,
  ImageConfig, wrong_platform, info_of, info_in, from_config, with_manifest, from_manifest, resolve,
}

-- A request to the image's registry.
pub record ToRegistry (w : Web) (ref : ImageRef) (q : Request) : Type 0 where
  pub path : Text
  pub url_eq : q.url ≡ registry_base w ref.host ++ (text "/v2/" ++ (ref.name ++ path))

-- A realm that may be asked: an https URL with a host, or one under the configured registry.
pub IsAllowed : Web → Text → Type 0
IsAllowed w realm =
    ((host : Text) × (w.scheme_host realm ≡ some (text "https", host)) × (host ≢ []))
    ⊎ ((w.registry_env ≢ [])
        × ((rest : Text) × (realm
              ≡ (trim_right (λ c. c == b'/') w.registry_env ++ (b'/' ∷ [])) ++ rest)))

https_host :
    (o : Option (Text × Text))
    → is_https o ≡ true
    → (host : Text) × (o ≡ some (text "https", host)) × (host ≢ [])
unfolding is_https
https_host none h = absurd (cc (h))
https_host (some (scheme, host)) h =
    let same : scheme ≡ text "https" = ground (arith, text_eq_iff scheme (text "https")) in
    (host, ap (λ s. some (s, host)) same, λ z. ground (arith, is_empty_iff host))

realm_sound : (w : Web) (realm : Text) → token_realm_allowed w realm ≡ true → IsAllowed w realm
unfolding token_realm_allowed IsAllowed
realm_sound w realm h = elim (Bool-cases (is_https (w.scheme_host realm))) [
  | inl e ↦ inl (https_host (w.scheme_host realm) e)
  | inr e ↦
      let base = trim_slashes w.registry_env ++ (b'/' ∷ []) in
      inr (
        (
          λ z. ground (arith, is_empty_iff w.registry_env),
          (has_prefix_iff realm base).0 (ground arith),
        ))
]

-- A request to a token service whose realm is allowed; it carries no token.
pub record ToTokenService (w : Web) (q : Request) : Type 0 where
  pub realm : Text
  pub query : Text
  pub url_eq : q.url ≡ realm ++ (b'?' ∷ query)
  pub allowed : IsAllowed w realm
  pub anonymous : q.authorization ≡ []

not-eq_false : (b : Bool) → not b ≡ false → b ≡ true
not-eq_false b h = ground arith

module _ (w : Web) (ref : ImageRef) where
  pub record Spent (n : ℕ) (log : List Request) : Type 0 where
    pub allowed : All (λ (q : Request). ToRegistry w ref q ⊎ ToTokenService w q) log
    pub few : length log ≤ n

  still : (n j : ℕ) (log : List Request) → Spent n log → Spent (n + j) log
  still n j log h = record { allowed = h.allowed; few = omega (arith, h.few) }

  more : (n m : ℕ) (log : List Request) → n ≤ m → Spent n log → Spent m log
  more n m log h s = record { allowed = s.allowed; few = omega (arith, s.few) }

  -- The computation adds at most so many requests, all of the two kinds.
  abbrev Grows {ℓ} : {A : Type ℓ} → ℕ → M A → Type 0
  Grows j m = (n : ℕ) (c : Client) → Spent n c.log → Spent (n + j) (m c).1.log

  bind-Grows {ℓ κ} :
      {A : Type ℓ} {B : Type κ} (j k : ℕ) (m : M A) (f : A → M B)
      → Grows j m
      → ((a : A) → Grows k (f a))
      → Grows (j + k) (m >>= f)
  bind-Grows {A = A} {B = B} j k m f h g n c p = go (m c) (h n c p)
    where
      go :
          (r : Result A × Client)
          → Spent (n + j) r.1.log
          → Spent
              (n + (j + k))
              (elim r.0 as (λ _. Result B × Client) [ ok a ↦ f a r.1 | err e ↦ (err e, r.1) ]).1.log
      go (ok a, d) q = more (n + j + k) (n + (j + k)) _ (omega arith) (g a (n + j) d q)
      go (err e, d) q = more (n + j) (n + (j + k)) _ (omega arith) q

  if-Grows {ℓ} :
      {A : Type ℓ} (j : ℕ) (b : Bool) (m m' : M A)
      → Grows j m
      → (b ≡ false → Grows j m')
      → Grows j (if b then m else m')
  if-Grows j true m m' h k = h
  if-Grows j false m m' h k = k refl

  fail-Grows {ℓ} : (A : Type ℓ) (j : ℕ) (e : RegError) → Grows j (fail {A = A} e)
  fail-Grows A j e n c p = still n j c.log p

  -- A check, which fails or goes on.
  check-Grows {ℓ} :
      {A : Type ℓ} (j : ℕ) (b : Bool) (e : RegError) (m : M A)
      → (b ≡ false → Grows j m)
      → Grows j (if b then fail e else m)
  check-Grows {A = A} j b e m k = if-Grows j b (fail e) m (fail-Grows A j e) k

  ask-Grows : (q : Request) → (ToRegistry w ref q ⊎ ToTokenService w q) → Grows 1 (ask w q)
  unfolding ask
  ask-Grows q h n c p = record { allowed = (h, p.allowed); few = omega (arith, p.few) }

  send-Grows :
      (method : Method) (u path : Text)
      → u ≡ registry_base w ref.host ++ (text "/v2/" ++ (ref.name ++ path))
      → Grows 1 (send w method u)
  unfolding send
  send-Grows method u path e n c p = ask-Grows _ (inl (record { path = path; url_eq = e })) n c p

  ask_realm-Grows :
      (params : Dict) (realm : Text)
      → token_realm_allowed w realm ≡ true
      → Grows 1 (ask_realm w params realm)
  unfolding ask_realm token_response
  ask_realm-Grows params realm h =
      bind-Grows 1 0 (ask w _) (token_response w)
        (ask-Grows _ (
          inr (record {
            realm = realm;
            query = w.encode (query_of params);
            url_eq = refl;
            allowed = realm_sound w realm h;
            anonymous = refl;
          })))
        (λ r n c p. still n 0 c.log p)

  from_realm-Grows : (params : Dict) (realm : Text) → Grows 1 (from_realm w params realm)
  unfolding from_realm
  from_realm-Grows params realm = check-Grows 1 (is_empty realm) _ _ (λ some_realm.
      check-Grows 1 (not (token_realm_allowed w realm)) _ _
        (λ fine. ask_realm-Grows params realm (not-eq_false (token_realm_allowed w realm) fine)))

  anonymous_token-Grows : (challenge : Text) → Grows 1 (anonymous_token w challenge)
  unfolding anonymous_token
  anonymous_token-Grows challenge =
      check-Grows 1 (not (has_prefix challenge (text "Bearer "))) _ _ (λ bearer.
        from_realm-Grows (bearer_params challenge) (get (bearer_params challenge) (text "realm")))

  new_token-Grows : (challenge : Text) → Grows 1 (new_token w challenge)
  unfolding new_token store_token keep_token
  new_token-Grows challenge n c p =
      kept (anonymous_token w challenge c) (anonymous_token-Grows challenge n c p)
    where
      kept :
          (r : Result Text × Client) → Spent (n + 1) r.1.log → Spent (n + 1) (store_token r).1.log
      kept (ok token, d) q = q
      kept (err e, d) q = q

  -- A URL of the image's registry.
  abbrev InRegistry : Text → Text → Type 0
  InRegistry u path = u ≡ registry_base w ref.host ++ (text "/v2/" ++ (ref.name ++ path))

  do_request-Grows :
      (method : Method) (u path : Text) → InRegistry u path → Grows 3 (do_request w method u)
  unfolding do_request challenged retry
  do_request-Grows method u path e =
      bind-Grows 1 2 (send w method u) (challenged w method u) (send-Grows method u path e) (λ r.
        if-Grows 2 (r.status == 401) (retry w method u r.challenge) (return r)
          (bind-Grows 1 1 (new_token w r.challenge) (λ (t : Text). send w method u)
            (new_token-Grows r.challenge) (λ t. send-Grows method u path e))
          (λ f n c p. still n 2 c.log p))

  fetch-Grows : (u path want : Text) → InRegistry u path → Grows 3 (fetch w u want)
  unfolding fetch checked
  fetch-Grows u path want e =
      bind-Grows 3 0 (do_request w get_method u) (checked w want)
        (do_request-Grows get_method u path e) (λ r n c p. still n 0 c.log p)

  pure-Grows : (o : Option Manifest) → Grows 0 (decoded o)
  unfolding decoded
  pure-Grows none n c p = still n 0 c.log p
  pure-Grows (some m) n c p = still n 0 c.log p

  manifest_url-InRegistry : (r : Text) → InRegistry (manifest_url w ref r) (text "/manifests/" ++ r)
  unfolding manifest_url
  manifest_url-InRegistry r = simp append_assoc

  blob_url-InRegistry : (r : Text) → InRegistry (blob_url w ref r) (text "/blobs/" ++ r)
  unfolding blob_url
  blob_url-InRegistry r = simp append_assoc

  child_config-Grows : (p : Text × Text) → Grows 0 (child_config w p)
  unfolding child_config
  child_config-Grows p =
      bind-Grows 0 0 (decoded (w.manifest_of p.0)) (λ (m : Manifest). return m.config)
        (pure-Grows (w.manifest_of p.0)) (λ m n c q. still n 0 c.log q)

  config_of_child-Grows : (child : Text) → Grows 3 (config_of_child w ref child)
  unfolding config_of_child
  config_of_child-Grows child = check-Grows 3 (is_empty child) _ _ (λ some_child.
      check-Grows 3 (not (full_match digest_re child)) _ _ (λ well_formed.
        bind-Grows 3 0 (fetch w (manifest_url w ref child) child) (child_config w)
          (fetch-Grows (manifest_url w ref child) (text "/manifests/" ++ child) child
            (manifest_url-InRegistry child))
          child_config-Grows))

  config_in-Grows : (m : Manifest) (es : List Entry) → Grows 3 (config_in w ref m es)
  unfolding config_in
  config_in-Grows m [] = λ n c p. still n 3 c.log p
  config_in-Grows m (x ∷ es) = config_of_child-Grows (child_of (x ∷ es))

  info_of-Grows : (digest : Text) (o : Option ImageConfig) → Grows 0 (info_of ref digest o)
  unfolding info_of
  info_of-Grows digest none = λ n c p. still n 0 c.log p
  info_of-Grows digest (some cfg) =
      if-Grows 0 (is_our_platform cfg.os cfg.arch) (return _) (fail wrong_platform)
        (λ n c p. still n 0 c.log p) (λ other n c p. still n 0 c.log p)

  from_config-Grows : (digest config : Text) → Grows 3 (from_config w ref digest config)
  unfolding from_config
  from_config-Grows digest config = check-Grows 3 (is_empty config) _ _ (λ some_config.
      check-Grows 3 (not (full_match digest_re config)) _ _ (λ well_formed.
        bind-Grows 3 0 (fetch w (blob_url w ref config) config) (info_in w ref digest)
          (fetch-Grows (blob_url w ref config) (text "/blobs/" ++ config) config
            (blob_url-InRegistry config))
          (λ p. unfold info_in in info_of-Grows digest (w.config_of p.0))))

  resolve-Grows : Grows 9 (resolve w ref)
  unfolding resolve from_manifest with_manifest config_digest
  resolve-Grows =
      bind-Grows 3 6 (fetch w (manifest_url w ref (reference ref)) ref.digest) (from_manifest w ref)
        (fetch-Grows (manifest_url w ref (reference ref)) (text "/manifests/" ++ reference ref)
          ref.digest (manifest_url-InRegistry (reference ref)))
        (λ p.
          bind-Grows 0 6 (decoded (w.manifest_of p.0)) (with_manifest w ref p.1)
            (pure-Grows (w.manifest_of p.0))
            (λ m.
              bind-Grows 3 3 (config_in w ref m m.manifests) (from_config w ref p.1)
                (config_in-Grows m m.manifests) (from_config-Grows p.1)))

-- A look-up of an image calls the HTTP client at most nine times, each time with a URL of the
-- image's registry or, without a token, of a token service whose realm is an https URL with a host or
-- stands under the configured registry. The redirects that the client follows in a call are part of
-- the call: they are neither counted nor checked.
pub resolve_requests :
    (w : Web) (ref : ImageRef)
    → All
        (λ (q : Request). ToRegistry w ref q ⊎ ToTokenService w q)
        (resolve w ref new_client).1.log
      × (length (resolve w ref new_client).1.log ≤ 9)
resolve_requests w ref =
    let s = resolve-Grows w ref 0 new_client (record { allowed = tt; few = omega arith }) in
    (s.allowed, s.few)
