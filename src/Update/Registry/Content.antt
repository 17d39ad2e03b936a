-- ===== src/Update/Registry/Content.antt =====
-- What a resolved image is: every part of it is tied by digests to the digest that is returned.
use mathlib.Core.Path.{subst}
use hadron_desktop.Base.{
  ◌≡◌, ◌⊎◌, inl, inr, refl, sym, ap, ◌∙◌, Bool, true, false, not, Option, none, some, List, [], ◌∷◌,
  and-eq_true, if◌then◌else◌, arith,
}
use hadron_desktop.Base.Text.{Text, text, text_eq, text_eq_iff, is_empty, is_empty_iff}
use hadron_desktop.Base.Regex.{full_match}
use hadron_desktop.Update.Ref.{ImageRef, reference, digest_re}
use hadron_desktop.Update.Policy.{ImageInfo}
use hadron_desktop.Update.Registry.{
  Entry, Manifest, ImageConfig, Web, wrong_platform, ok, Client, return, fail, digest_of, fetch,
  manifest_url, blob_url, is_our_platform, child_of, decoded, child_config, config_of_child,
  config_in, config_digest, info_of, info_in, from_config, with_manifest, from_manifest, resolve,
}
use hadron_desktop.Update.Registry.Fetch.{Served, bind_ok, past_check, fetch-eq_ok}

-- The body names the config by its digest: itself, or by a manifest for the platform that it lists.
pub data Names (w : Web) (ref : ImageRef) (body : Text) : Text → Type 0 where
  by_manifest :
      (m : Manifest) → w.manifest_of body ≡ some m → m.manifests ≡ [] → Names w ref body m.config
  by_index :
      (m child : Manifest) (inner : Text)
      → w.manifest_of body ≡ some m
      → child_of m.manifests ≡ digest_of w inner
      → Served w (manifest_url w ref (child_of m.manifests)) inner
      → w.manifest_of inner ≡ some child
      → Names w ref body child.config

decoded-eq_ok :
    (o : Option Manifest) (c d : Client) (m : Manifest) → decoded o c ≡ (ok m, d) → o ≡ some m
unfolding decoded
decoded-eq_ok none c d m h = absurd (cc h)
decoded-eq_ok (some n) c d m h = ground arith

-- A fetch of what a digest names returns a body of that digest.
named_fetch :
    (w : Web) (u want : Text) (c e : Client) (p : Text × Text)
    → is_empty want ≡ false
    → fetch w u want c ≡ (ok p, e)
    → Served w u p.0 × (want ≡ digest_of w p.0)
named_fetch w u want c e (b, d) some_want h =
    let (served, same, wanted) = fetch-eq_ok w u want c e b d h in (served, pinned same wanted)
  where
    pinned : d ≡ digest_of w b → (want ≡ []) ⊎ (want ≡ d) → want ≡ digest_of w b
    pinned same (inl none_wanted) = absurd (cc (some_want, (is_empty_iff want).1 none_wanted))
    pinned same (inr k) = k ∙ same

child_config-eq_ok :
    (w : Web) (p : Text × Text) (c d : Client) (config : Text)
    → child_config w p c ≡ (ok config, d)
    → (m : Manifest) × (w.manifest_of p.0 ≡ some m) × (m.config ≡ config)
unfolding child_config
child_config-eq_ok w p c d config h =
    let (m, e, k, l) =
      bind_ok (decoded (w.manifest_of p.0)) (λ (m : Manifest). return m.config) c h in
    (m, decoded-eq_ok (w.manifest_of p.0) c e m k, ground arith)

config_of_child-eq_ok :
    (w : Web) (ref : ImageRef) (body : Text) (m : Manifest) (c d : Client) (config : Text)
    → w.manifest_of body ≡ some m
    → config_of_child w ref (child_of m.manifests) c ≡ (ok config, d)
    → Names w ref body config
unfolding config_of_child
config_of_child-eq_ok w ref body m c d config e h =
    let (some_child, h1) = past_check (is_empty (child_of m.manifests)) _ _ c h in
    let (well_formed, h2) =
      past_check (not (full_match digest_re (child_of m.manifests))) _ _ c h1 in
    let (p, f, got, read) =
      bind_ok (fetch w (manifest_url w ref (child_of m.manifests)) (child_of m.manifests))
        (child_config w) c h2 in
    let (served, named) = named_fetch w _ (child_of m.manifests) c f p some_child got in
    let (child, parsed, same) = child_config-eq_ok w p f d config read in
    subst (Names w ref body) same (by_index m child p.0 e named served parsed)

config_in-eq_ok :
    (w : Web) (ref : ImageRef) (body : Text) (m : Manifest) (es : List Entry) (c d : Client)
    (config : Text)
    → w.manifest_of body ≡ some m
    → m.manifests ≡ es
    → config_in w ref m es c ≡ (ok config, d)
    → Names w ref body config
unfolding config_in
config_in-eq_ok w ref body m [] c d config e f h =
    subst (Names w ref body) (ground arith) (by_manifest m e f)
config_in-eq_ok w ref body m (x ∷ es) c d config e f h =
    config_of_child-eq_ok w ref body m c d config e (
      subst (λ (es : List Entry). config_of_child w ref (child_of es) c ≡ (ok config, d)) (sym f) h)

our_platform :
    (os arch : Text) → is_our_platform os arch ≡ true → (os ≡ text "linux") × (arch ≡ text "amd64")
unfolding is_our_platform
our_platform os arch h =
    let (a, b) = and-eq_true (text_eq os (text "linux")) (text_eq arch (text "amd64")) h in
    ((text_eq_iff os (text "linux")).0 a, (text_eq_iff arch (text "amd64")).0 b)

info_of-eq_ok :
    (ref : ImageRef) (digest : Text) (o : Option ImageConfig) (c d : Client) (info : ImageInfo)
    → info_of ref digest o c ≡ (ok info, d)
    → (cfg : ImageConfig) × (o ≡ some cfg)
      × (info ≡ record {
        ref = ref;
        digest = digest;
        os = cfg.os;
        arch = cfg.arch;
        labels = cfg.labels;
      })
      × (info.os ≡ text "linux")
      × (info.arch ≡ text "amd64")
unfolding info_of
info_of-eq_ok ref digest none c d info h = absurd (cc h)
info_of-eq_ok ref digest (some cfg) c d info h =
    let (found, same) = chosen (is_our_platform cfg.os cfg.arch) _ h in
    let (os, arch) = our_platform cfg.os cfg.arch found in
    (
      cfg,
      refl,
      sym same,
      ap (λ (i : ImageInfo). i.os) (sym same) ∙ os,
      ap (λ (i : ImageInfo). i.arch) (sym same) ∙ arch,
    )
  where
    chosen :
        (b : Bool) (i : ImageInfo)
        → (if b then return i else fail wrong_platform) c ≡ (ok info, d)
        → (b ≡ true) × (i ≡ info)
    chosen true i h = (refl, ground arith)
    chosen false i h = absurd (cc h)

-- The config with the digest was served, and gives the image its platform, which is linux/amd64, and
-- its labels.
pub record Configured (w : Web) (ref : ImageRef) (digest config : Text) (info : ImageInfo)
    : Type 0 where
  pub blob : Text
  pub named : config ≡ digest_of w blob
  pub served : Served w (blob_url w ref config) blob
  pub parsed : ImageConfig
  pub parsed_eq : w.config_of blob ≡ some parsed
  pub info_eq : info ≡ record {
    ref = ref;
    digest = digest;
    os = parsed.os;
    arch = parsed.arch;
    labels = parsed.labels;
  }
  pub is_linux : info.os ≡ text "linux"
  pub is_amd64 : info.arch ≡ text "amd64"

from_config-eq_ok :
    (w : Web) (ref : ImageRef) (digest config : Text) (c d : Client) (info : ImageInfo)
    → from_config w ref digest config c ≡ (ok info, d)
    → Configured w ref digest config info
unfolding from_config info_in
from_config-eq_ok w ref digest config c d info h =
    let (some_config, h1) = past_check (is_empty config) _ _ c h in
    let (well_formed, h2) = past_check (not (full_match digest_re config)) _ _ c h1 in
    let (p, e, got, read) =
      bind_ok (fetch w (blob_url w ref config) config) (info_in w ref digest) c h2 in
    let (served, named) = named_fetch w (blob_url w ref config) config c e p some_config got in
    let (cfg, parsed, same, os, arch) = info_of-eq_ok ref digest (w.config_of p.0) e d info read in
    record {
      blob = p.0;
      named = named;
      served = served;
      parsed = cfg;
      parsed_eq = parsed;
      info_eq = same;
      is_linux = os;
      is_amd64 = arch;
    }

from_manifest-eq_ok :
    (w : Web) (ref : ImageRef) (p : Text × Text) (c d : Client) (info : ImageInfo)
    → from_manifest w ref p c ≡ (ok info, d)
    → (config : Text) × Names w ref p.0 config × Configured w ref p.1 config info
unfolding from_manifest with_manifest config_digest
from_manifest-eq_ok w ref p c d info h =
    let (m, e, read, h1) = bind_ok (decoded (w.manifest_of p.0)) (with_manifest w ref p.1) c h in
    let (config, f, found, h2) =
      bind_ok (config_in w ref m m.manifests) (from_config w ref p.1) e h1 in
    (
      config,
      config_in-eq_ok w ref p.0 m m.manifests e f config
          (decoded-eq_ok (w.manifest_of p.0) c e m read) refl found,
      from_config-eq_ok w ref p.1 config f d info h2,
    )

-- What `Resolve` guarantees of its answer: the bytes served for the reference have the digest, which is
-- the one asked for, if any; and they name the config, directly or through the manifest of the
-- platform, of which the platform and the labels are taken.
pub record IsResolved (w : Web) (ref : ImageRef) (info : ImageInfo) : Type 0 where
  pub body : Text
  pub digest : Text
  pub served : Served w (manifest_url w ref (reference ref)) body
  pub digest_eq : digest ≡ digest_of w body
  pub as_asked : (ref.digest ≡ []) ⊎ (ref.digest ≡ digest)
  pub config : Text
  pub named : Names w ref body config
  pub configured : Configured w ref digest config info

-- An image that `Resolve` returns, to a client with whatever requests before, is tied by digests to
-- the bytes that were served for the reference.
pub resolve-IsResolved :
    (w : Web) (ref : ImageRef) (c d : Client) (info : ImageInfo)
    → resolve w ref c ≡ (ok info, d)
    → IsResolved w ref info
unfolding resolve
resolve-IsResolved w ref c d info h =
    let (p, e, got, read) =
      bind_ok (fetch w (manifest_url w ref (reference ref)) ref.digest) (from_manifest w ref) c h in
    let (served, same, asked) =
      fetch-eq_ok w (manifest_url w ref (reference ref)) ref.digest c e p.0 p.1 got in
    let (config, named, configured) = from_manifest-eq_ok w ref p e d info read in
    record {
      body = p.0;
      digest = p.1;
      served = served;
      digest_eq = same;
      as_asked = asked;
      config = config;
      named = named;
      configured = configured;
    }
