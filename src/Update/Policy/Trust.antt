-- ===== src/Update/Policy/Trust.antt =====
-- Which images are refused as agent images, which are trusted by name, and that the references
-- that the updater builds for published releases are trusted.
use hadron_desktop.Base.{
  ◌≡◌, ◌↔◌, ◌≢◌, ◌⊎◌, inl, inr, refl, sym, ap, ◌∙◌, Bool, true, false, ◌&&◌, Option, none, some,
  List, [], ◌∷◌, ◌++◌, arith, ◌==◌, if◌then◌else◌, Bool-cases, Option-cases, ==_iff,
}
use hadron_desktop.Base.Text.{
  Text, text, text_eq, text_eq_iff, text_eq_self, cut, cut_prefix, is_empty, is_empty_iff, Dict,
  mem, get,
}
use hadron_desktop.Base.Cuts.{
  cut_prefix-eq_some, cut_prefix-append, has_prefix_iff, Lacks, Joins, cut-Joins, cut-append,
}
use hadron_desktop.Base.Regex.{full_match, full_match-never}
use hadron_desktop.Update.Release.{Release, line_tag, gpu_full, gpu_vm, flavor_agent}
use hadron_desktop.Update.Ref.{ImageRef, repo}
use hadron_desktop.Update.Policy.{
  ImageInfo, Latest, Verdict, agent_image, ok, err, is_agent, split_line, by_tag, by_name,
  by_name_or_label, by_label, classify, desktop_flavors, strict_tag, is_published,
}

by_label_not_agent : (labels : Dict) → by_label labels ≢ err agent_image
unfolding by_label
by_label_not_agent labels h = ground arith

by_name_or_label_not_agent :
    (o : Option Verdict) (labels : Dict) → by_name_or_label o labels ≢ err agent_image
unfolding by_name_or_label
by_name_or_label_not_agent none labels h = by_label_not_agent labels h
by_name_or_label_not_agent (some v) labels h = cc

pub refused_agent_iff :
    (info : ImageInfo) (rel : Release) (published : List Latest)
    → (classify info rel published ≡ err agent_image) ↔ (is_agent info ≡ true)
unfolding classify
refused_agent_iff info rel published = (
  λ h. elim (Bool-cases (is_agent info)) [
    | inl e ↦ e
    | inr e ↦
        absurd (by_name_or_label_not_agent (by_name info rel published) info.labels (rw e at h))
  ],
  λ e. rw e,
)

-- An image is refused as an agent image exactly if its flavor label is agent or its tag begins with
-- "agent-", whatever else it says.
pub classify_agent_iff :
    (info : ImageInfo) (rel : Release) (published : List Latest)
    → (classify info rel published ≡ err agent_image) ↔ (
        (get info.labels (text "io.kairos.hadron-desktop.flavor") ≡ text "agent")
        ⊎ ((rest : Text) × (info.ref.tag ≡ text "agent-" ++ rest)))
unfolding is_agent
classify_agent_iff info rel published =
    let refused = refused_agent_iff info rel published in
    let by_label =
      text_eq_iff (get info.labels (text "io.kairos.hadron-desktop.flavor")) (text "agent") in
    let by_tag = has_prefix_iff info.ref.tag (text "agent-") in
    ground (arith, refused, by_label, by_tag)

-- A published release of a desktop flavor, by the tag that names it.
pub record IsReleaseTag (published : List Latest) (tag : Text) (v : Verdict) : Type 0 where
  pub flavor_ok : mem v.flavor desktop_flavors ≡ true
  pub version_ok : full_match strict_tag v.version ≡ true
  pub published_ok : is_published v.version published ≡ true
  pub line_ok : (v.gpu ≡ gpu_full) ⊎ (v.gpu ≡ gpu_vm)
  pub tag_eq : tag ≡ line_tag v.flavor v.gpu v.version
  pub trusted_ok : v.trusted ≡ true
  pub hadron_ok : v.hadron ≡ true

-- Desktop flavors are not the agent, and hold no dash.
abbrev pub IsFlavor : Text → Type 0
IsFlavor f = (f ≡ text "sway") ⊎ (f ≡ text "i3") ⊎ (f ≡ text "cosmic") ⊎ (f ≡ text "niri")

pub IsFlavor-cases : (f : Text) → mem f desktop_flavors ≡ true → IsFlavor f
unfolding mem desktop_flavors
IsFlavor-cases f h = ground (
  arith,
  text_eq_iff (text "sway") f,
  text_eq_iff (text "i3") f,
  text_eq_iff (text "cosmic") f,
  text_eq_iff (text "niri") f,
)

flavor_not_agent : (f : Text) → IsFlavor f → text_eq f flavor_agent ≡ false
unfolding text text_eq
flavor_not_agent f (inl e) = rw e
flavor_not_agent f (inr (inl e)) = rw e
flavor_not_agent f (inr (inr (inl e))) = rw e
flavor_not_agent f (inr (inr (inr e))) = rw e

flavor-Lacks : (f : Text) → IsFlavor f → Lacks b'-' f
unfolding text
flavor-Lacks f (inl e) = rw e (refl, (refl, (refl, (refl, tt))))
flavor-Lacks f (inr (inl e)) = rw e (refl, (refl, tt))
flavor-Lacks f (inr (inr (inl e))) = rw e (refl, (refl, (refl, (refl, (refl, (refl, tt))))))
flavor-Lacks f (inr (inr (inr e))) = rw e (refl, (refl, (refl, (refl, tt))))

-- A strict tag does not begin with the mark of the virtual machine line.
strict_tag_not_vm : (s : Text) → full_match strict_tag s ≡ true → cut_prefix s (text "vm-") ≡ none
unfolding strict_tag full_match cut_prefix text
strict_tag_not_vm [] h = refl
strict_tag_not_vm (c ∷ []) h = ground arith
strict_tag_not_vm (c ∷ d ∷ s) h = elim (Bool-cases (c == b'v')) [
  | inr e ↦ rw (e, cut_prefix)
  | inl e ↦ elim (Bool-cases (d == b'm')) [
    | inr k ↦ rw (e, k, cut_prefix)
    | inl k ↦ absurd (vm_tag s (rw ((==_iff c b'v').0 e, (==_iff d b'm').0 k) at h))
  ]
]
  where
    vm_tag : (s : Text) → full_match strict_tag (b'v' ∷ b'm' ∷ s) ≡ true → ⊥
    vm_tag s h = cc (full_match-never s)

pub line_tag_full : (flavor tag : Text) → line_tag flavor gpu_full tag ≡ flavor ++ (b'-' ∷ tag)
unfolding line_tag text text_eq
line_tag_full flavor tag = refl

pub line_tag_vm :
    (flavor tag : Text)
    → IsFlavor flavor
    → line_tag flavor gpu_vm tag ≡ flavor ++ (b'-' ∷ (text "vm-" ++ tag))
unfolding line_tag
line_tag_vm flavor tag h =
    rw (text_eq_self gpu_vm) (rw (flavor_not_agent flavor h) (unfold text in refl))

abbrev pub named : Text → Text → Text → Verdict
named flavor ln tag = record {
  flavor = flavor;
  version = tag;
  gpu = ln;
  trusted = true;
  hadron = true;
}

-- The three tests on what the tag names.
abbrev passes : List Latest → Text → Text → Bool
passes published flavor tag =
    mem flavor desktop_flavors && full_match strict_tag tag && is_published tag published

named-IsReleaseTag :
    (published : List Latest) (tag flavor ln version : Text) (v : Verdict)
    → (ln ≡ gpu_full) ⊎ (ln ≡ gpu_vm)
    → (IsFlavor flavor → tag ≡ line_tag flavor ln version)
    → (if passes published flavor version then some (named flavor ln version) else none) ≡ some v
    → IsReleaseTag published tag v
named-IsReleaseTag published tag flavor ln version v l e h =
    ground (arith, IsFlavor-cases flavor, e)

by_tag_sound :
    (published : List Latest) (tag : Text) (o : Option (Text × Text)) (v : Verdict)
    → Joins tag b'-' o
    → by_tag published o ≡ some v
    → IsReleaseTag published tag v
unfolding by_tag split_line
by_tag_sound published tag none v j h = absurd (cc h)
by_tag_sound published tag (some (flavor, rest)) v j h =
    elim (Option-cases (cut_prefix rest (text "vm-"))) [
      | inl e ↦
          named-IsReleaseTag published tag flavor gpu_full rest v (inl refl)
            (λ f. j ∙ sym (line_tag_full flavor rest)) (rw e at h)
      | inr (rest', e) ↦
          named-IsReleaseTag published tag flavor gpu_vm rest' v (inr refl)
            (λ f.
              j
              ∙ (ap (λ (r : Text). flavor ++ (b'-' ∷ r))
                    (cut_prefix-eq_some rest (text "vm-") rest' e)
                  ∙ sym (line_tag_vm flavor rest' f)))
            (rw e at h)
    ]

by_tag_complete :
    (published : List Latest) (tag : Text) (v : Verdict)
    → IsReleaseTag published tag v
    → by_tag published (cut tag b'-') ≡ some v
unfolding by_tag split_line
by_tag_complete published tag v w = elim w.line_ok [
  | inl l ↦
      rw
        (w.tag_eq
          ∙ (ap (λ (x : Text). line_tag v.flavor x v.version) l ∙ line_tag_full v.flavor v.version))
        (rw (cut-append v.flavor v.version b'-' dashless) (
          rw (strict_tag_not_vm v.version w.version_ok)
            (rw (w.flavor_ok, w.version_ok, w.published_ok) (ground arith))))
  | inr l ↦
      rw
        (w.tag_eq
          ∙ (ap (λ (x : Text). line_tag v.flavor x v.version) l
              ∙ line_tag_vm v.flavor v.version known))
        (rw (cut-append v.flavor (text "vm-" ++ v.version) b'-' dashless) (
          rw (cut_prefix-append (text "vm-") v.version)
            (rw (w.flavor_ok, w.version_ok, w.published_ok) (ground arith))))
]
  where
    known : IsFlavor v.flavor
    known = IsFlavor-cases v.flavor w.flavor_ok

    dashless : Lacks b'-' v.flavor
    dashless = flavor-Lacks v.flavor known

-- What makes an image trusted by its name.
pub record IsTrusted (info : ImageInfo) (rel : Release) (published : List Latest) (v : Verdict)
    : Type 0 where
  pub not_agent : is_agent info ≡ false
  pub no_digest : info.ref.digest ≡ []
  pub repo_eq : repo info.ref ≡ rel.image_repo
  pub by_release : IsReleaseTag published info.ref.tag v

by_label_untrusted : (labels : Dict) (v : Verdict) → by_label labels ≡ ok v → v.trusted ≡ false
unfolding by_label
by_label_untrusted labels v h = ground arith

pub repo_not_empty : (r : ImageRef) → is_empty (repo r) ≡ false
unfolding repo is_empty
repo_not_empty r = full r.host
  where
    full : (h : Text) → is_empty (h ++ (b'/' ∷ r.name)) ≡ false
    full [] = refl
    full (c ∷ h) = refl

by_name_sound :
    (info : ImageInfo) (rel : Release) (published : List Latest) (v : Verdict)
    → is_agent info ≡ false
    → by_name info rel published ≡ some v
    → IsTrusted info rel published v
unfolding by_name
by_name_sound info rel published v a h = ground (
  arith,
  is_empty_iff info.ref.digest,
  text_eq_iff (repo info.ref) rel.image_repo,
  by_tag_sound published info.ref.tag (cut info.ref.tag b'-') v (cut-Joins info.ref.tag b'-'),
)

by_name_complete :
    (info : ImageInfo) (rel : Release) (published : List Latest) (v : Verdict)
    → IsTrusted info rel published v
    → by_name info rel published ≡ some v
unfolding by_name
by_name_complete info rel published v w = ground (
  arith,
  is_empty_iff info.ref.digest,
  text_eq_iff (repo info.ref) rel.image_repo,
  repo_not_empty info.ref,
  by_tag_complete published info.ref.tag v w.by_release,
)

by_name_or_label_trusted :
    (o : Option Verdict) (labels : Dict) (v : Verdict)
    → by_name_or_label o labels ≡ ok v
    → v.trusted ≡ true
    → o ≡ some v
unfolding by_name_or_label
by_name_or_label_trusted none labels v h t = cc (by_label_untrusted labels v h)
by_name_or_label_trusted (some u) labels v h t = ground arith

-- `Classify` trusts an image exactly if it is no agent image, its reference names no digest, its
-- repository is the release repository, and its tag is the one that release.yml pushes for a
-- desktop flavor, an image line and a published strict version; the verdict names those three.
pub classify_trusted_iff :
    (info : ImageInfo) (rel : Release) (published : List Latest) (v : Verdict)
    → ((classify info rel published ≡ ok v) × (v.trusted ≡ true)) ↔ IsTrusted info rel published v
unfolding classify by_name_or_label
classify_trusted_iff info rel published v = (
  λ (h, t). elim (Bool-cases (is_agent info)) [
    | inl a ↦ absurd (cc (rw a at h))
    | inr a ↦
        by_name_sound info rel published v a
          (by_name_or_label_trusted (by_name info rel published) info.labels v (rw a at h) t)
  ],
  λ w. (rw w.not_agent (rw (by_name_complete info rel published v w)), w.by_release.trusted_ok),
)
