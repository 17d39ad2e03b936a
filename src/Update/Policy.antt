-- ===== src/Update/Policy.antt =====
-- update/policy.go: which images may be installed, and how far one is trusted.
pub mod Trust
pub mod Targets
use hadron_desktop.Base.{
  Bool, true, false, not, ◌&&◌, ◌||◌, Option, none, some, List, [], ◌∷◌, ◌++◌, ◌==◌, if◌then◌else◌,
}
use hadron_desktop.Base.Text.{
  Text, text, text_eq, cut, cut_prefix, has_prefix, is_empty, Dict, get, mem,
}
use hadron_desktop.Base.Regex.{Regex, cls, seq, alt, star, chr, range, full_match}
use hadron_desktop.Update.Semver.{cut_or}
use hadron_desktop.Update.Release.{Release, line, line_tag, gpu_full, gpu_vm, flavor_agent}
use hadron_desktop.Update.Ref.{ImageRef, RefError, Parsed, parse_ref, repo}
use hadron_desktop.Update.Ref

-- update/registry.go
pub record ImageInfo : Type 0 where
  pub ref : ImageRef
  pub digest : Text
  pub os : Text
  pub arch : Text
  pub labels : Dict

-- update/github.go
pub record Latest : Type 0 where
  pub tag : Text
  pub url : Text
  pub body : Text

pub record Verdict : Type 0 where
  pub flavor : Text
  pub version : Text
  pub gpu : Text
  pub trusted : Bool
  pub hadron : Bool

-- `Verdict{}`
abbrev pub no_verdict : Verdict
no_verdict = record { flavor = []; version = []; gpu = []; trusted = false; hadron = false }

pub data PolicyError : Type 0 where
  agent_image not_hadron not_release : PolicyError

abbrev pub label_flavor : Text
label_flavor = text "io.kairos.hadron-desktop.flavor"

abbrev pub label_version : Text
label_version = text "io.kairos.hadron-desktop.version"

abbrev pub label_gpu : Text
label_gpu = text "io.kairos.hadron-desktop.gpu"

unfoldable pub desktop_flavors : List Text
unfolding text
desktop_flavors = text "sway" ∷ text "i3" ∷ text "cosmic" ∷ text "niri" ∷ []

-- `0|[1-9][0-9]*`
abbrev number_re : Regex
number_re = alt (chr b'0') (seq (cls (range b'1' b'9')) (star (cls (range b'0' b'9'))))

-- `^v(0|[1-9][0-9]*)\.(0|[1-9][0-9]*)\.(0|[1-9][0-9]*)$`
unfoldable pub strict_tag : Regex
strict_tag =
    seq (chr b'v') (seq number_re (seq (chr b'.') (seq number_re (seq (chr b'.') number_re))))

unfoldable pub is_published : Text → List Latest → Bool
unfolding text_eq
is_published tag [] = false
is_published tag (p ∷ published) = text_eq p.tag tag || is_published tag published

pub data Classified : Type 0 where
  ok : Verdict → Classified
  err : PolicyError → Classified

unfoldable pub is_agent : ImageInfo → Bool
unfolding get text_eq has_prefix
is_agent info =
    text_eq (get info.labels label_flavor) flavor_agent || has_prefix info.ref.tag (text "agent-")

-- The image line that a tag names in front of its version.
split_line : Text → Option Text → Text × Text
split_line tag none = (gpu_full, tag)
split_line tag (some rest) = (gpu_vm, rest)

-- The verdict by name, if the tag names a published release of a desktop flavor.
by_tag : List Latest → Option (Text × Text) → Option Verdict
by_tag published none = none
by_tag published (some (flavor, rest)) =
    let (ln, tag) = split_line rest (cut_prefix rest (text "vm-")) in
    if mem flavor desktop_flavors && full_match strict_tag tag && is_published tag published
    then some (record { flavor = flavor; version = tag; gpu = ln; trusted = true; hadron = true })
    else none

by_name : ImageInfo → Release → List Latest → Option Verdict
by_name info rel published =
    if not (is_empty rel.image_repo)
      && is_empty info.ref.digest
      && text_eq (repo info.ref) rel.image_repo
    then by_tag published (cut info.ref.tag b'-')
    else none

label_line : Text → Text
unfolding text_eq
label_line ln = if text_eq ln gpu_full || text_eq ln gpu_vm then ln else []

by_label : Dict → Classified
unfolding label_line get mem desktop_flavors full_match strict_tag
by_label labels =
    let flavor = get labels label_flavor in
    let version = get labels label_version in
    if mem flavor desktop_flavors && full_match strict_tag version
    then ok (record {
      flavor = flavor;
      version = version;
      gpu = label_line (get labels label_gpu);
      trusted = false;
      hadron = true;
    })
    else err not_hadron

by_name_or_label : Option Verdict → Dict → Classified
unfolding by_label
by_name_or_label none labels = by_label labels
by_name_or_label (some v) labels = ok v

-- `Classify`
pub classify : ImageInfo → Release → List Latest → Classified
classify info rel published =
    if is_agent info
    then err agent_image
    else by_name_or_label (by_name info rel published) info.labels

pub data LineRef : Type 0 where
  ok : ImageRef → LineRef
  no_image_repo : LineRef
  bad_ref : RefError → LineRef

of_parsed : Parsed → LineRef
of_parsed (Ref.ok r) = ok r
of_parsed (Ref.err e) = bad_ref e

-- `LineRef(rel, flavor, line, tag)`
unfoldable pub line_ref : Release → Text → Text → Text → LineRef
unfolding of_parsed parse_ref
line_ref rel flavor ln tag =
    if is_empty rel.image_repo
    then no_image_repo
    else of_parsed (parse_ref (rel.image_repo ++ (b':' ∷ line_tag flavor ln tag)))

-- `ReleaseRef(rel, flavor, tag)`
unfoldable pub release_ref : Release → Text → Text → LineRef
release_ref rel flavor tag = line_ref rel flavor (line rel) tag
