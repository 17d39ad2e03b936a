-- ===== src/Update/Tests/Trusting.antt =====
-- Image references and the policy.
use hadron_desktop.Base.{◌≡◌, ◌↔◌, ◌⊎◌, ◌++◌, inl, refl, true}
use hadron_desktop.Base.Text.{Text, text, text_eq, get, mem, is_empty}
use hadron_desktop.Base.Regex.{full_match}
use hadron_desktop.Update.Release.{gpu_full, line, line_tag, image_for}
use hadron_desktop.Update.Ref.{repo, reference, host_re, name_re, tag_re, is_host}
use hadron_desktop.Update.Ref.Parts.{IsRef}
use hadron_desktop.Update.Policy.{
  classify, agent_image, err, ok, LineRef, line_ref, release_ref, desktop_flavors, strict_tag,
  is_published,
}
use hadron_desktop.Update.Policy.Trust.{IsTrusted, named, classify_agent_iff, classify_trusted_iff}
use hadron_desktop.Update.Policy.Targets.{IsTarget, line_ref_trusted}
use hadron_desktop.Update.Tests.{release, target, info, published}

classify_agent_iff_example : (classify info release published ≡ err agent_image) ↔ (
    (get info.labels (text "io.kairos.hadron-desktop.flavor") ≡ text "agent")
    ⊎ ((rest : Text) × (info.ref.tag ≡ text "agent-" ++ rest)))
classify_agent_iff_example = classify_agent_iff info release published

classify_trusted_iff_example :
    let v = named (text "sway") gpu_full (text "v0.2.0") in
    ((classify info release published ≡ ok v) × (v.trusted ≡ true))
    ↔ IsTrusted info release published v
classify_trusted_iff_example =
    classify_trusted_iff info release published (named (text "sway") gpu_full (text "v0.2.0"))

target-IsRef : IsRef target
unfolding text is_host full_match host_re name_re tag_re is_empty
target-IsRef = record {
  host_ok = refl;
  name_ok = refl;
  tag_ok = refl;
  digest_ok = refl;
  identified = refl;
}

target-IsTarget : IsTarget release (text "sway") gpu_full (text "v0.2.0") target
unfolding text repo line_tag text_eq
target-IsTarget = record {
  well_formed = target-IsRef;
  no_digest = refl;
  repo_eq = refl;
  tag_eq = refl;
}

line_ref_trusted_example :
    (line_ref release (text "sway") gpu_full (text "v0.2.0") ≡ LineRef.ok target)
    × (classify info release published ≡ ok (named (text "sway") gpu_full (text "v0.2.0")))
unfolding text mem desktop_flavors full_match strict_tag is_published text_eq get
line_ref_trusted_example =
    line_ref_trusted release published (text "sway") gpu_full (text "v0.2.0") info target-IsTarget
      refl refl refl (inl refl) refl

-- The image that the tests install.
pub classified : classify info release published ≡ ok (named (text "sway") gpu_full (text "v0.2.0"))
unfolding text mem desktop_flavors full_match strict_tag is_published text_eq get
classified =
    (line_ref_trusted release published (text "sway") gpu_full (text "v0.2.0") info target-IsTarget
      refl refl refl (inl refl) refl).1

image_of_release : image_for release (text "v0.2.0") ≡ text "quay.io/k/h:sway-v0.2.0"
unfolding image_for text
image_of_release = refl

target_of_release : release_ref release (text "sway") (text "v0.2.0") ≡ LineRef.ok target
unfolding release_ref line_ref line line_tag text is_empty full_match host_re name_re tag_re
target_of_release = refl

target_tag : reference target ≡ target.tag
unfolding reference text
target_tag = refl
