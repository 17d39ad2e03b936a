-- ===== src/Update/Policy/Targets.antt =====
-- The references that the updater builds for published releases.
use hadron_desktop.Base.{◌≡◌, ◌⊎◌, inl, inr, refl, true, false, List, [], ◌∷◌, ◌++◌, arith}
use hadron_desktop.Base.Text.{Text, text, text_eq, has_prefix, get, mem}
use hadron_desktop.Base.Regex.{full_match}
use hadron_desktop.Update.Release.{Release, line_tag, gpu_full, gpu_vm, flavor_agent}
use hadron_desktop.Update.Ref.{ImageRef, repo, ref_string}
use hadron_desktop.Update.Ref.Parts.{IsRef}
use hadron_desktop.Update.Ref.RoundTrip.{parse_ref_iff, ref_string_tagged}
use hadron_desktop.Update.Policy.{
  ImageInfo, Latest, ok, is_agent, classify, desktop_flavors, strict_tag, is_published,
  label_flavor, LineRef, line_ref, of_parsed,
}
use hadron_desktop.Update.Policy.Trust.{
  IsFlavor, IsFlavor-cases, named, repo_not_empty, line_tag_full, line_tag_vm, classify_trusted_iff,
}

-- A well-formed reference into the release repository, with the tag of a flavor, line and version.
pub record IsTarget (rel : Release) (flavor ln tag : Text) (r : ImageRef) : Type 0 where
  pub well_formed : IsRef r
  pub no_digest : r.digest ≡ []
  pub repo_eq : repo r ≡ rel.image_repo
  pub tag_eq : r.tag ≡ line_tag flavor ln tag

target_string :
    (rel : Release) (flavor ln tag : Text) (r : ImageRef)
    → IsTarget rel flavor ln tag r
    → ref_string r ≡ rel.image_repo ++ (b':' ∷ line_tag flavor ln tag)
target_string rel flavor ln tag r w = ground (arith, ref_string_tagged r w.well_formed w.no_digest)

target-line_ref :
    (rel : Release) (flavor ln tag : Text) (r : ImageRef)
    → IsTarget rel flavor ln tag r
    → line_ref rel flavor ln tag ≡ LineRef.ok r
unfolding line_ref of_parsed
target-line_ref rel flavor ln tag r w = ground (
  arith,
  repo_not_empty r,
  (parse_ref_iff (rel.image_repo ++ (b':' ∷ line_tag flavor ln tag)) r).1
      (w.well_formed, target_string rel flavor ln tag r w),
)

-- No flavor's tag begins like an agent tag.
desktop_tag : (f s : Text) → IsFlavor f → has_prefix (f ++ (b'-' ∷ s)) (text "agent-") ≡ false
unfolding text has_prefix
desktop_tag f s (inl e) = rw e
desktop_tag f s (inr (inl e)) = rw e
desktop_tag f s (inr (inr (inl e))) = rw e
desktop_tag f s (inr (inr (inr e))) = rw e

line_tag_not_agent :
    (f ln s : Text)
    → IsFlavor f
    → (ln ≡ gpu_full) ⊎ (ln ≡ gpu_vm)
    → has_prefix (line_tag f ln s) (text "agent-") ≡ false
line_tag_not_agent f ln s k (inl e) = rw (e, line_tag_full f s) (desktop_tag f s k)
line_tag_not_agent f ln s k (inr e) = rw (e, line_tag_vm f s k) (desktop_tag f (text "vm-" ++ s) k)

-- For a desktop flavor, an image line and a published strict version that make a well-formed
-- reference with the release repository, the updater builds that reference, and `Classify` trusts
-- what it resolves to as that flavor, line and version, unless the image is labelled as an agent
-- image.
pub line_ref_trusted :
    (rel : Release) (published : List Latest) (flavor ln tag : Text) (info : ImageInfo)
    → IsTarget rel flavor ln tag info.ref
    → mem flavor desktop_flavors ≡ true
    → full_match strict_tag tag ≡ true
    → is_published tag published ≡ true
    → (ln ≡ gpu_full) ⊎ (ln ≡ gpu_vm)
    → text_eq (get info.labels label_flavor) flavor_agent ≡ false
    → (line_ref rel flavor ln tag ≡ LineRef.ok info.ref)
      × (classify info rel published ≡ ok (named flavor ln tag))
unfolding is_agent
line_ref_trusted rel published flavor ln tag info w f s p l a = (
  target-line_ref rel flavor ln tag info.ref w,
  ((classify_trusted_iff info rel published (named flavor ln tag)).1 (record {
    not_agent = rw a (rw w.tag_eq (line_tag_not_agent flavor ln tag (IsFlavor-cases flavor f) l));
    no_digest = w.no_digest;
    repo_eq = w.repo_eq;
    by_release = record {
      flavor_ok = f;
      version_ok = s;
      published_ok = p;
      line_ok = l;
      tag_eq = w.tag_eq;
      trusted_ok = refl;
      hadron_ok = refl;
    };
  })).0,
)
