-- ===== src/Update/Daemon/Install/Evaluate.antt =====
-- What an evaluation without an error says of the image.
use hadron_desktop.Base.{
  ◌≡◌, ◌≢◌, inl, inr, sym, refl, ◌∙◌, Bool, false, ◌&&◌, none, List, arith, Bool-cases,
}
use hadron_desktop.Update.Release.{Release}
use hadron_desktop.Update.Policy.{
  ImageInfo, Latest, Verdict, PolicyError, agent_image, not_hadron, not_release, Classified,
  is_agent, classify,
}
use hadron_desktop.Update.Policy
use hadron_desktop.Update.Policy.Trust.{IsTrusted, refused_agent_iff, classify_trusted_iff}
use hadron_desktop.Update.Daemon.{Disk, is_advanced}
use hadron_desktop.Update.Daemon.Check.{Fetched, fetched, no_fetch}
use hadron_desktop.Update.Daemon.Install.{
  Resolved, resolved, no_resolve, judge, judged, is_overridable, refusal, evaluate_with, evaluate,
}

pub record IsInstallable (f : Fetched) (rel : Release) (override : Bool) (info : ImageInfo)
    : Type 0 where
  pub published : List Latest
  pub listed : f ≡ fetched published
  pub not_agent : is_agent info ≡ false
  pub trusted : override ≡ false → (v : Verdict) × IsTrusted info rel published v

not_agent_of :
    (info : ImageInfo) (rel : Release) (published : List Latest) (c : Classified)
    → classify info rel published ≡ c
    → c ≢ Policy.err agent_image
    → is_agent info ≡ false
not_agent_of info rel published c e n = elim (Bool-cases (is_agent info)) [
  | inl a ↦ absurd (n (sym e ∙ (refused_agent_iff info rel published).1 a))
  | inr a ↦ a
]

judged-IsInstallable :
    (info : ImageInfo) (rel : Release) (published : List Latest) (override : Bool) (c : Classified)
    → classify info rel published ≡ c
    → (judged info published override (judge c)).error ≡ none
    → IsInstallable (fetched published) rel override info
unfolding judged judge is_overridable refusal
judged-IsInstallable info rel published override (Policy.ok v) e h = record {
  published = published;
  listed = refl;
  not_agent = not_agent_of info rel published (Policy.ok v) e (λ k. cc);
  trusted = λ o. (v, (classify_trusted_iff info rel published v).0 (e, ground arith));
}
judged-IsInstallable info rel published override (Policy.err agent_image) e h = absurd (cc h)
judged-IsInstallable info rel published override (Policy.err not_hadron) e h = record {
  published = published;
  listed = refl;
  not_agent = not_agent_of info rel published (Policy.err not_hadron) e (λ k. cc);
  trusted = λ o. absurd (ground arith);
}
judged-IsInstallable info rel published override (Policy.err not_release) e h = record {
  published = published;
  listed = refl;
  not_agent = not_agent_of info rel published (Policy.err not_release) e (λ k. cc);
  trusted = λ o. absurd (ground arith);
}

evaluate_with-IsInstallable :
    (info : ImageInfo) (f : Fetched) (rel : Release) (override : Bool)
    → (evaluate_with info f rel override).error ≡ none
    → IsInstallable f rel override info × ((evaluate_with info f rel override).info ≡ info)
unfolding evaluate_with judged judge
evaluate_with-IsInstallable info (no_fetch e) rel override h = absurd (cc h)
evaluate_with-IsInstallable info (fetched published) rel override h =
    (judged-IsInstallable info rel published override (classify info rel published) refl h, refl)

pub evaluate-IsInstallable :
    (r : Resolved) (f : Fetched) (disk : Disk) (rel : Release) (advanced : Bool)
    → (evaluate r f disk rel advanced).error ≡ none
    → (info : ImageInfo) × (r ≡ resolved info)
      × ((evaluate r f disk rel advanced).info ≡ info)
      × IsInstallable f rel (advanced && is_advanced disk.conf) info
unfolding evaluate
evaluate-IsInstallable (no_resolve e) f disk rel advanced h = absurd (cc h)
evaluate-IsInstallable (resolved info) f disk rel advanced h =
    let (ok, same) = evaluate_with-IsInstallable info f rel (advanced && is_advanced disk.conf) h in
    (info, refl, same, ok)
