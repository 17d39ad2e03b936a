-- ===== src/Update/Daemon/Install/Sections.antt =====
-- The effects of the sections of `Apply` and of the install job.
use hadron_desktop.Base.{
  ℕ, ◌≡◌, inl, inr, refl, Bool, true, false, Option, none, some, arith, ==_self, if_cases, not,
  Bool-cases,
}
use hadron_desktop.Base.Text.{Text, text_eq_iff, is_empty}
use hadron_desktop.Base.Regex.{full_match}
use hadron_desktop.Update.Ref.{Parsed, parse_ref, digest_re}
use hadron_desktop.Update.Ref
use hadron_desktop.Update.Pin.{Outcome}
use hadron_desktop.Update.Daemon.{
  Err, is_rebooting, Daemon, Disk, is_busy, is_reboot_pending, newest, started,
}
use hadron_desktop.Update.Daemon.Marker.{write_marker}
use hadron_desktop.Update.Daemon.Check.{is_job}
use hadron_desktop.Update.Daemon.Effects.{
  ApplyEffect, refused, admitted, StartEffect, not_started, launched, SameMarker, set_latest-effect,
}
use hadron_desktop.Update.Daemon.Install.{
  Request, accepted, rejected, Evaluation, abandoned, source_of, admit, admit_parsed, apply,
  start_error, give_up, record_newest, launch, mark_and_launch, start_checked, start,
}

admit-effect :
    (id : ℕ) (q : Request) (disk : Disk) (d : Daemon) → ApplyEffect id d (admit id q disk d)
unfolding admit
admit-effect id q disk d =
    if_cases (ApplyEffect id d) (not d.managed) _ _ (λ e. refused _)
      (λ m.
        if_cases (ApplyEffect id d) d.rebooting _ _ (λ e. refused _)
          (λ r.
            if_cases (ApplyEffect id d) (is_reboot_pending d.state) _ _ (λ e. refused _)
              (λ p.
                if_cases (ApplyEffect id d) (is_busy d.state) _ _ (λ e. refused _)
                  (λ b. admitted _ q (ground arith, b, p) r (refl, ==_self id, refl) refl))))

admit_parsed-effect :
    (id : ℕ) (p : Parsed) (ref digest : Text) (advanced : Bool) (disk : Disk) (d : Daemon)
    → ApplyEffect id d (admit_parsed id p ref digest advanced disk d)
unfolding admit_parsed
admit_parsed-effect id (Ref.err e) ref digest advanced disk d = refused _
admit_parsed-effect id (Ref.ok r) ref digest advanced disk d =
    if_cases (ApplyEffect id d) (full_match digest_re digest) _ _ (λ e. admit-effect id _ disk d)
      (λ e. refused _)

pub apply-effect :
    (id : ℕ) (ref digest : Text) (advanced : Bool) (disk : Disk) (d : Daemon)
    → ApplyEffect id d (apply id ref digest advanced disk d)
unfolding apply
apply-effect id ref digest advanced disk d =
    admit_parsed-effect id (parse_ref ref) ref digest advanced disk d

record_newest-effect :
    (o : Outcome) (tag : Text) (disk : Disk) (d : Daemon)
    → SameMarker disk d (record_newest o tag disk d)
unfolding record_newest
record_newest-effect o tag disk d =
    if_cases (SameMarker disk d) (is_empty tag) _ _ (λ e. (refl, (refl, refl, refl)))
      (λ e. set_latest-effect o tag disk d)

-- Nothing stands against the start: the evaluation is fine, the digest is the reviewed one, and no
-- reboot was asked for.
no_start_error :
    (q : Request) (e : Evaluation) (rebooting : Bool)
    → start_error q e rebooting ≡ none
    → (e.error ≡ none) × (e.info.digest ≡ q.digest) × (rebooting ≡ false)
unfolding start_error
no_start_error q e rebooting h = ground (arith, text_eq_iff e.info.digest q.digest)

module _ (id : ℕ) (q : Request) (e : Evaluation) (disk : Disk) (d : Daemon) where
  give_up-effect : (x : Err) → is_job id d.job ≡ true → StartEffect id q e disk d (give_up x disk d)
  unfolding give_up
  give_up-effect x k = not_started _ _ (λ u h. cc) (inr (k, (refl, refl)))

  launch-effect :
      (marker_write latest_write : Outcome)
      → is_job id d.job ≡ true
      → start_error q e d.rebooting ≡ none
      → StartEffect id q e disk d (mark_and_launch marker_write latest_write q e disk d)
  unfolding mark_and_launch launch write_marker
  launch-effect (some x) latest_write k h = give_up-effect _ k
  launch-effect none latest_write k h =
      let disk₁ = write_marker none started (source_of e.info) disk in
      let (same, keeps) = record_newest-effect latest_write (newest e.published) disk₁ d in
      let (fine, reviewed, calm) = no_start_error q e d.rebooting h in
      launched _ _ _ k calm (rw same) (keeps.0, keeps.1, refl) (fine, reviewed, refl)

  start_checked-effect :
      (x : Option Err) (marker_write latest_write : Outcome)
      → is_job id d.job ≡ true
      → start_error q e d.rebooting ≡ x
      → StartEffect id q e disk d (start_checked x marker_write latest_write q e disk d)
  unfolding start_checked
  start_checked-effect (some x) marker_write latest_write k h = give_up-effect x k
  start_checked-effect none marker_write latest_write k h =
      launch-effect marker_write latest_write k h

  pub start-effect :
      (marker_write latest_write : Outcome)
      → StartEffect id q e disk d (start id marker_write latest_write q e disk d)
  unfolding start
  start-effect marker_write latest_write =
      if_cases (StartEffect id q e disk d) (is_job id d.job) _ _
        (λ k. start_checked-effect (start_error q e d.rebooting) marker_write latest_write k refl)
        (λ k. not_started d abandoned (λ u h. cc) (inl (refl, refl, refl)))

-- An install that is accepted is refused while a reboot was asked for.
admit-rebooting :
    (id : ℕ) (q q' : Request) (disk : Disk) (d d' : Daemon)
    → admit id q disk d ≡ (d', accepted q')
    → admit id q disk (record d { rebooting = true })
      ≡ (record d { rebooting = true }, rejected is_rebooting)
unfolding admit
admit-rebooting id q q' disk d d' h = elim (Bool-cases d.managed) [
  | inl m ↦ rw m refl
  | inr m ↦ absurd (cc (rw m at h))
]

pub apply-rebooting :
    (id : ℕ) (ref digest : Text) (advanced : Bool) (disk : Disk) (d d' : Daemon) (q : Request)
    → apply id ref digest advanced disk d ≡ (d', accepted q)
    → apply id ref digest advanced disk (record d { rebooting = true })
      ≡ (record d { rebooting = true }, rejected is_rebooting)
unfolding apply admit_parsed
apply-rebooting id ref digest advanced disk d d' q h = parsed (parse_ref ref) h
  where
    parsed :
        (p : Parsed)
        → admit_parsed id p ref digest advanced disk d ≡ (d', accepted q)
        → admit_parsed id p ref digest advanced disk (record d { rebooting = true })
          ≡ (record d { rebooting = true }, rejected is_rebooting)
    parsed (Ref.err e) k = absurd (cc (k))
    parsed (Ref.ok r) k = elim (Bool-cases (full_match digest_re digest)) [
      | inl e ↦ rw e (admit-rebooting id _ q disk d d' (rw e at k))
      | inr e ↦ absurd (cc (rw e at k))
    ]
