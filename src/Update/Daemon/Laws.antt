-- ===== src/Update/Daemon/Laws.antt =====
-- What the daemon's methods promise one by one: which image an install writes, what a cancel
-- restores, and what a reboot call does to later installs.
use hadron_desktop.Base.{
  ℕ, ◌≡◌, sym, refl, ap, ◌∙◌, Bool, false, ◌&&◌, none, some, ◌≢◌, ◌⊎◌, inl, inr, ◌∷◌, ◌++◌, arith,
}
use hadron_desktop.Base.Text.{Text, text}
use hadron_desktop.Update.Ref.{repo}
use hadron_desktop.Update.Pin.{Outcome}
use hadron_desktop.Update.Policy.{ImageInfo}
use hadron_desktop.Update.Daemon.{
  State, idle, inspecting, error, Detail, blank, Daemon, is_rebooting, Disk, is_advanced,
  is_installing, set_state,
}
use hadron_desktop.Update.Daemon.Check.{Fetched}
use hadron_desktop.Update.Daemon.Install.{
  Request, Resolved, resolved, Evaluation, evaluate, Applied, accepted, rejected, apply, Upgrade,
  Started, abandoned, upgrading, source_of, start,
}
use hadron_desktop.Update.Daemon.Install.Sections.{apply-effect, apply-rebooting, start-effect}
use hadron_desktop.Update.Daemon.Install.Evaluate.{IsInstallable, evaluate-IsInstallable}
use hadron_desktop.Update.Daemon.Power.{restored, cancel, reboot, reboot_failed}
use hadron_desktop.Update.Daemon.Effects.{
  ApplyEffect, refused, admitted, StartEffect, not_started, launched,
}

launched_facts :
    (id : ℕ) (q : Request) (e : Evaluation) (disk : Disk) (d : Daemon)
    → (r : Disk × Daemon × Started) (disk' : Disk) (d' : Daemon) (u : Upgrade)
    → StartEffect id q e disk d r
    → r.2 ≡ upgrading u
    → (d.rebooting ≡ false)
      × (e.error ≡ none)
      × (e.info.digest ≡ q.digest)
      × (u.source ≡ source_of e.info)
launched_facts id q e disk d r disk' d' u (not_started d₁ st n effect) h = absurd (n u h)
launched_facts id q e disk d r disk' d' u (launched disk₁ d₁ u₁ mine calm present kept fine) h =
    ground (arith, calm, fine)

-- kairos-agent is started only for an image that the registry resolved the request to, and is given
-- that image's repository at the digest that the user reviewed, not a tag, with no reboot asked for.
-- The image is never an agent image, and
-- it is a published release that is trusted by name unless the caller asked for advanced mode and
-- update.conf allows it.
pub upgrade_is_reviewed :
    (id : ℕ) (marker_write latest_write : Outcome) (q : Request) (r : Resolved) (f : Fetched)
    (disk disk' : Disk) (d d' : Daemon) (u : Upgrade)
    → start id marker_write latest_write q (evaluate r f disk d.rel q.advanced) disk d
      ≡ (disk', d', upgrading u)
    → (info : ImageInfo) × (r ≡ resolved info)
      × (info.digest ≡ q.digest)
      × (u.source ≡ text "oci:" ++ (repo info.ref ++ (b'@' ∷ q.digest)))
      × (d.rebooting ≡ false)
      × IsInstallable f d.rel (q.advanced && is_advanced disk.conf) info
unfolding source_of
upgrade_is_reviewed id marker_write latest_write q r f disk disk' d d' u h =
    let e = evaluate r f disk d.rel q.advanced in
    let (calm, fine, reviewed, source) =
      launched_facts id q e disk d _ disk' d' u
        (start-effect id q e disk d marker_write latest_write)
        (ap (λ (t : Disk × Daemon × Started). t.2) h) in
    let (info, found, same, ok) = evaluate-IsInstallable r f disk d.rel q.advanced fine in
    let digest = sym (ap (λ (i : ImageInfo). i.digest) same) ∙ reviewed in
    (
      info,
      found,
      digest,
      source ∙ ap source_of same ∙ ap (λ t. text "oci:" ++ (repo info.ref ++ (b'@' ∷ t))) digest,
      calm,
      ok,
    )

cancel_restores :
    (disk : Disk) (d : Daemon) (id : ℕ) (prev : State) (detail : Detail)
    → d.state ≡ inspecting
    → d.job ≡ some (record { id = id; prev = prev; prev_detail = detail })
    → let c = cancel disk d in
      (c.1 ≡ none)
      × (c.0.job ≡ none)
      × (c.0.state ≡ (restored prev detail).0)
      × (c.0.detail ≡ (restored prev detail).1)
unfolding cancel set_state
cancel_restores disk d id prev detail e j = ground arith

start_without_job :
    (id : ℕ) (m l : Outcome) (q : Request) (e : Evaluation) (disk : Disk) (d : Daemon)
    → d.job ≡ none
    → start id m l q e disk d ≡ (disk, d, abandoned)
unfolding start
start_without_job id m l q e disk d h = rw h

-- The state and the detail from before a job, save that an error becomes idle without a detail.
pub IsBack : State → Detail → Daemon → Type 0
IsBack s detail d =
    ((s ≢ error) × (d.state ≡ s) × (d.detail ≡ detail))
    ⊎ ((s ≡ error) × (d.state ≡ idle) × (d.detail ≡ blank))

is_back :
    (s : State) (detail : Detail) (d : Daemon)
    → d.state ≡ (restored s detail).0
    → d.detail ≡ (restored s detail).1
    → IsBack s detail d
unfolding IsBack
is_back error detail d e f = inr (refl, e, f)
is_back s detail d e f = inl (λ h. cc (h), e, f)

-- An install that is cancelled before kairos-agent runs leaves the daemon in the state and with the
-- detail that it had before, or, if that was an error, idle and without a detail; and its goroutine
-- then changes nothing, whatever it found.
pub apply_then_cancel :
    (id : ℕ) (ref digest : Text) (advanced : Bool) (disk disk' : Disk) (d d' : Daemon) (q : Request)
    (m l : Outcome) (e : Evaluation)
    → apply id ref digest advanced disk d ≡ (d', accepted q)
    → let c = cancel disk d' in
      (c.1 ≡ none)
      × IsBack d.state d.detail c.0
      × (start id m l q e disk' c.0 ≡ (disk', c.0, abandoned))
apply_then_cancel id ref digest advanced disk disk' d d' q m l e h =
    by_effect (apply id ref digest advanced disk d) (apply-effect id ref digest advanced disk d) h
  where
    by_effect :
        (r : Daemon × Applied)
        → ApplyEffect id d r
        → r ≡ (d', accepted q)
        → let c = cancel disk d' in
          (c.1 ≡ none)
          × IsBack d.state d.detail c.0
          × (start id m l q e disk' c.0 ≡ (disk', c.0, abandoned))
    by_effect r (refused x) k = absurd (cc k)
    by_effect r (admitted d₁ q₁ ready calm b own) k =
        let same : d₁ ≡ d' = ap (λ (t : Daemon × Applied). t.0) k in
        let (fine, gone, state, detail) =
          cancel_restores disk d' id d.state d.detail
            (sym (ap (λ (x : Daemon). x.state) same) ∙ b.2)
            (sym (ap (λ (x : Daemon). x.job) same) ∙ own) in
        (fine, is_back d.state d.detail _ state detail, start_without_job id m l q e disk' _ gone)

-- When a daemon that would accept an install, had no reboot asked for and is not installing takes a
-- reboot call, it refuses that install while the call is under way; but a second reboot call that
-- fails lifts the block, and the install is then accepted as if no reboot had been asked for.
pub failed_reboot_unblocks :
    (id : ℕ) (ref digest : Text) (advanced : Bool) (disk : Disk) (d d' : Daemon) (q : Request)
    → d.rebooting ≡ false
    → is_installing d.state ≡ false
    → apply id ref digest advanced disk d ≡ (d', accepted q)
    → let first = (reboot d).0 in
      let second = (reboot first).0 in
      (apply id ref digest advanced disk first ≡ (first, rejected is_rebooting))
      × ((reboot first).1 ≡ none)
      × (apply id ref digest advanced disk (reboot_failed second) ≡ (d', accepted q))
unfolding reboot reboot_failed
failed_reboot_unblocks id ref digest advanced disk d d' q r e a =
    let calm : record d { rebooting = false } ≡ d = ap (λ b. record d { rebooting = b }) (sym r) in
    rw e (
      rw e (
        apply-rebooting id ref digest advanced disk d d' q a,
        refl,
        ap (λ x. apply id ref digest advanced disk x) calm ∙ a,
      ))
