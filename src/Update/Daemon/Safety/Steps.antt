-- ===== src/Update/Daemon/Safety/Steps.antt =====
-- The answer to a check, the start and the end of an install, and a cancel keep the invariant.
use mathlib.Core.Path.{subst}
use hadron_desktop.Base.{
  ℕ, ◌≡◌, ◌⊎◌, inl, inr, sym, refl, Bool, true, false, Option, none, some, List, [], ◌∷◌, All,
  length, arith,
}
use hadron_desktop.Update.Pin.{Outcome}
use hadron_desktop.Update.Daemon.{State, inspecting, Err, Job, Daemon, Disk}
use hadron_desktop.Update.Daemon.Check.{Fetched, finish, is_job}
use hadron_desktop.Update.Daemon.Install.{
  Request, Resolved, Evaluation, evaluate, Upgrade, Started, abandoned, gave_up, upgrading, start,
  complete,
}
use hadron_desktop.Update.Daemon.Install.Sections.{start-effect}
use hadron_desktop.Update.Daemon.Power.{cancel}
use hadron_desktop.Update.Daemon.Effects.{
  Keeps, Drops, finish-effect, StartEffect, not_started, launched, complete-effect, cancel-effect,
}
use hadron_desktop.Update.Daemon.System.{
  Task, check, install, upgrade, power, Take, System, add_upgrade, add_source, add_power, on_finish,
  on_start, on_complete, on_reboot,
}
use hadron_desktop.Update.Daemon.Safety.{Inv, is_late, Below, DiffersFrom, Agrees}
use hadron_desktop.Update.Daemon.Safety.Sections.{Agrees-kept, Agrees-dropped, quiet_section}
use hadron_desktop.Update.Daemon.Safety.Tasks.{Take-All, Take-Distinct, All-Agrees_other}

early_check :
    (id : ℕ) (pending managed : Bool) (job : Option Job) (state : State)
    → pending ≡ false
    → is_job id job ≡ true
    → Agrees managed job state (check id pending)
    → is_late state ≡ false
early_check id true managed job state p j h = absurd (cc p)
early_check id false managed job state p j h = rw (h j)

unrelated : (ts : List Task) → All (DiffersFrom power) ts
unrelated [] = tt
unrelated (t ∷ ts) = (tt, unrelated ts)

module _ (s : System) (inv : Inv s) where
  pub on_finish-Inv :
      (id : ℕ) (pending : Bool) (rest : List Task)
      → Take (check id pending) s.tasks rest
      → (o : Outcome) (f : Fetched) → Inv (on_finish id pending o f rest s)
  unfolding on_finish
  on_finish-Inv id pending rest k o f =
      let (disk, d, e) = finish pending id o f s.disk s.daemon in
      let (same, effect) = finish-effect pending id o f s.disk s.daemon in
      quiet_section s inv disk d (check id pending) rest k (λ h. rw same h)
        (elim effect [
          | inl keeps ↦ inl keeps
          | inr (own, mine, drops) ↦ inr (
            λ m.
                early_check id pending s.daemon.managed s.daemon.job s.daemon.state own mine
                  (Take-All (Agrees s.daemon.managed s.daemon.job s.daemon.state) k inv.agrees).0,
            drops,
          )
        ])

  -- The state in which an install finds the daemon if it is the daemon's own job.
  own_install :
      (id : ℕ) (q : Request) (rest : List Task)
      → Take (install id q) s.tasks rest
      → is_job id s.daemon.job ≡ true
      → (s.daemon.state ≡ inspecting) × (length s.upgrades ≡ 0)
  own_install id q rest k mine =
      let (managed, own) =
        (Take-All (Agrees s.daemon.managed s.daemon.job s.daemon.state) k inv.agrees).0 in
      ground (arith, inv.late, own mine, managed)

  not_started_section :
      (id : ℕ) (q : Request) (rest : List Task) (d : Daemon)
      → Take (install id q) s.tasks rest
      → Keeps s.daemon d ⊎ ((is_job id s.daemon.job ≡ true) × Drops s.daemon d)
      → Inv (record s { daemon = d; tasks = rest })
  not_started_section id q rest d k effect =
      quiet_section s inv s.disk d (install id q) rest k (λ h. h)
        (elim effect [
          | inl keeps ↦ inl keeps
          | inr (mine, drops) ↦ inr (λ m. rw ((own_install id q rest k mine).0), drops)
        ])

  start_section :
      (id : ℕ) (q : Request) (e : Evaluation) (rest : List Task)
      → Take (install id q) s.tasks rest
      → (r : Disk × Daemon × Started) → StartEffect id q e s.disk s.daemon r
      → Inv (record s {
        daemon = r.1;
        disk = r.0;
        tasks = add_upgrade id r.2 rest;
        upgrades = add_source r.2 s.upgrades;
      })
  start_section id q e rest k r (not_started d abandoned n effect) =
      not_started_section id q rest d k effect
  start_section id q e rest k r (not_started d (gave_up x) n effect) =
      not_started_section id q rest d k effect
  start_section id q e rest k r (not_started d (upgrading u) n effect) = absurd (n u refl)
  start_section id q e rest k r (launched disk d u mine calm present (m, j, t) fine) =
      let (state, none_before) = own_install id q rest k mine in
      let (differs, distinct) = Take-Distinct k inv.distinct in
      let (below, others_below) = Take-All (Below s.next) k inv.below in
      record {
        one = omega (arith, none_before);
        marked = λ h. present;
        late = λ h m'. rw t;
        below = (below, others_below);
        distinct = (differs, distinct);
        agrees = (
          tt,
          subst (λ b. All (Agrees b d.job d.state) rest) (sym m)
              (All-Agrees_other s.daemon.managed id s.daemon.job d.job s.daemon.state d.state rest
                (rw j mine)
                (Take-All (Agrees s.daemon.managed s.daemon.job s.daemon.state) k inv.agrees).1
                differs),
        );
      }

  pub on_start-Inv :
      (id : ℕ) (q : Request) (rest : List Task)
      → Take (install id q) s.tasks rest
      → (marker_write latest_write : Outcome) (r : Resolved) (f : Fetched)
      → Inv (on_start id q marker_write latest_write r f rest s)
  unfolding on_start
  on_start-Inv id q rest k marker_write latest_write r f =
      let e = evaluate r f s.disk s.daemon.rel q.advanced in
      start_section id q e rest k (start id marker_write latest_write q e s.disk s.daemon)
        (start-effect id q e s.disk s.daemon marker_write latest_write)

  pub on_complete-Inv :
      (id : ℕ) (u : Upgrade) (rest : List Task)
      → Take (upgrade id u) s.tasks rest
      → (result marker_write pin_write : Outcome)
      → Inv (on_complete u result marker_write pin_write rest s)
  unfolding on_complete
  on_complete-Inv id u rest k result marker_write pin_write =
      let (disk, d) = complete u result marker_write pin_write s.disk s.daemon in
      let (present, drops, waits) =
        complete-effect u result marker_write pin_write s.disk s.daemon in
      record {
        one = inv.one;
        marked = λ h. present (inv.marked h);
        late = λ h m. rw waits;
        below = (Take-All (Below s.next) k inv.below).1;
        distinct = (Take-Distinct k inv.distinct).1;
        agrees =
            Agrees-dropped s inv d rest drops
              (Take-All (Agrees s.daemon.managed s.daemon.job s.daemon.state) k inv.agrees).1;
      }

  pub cancel-Inv : Inv (record s { daemon = (cancel s.disk s.daemon).0 })
  cancel-Inv =
      let d = (cancel s.disk s.daemon).0 in
      elim (cancel-effect s.disk s.daemon) [
        | inl keeps ↦ record {
          one = inv.one;
          marked = inv.marked;
          late = rw (keeps.0, keeps.2) inv.late;
          below = inv.below;
          distinct = inv.distinct;
          agrees = Agrees-kept s inv d s.tasks keeps inv.agrees;
        }
        | inr (early, drops) ↦ record {
          one = inv.one;
          marked = inv.marked;
          late = λ h m. ground (arith, inv.late h, drops.0, early);
          below = inv.below;
          distinct = inv.distinct;
          agrees = Agrees-dropped s inv d s.tasks drops inv.agrees;
        }
      ]

  pub kept_section :
      (d : Daemon) (disk : Disk)
      → Keeps s.daemon d
      → disk.marker ≡ s.disk.marker
      → Inv (record s { daemon = d; disk = disk })
  kept_section d disk keeps same = record {
    one = inv.one;
    marked = rw same inv.marked;
    late = rw (keeps.0, keeps.2) inv.late;
    below = inv.below;
    distinct = inv.distinct;
    agrees = Agrees-kept s inv d s.tasks keeps inv.agrees;
  }

  pub on_reboot-Inv :
      (method : Daemon → Daemon × Option Err)
      → Keeps s.daemon (method s.daemon).0
      → Inv (on_reboot method s)
  unfolding on_reboot
  on_reboot-Inv method keeps = put_power (method s.daemon) keeps
    where
      put_power :
          (r : Daemon × Option Err)
          → Keeps s.daemon r.0
          → Inv (record s { daemon = r.0; tasks = add_power r.1 s.tasks })
      put_power (d, some e) keeps = kept_section d s.disk keeps refl
      put_power (d, none) keeps =
          let i = kept_section d s.disk keeps refl in
          record {
            one = i.one;
            marked = i.marked;
            late = i.late;
            below = (tt, i.below);
            distinct = (unrelated s.tasks, i.distinct);
            agrees = (tt, i.agrees);
          }
