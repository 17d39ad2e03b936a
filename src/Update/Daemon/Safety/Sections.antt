-- ===== src/Update/Daemon/Safety/Sections.antt =====
-- The invariant behind sections of the kinds that the daemon has.
use hadron_desktop.Base.{
  suc, ◌≡◌, ◌⊎◌, inl, inr, refl, ◌∙◌, Bool, true, false, List, ◌∷◌, All, arith,
}
use hadron_desktop.Base.Text.{Text}
use hadron_desktop.Update.Daemon.{State, checking, inspecting, Daemon, Disk}
use hadron_desktop.Update.Daemon.Marker.{is_present}
use hadron_desktop.Update.Daemon.Check.{Fetched, Begun, skipped, proceeds, begin, finish, is_job}
use hadron_desktop.Update.Daemon.Check
use hadron_desktop.Update.Daemon.Install.{Applied, apply}
use hadron_desktop.Update.Daemon.Install.Sections.{apply-effect}
use hadron_desktop.Update.Daemon.Effects.{
  Keeps, Drops, IsReady, Begins, BeginEffect, not_begun, begun, begin-effect, ApplyEffect, refused,
  admitted,
}
use hadron_desktop.Update.Daemon.System.{
  Task, check, install, Take, System, add_check, add_install, on_check, on_apply,
}
use hadron_desktop.Update.Daemon.Safety.{Inv, is_late, Below, Distinct, DiffersFrom, Agrees}
use hadron_desktop.Update.Daemon.Safety.Tasks.{
  Take-All, Take-Distinct, All-Below-suc, All-Differs, All-Agrees_no_job, All-Agrees_other,
}

-- The system after a section that left the job and its state alone, or ended the job, and put or
-- took no task.
module _ (s : System) (inv : Inv s) where
  pub Agrees-kept :
      (d : Daemon) (ts : List Task)
      → Keeps s.daemon d
      → All (Agrees s.daemon.managed s.daemon.job s.daemon.state) ts
      → All (Agrees d.managed d.job d.state) ts
  Agrees-kept d ts (m, j, t) h = rw (m, j, t) h

  pub Agrees-dropped :
      (d : Daemon) (ts : List Task)
      → Drops s.daemon d
      → All (Agrees s.daemon.managed s.daemon.job s.daemon.state) ts
      → All (Agrees d.managed d.job d.state) ts
  Agrees-dropped d ts (m, j) h =
      rw (m, j) (All-Agrees_no_job s.daemon.managed s.daemon.job s.daemon.state d.state ts h)

  Agrees-begun :
      (d : Daemon) (state : State)
      → Begins s.next state s.daemon d
      → All (Agrees d.managed d.job d.state) s.tasks
  Agrees-begun d state (m, j, t) = rw m (
      All-Agrees_other s.daemon.managed s.next s.daemon.job d.job s.daemon.state d.state s.tasks j
        inv.agrees (All-Differs s.next s.tasks inv.below))

  -- A section that begins no job.
  idle_section :
      (d : Daemon) (ts : List Task)
      → Keeps s.daemon d
      → ts ≡ s.tasks
      → Inv (record s { daemon = d; tasks = ts; next = suc s.next })
  idle_section d ts k e = record {
    one = inv.one;
    marked = inv.marked;
    late = ground (arith, inv.late);
    below = rw e (All-Below-suc s.next s.tasks inv.below);
    distinct = rw e inv.distinct;
    agrees = rw e (Agrees-kept d s.tasks k inv.agrees);
  }

  begun_section :
      (d : Daemon) (state : State) (t : Task)
      → IsReady s.daemon
      → Begins s.next state s.daemon d
      → Below (suc s.next) t
      → All (DiffersFrom t) s.tasks
      → Agrees d.managed d.job d.state t
      → Inv (record s { daemon = d; tasks = t ∷ s.tasks; next = suc s.next })
  begun_section d state t ready b below distinct agrees = record {
    one = inv.one;
    marked = inv.marked;
    late = ground (arith, inv.late);
    below = (below, All-Below-suc s.next s.tasks inv.below);
    distinct = (distinct, inv.distinct);
    agrees = (agrees, Agrees-begun d state b);
  }

  begin_section :
      (r : Daemon × Begun)
      → BeginEffect s.next s.daemon r
      → Inv (record s { daemon = r.0; tasks = add_check s.next r.1 s.tasks; next = suc s.next })
  begin_section r (not_begun skipped n) = idle_section s.daemon s.tasks (refl, refl, refl) refl
  begin_section r (not_begun (Check.rejected e) n) =
      idle_section s.daemon s.tasks (refl, refl, refl) refl
  begin_section r (not_begun (proceeds false) n) = absurd (n refl)
  begin_section r (not_begun (proceeds true) n) =
      let i = idle_section s.daemon s.tasks (refl, refl, refl) refl in
      record {
        one = i.one;
        marked = i.marked;
        late = i.late;
        below = (omega arith, i.below);
        distinct = (All-Differs s.next s.tasks inv.below, i.distinct);
        agrees = (tt, i.agrees);
      }
  begin_section r (begun d ready b) =
      begun_section d checking (check s.next false) ready b (omega arith)
        (All-Differs s.next s.tasks inv.below) (λ e. b.2)

  pub on_check-Inv : Inv (on_check s)
  unfolding on_check
  on_check-Inv = begin_section (begin s.next s.disk s.daemon) (begin-effect s.next s.disk s.daemon)

  apply_section :
      (r : Daemon × Applied)
      → ApplyEffect s.next s.daemon r
      → Inv (record s { daemon = r.0; tasks = add_install s.next r.1 s.tasks; next = suc s.next })
  apply_section r (refused e) = idle_section s.daemon s.tasks (refl, refl, refl) refl
  apply_section r (admitted d q ready calm b own) =
      begun_section d inspecting (install s.next q) ready b (omega arith)
        (All-Differs s.next s.tasks inv.below) (b.0 ∙ ready.0, λ e. b.2)

  pub on_apply-Inv : (ref digest : Text) (advanced : Bool) → Inv (on_apply ref digest advanced s)
  unfolding on_apply
  on_apply-Inv ref digest advanced =
      apply_section (apply s.next ref digest advanced s.disk s.daemon)
        (apply-effect s.next ref digest advanced s.disk s.daemon)

  -- A section that ends a job of a state in front of the start of kairos-agent, or changes none.
  pub quiet_section :
      (disk : Disk) (d : Daemon) (t : Task) (rest : List Task)
      → Take t s.tasks rest
      → (is_present s.disk.marker ≡ true → is_present disk.marker ≡ true)
      → Keeps s.daemon d
        ⊎ (((s.daemon.managed ≡ true) → is_late s.daemon.state ≡ false) × Drops s.daemon d)
      → Inv (record s { daemon = d; disk = disk; tasks = rest })
  quiet_section disk d t rest k m e =
      let (below, distinct, agrees) = left t rest k in
      record {
        one = inv.one;
        marked = λ u. m (inv.marked u);
        late = elim e [
          | inl keeps ↦ rw (keeps.0, keeps.2) inv.late
          | inr (early, drops) ↦ λ u m'. ground (arith, inv.late, early)
        ];
        below = below;
        distinct = distinct;
        agrees = elim e [
          | inl keeps ↦ Agrees-kept d rest keeps agrees
          | inr (early, drops) ↦ Agrees-dropped d rest drops agrees
        ];
      }
    where
      left :
          (t : Task) (rest : List Task)
          → Take t s.tasks rest
          → All (Below s.next) rest
            × Distinct rest
            × All (Agrees s.daemon.managed s.daemon.job s.daemon.state) rest
      left t rest k = (
        (Take-All (Below s.next) k inv.below).1,
        (Take-Distinct k inv.distinct).1,
        (Take-All (Agrees s.daemon.managed s.daemon.job s.daemon.state) k inv.agrees).1,
      )
