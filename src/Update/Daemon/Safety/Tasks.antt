-- ===== src/Update/Daemon/Safety/Tasks.antt =====
-- What taking a task out of the list, or adding one, does to the invariant's parts.
use hadron_desktop.Base.{
  ℕ, suc, ◌≡◌, Bool, true, false, Option, none, List, [], ◌∷◌, ◌==◌, All, arith,
}
use hadron_desktop.Update.Daemon.{State, Job}
use hadron_desktop.Update.Daemon.Check.{is_job}
use hadron_desktop.Update.Daemon.System.{Task, check, install, upgrade, power, Take, here, there}
use hadron_desktop.Update.Daemon.Safety.{Below, Differs, DiffersFrom, Distinct, Agrees}

Differs_symm : (n id : ℕ) → (n == id) ≡ false → (id == n) ≡ false
Differs_symm n id h = ground arith

DiffersFrom-symm : (u t : Task) → DiffersFrom u t → DiffersFrom t u
DiffersFrom-symm power power x = tt
DiffersFrom-symm power (check id pending) x = tt
DiffersFrom-symm u t x = ground arith

module _ {t : Task} where
  pub Take-All :
      (P : Task → Type 0) {ts rest : List Task} → Take t ts rest → All P ts → P t × All P rest
  Take-All P here (p, ps) = (p, ps)
  Take-All P (there k) (p, ps) = let (q, qs) = Take-All P k ps in (q, (p, qs))

  pub Take-Distinct :
      {ts rest : List Task}
      → Take t ts rest
      → Distinct ts
      → All (DiffersFrom t) rest × Distinct rest
  Take-Distinct here (a, d) = (a, d)
  Take-Distinct (there {u = u} k) (a, d) =
      let (b, e) = Take-Distinct k d in
      let (x, xs) = Take-All (DiffersFrom u) k a in ((DiffersFrom-symm u t x, b), (xs, e))

pub All-map :
    {P Q : Task → Type 0} (f : (t : Task) → P t → Q t) (ts : List Task) → All P ts → All Q ts
All-map f [] h = tt
All-map f (t ∷ ts) (p, h) = (f t p, All-map f ts h)

Below-suc : (n : ℕ) (t : Task) → Below n t → Below (suc n) t
Below-suc n (check id pending) h = omega arith
Below-suc n (install id q) h = omega arith
Below-suc n (upgrade id u) h = omega arith
Below-suc n power h = tt

pub All-Below-suc : (n : ℕ) (ts : List Task) → All (Below n) ts → All (Below (suc n)) ts
All-Below-suc n = All-map (Below-suc n)

Below-Differs : (n : ℕ) (t : Task) → Below n t → Differs n t
Below-Differs n (check id pending) h = ground arith
Below-Differs n (install id q) h = ground arith
Below-Differs n (upgrade id u) h = ground arith
Below-Differs n power h = tt

pub All-Differs : (n : ℕ) (ts : List Task) → All (Below n) ts → All (Differs n) ts
All-Differs n = All-map (Below-Differs n)

-- Without a job, or with that of another task, a task agrees with every state.
Agrees-no_job :
    (m : Bool) (j : Option Job) (s s' : State) (t : Task) → Agrees m j s t → Agrees m none s' t
Agrees-no_job m j s s' (check id false) h = λ e. cc
Agrees-no_job m j s s' (check id true) h = tt
Agrees-no_job m j s s' (install id q) h = (h.0, λ e. cc)
Agrees-no_job m j s s' (upgrade id u) h = tt
Agrees-no_job m j s s' power h = tt

pub All-Agrees_no_job :
    (m : Bool) (j : Option Job) (s s' : State) (ts : List Task)
    → All (Agrees m j s) ts
    → All (Agrees m none s') ts
All-Agrees_no_job m j s s' = All-map (Agrees-no_job m j s s')

Agrees-other :
    (m : Bool) (n : ℕ) (j j' : Option Job) (s s' : State) (t : Task)
    → is_job n j' ≡ true
    → Agrees m j s t × Differs n t
    → Agrees m j' s' t
Agrees-other m n j j' s s' (check id false) e (h, k) = λ e'. ground arith
Agrees-other m n j j' s s' (check id true) e (h, k) = tt
Agrees-other m n j j' s s' (install id q) e (h, k) = (h.0, λ e'. ground arith)
Agrees-other m n j j' s s' (upgrade id u) e (h, k) = tt
Agrees-other m n j j' s s' power e (h, k) = tt

All-both : (P Q : Task → Type 0) (ts : List Task) → All P ts → All Q ts → All (λ t. P t × Q t) ts
All-both P Q [] h k = tt
All-both P Q (t ∷ ts) (p, h) (q, k) = ((p, q), All-both P Q ts h k)

pub All-Agrees_other :
    (m : Bool) (n : ℕ) (j j' : Option Job) (s s' : State) (ts : List Task)
    → is_job n j' ≡ true
    → All (Agrees m j s) ts
    → All (Differs n) ts
    → All (Agrees m j' s') ts
All-Agrees_other m n j j' s s' ts e h k =
    All-map (λ t. Agrees-other m n j j' s s' t e) ts (All-both (Agrees m j s) (Differs n) ts h k)
