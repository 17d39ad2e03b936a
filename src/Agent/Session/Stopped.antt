-- ===== src/Agent/Session/Stopped.antt =====
-- What holds of the broker and its calls in every reachable system.
use hadron_desktop.Base.{
  ℕ, suc, ◌+◌, ◌-◌, ◌≤◌, Bool-cases, ◌<◌, ◌≡◌, ◌⊎◌, inl, inr, refl, Bool, true, false, not, ◌||◌,
  ap, ◌∙◌, List, [], ◌∷◌, All, if_cases, arith,
}
use hadron_desktop.Base.Picks.{Pick, All-Pick, All-mono}
use hadron_desktop.Agent.Session.{
  Broker, new_broker, Gate, live, gate_paused, gate_closed, enter, pause, resume, close, is_done,
}
use hadron_desktop.Agent.Session.System.{
  Call, waiting, holding, running, System, gen_of, weight, used, admit_call, recheck, Step, Reach,
  started, taken_at_recheck, taken_at_end,
}

-- The broker rejects calls.
abbrev pub stopped : Broker → Bool
stopped b = b.is_paused || b.is_closed

-- The call's generation is done, or the current one.
abbrev Covered : Broker → Call → Type 0
Covered b c = (is_done (gen_of c) b.cancelled ≡ true) ⊎ (gen_of c ≡ b.gen)

pub record Inv (s : System) : Type 0 where
  pub counted : used s.calls ≡ s.taken
  pub bounded : s.taken ≤ s.broker.slots
  pub gen_old : s.broker.gen < s.broker.next_gen
  pub done_old : All (λ (g : ℕ). g < s.broker.next_gen) s.broker.cancelled
  pub gen_done : is_done s.broker.gen s.broker.cancelled ≡ stopped s.broker
  pub covered : All (Covered s.broker) s.calls

used-Pick : {c : Call} {cs rest : List Call} → Pick c cs rest → used cs ≡ weight c + used rest
unfolding used
used-Pick Pick.here = refl
used-Pick (Pick.there k) = omega (arith, used-Pick k)

-- A number that no generation had is not done.
is_done_new : (n : ℕ) (gs : List ℕ) → All (λ (g : ℕ). g < n) gs → is_done n gs ≡ false
unfolding is_done
is_done_new n [] h = refl
is_done_new n (g ∷ gs) (h, hs) = ground (arith, is_done_new n gs hs)

started-Inv : (n : ℕ) → Inv (started n)
unfolding new_broker used is_done
started-Inv n = record {
  counted = refl;
  bounded = omega arith;
  gen_old = omega arith;
  done_old = tt;
  gen_done = refl;
  covered = tt;
}

-- The steps that leave the broker alone.
same_broker :
    (s : System) (t : ℕ) (cs : List Call)
    → Inv s
    → used cs ≡ t
    → t ≤ s.broker.slots
    → All (Covered s.broker) cs
    → Inv (record s { taken = t; calls = cs })
same_broker s t cs inv n u c = record {
  counted = n;
  bounded = u;
  gen_old = inv.gen_old;
  done_old = inv.done_old;
  gen_done = inv.gen_done;
  covered = c;
}

-- A call that `enter` admits runs under the current generation.
admitted :
    (s : System) (g : Gate) (slot : Bool)
    → Inv s
    → enter s.broker ≡ g
    → Inv (record s { calls = admit_call g slot s.calls })
unfolding enter used
admitted s (live n) true inv e =
    same_broker s s.taken _ inv (omega (arith, inv.counted)) inv.bounded
      (inr (ground arith), inv.covered)
admitted s (live n) false inv e =
    same_broker s s.taken _ inv (omega (arith, inv.counted)) inv.bounded
      (inr (ground arith), inv.covered)
admitted s gate_paused slot inv e = inv
admitted s gate_closed slot inv e = inv

-- The steps of the operator: the calls that were covered stay covered.
new_broker-Inv :
    (s : System) (b : Broker)
    → Inv s
    → b.slots ≡ s.broker.slots
    → b.gen < b.next_gen
    → All (λ (g : ℕ). g < b.next_gen) b.cancelled
    → is_done b.gen b.cancelled ≡ stopped b
    → ((c : Call) → Covered s.broker c → Covered b c)
    → Inv (record s { broker = b })
new_broker-Inv s b inv e o d g f = record {
  counted = inv.counted;
  bounded = omega (arith, inv.bounded, e);
  gen_old = o;
  done_old = d;
  gen_done = g;
  covered = All-mono (Covered s.broker) (Covered b) f s.calls inv.covered;
}

stay_done :
    (s : System) (c : Call)
    → Covered s.broker c
    → is_done (gen_of c) (s.broker.gen ∷ s.broker.cancelled) ≡ true
unfolding is_done
stay_done s c (inl e) = ground arith
stay_done s c (inr e) = ground arith

pause-Inv : (s : System) → Inv s → Inv (record s { broker = pause s.broker })
unfolding pause is_done
pause-Inv s inv =
    if_cases (λ b. Inv (record s { broker = b })) (s.broker.is_closed || s.broker.is_paused) _ _
      (λ e. inv)
      (λ e.
        new_broker-Inv s _ inv refl inv.gen_old (inv.gen_old, inv.done_old) (ground arith)
          (λ c h. inl (stay_done s c h)))

close-Inv : (s : System) → Inv s → Inv (record s { broker = close s.broker })
unfolding close is_done
close-Inv s inv =
    if_cases (λ b. Inv (record s { broker = b })) s.broker.is_closed _ _ (λ e. inv)
      (λ e.
        new_broker-Inv s _ inv refl inv.gen_old (inv.gen_old, inv.done_old) (ground arith)
          (λ c h. inl (stay_done s c h)))

-- Under a stopped broker the current generation is done, and so is every call's.
all_done :
    (s : System) (c : Call)
    → Inv s
    → stopped s.broker ≡ true
    → Covered s.broker c
    → is_done (gen_of c) s.broker.cancelled ≡ true
all_done s c inv e (inl d) = d
all_done s c inv e (inr d) = ap (λ (g : ℕ). is_done g s.broker.cancelled) d ∙ inv.gen_done ∙ e

older_still : (n : ℕ) (gs : List ℕ) → All (λ (g : ℕ). g < n) gs → All (λ (g : ℕ). g < suc n) gs
older_still n gs h = All-mono (λ (g : ℕ). g < n) (λ (g : ℕ). g < suc n) (λ g k. omega arith) gs h

resume-Inv : (s : System) → Inv s → Inv (record s { broker = resume s.broker })
unfolding resume
resume-Inv s inv =
    if_cases (λ b. Inv (record s { broker = b })) (s.broker.is_closed || not s.broker.is_paused) _ _
      (λ e. inv)
      (λ e.
        new_broker-Inv s _ inv refl (omega arith)
          (older_still s.broker.next_gen s.broker.cancelled inv.done_old)
          (ground (arith, is_done_new s.broker.next_gen s.broker.cancelled inv.done_old))
          (λ c h. inl (all_done s c inv (ground arith) h)))

-- The steps of a call that is picked.
moved :
    (s : System) (t : ℕ) (c d : Call) (rest : List Call)
    → Inv s
    → Pick c s.calls rest
    → gen_of d ≡ gen_of c
    → weight d + used rest ≡ t
    → t ≤ s.broker.slots
    → Inv (record s { taken = t; calls = d ∷ rest })
unfolding used
moved s t c d rest inv k same n fits =
    let (mine, others) = All-Pick (Covered s.broker) k inv.covered in
    same_broker s t (d ∷ rest) inv n fits (carried mine, others)
  where
    carried : Covered s.broker c → Covered s.broker d
    carried (inl e) = inl (ap (λ (g : ℕ). is_done g s.broker.cancelled) same ∙ e)
    carried (inr e) = inr (same ∙ e)

left :
    (s : System) (t : ℕ) (c : Call) (rest : List Call)
    → Inv s
    → Pick c s.calls rest
    → weight c + t ≡ s.taken
    → Inv (record s { taken = t; calls = rest })
left s t c rest inv k n =
    let (mine, others) = All-Pick (Covered s.broker) k inv.covered in
    same_broker s t rest inv (omega (arith, used-Pick k, inv.counted, n))
      (omega (arith, inv.bounded, n)) others

rechecked :
    (s : System) (g : ℕ) (rest : List Call)
    → Inv s
    → Pick (holding g) s.calls rest
    → Inv
        (record s { taken = taken_at_recheck g s.broker s.taken; calls = recheck g s.broker rest })
rechecked s g rest inv k = elim (Bool-cases (is_done g s.broker.cancelled)) [
  | inl e ↦
      rw e (left s (s.taken - 1) (holding g) rest inv k (omega (arith, used-Pick k, inv.counted)))
  | inr e ↦ rw e (
      moved s s.taken (holding g) (running g true) rest inv k refl
        (omega (arith, used-Pick k, inv.counted)) inv.bounded)
]

ended :
    (s : System) (g : ℕ) (slot : Bool) (rest : List Call)
    → Inv s
    → Pick (running g slot) s.calls rest
    → Inv (record s { taken = taken_at_end slot s.taken; calls = rest })
ended s g true rest inv k =
    left s (s.taken - 1) (running g true) rest inv k (omega (arith, used-Pick k, inv.counted))
ended s g false rest inv k = left s s.taken (running g false) rest inv k (omega arith)

Step-Inv : {s t : System} → Step s t → Inv s → Inv t
Step-Inv (Step.enters s slot) inv = admitted s (enter s.broker) slot inv refl
Step-Inv (Step.takes_slot s g rest k free) inv =
    moved s (s.taken + 1) (waiting g) (holding g) rest inv k refl
      (omega (arith, used-Pick k, inv.counted)) (omega arith)
Step-Inv (Step.leaves_queue s g rest k) inv = left s s.taken (waiting g) rest inv k (omega arith)
Step-Inv (Step.rechecks s g rest k) inv = rechecked s g rest inv k
Step-Inv (Step.ends s g slot rest k) inv = ended s g slot rest inv k
Step-Inv (Step.pauses s) inv = pause-Inv s inv
Step-Inv (Step.resumes s) inv = resume-Inv s inv
Step-Inv (Step.closes s) inv = close-Inv s inv

Reach-Inv : {s t : System} → Inv s → Reach s t → Inv t
Reach-Inv inv Reach.begin_here = inv
Reach-Inv inv (Reach.next_step r st) = Step-Inv st (Reach-Inv inv r)

-- In every system that a new broker reaches, the semaphore counts exactly the calls that have a slot,
-- so none is lost or released twice, and they are at most as many as the configured slots.
pub session_slots :
    (n : ℕ) {s : System}
    → Reach (started n) s
    → (used s.calls ≡ s.taken) × (s.taken ≤ s.broker.slots)
session_slots n r = let inv = Reach-Inv (started-Inv n) r in (inv.counted, inv.bounded)

-- The call's context is done, and behind the wait for a slot it would leave without executing.
abbrev pub IsOver : Broker → List Call → Call → Type 0
IsOver b rest c = (is_done (gen_of c) b.cancelled ≡ true) × (recheck (gen_of c) b rest ≡ rest)

-- Whatever the order of calls, pauses, resumes and closes that led there: while the broker is paused
-- or closed, a further call is not admitted, the context of every call that it still has is done, and
-- none of them executes behind a wait for a slot, whichever other calls there are.
pub session_stopped :
    (n : ℕ) {s : System} (slot : Bool) (rest : List Call)
    → Reach (started n) s
    → stopped s.broker ≡ true
    → (admit_call (enter s.broker) slot s.calls ≡ s.calls) × All (IsOver s.broker rest) s.calls
unfolding enter
session_stopped n {s} slot rest r e =
    let inv = Reach-Inv (started-Inv n) r in
    (
      ground arith,
      All-mono (Covered s.broker) (IsOver s.broker rest)
          (λ c h. let done = all_done s c inv e h in (done, rw done refl)) s.calls inv.covered,
    )
