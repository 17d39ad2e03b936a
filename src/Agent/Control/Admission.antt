-- ===== src/Agent/Control/Admission.antt =====
-- Which calls a pause cancels, and that nothing is admitted under a cancelled generation.
use mathlib.Core.Path.{subst}
use mathlib.Core.List.{Memᴰ}
use hadron_desktop.Base.{
  ℕ, zero, suc, ◌<◌, ◌≡◌, ◌⊎◌, inl, inr, refl, sym, ◌∙◌, true, false, none, some, List, [], ◌∷◌,
  arith,
}
use hadron_desktop.Agent.Control.{Controller, new_controller, enter, pause, resume}

-- The controllers that the operator's commands and the clients' calls reach, with the generations
-- of the calls admitted so far, when a resume is only given while the controller is paused.
pub data Orderly : Controller → List ℕ → Type 0 where
  started : (n : ℕ) → Orderly (new_controller n) []
  called :
      {c : Controller} {g : ℕ} {gs : List ℕ} → Orderly c gs → enter c ≡ some g → Orderly c (g ∷ gs)
  pausing : {c : Controller} {gs : List ℕ} → Orderly c gs → Orderly (pause c) gs
  resuming : {c : Controller} {gs : List ℕ} → Orderly c gs → c.paused ≡ true → Orderly (resume c) gs

-- Generations are numbered below the next one, and the current one is cancelled by a pause alone.
pub record IsTidy (c : Controller) : Type 0 where
  pub gen_old : c.gen < c.next_gen
  pub cancelled_old : (g : ℕ) → Memᴰ g c.cancelled → g < c.next_gen
  pub gen_live : c.paused ≡ false → ¬ Memᴰ c.gen c.cancelled

pub new_controller-IsTidy : (n : ℕ) → IsTidy (new_controller n)
unfolding new_controller
new_controller-IsTidy n = record {
  gen_old = omega arith;
  cancelled_old = λ g m. elim m [ ];
  gen_live = λ e m. elim m [ ];
}

cancelled_by_pause :
    (c : Controller) → IsTidy c → (g : ℕ) → Memᴰ g (c.gen ∷ c.cancelled) → g < c.next_gen
cancelled_by_pause c t g (Memᴰ.head e) =
    let old = t.gen_old in subst (λ k. k < c.next_gen) (sym e) old
cancelled_by_pause c t g (Memᴰ.tail m) = t.cancelled_old g m

pub pause-IsTidy : (c : Controller) → IsTidy c → IsTidy (pause c)
unfolding pause
pause-IsTidy c t = record {
  gen_old = t.gen_old;
  cancelled_old = cancelled_by_pause c t;
  gen_live = λ e. absurd (ground arith);
}

pub resume-IsTidy : (c : Controller) → IsTidy c → IsTidy (resume c)
unfolding resume
resume-IsTidy c t = record {
  gen_old = omega arith;
  cancelled_old = λ g m. let old : g < c.next_gen = t.cancelled_old g m in omega arith;
  gen_live = λ e m. let old : c.next_gen < c.next_gen = t.cancelled_old c.next_gen m in omega arith;
}

pub Orderly-IsTidy : {c : Controller} {gs : List ℕ} → Orderly c gs → IsTidy c
Orderly-IsTidy (started n) = new_controller-IsTidy n
Orderly-IsTidy (called o e) = Orderly-IsTidy o
Orderly-IsTidy (pausing o) = pause-IsTidy _ (Orderly-IsTidy o)
Orderly-IsTidy (resuming o e) = resume-IsTidy _ (Orderly-IsTidy o)

enter_gen : (c : Controller) (g : ℕ) → enter c ≡ some g → (c.paused ≡ false) × (g ≡ c.gen)
unfolding enter
enter_gen c g e = (ground arith, ground arith)

-- Each admitted generation is the current one or cancelled.
covered :
    {c : Controller} {gs : List ℕ}
    → Orderly c gs
    → (g : ℕ) → Memᴰ g gs
    → Memᴰ g (c.gen ∷ c.cancelled) × (c.paused ≡ true → Memᴰ g c.cancelled)
unfolding pause resume
covered (started n) g m = elim m [ ]
covered (called {c} o e) g (Memᴰ.head d) =
    let (running, current) = enter_gen c _ e in
    (Memᴰ.head (d ∙ current), λ p. absurd (ground arith))
covered (called o e) g (Memᴰ.tail m) = covered o g m
covered (pausing {c} o) g m = let (mine, _) = covered o g m in (Memᴰ.tail mine, λ _. mine)
covered (resuming {c} o e) g m =
    let (_, mine) = covered o g m in (Memᴰ.tail (mine e), λ p. absurd (ground arith))

-- While the operator resumes only a paused controller, a pause cancels the generation of every call
-- admitted so far, and rejects the next call.
pub pause_cancels :
    {c : Controller} {gs : List ℕ} (g : ℕ)
    → Orderly c gs
    → Memᴰ g gs
    → Memᴰ g (pause c).cancelled × (enter (pause c) ≡ none)
unfolding pause enter
pause_cancels g o m = let (mine, _) = covered o g m in (mine, refl)

-- A call is admitted under a generation that is not cancelled.
pub enter_live :
    {c : Controller} {gs : List ℕ} (g : ℕ) → Orderly c gs → enter c ≡ some g → ¬ Memᴰ g c.cancelled
enter_live {c} g o e m =
    let (running, current) = enter_gen c g e in
    let t = Orderly-IsTidy o in t.gen_live running (subst (λ k. Memᴰ k c.cancelled) current m)

-- So many pauses, one after the other.
pub pauses : ℕ → Controller → Controller
pauses zero c = c
pauses (suc n) c = pause (pauses n c)

pauses_gen : (n : ℕ) (c : Controller) → (pauses n c).gen ≡ c.gen
unfolding pauses pause
pauses_gen zero c = refl
pauses_gen (suc n) c = pauses_gen n c

-- They cancel the current generation of the controller and no other.
pauses_cancel :
    (n : ℕ) (g : ℕ) (c : Controller)
    → Memᴰ g (pauses n c).cancelled
    → (Memᴰ g c.cancelled ⊎ (g ≡ c.gen))
unfolding pauses pause
pauses_cancel zero g c m = inl m
pauses_cancel (suc n) g c (Memᴰ.head e) = inr (e ∙ pauses_gen n c)
pauses_cancel (suc n) g c (Memᴰ.tail m) = pauses_cancel n g c m

-- A resume of a controller that is not paused replaces the generation, and the calls admitted under
-- the replaced one survive every number of pauses that follow.
pub resume_orphans :
    {c : Controller} {gs : List ℕ} (g : ℕ) (n : ℕ)
    → Orderly c gs
    → enter c ≡ some g
    → ¬ Memᴰ g (pauses n (resume c)).cancelled
unfolding resume
resume_orphans {c} g n o e m =
    let (running, current) = enter_gen c g e in
    let t = Orderly-IsTidy o in
    let old = t.gen_old in
    elim (pauses_cancel n g (resume c) m) [
      | inl gone ↦ t.gen_live running (subst (λ k. Memᴰ k c.cancelled) current gone)
      | inr new ↦ omega arith
    ]
