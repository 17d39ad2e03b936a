-- ===== src/Agent/Session/Guard.antt =====
-- When a call of the broker executes.
use hadron_desktop.Base.{
  ℕ, ◌≡◌, ◌↔◌, ◌⊎◌, refl, Bool, true, false, Option, none, some, if◌then◌else◌, arith,
}
use hadron_desktop.Agent.Wire.{
  Tool, computer_use, bash, read_file, search_files, write_file, patch, browser, other_tool,
  Identity, ResultMeta,
}
use hadron_desktop.Agent.Session.{
  Broker, Gate, live, gate_paused, gate_closed, enter, gate_meta, Wait, got_slot, wait_meta, finish,
  Race, executed, guard, after_gate, after_wait, uses_slot, call, call_known,
}

-- The way to the executor is free.
abbrev pub IsClear : Bool → Gate → Race → Type 0
IsClear use_sem g r =
    ((n : ℕ) × (g ≡ live n))
    × ((use_sem ≡ false) ⊎ ((r.wait ≡ got_slot) × (r.done_at_slot ≡ false)))

waited_iff :
    (use_sem : Bool) (w : Wait) (d : Bool)
    → ((if use_sem then wait_meta w d else none) ≡ none)
      ↔ ((use_sem ≡ false) ⊎ ((w ≡ got_slot) × (d ≡ false)))
unfolding wait_meta
waited_iff use_sem w d = ground arith

pub guard_iff :
    (use_sem : Bool) (g : Gate) (r : Race) (id : Identity) (out m : ResultMeta)
    → (guard use_sem g r id out ≡ executed m)
      ↔ (IsClear use_sem g r × (m ≡ finish r.done_at_end r.caller_done id out))
unfolding guard after_gate after_wait gate_meta
guard_iff use_sem (live n) r id out m = ground (arith, waited_iff use_sem r.wait r.done_at_slot)
guard_iff use_sem gate_paused r id out m = (λ h. absurd (cc), λ h. absurd (cc))
guard_iff use_sem gate_closed r id out m = (λ h. absurd (cc), λ h. absurd (cc))

enter-eq_live :
    (b : Broker) → ((n : ℕ) × (enter b ≡ live n)) ↔ ((b.is_closed ≡ false) × (b.is_paused ≡ false))
unfolding enter
enter-eq_live b = (λ (n, e). ground arith, λ (c, p). (b.gen, ground arith))

-- The seven tools, with whether a call waits for a slot.
pub data Waits : Tool → Bool → Type 0 where
  computer_use_free : Waits computer_use false
  browser_free : Waits browser false
  bash_waits : Waits bash true
  read_waits : Waits read_file true
  search_waits : Waits search_files true
  write_waits : Waits write_file true
  patch_waits : Waits patch true

uses_slot_complete : {tool : Tool} {b : Bool} → Waits tool b → uses_slot tool ≡ some b
unfolding uses_slot
uses_slot_complete computer_use_free = refl
uses_slot_complete browser_free = refl
uses_slot_complete bash_waits = refl
uses_slot_complete read_waits = refl
uses_slot_complete search_waits = refl
uses_slot_complete write_waits = refl
uses_slot_complete patch_waits = refl

uses_slot_sound : (tool : Tool) (b : Bool) → uses_slot tool ≡ some b → Waits tool b
unfolding uses_slot
uses_slot_sound computer_use false e = computer_use_free
uses_slot_sound computer_use true e = cc (e)
uses_slot_sound browser false e = browser_free
uses_slot_sound browser true e = cc (e)
uses_slot_sound bash true e = bash_waits
uses_slot_sound bash false e = cc (e)
uses_slot_sound read_file true e = read_waits
uses_slot_sound read_file false e = cc (e)
uses_slot_sound search_files true e = search_waits
uses_slot_sound search_files false e = cc (e)
uses_slot_sound write_file true e = write_waits
uses_slot_sound write_file false e = cc (e)
uses_slot_sound patch true e = patch_waits
uses_slot_sound patch false e = cc (e)
uses_slot_sound (other_tool name) b e = cc (e)

-- What `Call` needs to reach a backend.
pub record MayRun (tool : Tool) (decodes : Bool) (b : Broker) (r : Race) : Type 0 where
  pub use_sem : Bool
  pub known : Waits tool use_sem
  pub decoded : decodes ≡ true
  pub not_closed : b.is_closed ≡ false
  pub not_paused : b.is_paused ≡ false
  pub slot : (use_sem ≡ false) ⊎ ((r.wait ≡ got_slot) × (r.done_at_slot ≡ false))

known_iff :
    (tool : Tool) (o : Option Bool) (decodes : Bool) (b : Broker) (r : Race) (id : Identity)
    (out m : ResultMeta)
    → uses_slot tool ≡ o
    → (call_known o decodes b r id out ≡ executed m)
      ↔ (MayRun tool decodes b r × (m ≡ finish r.done_at_end r.caller_done id out))
unfolding call_known
known_iff tool none decodes b r id out m e =
    (λ h. absurd (cc), λ (w, h). absurd (cc (uses_slot_complete w.known)))
known_iff tool (some use_sem) false b r id out m e =
    (λ h. absurd (cc h), λ (w, h). absurd (cc (w.decoded)))
known_iff tool (some use_sem) true b r id out m e = (
  λ h.
      let (clear, same) = (guard_iff use_sem (enter b) r id out m).0 h in
      let (open_gate, slot) = clear in
      let (c, p) = (enter-eq_live b).0 open_gate in
      (
        record {
          use_sem = use_sem;
          known = uses_slot_sound tool use_sem e;
          decoded = refl;
          not_closed = c;
          not_paused = p;
          slot = slot;
        },
        same,
      ),
  λ (w, same).
      let agree : w.use_sem ≡ use_sem = cc (uses_slot_complete w.known) in
      (guard_iff use_sem (enter b) r id out m).1
        (((enter-eq_live b).1 (w.not_closed, w.not_paused), ground (arith, w.slot)), same),
)

-- A call reaches a backend exactly if the tool is one of the seven, its arguments decode, the broker
-- is neither closed nor paused, and, for a tool other than computer_use and browser, the call gets a
-- slot before its generation is done; the result is then the backend's, passed through `finish`.
pub session_call_iff :
    (tool : Tool) (decodes : Bool) (b : Broker) (r : Race) (id : Identity) (out m : ResultMeta)
    → (call tool decodes b r id out ≡ executed m)
      ↔ (MayRun tool decodes b r × (m ≡ finish r.done_at_end r.caller_done id out))
unfolding call
session_call_iff tool decodes b r id out m =
    known_iff tool (uses_slot tool) decodes b r id out m refl
