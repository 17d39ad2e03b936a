-- ===== src/Agent/Gateway/Flights.antt =====
-- The gateway among its calls: the counters and what is in flight.
use hadron_desktop.Base.{
  ℕ, suc, ◌+◌, ◌≤◌, ◌<◌, ◌≡◌, ◌↔◌, refl, ap, none, some, true, Option, List, [], ◌∷◌, length,
  if◌then◌else◌, arith,
}
use hadron_desktop.Base.Text.{Text}
use hadron_desktop.Base.Picks.{Pick}
use hadron_desktop.Agent.Wire.{Tool}
use hadron_desktop.Agent.Auth.{TokenInfo, Class}
use hadron_desktop.Agent.Control.{Controller}
use hadron_desktop.Agent.Control
use hadron_desktop.Agent.Gateway.{
  Gateway, Target, forwarded, admit, start_call, is_computer_use, count_in, count_out,
  computer_use_active,
}

-- The gateway and the tools of the calls that a broker has not answered.
pub record Front : Type 0 where
  pub gateway : Gateway
  pub flights : List Tool

-- A call is forwarded, or ends with its releases; the controller changes at any time.
pub data Step : Front → Front → Type 0 where
  begins :
      (f : Front) (cred : Option TokenInfo) (tool : Tool) (header sent : Text) (t : Target)
      (gen : ℕ)
      → start_call f.gateway cred tool header ≡ forwarded t sent gen
      → Step f (record { gateway = count_in tool f.gateway; flights = tool ∷ f.flights })
  ends :
      (f : Front) (tool : Tool) (rest : List Tool)
      → Pick tool f.flights rest
      → Step f (record { gateway = count_out tool f.gateway; flights = rest })
  controls :
      (f : Front) (c : Controller)
      → Step f (record f { gateway = record f.gateway { controller = c } })

pub data Reach (f : Front) : Front → Type 0 where
  begin_here : Reach f f
  next_step : {g h : Front} → Reach f g → Step g h → Reach f h

pub count : List Tool → ℕ
unfolding is_computer_use
count [] = 0
count (t ∷ ts) = (if is_computer_use t then 1 else 0) + count ts

pub record Inv (f : Front) : Type 0 where
  pub slots : f.gateway.in_use ≡ length f.flights
  pub computer : f.gateway.computer_use_calls ≡ count f.flights
  pub bounded : f.gateway.in_use ≤ f.gateway.max_calls

admit-eq_forwarded :
    (o : Option ℕ) (g : Gateway) (c : Class) (tool : Tool) (header sent : Text) (t : Target)
    (gen : ℕ)
    → admit o g c tool header ≡ forwarded t sent gen
    → g.in_use < g.max_calls
unfolding admit
admit-eq_forwarded none g c tool header sent t gen h = absurd (cc h)
admit-eq_forwarded (some n) g c tool header sent t gen h = ground arith

start_call-eq_forwarded :
    (g : Gateway) (cred : Option TokenInfo) (tool : Tool) (header sent : Text) (t : Target)
    (gen : ℕ)
    → start_call g cred tool header ≡ forwarded t sent gen
    → g.in_use < g.max_calls
unfolding start_call
start_call-eq_forwarded g none tool header sent t gen h = absurd (cc h)
start_call-eq_forwarded g (some k) tool header sent t gen h =
    admit-eq_forwarded (Control.enter g.controller) g k.class tool header sent t gen h

length-Pick {ℓ} :
    {A : Type ℓ} {a : A} {xs rest : List A} → Pick a xs rest → length xs ≡ suc (length rest)
length-Pick Pick.here = refl
length-Pick (Pick.there k) = ap suc (length-Pick k)

count-Pick :
    {t : Tool} {ts rest : List Tool}
    → Pick t ts rest
    → count ts ≡ (if is_computer_use t then 1 else 0) + count rest
unfolding count
count-Pick Pick.here = refl
count-Pick (Pick.there k) = omega (arith, count-Pick k)

Step-Inv : {f g : Front} → Step f g → Inv f → Inv g
unfolding count_in count_out count
Step-Inv (Step.begins f cred tool header sent t gen h) inv = ground (
  arith,
  inv.slots,
  inv.computer,
  inv.bounded,
  start_call-eq_forwarded f.gateway cred tool header sent t gen h,
)
Step-Inv (Step.ends f tool rest k) inv =
    ground (arith, inv.slots, inv.computer, inv.bounded, length-Pick k, count-Pick k)
Step-Inv (Step.controls f c) inv = ground (arith, inv.slots, inv.computer, inv.bounded)

Reach-Inv : {f g : Front} → Inv f → Reach f g → Inv g
Reach-Inv inv Reach.begin_here = inv
Reach-Inv inv (Reach.next_step r st) = Step-Inv st (Reach-Inv inv r)

-- From a gateway with no call on, whatever the order of the calls: at most the configured number is
-- in flight, a slot is in use for each of them and for nothing else, and the status says that
-- computer_use is active exactly if one of them is a computer_use call.
pub gateway_flights :
    (f : Front) (g : Gateway)
    → g.in_use ≡ 0
    → g.computer_use_calls ≡ 0
    → Reach (record { gateway = g; flights = [] }) f
    → (f.gateway.in_use ≡ length f.flights)
      × (length f.flights ≤ f.gateway.max_calls)
      × ((computer_use_active f.gateway ≡ true) ↔ (0 < count f.flights))
unfolding computer_use_active count
gateway_flights f g e d r =
    let inv = Reach-Inv (record { slots = e; computer = d; bounded = omega arith }) r in
    (inv.slots, omega (arith, inv.slots, inv.bounded), ground (arith, inv.computer))
