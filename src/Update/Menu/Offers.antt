-- ===== src/Update/Menu/Offers.antt =====
-- What the menu offers, and that the daemon accepts it.
use hadron_desktop.Base.{
  ℕ, ◌≡◌, ◌↔◌, ◌≢◌, ◌⊎◌, inl, inr, refl, sym, ap, ◌∙◌, Bool, true, false, ◌&&◌, ◌||◌, none, List,
  [], ◌∷◌, ◌++◌, if_cases, Bool-cases, arith,
}
use hadron_desktop.Base.Text.{Text, text, text_eq}
use hadron_desktop.Base.Regex.{full_match}
use hadron_desktop.Update.Policy.{Latest}
use hadron_desktop.Update.Ref.{ImageRef, Parsed, parse_ref, digest_re}
use hadron_desktop.Update.Ref
use hadron_desktop.Update.Daemon.{State, Detail, Status, Daemon, Disk, status_of, is_reboot_pending}
use hadron_desktop.Update.Daemon.Install.{Request, Applied, accepted, apply}
use hadron_desktop.Update.Daemon.Power.{cancel, reboot, reboot_previous}
use hadron_desktop.Update.Menu.{
  MenuItem, item, Children, children, installs_allowed, latest_item, release_items, releases_item,
  switch_items, gpu_item, is_inspecting, is_unmanaged_state, when_item, tail_items, build_menu,
  switchable,
}

-- An enabled item with this id.
abbrev pub offered_by : Text → MenuItem → Bool
offered_by id (item i label enabled more) = text_eq i id && enabled

unfoldable pub offers : Text → List MenuItem → Bool
offers id [] = false
offers id (i ∷ is) = offered_by id i || offers id is

offers-append :
    (id : Text) (is js : List MenuItem) → offers id (is ++ js) ≡ (offers id is || offers id js)
unfolding offers
offers-append id [] js = refl
offers-append id (i ∷ is) js = ground (arith, offers-append id is js)

-- The ids of the actions of the menu's end.
pub data Action : Type 0 where
  switch_action cancel_action restart_action rollback_action : Action

abbrev pub action_id : Action → Text
action_id switch_action = text "switch"
action_id cancel_action = text "cancel"
action_id restart_action = text "restart"
action_id rollback_action = text "rollback"

latest_offers :
    (a : Action) (st : Status) (can : Bool) → offers (action_id a) (latest_item st can) ≡ false
unfolding offers latest_item text text_eq
latest_offers switch_action st can = ground arith
latest_offers cancel_action st can = ground arith
latest_offers restart_action st can = ground arith
latest_offers rollback_action st can = ground arith

releases_offers :
    (a : Action) (is : List MenuItem) (can : Bool)
    → offers (action_id a) (releases_item is can) ≡ false
unfolding offers releases_item text text_eq
releases_offers switch_action [] can = refl
releases_offers cancel_action [] can = refl
releases_offers restart_action [] can = refl
releases_offers rollback_action [] can = refl
releases_offers switch_action (i ∷ is) can = refl
releases_offers cancel_action (i ∷ is) can = refl
releases_offers restart_action (i ∷ is) can = refl
releases_offers rollback_action (i ∷ is) can = refl

gpu_offers :
    (a : Action) (ln : Text) (can : Bool) → offered_by (action_id a) (gpu_item ln can) ≡ false
unfolding gpu_item text text_eq
gpu_offers switch_action ln can = ground arith
gpu_offers cancel_action ln can = ground arith
gpu_offers restart_action ln can = ground arith
gpu_offers rollback_action ln can = ground arith

-- When an action can be clicked.
abbrev pub clickable : Action → State → Bool
clickable switch_action s = installs_allowed s
clickable cancel_action s = is_inspecting s
clickable restart_action s = is_reboot_pending s
clickable rollback_action s = installs_allowed s

-- The part of that which the end of the menu decides.
abbrev in_tail : Action → State → Bool → Bool
in_tail switch_action s can = false
in_tail cancel_action s can = is_inspecting s
in_tail restart_action s can = is_reboot_pending s
in_tail rollback_action s can = can

when_offers :
    (id : Text) (b : Bool) (i : MenuItem) → offers id (when_item b i) ≡ (b && offered_by id i)
unfolding offers
when_offers id true i = ground arith
when_offers id false i = refl

four_offers :
    (id : Text) (b c d e : Bool) (i j k l : MenuItem)
    → offers id (when_item b i ++ (when_item c j ++ (when_item d k ++ when_item e l))) ≡ (
        (b && offered_by id i)
        || ((c && offered_by id j) || ((d && offered_by id k) || (e && offered_by id l))))
four_offers id b c d e i j k l = ground (
  arith,
  offers-append id (when_item b i) (when_item c j ++ (when_item d k ++ when_item e l)),
  offers-append id (when_item c j) (when_item d k ++ when_item e l),
  offers-append id (when_item d k) (when_item e l),
  when_offers id b i,
  when_offers id c j,
  when_offers id d k,
  when_offers id e l,
)

tail_offers :
    (a : Action) (st : Status) (can : Bool)
    → offers (action_id a) (tail_items st can) ≡ in_tail a st.state can
unfolding tail_items text text_eq
tail_offers switch_action st can =
    four_offers (action_id switch_action) st.advanced (is_inspecting st.state)
      (is_reboot_pending st.state) can _ _ _ _
    ∙ ground arith
tail_offers cancel_action st can =
    four_offers (action_id cancel_action) st.advanced (is_inspecting st.state)
      (is_reboot_pending st.state) can _ _ _ _
    ∙ ground arith
tail_offers restart_action st can =
    four_offers (action_id restart_action) st.advanced (is_inspecting st.state)
      (is_reboot_pending st.state) can _ _ _ _
    ∙ ground arith
tail_offers rollback_action st can =
    four_offers (action_id rollback_action) st.advanced (is_inspecting st.state)
      (is_reboot_pending st.state) can _ _ _ _
    ∙ ground arith

-- An unmanaged system has nothing to click.
unmanaged_clickable : (a : Action) (s : State) → is_unmanaged_state s ≡ true → clickable a s ≡ false
unfolding installs_allowed
unmanaged_clickable a s h = ground arith

switch_offers :
    (a : Action) (s : State) (label : Text) (more : Children)
    → (offered_by (action_id a) (item (text "switch") label (installs_allowed s) more)
        || in_tail a s (installs_allowed s))
      ≡ clickable a s
unfolding text text_eq
switch_offers switch_action s label more = ground arith
switch_offers cancel_action s label more = ground arith
switch_offers restart_action s label more = ground arith
switch_offers rollback_action s label more = ground arith

-- An action of the menu is offered exactly in the states in which it can be clicked.
build_offers :
    (a : Action) (wording : Detail → Text) (st : Status) (releases : List Latest) (flavor ln : Text)
    → offers (action_id a) (build_menu wording st releases flavor ln) ≡ clickable a st.state
unfolding build_menu offers
build_offers a wording st releases flavor ln =
    if_cases (λ menu. offers (action_id a) menu ≡ clickable a st.state)
      (is_unmanaged_state st.state) _ _ (λ e. ground (arith, unmanaged_clickable a st.state e))
      (λ e. ground (
        arith,
        offers-append (action_id a) (latest_item st can) (releases_item rel can ++ ends),
        offers-append (action_id a) (releases_item rel can) ends,
        latest_offers a st can,
        releases_offers a rel can,
        gpu_offers a ln can,
        tail_offers a st can,
        switch_offers a st.state (text "Switch desktop") sw,
      ))
  where
    can : Bool
    can = installs_allowed st.state

    rel : List MenuItem
    rel = release_items releases st can

    sw : Children
    sw = children (switch_items switchable flavor can)

    ends : List MenuItem
    ends = item (text "switch") (text "Switch desktop") can sw ∷ gpu_item ln can ∷ tail_items st can

module _ (disk : Disk) (d : Daemon) (id : ℕ) (ref digest : Text) (advanced : Bool) (r : ImageRef)
    (m : d.managed ≡ true) (b : d.rebooting ≡ false) (p : parse_ref ref ≡ Ref.ok r)
    (f : full_match digest_re digest ≡ true) where
  apply_allowed :
      installs_allowed d.state ≡ true
      → (q : Request) × ((apply id ref digest advanced disk d).1 ≡ accepted q)
  unfolding apply installs_allowed
  apply_allowed h = (
    record { target = r; ref = ref; digest = digest; advanced = advanced },
    rw (p) ground (arith, m, b, f, h),
  )

  apply_not_allowed :
      is_unmanaged_state d.state ≡ false
      → installs_allowed d.state ≡ false
      → (q : Request) → (apply id ref digest advanced disk d).1 ≢ accepted q
  unfolding apply installs_allowed
  apply_not_allowed u h q e = ground (arith, m, b, f, h, u, p)

cancel_works :
    (disk : Disk) (d : Daemon) (offer : Bool)
    → offer ≡ is_inspecting d.state
    → (offer ≡ false) ⊎ ((cancel disk d).1 ≡ none)
unfolding cancel
cancel_works disk d offer h = ground arith

restart_works :
    (d : Daemon) (offer : Bool)
    → offer ≡ is_reboot_pending d.state
    → (offer ≡ false) ⊎ ((reboot d).1 ≡ none)
unfolding reboot
restart_works d offer h = ground arith

rollback_works :
    (d : Daemon) (offer : Bool)
    → d.rebooting ≡ false
    → offer ≡ installs_allowed d.state
    → (offer ≡ false) ⊎ ((reboot_previous d).1 ≡ none)
unfolding reboot_previous installs_allowed
rollback_works d offer b h = ground arith

-- For a managed daemon that no reboot was asked of, the menu that the tray builds from its status
-- offers to switch the desktop exactly if `Apply` accepts a well-formed request; and if it offers
-- to cancel, to restart or to go back, then `Cancel`, `Reboot` or `RebootPrevious` accepts.
pub menu_agrees :
    (wording : Detail → Text) (releases : List Latest) (flavor ln : Text) (disk : Disk) (d : Daemon)
    (id : ℕ) (ref digest : Text) (advanced : Bool) (r : ImageRef)
    → d.managed ≡ true
    → is_unmanaged_state d.state ≡ false
    → d.rebooting ≡ false
    → parse_ref ref ≡ Ref.ok r
    → full_match digest_re digest ≡ true
    → let menu = build_menu wording (status_of disk d) releases flavor ln in
      ((offers (text "switch") menu ≡ true) ↔ (
        (d' : Daemon) × (q : Request) × (apply id ref digest advanced disk d ≡ (d', accepted q))))
      × ((offers (text "cancel") menu ≡ false) ⊎ ((cancel disk d).1 ≡ none))
      × ((offers (text "restart") menu ≡ false) ⊎ ((reboot d).1 ≡ none))
      × ((offers (text "rollback") menu ≡ false) ⊎ ((reboot_previous d).1 ≡ none))
unfolding status_of
menu_agrees wording releases flavor ln disk d id ref digest advanced r m u b p f = (
  (
    λ h.
        let (q, e) =
          apply_allowed disk d id ref digest advanced r m b p f (sym (offer switch_action) ∙ h) in
        (
          (apply id ref digest advanced disk d).0,
          q,
          ap (λ a. ((apply id ref digest advanced disk d).0, a)) e,
        ),
    λ (d', q, e). elim (Bool-cases (installs_allowed d.state)) [
      | inl h ↦ offer switch_action ∙ h
      | inr h ↦ absurd (
          apply_not_allowed disk d id ref digest advanced r m b p f u h q
            (ap (λ (t : Daemon × Applied). t.1) e))
    ],
  ),
  cancel_works disk d _ (offer cancel_action),
  restart_works d _ (offer restart_action),
  rollback_works d _ b (offer rollback_action),
)
  where
    menu : List MenuItem
    menu = build_menu wording (status_of disk d) releases flavor ln

    offer : (a : Action) → offers (action_id a) menu ≡ clickable a d.state
    offer a = build_offers a wording (status_of disk d) releases flavor ln
