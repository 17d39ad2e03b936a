-- ===== src/Update/Menu.antt =====
-- update/menu.go: the tray menu for a status. How a detail is worded is an argument.
pub mod Offers
use hadron_desktop.Base.{
  ℕ, ◌-◌, Bool, true, false, not, ◌&&◌, ◌||◌, Option, none, some, List, [], ◌∷◌, ◌++◌, length, take,
  leb, if◌then◌else◌,
}
use hadron_desktop.Base.Text.{Text, text, text_eq, is_empty}
use hadron_desktop.Update.Semver.{Semver, newer, parse_semver}
use hadron_desktop.Update.Release.{gpu_full, gpu_vm}
use hadron_desktop.Update.Policy.{Latest}
use hadron_desktop.Update.Daemon.{
  State, idle, checking, up_to_date, update_available, inspecting, applying, reboot_pending, error,
  unmanaged, Pending, started, installed, failed, Detail, Status, is_reboot_pending,
}

mutual
  pub data MenuItem : Type 0 where
    item : Text → Text → Bool → Children → MenuItem

  pub data Children : Type 0 where
    no_more : Children
    child : MenuItem → Children → Children

abbrev pub children : List MenuItem → Children
children [] = no_more
children (i ∷ is) = child i (children is)

-- `MenuItem{ID: id, Label: label, Enabled: enabled}`
abbrev pub leaf : Text → Text → Bool → MenuItem
leaf id label enabled = item id label enabled no_more

-- `flavorLabels`
flavor_label : Text → Text
flavor_label f =
    if text_eq f (text "sway")
    then text "Sway"
    else if text_eq f (text "i3")
    then text "i3"
    else if text_eq f (text "cosmic")
    then text "COSMIC"
    else if text_eq f (text "niri")
    then text "niri"
    else []

-- `switchable` of update/main.go
abbrev pub switchable : List Text
switchable = text "sway" ∷ text "i3" ∷ text "cosmic" ∷ text "niri" ∷ []

-- `installsAllowed(s)`
unfoldable pub installs_allowed : State → Bool
installs_allowed idle = true
installs_allowed up_to_date = true
installs_allowed update_available = true
installs_allowed error = true
installs_allowed s = false

-- `shorten(s, n)`, by code points
shorten : Text → ℕ → Text
shorten s n = if leb (length s) n then s else take (n - 1) s ++ text "…"

pending_line : Option Pending → Text
pending_line (some failed) = text "Update failed; restart before trying again"
pending_line (some started) = text "Update interrupted; restart before trying again"
pending_line (some installed) = text "Update installed; restart to use it"
pending_line none = text "Update installed; restart to use it"

-- `statusLine(st)`, by the state
line_of : State → (Detail → Text) → Status → Text
unfolding pending_line shorten is_empty
line_of unmanaged wording st = text "Unmanaged image"
line_of checking wording st = text "Checking for updates…"
line_of up_to_date wording st =
    text "Hadron Desktop "
    ++ (st.installed_version
        ++ (if not (is_empty st.pin) then text " (pinned)" else text " is up to date"))
line_of update_available wording st = text "Hadron Desktop " ++ (st.latest ++ text " is available")
line_of inspecting wording st = text "Checking the image…"
line_of applying wording st = text "Installing the update…"
line_of reboot_pending wording st = pending_line st.pending
line_of error wording st = text "Error: " ++ shorten (wording st.detail) 80
line_of idle wording st = text "Hadron Desktop " ++ st.installed_version

-- The item that installs the newest release, with a pin or for a newer version.
latest_item : Status → Bool → List MenuItem
latest_item st can =
    if not (is_empty st.latest) && (not (is_empty st.pin) || newer st.latest st.installed_version)
    then leaf (text "install-latest")
        (if not (is_empty st.pin)
          then text "Install latest (" ++ (st.latest ++ text ")")
          else text "Install " ++ st.latest)
        can
      ∷ []
    else []

-- The other releases that can be installed.
is_version : Option Semver → Bool
is_version none = false
is_version (some v) = true

release_items : List Latest → Status → Bool → List MenuItem
unfolding is_version text_eq
release_items [] st can = []
release_items (r ∷ releases) st can =
    let rest = release_items releases st can in
    if not (is_version (parse_semver r.tag)) || text_eq r.tag st.installed_version
    then rest
    else leaf (text "releases/" ++ r.tag) r.tag can ∷ rest

releases_item : List MenuItem → Bool → List MenuItem
releases_item [] can = []
releases_item (i ∷ is) can =
    item (text "releases") (text "Other releases") can (children (i ∷ is)) ∷ []

switch_items : List Text → Text → Bool → List MenuItem
unfolding flavor_label text_eq
switch_items [] flavor can = []
switch_items (f ∷ more) flavor can =
    let rest = switch_items more flavor can in
    if text_eq f flavor then rest else leaf (text "switch/" ++ f) (flavor_label f) can ∷ rest

gpu_item : Text → Bool → MenuItem
gpu_item ln can =
    if text_eq ln gpu_vm
    then leaf (text "gpu/" ++ gpu_full) (text "Switch to the hardware image") can
    else leaf (text "gpu/" ++ gpu_vm) (text "Switch to the virtual machine image") can

abbrev pub is_inspecting : State → Bool
is_inspecting inspecting = true
is_inspecting s = false

abbrev pub is_unmanaged_state : State → Bool
is_unmanaged_state unmanaged = true
is_unmanaged_state s = false

-- The items that stand in the menu under a condition.
abbrev pub when_item : Bool → MenuItem → List MenuItem
when_item true i = i ∷ []
when_item false i = []

-- The items behind those that install.
tail_items : Status → Bool → List MenuItem
tail_items st can =
    when_item st.advanced (leaf (text "advanced") (text "Install an image…") can)
    ++ (when_item (is_inspecting st.state) (leaf (text "cancel") (text "Cancel the update") true)
        ++ (when_item (is_reboot_pending st.state) (leaf (text "restart") (text "Restart now") true)
            ++ when_item can
                (leaf (text "rollback") (text "Restart into the previous system") true)))

-- `BuildMenu(st, releases, flavor, line)`
unfoldable pub build_menu : (Detail → Text) → Status → List Latest → Text → Text → List MenuItem
unfolding line_of latest_item release_items releases_item switch_items gpu_item tail_items
build_menu wording st releases flavor ln =
    let can = installs_allowed st.state in
    let status = leaf (text "status") (line_of st.state wording st) false in
    if is_unmanaged_state st.state
    then status ∷ []
    else (status ∷ latest_item st can)
      ++ (releases_item (release_items releases st can) can
          ++ (item (text "switch") (text "Switch desktop") can
                (children (switch_items switchable flavor can))
              ∷ gpu_item ln can
              ∷ tail_items st can))
