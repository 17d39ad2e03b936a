-- ===== src/Update/Tests/Parsing.antt =====
-- Versions, references, release files and update.conf.
use mathlib.Core.List.{Memᴰ, List}
use mathlib.Core.List.{Permᴰ}
use hadron_desktop.Base.{◌≡◌, ◌↔◌, refl, true, false, [], Bool, ◌∷◌}
use hadron_desktop.Base.Text.{Text, text, split, Dict, is_empty}
use hadron_desktop.Update.Semver.{newer}
use hadron_desktop.Update.Semver.Order.{newer_strict_order}
use hadron_desktop.Update.Release.{
  Key, flavor_key, version_key, image_repo_key, github_repo_key, ok, load_release, contents,
  missing, unreadable,
}
use hadron_desktop.Update.Release.Lines.{ReadsFile}
use hadron_desktop.Update.Release.Load.{IsOrder, Says, IsComplete, load_release_iff}
use hadron_desktop.Base.Regex.{full_match}
use hadron_desktop.Update.Ref.{parse_ref, ref_string, host_re, tag_re, name_re}
use hadron_desktop.Update.Ref
use hadron_desktop.Update.Ref.Parts.{IsRef}
use hadron_desktop.Update.Ref.RoundTrip.{parse_ref_iff}
use hadron_desktop.Update.Pin.{advanced_enabled, log_bad, Log}
use hadron_desktop.Update.Pin.Advanced.{means, last_setting, advanced_enabled_lem, log_bad_twice}
use hadron_desktop.Update.Policy.{Latest}
use hadron_desktop.Update.Github.{Raw, fetch_releases}
use hadron_desktop.Update.Github.Sorted.{IsSorted, Published, fetch_releases-IsSorted}
use hadron_desktop.Update.Tests.{release_text, release, order, target}

newest_first : newer (text "v1.10.0") (text "1.9.0") ≡ true
unfolding newer text
newest_first = refl

release_over_prerelease : newer (text "v1.9.0") (text "v1.9.0-rc1") ≡ true
unfolding newer text
release_over_prerelease = refl

newer_strict_order_example :
    (newer (text "v1.10.0") (text "v1.9.0-rc1") ≡ true)
    × (newer (text "v1.10.0") (text "v1.10.0") ≡ false)
unfolding newer text
newer_strict_order_example =
    newer_strict_order (text "v1.10.0") (text "v1.9.0") (text "v1.9.0-rc1") refl refl

parsed_target : parse_ref (text "quay.io/k/h:sway-v0.2.0") ≡ Ref.ok target
unfolding parse_ref text full_match host_re tag_re name_re
parsed_target = refl

parse_ref_iff_example :
    (parse_ref (text "quay.io/k/h:sway-v0.2.0") ≡ Ref.ok target)
    ↔ (IsRef target × (ref_string target ≡ text "quay.io/k/h:sway-v0.2.0"))
parse_ref_iff_example = parse_ref_iff (text "quay.io/k/h:sway-v0.2.0") target

order-IsOrder : IsOrder order
order-IsOrder = record { visits = visited }
  where
    visited : (k : Key) → Memᴰ k order
    visited version_key = Memᴰ.head refl
    visited flavor_key = Memᴰ.tail (Memᴰ.head refl)
    visited github_repo_key = Memᴰ.tail (Memᴰ.tail (Memᴰ.head refl))
    visited image_repo_key = Memᴰ.tail (Memᴰ.tail (Memᴰ.tail (Memᴰ.head refl)))

loaded_release : load_release order (contents release_text) ≡ ok release
unfolding load_release release_text text
loaded_release = refl

load_release_iff_example :
    (load_release order (contents release_text) ≡ ok release)
    ↔ ((kv : Dict) × ReadsFile (contents release_text) kv × Says kv release × IsComplete release)
load_release_iff_example = load_release_iff order (contents release_text) release order-IsOrder

advanced_enabled_lem_example :
    let s = text "advanced = no\n" in
    let log : Log = record { last = []; logged = [] } in
    ((advanced_enabled missing log).0 ≡ true)
    × ((advanced_enabled (unreadable []) log).0 ≡ false)
    × ((advanced_enabled (contents s) log).0 ≡ means (last_setting (split s b'\n')) true)
advanced_enabled_lem_example =
    advanced_enabled_lem (text "advanced = no\n") [] (record { last = []; logged = [] })

log_bad_twice_example :
    let log : Log = record { last = []; logged = [] } in
    log_bad (text "maybe") (log_bad (text "maybe") log) ≡ log_bad (text "maybe") log
log_bad_twice_example = log_bad_twice (text "maybe") (record { last = []; logged = [] })

-- The release list of GitHub, of which one entry is a draft.
abbrev entry : Text → Bool → Raw
entry tag draft = record {
  latest = record { tag = tag; url = []; body = [] };
  draft = draft;
  prerelease = false;
}

abbrev sorted : List Latest
sorted = (entry (text "v1.2.0") false).latest ∷ (entry (text "v1.0.1") false).latest ∷ []

fetch_releases-IsSorted_example :
    let raw =
      entry (text "v1.0.1") false ∷ entry (text "v1.3.0") true ∷ entry (text "v1.2.0") false ∷ [] in
    IsSorted sorted × ((released : List Latest) × Published raw released × Permᴰ sorted released)
unfolding fetch_releases newer text is_empty
fetch_releases-IsSorted_example =
    fetch_releases-IsSorted
      (entry (text "v1.0.1") false ∷ entry (text "v1.3.0") true ∷ entry (text "v1.2.0") false ∷ [])
      sorted refl
