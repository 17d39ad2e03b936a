-- ===== src/Update/Tests.antt =====
-- Runs of update/ on concrete inputs.
mod Parsing
mod Trusting
mod Running
mod Offering
mod Checking
mod Resolving
use hadron_desktop.Base.Text.{Text, text}
use hadron_desktop.Base.{List, [], ◌∷◌}
use hadron_desktop.Update.Release.{
  File, contents, Key, flavor_key, version_key, image_repo_key, github_repo_key, Release,
}
use hadron_desktop.Update.Ref.{ImageRef}
use hadron_desktop.Update.Policy.{ImageInfo, Latest}

unfoldable pub release_text : Text
unfolding text
release_text =
    text "FLAVOR=\"sway\"\nVERSION=v0.1.0\n# c\nIMAGE_REPO=quay.io/k/h\nGITHUB_REPO=k/h\n"

abbrev pub release : Release
release = record {
  flavor = text "sway";
  version = text "v0.1.0";
  hadron_version = [];
  image_repo = text "quay.io/k/h";
  github_repo = text "k/h";
  gpu = [];
}

abbrev pub order : List Key
order = version_key ∷ flavor_key ∷ github_repo_key ∷ image_repo_key ∷ []

abbrev pub target : ImageRef
target = record { host = text "quay.io"; name = text "k/h"; tag = text "sway-v0.2.0"; digest = [] }

abbrev pub digest : Text
digest = text "sha256:0123456789abcdef0123456789abcdef0123456789abcdef0123456789abcdef"

abbrev pub info : ImageInfo
info = record { ref = target; digest = digest; os = []; arch = []; labels = [] }

abbrev pub published : List Latest
published = record { tag = text "v0.2.0"; url = []; body = [] } ∷ []
