-- ===== src/Update/Github.antt =====
-- update/github.go: the list of published releases. What the GitHub API answers is an argument.
pub mod Sorted
use hadron_desktop.Base.{Bool, true, false, ◌||◌, List, [], ◌∷◌, if◌then◌else◌}
use hadron_desktop.Base.Text.{Text, is_empty}
use hadron_desktop.Update.Semver.{newer}
use hadron_desktop.Update.Policy.{Latest}
use hadron_desktop.Update.Daemon.Check.{Fetched, fetched, no_fetch}

-- One entry of the answer.
pub record Raw : Type 0 where
  pub latest : Latest
  pub draft : Bool
  pub prerelease : Bool

-- What `getJSON` answers.
pub data Answer : Type 0 where
  answer : List Raw → Answer
  no_answer : Text → Answer

-- The loop that drops what is not a published release with a tag.
unfoldable pub keep_published : List Raw → List Latest
unfolding is_empty
keep_published [] = []
keep_published (r ∷ raw) =
    let rest = keep_published raw in
    if r.draft || (r.prerelease || is_empty r.latest.tag) then rest else r.latest ∷ rest

-- `sort.SliceStable` by `Newer`: an entry moves behind those of the later ones that are newer.
pub insert : Latest → List Latest → List Latest
insert x [] = x ∷ []
insert x (y ∷ ys) = let rest = insert x ys in if newer y.tag x.tag then y ∷ rest else x ∷ y ∷ ys

pub sort : List Latest → List Latest
unfolding insert
sort [] = []
sort (x ∷ xs) = insert x (sort xs)

-- `FetchReleases(ctx, repo)`
unfoldable pub fetch_releases : Answer → Fetched
unfolding keep_published sort
fetch_releases (no_answer e) = no_fetch e
fetch_releases (answer raw) = fetched (sort (keep_published raw))
