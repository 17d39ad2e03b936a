-- ===== src/Agent/Provision/Secrets.antt =====
-- The digests across the files: what one file says, no other contradicts.
use mathlib.Core.Path.{subst}
use mathlib.Core.List.{Memᴰ}
use hadron_desktop.Base.{false, Option, none, some, List, [], ◌∷◌, ◌≡◌, refl, sym, ap, ◌∙◌, arith}
use hadron_desktop.Base.Text.{Text, text_eq_iff, is_empty}
use hadron_desktop.Agent.Provision.{
  Raw, Secret, user_current, user_previous, admin_current, admin_previous, Merged, merged, conflict,
  conflicts, merge_secret, with_secrets, merge, FileDoc, no_read, bad_yaml, no_section, section,
  Folded, folded, stopped, fold_merged, merge_files,
}

abbrev pub secret_of : Secret → Raw → Option Text
secret_of user_current r = r.user_token_hash
secret_of user_previous r = r.user_previous_token_hash
secret_of admin_current r = r.admin_token_hash
secret_of admin_previous r = r.admin_previous_token_hash

-- Two digests that are set do not conflict exactly when they are one.
conflicts-eq_false : (s u : Text) → is_empty s ≡ false → conflicts (some s) u ≡ false → s ≡ u
unfolding conflicts
conflicts-eq_false s u n c = ground (arith, text_eq_iff s u)

-- `mergeSecret` keeps what was recorded, and records what the file sets.
merge_secret-kept :
    (s : Text) (file out : Option Text)
    → is_empty s ≡ false
    → merge_secret (some s) file ≡ some out
    → out ≡ some s
unfolding merge_secret
merge_secret-kept s none out n e = ground arith
merge_secret-kept s (some u) out n e = ground (arith, conflicts-eq_false s u n)

merge_secret-recorded :
    (s : Text) (acc out : Option Text)
    → is_empty s ≡ false
    → merge_secret acc (some s) ≡ some out
    → out ≡ some s
unfolding merge_secret
merge_secret-recorded s acc out n e = ground arith

-- `merge` does for each of the four what `mergeSecret` does.
abbrev merged_or : Raw → Merged → Raw
merged_or a (merged b) = b
merged_or a (conflict k) = a

abbrev pick :
    Secret
    → Option (Option Text)
    → Option (Option Text)
    → Option (Option Text)
    → Option (Option Text)
    → Option (Option Text)
pick user_current u p c q = u
pick user_previous u p c q = p
pick admin_current u p c q = c
pick admin_previous u p c q = q

with_secrets-eq_merged :
    (k : Secret) (u p c q : Option (Option Text)) (a f b : Raw)
    → with_secrets u p c q a f ≡ merged b
    → pick k u p c q ≡ some (secret_of k b)
unfolding with_secrets
with_secrets-eq_merged k none p c q a f b e = cc (e)
with_secrets-eq_merged k (some u) none c q a f b e = cc (e)
with_secrets-eq_merged k (some u) (some p) none q a f b e = cc (e)
with_secrets-eq_merged k (some u) (some p) (some c) none a f b e = cc (e)
with_secrets-eq_merged user_current (some u) (some p) (some c) (some q) a f b e =
    ap (λ m. some (merged_or a m).user_token_hash) e
with_secrets-eq_merged user_previous (some u) (some p) (some c) (some q) a f b e =
    ap (λ m. some (merged_or a m).user_previous_token_hash) e
with_secrets-eq_merged admin_current (some u) (some p) (some c) (some q) a f b e =
    ap (λ m. some (merged_or a m).admin_token_hash) e
with_secrets-eq_merged admin_previous (some u) (some p) (some c) (some q) a f b e =
    ap (λ m. some (merged_or a m).admin_previous_token_hash) e

merge-merge_secret :
    (k : Secret) (a f b : Raw)
    → merge a f ≡ merged b
    → merge_secret (secret_of k a) (secret_of k f) ≡ some (secret_of k b)
unfolding merge
merge-merge_secret user_current a f b e = with_secrets-eq_merged user_current _ _ _ _ a f b e
merge-merge_secret user_previous a f b e = with_secrets-eq_merged user_previous _ _ _ _ a f b e
merge-merge_secret admin_current a f b e = with_secrets-eq_merged admin_current _ _ _ _ a f b e
merge-merge_secret admin_previous a f b e = with_secrets-eq_merged admin_previous _ _ _ _ a f b e

fold_merged-eq_folded :
    (m : Merged) (next : Raw → Folded) (b : Raw)
    → fold_merged m next ≡ folded b
    → (c : Raw) × (m ≡ merged c) × (next c ≡ folded b)
unfolding fold_merged
fold_merged-eq_folded (merged c) next b e = (c, refl, e)
fold_merged-eq_folded (conflict k) next b e = cc (e)

abbrev folded_or : Raw → Folded → Raw
folded_or a (folded b) = b
folded_or a (stopped e) = a

abbrev section_or : Raw → FileDoc → Raw
section_or a (section f) = f
section_or a no_read = a
section_or a bad_yaml = a
section_or a no_section = a

-- A digest that the accumulator holds stays through the other files.
merge_files-kept :
    (k : Secret) (s : Text) (a b : Raw) (docs : List FileDoc)
    → is_empty s ≡ false
    → secret_of k a ≡ some s
    → merge_files a docs ≡ folded b
    → secret_of k b ≡ some s
unfolding merge_files
merge_files-kept k s a b [] n e h = sym (ap (λ r. secret_of k (folded_or a r)) h) ∙ e
merge_files-kept k s a b (no_read ∷ docs) n e h = cc (h)
merge_files-kept k s a b (bad_yaml ∷ docs) n e h = cc (h)
merge_files-kept k s a b (no_section ∷ docs) n e h = merge_files-kept k s a b docs n e h
merge_files-kept k s a b (section f ∷ docs) n e h =
    let (c, m, h') = fold_merged-eq_folded (merge a f) _ b h in
    let kept =
      subst (λ o. merge_secret o (secret_of k f) ≡ some (secret_of k c)) e
        (merge-merge_secret k a f c m) in
    merge_files-kept k s c b docs n (merge_secret-kept s (secret_of k f) (secret_of k c) n kept) h'

-- When the files merge, whatever a file sets a digest to is the merged value of that digest: no other
-- file sets it to another.
pub merge_files-agrees :
    (k : Secret) (s : Text) (a b f : Raw) (docs : List FileDoc)
    → merge_files a docs ≡ folded b
    → Memᴰ (section f) docs
    → secret_of k f ≡ some s
    → is_empty s ≡ false
    → secret_of k b ≡ some s
unfolding merge_files
merge_files-agrees k s a b f [] h m e n = elim m [ ]
merge_files-agrees k s a b f (no_read ∷ docs) h m e n = cc (h)
merge_files-agrees k s a b f (bad_yaml ∷ docs) h m e n = cc (h)
merge_files-agrees k s a b f (no_section ∷ docs) h (Memᴰ.head p) e n = cc (p)
merge_files-agrees k s a b f (no_section ∷ docs) h (Memᴰ.tail m) e n =
    merge_files-agrees k s a b f docs h m e n
merge_files-agrees k s a b f (section g ∷ docs) h (Memᴰ.head p) e n =
    let (c, mc, h') = fold_merged-eq_folded (merge a g) _ b h in
    let g_sets = sym (ap (λ d. secret_of k (section_or f d)) p) ∙ e in
    let set =
      subst (λ o. merge_secret (secret_of k a) o ≡ some (secret_of k c)) g_sets
        (merge-merge_secret k a g c mc) in
    merge_files-kept k s c b docs n (merge_secret-recorded s (secret_of k a) (secret_of k c) n set)
      h'
merge_files-agrees k s a b f (section g ∷ docs) h (Memᴰ.tail m) e n =
    let (c, mc, h') = fold_merged-eq_folded (merge a g) _ b h in
    merge_files-agrees k s c b f docs h' m e n
