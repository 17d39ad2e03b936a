-- ===== src/Update/Github/Sorted.antt =====
-- The order and the entries of the release list.
use mathlib.Core.Path.{subst}
use mathlib.Core.List.{Permᴰ}
use hadron_desktop.Base.{
  ◌≡◌, ◌≢◌, ◌⊎◌, ◌||◌, inl, inr, refl, sym, ◌∙◌, true, false, List, [], ◌∷◌, All, if_cases,
  Bool-cases, arith,
}
use hadron_desktop.Base.Text.{Text, is_empty, is_empty_iff}
use hadron_desktop.Update.Semver.{newer, parse_semver}
use hadron_desktop.Update.Semver.Order.{newer_strict_order, newer_total}
use hadron_desktop.Update.Policy.{Latest}
use hadron_desktop.Update.Daemon.Check.{fetched}
use hadron_desktop.Update.Github.{Raw, answer, keep_published, insert, sort, fetch_releases}

-- No later entry is newer than an earlier one.
pub IsSorted : List Latest → Type 0
IsSorted [] = Unit
IsSorted (x ∷ xs) = All (λ (y : Latest). newer y.tag x.tag ≡ false) xs × IsSorted xs

insert-All :
    (P : Latest → Type 0) (x : Latest) (ys : List Latest) → P x → All P ys → All P (insert x ys)
unfolding insert
insert-All P x [] p a = (p, tt)
insert-All P x (y ∷ ys) p (q, a) =
    if_cases (All P) (newer y.tag x.tag) _ _ (λ e. (q, insert-All P x ys p a)) (λ e. (p, (q, a)))

newer_asym : (a b : Text) → newer a b ≡ true → newer b a ≡ false
newer_asym a b h = elim (Bool-cases (newer b a)) [
  | inl k ↦ absurd (ground (arith, newer_strict_order a b a h k))
  | inr k ↦ k
]

newer_same : (c a b : Text) → parse_semver a ≡ parse_semver b → newer c b ≡ newer c a
unfolding newer
newer_same c a b e = cc

not_newer_trans : (a b c : Text) → newer b a ≡ false → newer c b ≡ false → newer c a ≡ false
not_newer_trans a b c h k = elim (Bool-cases (newer c a)) [
  | inr e ↦ e
  | inl e ↦ elim (Bool-cases (newer a b)) [
    | inl f ↦ absurd (ground (arith, k, newer_strict_order c a b e f))
    | inr f ↦ sym (newer_same c a b ((newer_total a b).0 (f, h))) ∙ k
  ]
]

All-older :
    (x y : Latest) (ys : List Latest)
    → newer y.tag x.tag ≡ false
    → All (λ (z : Latest). newer z.tag y.tag ≡ false) ys
    → All (λ (z : Latest). newer z.tag x.tag ≡ false) ys
All-older x y [] h a = tt
All-older x y (z ∷ zs) h (e, a) = (not_newer_trans x.tag y.tag z.tag h e, All-older x y zs h a)

insert-IsSorted : (x : Latest) (ys : List Latest) → IsSorted ys → IsSorted (insert x ys)
unfolding insert IsSorted
insert-IsSorted x [] s = (tt, tt)
insert-IsSorted x (y ∷ ys) (a, s) =
    if_cases IsSorted (newer y.tag x.tag) _ _
      (λ e. (
        insert-All (λ z. newer z.tag y.tag ≡ false) x ys (newer_asym y.tag x.tag e) a,
        insert-IsSorted x ys s,
      ))
      (λ e. ((e, All-older x y ys e a), (a, s)))

Permᴰ-refl : (xs : List Latest) → Permᴰ xs xs
Permᴰ-refl [] = Permᴰ.nil
Permᴰ-refl (x ∷ xs) = Permᴰ.cons refl (Permᴰ-refl xs)

insert-Permᴰ : (x : Latest) (ys : List Latest) → Permᴰ (insert x ys) (x ∷ ys)
unfolding insert
insert-Permᴰ x [] = Permᴰ.cons refl Permᴰ.nil
insert-Permᴰ x (y ∷ ys) =
    if_cases (λ l. Permᴰ l (x ∷ y ∷ ys)) (newer y.tag x.tag) _ _
      (λ e. Permᴰ.trans (Permᴰ.cons refl (insert-Permᴰ x ys)) (Permᴰ.swap refl refl))
      (λ e. Permᴰ-refl (x ∷ y ∷ ys))

sort-IsSorted : (xs : List Latest) → IsSorted (sort xs) × Permᴰ (sort xs) xs
unfolding sort IsSorted
sort-IsSorted [] = (tt, Permᴰ.nil)
sort-IsSorted (x ∷ xs) =
    let (s, p) = sort-IsSorted xs in
    (insert-IsSorted x (sort xs) s, Permᴰ.trans (insert-Permᴰ x (sort xs)) (Permᴰ.cons refl p))

-- The releases of an answer without the drafts, the prereleases and those without a tag.
pub data Published : List Raw → List Latest → Type 0 where
  no_entry : Published [] []
  dropped :
      {r : Raw} {raw : List Raw} {ls : List Latest}
      → (r.draft ≡ true) ⊎ (r.prerelease ≡ true) ⊎ (r.latest.tag ≡ [])
      → Published raw ls
      → Published (r ∷ raw) ls
  kept :
      {r : Raw} {raw : List Raw} {ls : List Latest}
      → r.draft ≡ false
      → r.prerelease ≡ false
      → r.latest.tag ≢ []
      → Published raw ls
      → Published (r ∷ raw) (r.latest ∷ ls)

keep_published-Published : (raw : List Raw) → Published raw (keep_published raw)
unfolding keep_published
keep_published-Published [] = no_entry
keep_published-Published (r ∷ raw) =
    if_cases (Published (r ∷ raw)) (r.draft || (r.prerelease || is_empty r.latest.tag)) _ _
      (λ e. dropped (ground (arith, is_empty_iff r.latest.tag)) (keep_published-Published raw))
      (λ e.
        kept (ground arith) (ground arith) (λ n. ground (arith, is_empty_iff r.latest.tag))
          (keep_published-Published raw))

-- The release list of an answer holds the releases in it that have a tag and are neither drafts nor
-- prereleases, each as often as the answer does, and no later entry is newer than an earlier one.
pub fetch_releases-IsSorted :
    (raw : List Raw) (ls : List Latest)
    → fetch_releases (answer raw) ≡ fetched ls
    → IsSorted ls × ((released : List Latest) × Published raw released × Permᴰ ls released)
unfolding fetch_releases
fetch_releases-IsSorted raw ls h =
    let (sorted, same) = sort-IsSorted (keep_published raw) in
    (
      subst IsSorted (fetched_same h) sorted,
      (
        keep_published raw,
        keep_published-Published raw,
        subst (λ l. Permᴰ l (keep_published raw)) (fetched_same h) same,
      ),
    )
  where
    fetched_same : {a b : List Latest} → fetched a ≡ fetched b → a ≡ b
    fetched_same e = cc
