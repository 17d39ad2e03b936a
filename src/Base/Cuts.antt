-- ===== src/Base/Cuts.antt =====
-- Cutting a text at a character, and putting the pieces together again.
use hadron_desktop.Base.Tests.{◌==◌, if◌then◌else◌, Bool-cases, ==_iff, ==_self}
use hadron_desktop.Base.Lists.{All}
use hadron_desktop.Base.Text.{Text, cut, cut_last, cut_prefix, contains, has_prefix, is_some}
use Prim.Native.Nat.{ℕ}
use mathlib.Core.Path.{◌≡◌, refl, ap, subst}
use mathlib.Core.Logic.{◌↔◌, inl, inr}
use mathlib.Core.Bool.{false, true}
use mathlib.Core.Option.{Option, none, some}
use mathlib.Core.List.{[], ◌∷◌, ◌++◌}
use native.Mathlib.Omega.{arith}

-- The text is free of a character.
abbrev pub Lacks : ℕ → Text → Type 0
Lacks d = All (λ c. (c == d) ≡ false)

pub cut_free : (s : Text) (d : ℕ) → Lacks d s → cut s d ≡ none
unfolding cut
cut_free [] d h = refl
cut_free (c ∷ s) d (e, h) = rw (e, cut) (rw (cut_free s d h))

pub cut-append : (a b : Text) (d : ℕ) → Lacks d a → cut (a ++ (d ∷ b)) d ≡ some (a, b)
unfolding cut
cut-append [] b d h = rw (==_self d, cut)
cut-append (c ∷ a) b d (e, h) = rw (e, cut) (rw (cut-append a b d h))

pub cut_last_free : (s : Text) (d : ℕ) → Lacks d s → cut_last s d ≡ none
unfolding cut_last
cut_last_free [] d h = refl
cut_last_free (c ∷ s) d (e, h) = rw (cut_last_free s d h) (rw e)

pub cut_last-append : (a b : Text) (d : ℕ) → Lacks d b → cut_last (a ++ (d ∷ b)) d ≡ some (a, b)
unfolding cut_last
cut_last-append [] b d h = rw (cut_last_free b d h) (rw (==_self d))
cut_last-append (c ∷ a) b d h = rw (cut_last-append a b d h)

pub contains_free : (s : Text) (d : ℕ) → Lacks d s → contains s d ≡ false
unfolding contains
contains_free [] d h = refl
contains_free (c ∷ s) d (e, h) = rw e (contains_free s d h)

pub Lacks-append : (a b : Text) (d : ℕ) → Lacks d a → Lacks d b → Lacks d (a ++ b)
Lacks-append [] b d h k = k
Lacks-append (c ∷ a) b d (e, h) k = (e, Lacks-append a b d h k)

-- What a cut returns are the two sides of an occurrence.
abbrev pub Joins : Text → ℕ → Option (Text × Text) → Type 0
Joins s d none = Unit
Joins s d (some (a, b)) = s ≡ a ++ (d ∷ b)

pub cut-Joins : (s : Text) (d : ℕ) → Joins s d (cut s d)
unfolding cut
cut-Joins [] d = tt
cut-Joins (c ∷ s) d = elim (Bool-cases (c == d)) [
  | inl e ↦ rw (e, cut) (rw ((==_iff c d).0 e))
  | inr e ↦ rw (e, cut) (shown (cut s d) (cut-Joins s d))
]
  where
    shown :
        (o : Option (Text × Text))
        → Joins s d o
        → Joins (c ∷ s) d (elim o [ none ↦ none | some (before, after) ↦ some (c ∷ before, after) ])
    shown none j = tt
    shown (some (a, b)) j = ap (λ (l : Text). c ∷ l) j

pub cut-eq_some : (s : Text) (d : ℕ) (a b : Text) → cut s d ≡ some (a, b) → s ≡ a ++ (d ∷ b)
cut-eq_some s d a b h = subst (Joins s d) h (cut-Joins s d)

pub cut_last-Joins : (s : Text) (d : ℕ) → Joins s d (cut_last s d)
unfolding cut_last
cut_last-Joins [] d = tt
cut_last-Joins (c ∷ s) d = shown (cut_last s d) (cut_last-Joins s d)
  where
    shown :
        (o : Option (Text × Text))
        → Joins s d o
        → Joins (c ∷ s) d (elim o [
          | some (before, after) ↦ some (c ∷ before, after)
          | none ↦ if c == d then some ([], s) else none
        ])
    shown (some (a, b)) j = ap (λ (l : Text). c ∷ l) j
    shown none j = elim (Bool-cases (c == d)) [
      | inl e ↦ rw e (rw ((==_iff c d).0 e))
      | inr e ↦ rw e tt
    ]

pub cut_last-eq_some :
    (s : Text) (d : ℕ) (a b : Text) → cut_last s d ≡ some (a, b) → s ≡ a ++ (d ∷ b)
cut_last-eq_some s d a b h = subst (Joins s d) h (cut_last-Joins s d)

pub cut_prefix-eq_some : (s p rest : Text) → cut_prefix s p ≡ some rest → s ≡ p ++ rest
unfolding cut_prefix
cut_prefix-eq_some s [] rest h = ground arith
cut_prefix-eq_some [] (d ∷ p) rest h = cc
cut_prefix-eq_some (c ∷ s) (d ∷ p) rest h = ground (arith, cut_prefix-eq_some s p rest)

pub cut_prefix-append : (p rest : Text) → cut_prefix (p ++ rest) p ≡ some rest
unfolding cut_prefix
cut_prefix-append [] rest = refl
cut_prefix-append (d ∷ p) rest = ground (arith, cut_prefix-append p rest)

pub has_prefix_iff : (s p : Text) → (has_prefix s p ≡ true) ↔ ((rest : Text) × (s ≡ p ++ rest))
unfolding has_prefix
has_prefix_iff s p =
    (λ h. starts (cut_prefix s p) refl h, λ (rest, e). rw e (rw (cut_prefix-append p rest) refl))
  where
    starts :
        (o : Option Text) → cut_prefix s p ≡ o → is_some o ≡ true → (rest : Text) × (s ≡ p ++ rest)
    starts none e h = absurd (cc (h))
    starts (some rest) e h = (rest, cut_prefix-eq_some s p rest e)

-- What a cut at the first occurrence of a character returns: nothing for a text without it, and else
-- the part in front of the first one and the part behind it.
abbrev pub IsCut : ℕ → Text → Option (Text × Text) → Type 0
IsCut d s none = Lacks d s
IsCut d s (some (a, b)) = Lacks d a × (s ≡ a ++ (d ∷ b))

pub cut-IsCut : (s : Text) (d : ℕ) → IsCut d s (cut s d)
unfolding cut
cut-IsCut [] d = tt
cut-IsCut (c ∷ s) d = elim (Bool-cases (c == d)) [
  | inl e ↦ rw (e, cut) (tt, ap (λ x. x ∷ s) ((==_iff c d).0 e))
  | inr e ↦ rw (e, cut) (shown (cut s d) (cut-IsCut s d) e)
]
  where
    shown :
        (o : Option (Text × Text))
        → IsCut d s o
        → (c == d) ≡ false
        → IsCut d (c ∷ s) (elim o [ none ↦ none | some p ↦ some (c ∷ p.0, p.1) ])
    shown none l e = (e, l)
    shown (some (a, b)) (l, j) e = ((e, l), ap (λ x. c ∷ x) j)
