-- ===== src/Base/Regex.antt =====
-- Go's `regexp` for the anchored patterns of the program: a regular expression as data, matched
-- against the whole text by derivatives.
use Prim.Native.Nat.{ℕ, zero, suc}
use mathlib.Core.Path.{◌≡◌, refl}
use mathlib.Core.Logic.{◌⊎◌, inl, inr}
use mathlib.Core.Bool.{Bool, true, false, ◌&&◌, ◌||◌}
use mathlib.Core.List.{[], ◌∷◌}
use hadron_desktop.Base.Tests.{leb, ◌==◌, if◌then◌else◌, Bool-cases}
use hadron_desktop.Base.Lists.{All}
use hadron_desktop.Base.Text.{Text}

pub data Regex : Type 0 where
  never : Regex
  eps : Regex
  cls : (ℕ → Bool) → Regex
  seq : Regex → Regex → Regex
  alt : Regex → Regex → Regex
  star : Regex → Regex

-- `r?`, `r+`, `r{n}`, `r{0,n}`, a literal, `[lo-hi]` and one character.
abbrev pub opt : Regex → Regex
opt r = alt eps r

abbrev pub plus : Regex → Regex
plus r = seq r (star r)

abbrev pub times : ℕ → Regex → Regex
times zero r = eps
times (suc n) r = seq r (times n r)

abbrev pub up_to : ℕ → Regex → Regex
up_to zero r = eps
up_to (suc n) r = alt eps (seq r (up_to n r))

abbrev pub chr : ℕ → Regex
chr c = cls (λ d. d == c)

abbrev pub literal : Text → Regex
literal [] = eps
literal (c ∷ s) = seq (chr c) (literal s)

abbrev pub range : ℕ → ℕ → ℕ → Bool
range lo hi c = leb lo c && leb c hi

is_never : Regex → Bool
is_never never = true
is_never r = false

is_eps : Regex → Bool
is_eps eps = true
is_eps r = false

-- Sequence and choice that drop what cannot match.
mk_seq : Regex → Regex → Regex
unfolding is_never is_eps
mk_seq r s = if is_never r then never else if is_eps r then s else seq r s

mk_alt : Regex → Regex → Regex
unfolding is_never
mk_alt r s = if is_never r then s else if is_never s then r else alt r s

nullable : Regex → Bool
nullable never = false
nullable eps = true
nullable (cls p) = false
nullable (seq r s) = nullable r && nullable s
nullable (alt r s) = nullable r || nullable s
nullable (star r) = true

derive : ℕ → Regex → Regex
derive c never = never
derive c eps = never
derive c (cls p) = if p c then eps else never
derive c (seq r s) =
    let through = derive c s in
    mk_alt (mk_seq (derive c r) s) (if nullable r then through else never)
derive c (alt r s) = mk_alt (derive c r) (derive c s)
derive c (star r) = mk_seq (derive c r) (star r)

unfoldable pub full_match : Regex → Text → Bool
unfolding mk_seq mk_alt nullable derive
full_match r [] = nullable r
full_match r (c ∷ s) = full_match (derive c r) s

-- Every class of the expression lies within a predicate.
abbrev pub Over : (ℕ → Type 0) → Regex → Type 0
Over P never = Unit
Over P eps = Unit
Over P (cls p) = (c : ℕ) → p c ≡ true → P c
Over P (seq r s) = Over P r × Over P s
Over P (alt r s) = Over P r × Over P s
Over P (star r) = Over P r

-- The expression `never` matches nothing, also not later.
pub full_match-never : (s : Text) → full_match never s ≡ false
unfolding full_match
full_match-never [] = refl
full_match-never (c ∷ s) = full_match-never s

mk_seq-Over : (P : ℕ → Type 0) (r s : Regex) → Over P r → Over P s → Over P (mk_seq r s)
unfolding mk_seq
mk_seq-Over P never s o q = tt
mk_seq-Over P eps s o q = q
mk_seq-Over P (cls p) s o q = (o, q)
mk_seq-Over P (seq a b) s o q = (o, q)
mk_seq-Over P (alt a b) s o q = (o, q)
mk_seq-Over P (star a) s o q = (o, q)

mk_alt-Over : (P : ℕ → Type 0) (r s : Regex) → Over P r → Over P s → Over P (mk_alt r s)
unfolding mk_alt
mk_alt-Over P r s o q = elim (Bool-cases (is_never r)) [
  | inl e ↦ rw e q
  | inr e ↦ elim (Bool-cases (is_never s)) [ inl f ↦ rw (e, f) o | inr f ↦ rw (e, f) (o, q) ]
]

derive-Over : (P : ℕ → Type 0) (c : ℕ) (r : Regex) → Over P r → Over P (derive c r)
unfolding derive
derive-Over P c never o = tt
derive-Over P c eps o = tt
derive-Over P c (cls p) o = elim (Bool-cases (p c)) [ inl e ↦ rw e tt | inr e ↦ rw e tt ]
derive-Over P c (seq r s) (o, q) =
    mk_alt-Over P (mk_seq (derive c r) s) _ (mk_seq-Over P (derive c r) s (derive-Over P c r o) q)
      (elim (Bool-cases (nullable r)) [ inl e ↦ rw e (derive-Over P c s q) | inr e ↦ rw e tt ])
derive-Over P c (alt r s) (o, q) =
    mk_alt-Over P (derive c r) (derive c s) (derive-Over P c r o) (derive-Over P c s q)
derive-Over P c (star r) o = mk_seq-Over P (derive c r) (star r) (derive-Over P c r o) o

-- A derivative that is alive shows that the character lies in some class.
derive-cases : (P : ℕ → Type 0) (c : ℕ) (r : Regex) → Over P r → (derive c r ≡ never) ⊎ P c
unfolding derive
derive-cases P c never o = inl refl
derive-cases P c eps o = inl refl
derive-cases P c (cls p) o = elim (Bool-cases (p c)) [ inl e ↦ inr (o c e) | inr e ↦ inl (rw e) ]
derive-cases P c (seq r s) (o, q) = elim (derive-cases P c r o) [
  | inr h ↦ inr h
  | inl e ↦ elim (derive-cases P c s q) [
    | inr h ↦ inr h
    | inl f ↦ inl (
        rw (e, f)
          (elim (Bool-cases (nullable r)) [
            | inl n ↦ rw n (unfold mk_alt mk_seq in refl)
            | inr n ↦ rw n (unfold mk_alt mk_seq in refl)
          ]))
  ]
]
derive-cases P c (alt r s) (o, q) = elim (derive-cases P c r o) [
  | inr h ↦ inr h
  | inl e ↦ elim (derive-cases P c s q) [
    | inr h ↦ inr h
    | inl f ↦ inl (rw (e, f) (unfold mk_alt in refl))
  ]
]
derive-cases P c (star r) o = elim (derive-cases P c r o) [
  | inr h ↦ inr h
  | inl e ↦ inl (rw e (unfold mk_seq in refl))
]

-- A text that matches is made of characters of the expression's classes.
pub full_match-All :
    (P : ℕ → Type 0) (r : Regex) (s : Text) → Over P r → full_match r s ≡ true → All P s
unfolding full_match
full_match-All P r [] o h = tt
full_match-All P r (c ∷ s) o h = elim (derive-cases P c r o) [
  | inl e ↦ cc (full_match-never s)
  | inr k ↦ (k, full_match-All P (derive c r) s (derive-Over P c r o) h)
]

pub up_to-Over : (P : ℕ → Type 0) (n : ℕ) (r : Regex) → Over P r → Over P (up_to n r)
up_to-Over P zero r o = tt
up_to-Over P (suc n) r o = (tt, (o, up_to-Over P n r o))
