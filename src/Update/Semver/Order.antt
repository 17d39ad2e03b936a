-- ===== src/Update/Semver/Order.antt =====
-- The order of release tags.
use mathlib.Core.Option.{some-injective}
use hadron_desktop.Base.{◌≡◌, ◌↔◌, ap, refl, true, false, Option, none, some, [], ◌∷◌, arith}
use hadron_desktop.Base.Text.{Text, text_lt, text_eq_iff, text_eq_self, is_empty_iff}
use hadron_desktop.Update.Semver.{
  Semver, parse_semver, newer_pre, newer_semver, newer_parsed, newer,
}

text_lt_irrefl : (s : Text) → text_lt s s ≡ false
unfolding text_lt
text_lt_irrefl [] = refl
text_lt_irrefl (c ∷ s) = ground (arith, text_lt_irrefl s)

text_lt_trans : (s t u : Text) → text_lt s t ≡ true → text_lt t u ≡ true → text_lt s u ≡ true
unfolding text_lt
text_lt_trans [] [] u h k = cc
text_lt_trans [] (d ∷ t) [] h k = cc
text_lt_trans [] (d ∷ t) (e ∷ u) h k = refl
text_lt_trans (c ∷ s) [] u h k = cc
text_lt_trans (c ∷ s) (d ∷ t) [] h k = cc
text_lt_trans (c ∷ s) (d ∷ t) (e ∷ u) h k = ground (arith, text_lt_trans s t u)

text_lt_total : (s t : Text) → text_lt s t ≡ false → text_lt t s ≡ false → s ≡ t
unfolding text_lt
text_lt_total [] [] h k = refl
text_lt_total [] (d ∷ t) h k = cc
text_lt_total (c ∷ s) [] h k = cc
text_lt_total (c ∷ s) (d ∷ t) h k = ground (arith, text_lt_total s t)

newer_pre_irrefl : (a : Text) → newer_pre a a ≡ false
unfolding newer_pre
newer_pre_irrefl a = ground (arith, text_eq_self a)

newer_pre_trans :
    (a b c : Text) → newer_pre a b ≡ true → newer_pre b c ≡ true → newer_pre a c ≡ true
unfolding newer_pre
newer_pre_trans a b c h k = ground (
  arith,
  text_eq_iff a b,
  text_eq_iff b c,
  text_eq_iff a c,
  is_empty_iff a,
  is_empty_iff b,
  is_empty_iff c,
  text_lt_trans c b a,
  text_lt_irrefl a,
  text_lt_irrefl c,
)

newer_pre_total : (a b : Text) → newer_pre a b ≡ false → newer_pre b a ≡ false → a ≡ b
unfolding newer_pre
newer_pre_total a b h k =
    ground
      (arith, text_eq_iff a b, text_eq_iff b a, is_empty_iff a, is_empty_iff b, text_lt_total a b)

newer_semver_irrefl : (a : Semver) → newer_semver a a ≡ false
unfolding newer_semver
newer_semver_irrefl a = ground (arith, newer_pre_irrefl a.pre)

newer_semver_trans :
    (a b c : Semver) → newer_semver a b ≡ true → newer_semver b c ≡ true → newer_semver a c ≡ true
unfolding newer_semver
newer_semver_trans a b c h k = ground (arith, newer_pre_trans a.pre b.pre c.pre)

newer_semver_total : (a b : Semver) → newer_semver a b ≡ false → newer_semver b a ≡ false → a ≡ b
unfolding newer_semver
newer_semver_total a b h k = ground (arith, newer_pre_total a.pre b.pre)

-- "Newer" is transitive, also through versions that do not parse, and no version is newer than
-- itself.
pub newer_strict_order :
    (a b c : Text) → newer a b ≡ true → newer b c ≡ true → (newer a c ≡ true) × (newer a a ≡ false)
unfolding newer_parsed newer
newer_strict_order a b c h k = (
  parsed_trans (parse_semver a) (parse_semver b) (parse_semver c) h k,
  parsed_irrefl (parse_semver a),
)
  where
    parsed_irrefl : (o : Option Semver) → newer_parsed o o ≡ false
    parsed_irrefl none = refl
    parsed_irrefl (some v) = newer_semver_irrefl v

    parsed_trans :
        (o p q : Option Semver)
        → newer_parsed o p ≡ true
        → newer_parsed p q ≡ true
        → newer_parsed o q ≡ true
    parsed_trans none p q h k = cc
    parsed_trans (some u) none q h k = cc
    parsed_trans (some u) (some v) none h k = refl
    parsed_trans (some u) (some v) (some w) h k = newer_semver_trans u v w h k

-- Of two versions that do not parse alike exactly one is newer, and two that parse alike are not
-- newer than one another.
pub newer_total :
    (a b : Text) → ((newer a b ≡ false) × (newer b a ≡ false)) ↔ (parse_semver a ≡ parse_semver b)
unfolding newer
newer_total a b = both (parse_semver a) (parse_semver b)
  where
    both :
        (o p : Option Semver) → ((newer_parsed o p ≡ false) × (newer_parsed p o ≡ false)) ↔ (o ≡ p)
    both none none = ground arith
    both none (some v) = ground arith
    both (some u) none = ground arith
    both (some u) (some v) = (
      λ h. ap some (newer_semver_total u v h.0 h.1),
      λ e. (
        rw (some-injective u v e) (newer_semver_irrefl v),
        rw (some-injective u v e) (newer_semver_irrefl v),
      ),
    )
