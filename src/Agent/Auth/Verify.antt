-- ===== src/Agent/Auth/Verify.antt =====
-- Which bearers a verifier accepts, and until when.
use mathlib.Core.Path.{subst}
use mathlib.Core.List.{Memᴰ}
use hadron_desktop.Base.{
  ℕ, ◌+◌, ◌≤◌, ◌<◌, ◌≡◌, ◌≢◌, ◌↔◌, ◌⊎◌, inl, inr, refl, ap, sym, ◌∙◌, true, Option, none, some,
  List, [], ◌∷◌, ◌++◌, take, Bool-cases, arith,
}
use hadron_desktop.Base.Text.{
  Text, text, text_eq_iff, is_empty_iff, has_prefix, trim_prefix, cut_prefix,
}
use hadron_desktop.Base.Cuts.{cut_prefix-eq_some, cut_prefix-append}
use hadron_desktop.Agent.Auth.{
  Class, user, admin, unknown, class_eq, prefix_by_class, scope_for_class, hex64, digest_bearer,
  is_well_formed_payload, Parsed, of_class, malformed, parse_payload, parse_prefix,
  parse_bearer_class, RotationConfig, ConfigError, max_rotation_overlap, validate_rotation,
  Verifier, built, build_from, new_verifier_at, config_for, TokenInfo, ok, matches, verify_parsed,
  verify,
}
use hadron_desktop.Agent.Auth.Payload.{IsPayload, is_well_formed_payload_iff}

-- An order in which the range over the two prefixes may visit them.
pub record IsOrder (order : List Class) : Type 0 where
  pub has_user : Memᴰ user order
  pub has_admin : Memᴰ admin order
  pub known : (s : Text) → ¬ Memᴰ (unknown s) order

-- A bearer of a class: its prefix and a payload.
pub record IsBearer (c : Class) (raw : Text) : Type 0 where
  pub prefix : Text
  pub prefix_eq : prefix_by_class c ≡ some prefix
  pub payload : Text
  pub raw_eq : raw ≡ prefix ++ payload
  pub payload_ok : IsPayload payload

-- The two prefixes differ at their fifth byte.
prefix_of_both :
    (c d : Class) (p q s t : Text)
    → prefix_by_class c ≡ some p
    → prefix_by_class d ≡ some q
    → p ++ s ≡ q ++ t
    → (c ≡ d) × (s ≡ t)
unfolding prefix_by_class text
prefix_of_both user user p q s t e f h = ground arith
prefix_of_both user admin p q s t e f h = ground arith
prefix_of_both admin user p q s t e f h = ground arith
prefix_of_both admin admin p q s t e f h = ground arith
prefix_of_both (unknown a) d p q s t e f h = absurd (cc e)
prefix_of_both user (unknown a) p q s t e f h = absurd (cc f)
prefix_of_both admin (unknown a) p q s t e f h = absurd (cc f)

-- A text is a bearer of one class at most.
pub bearer_class : (c d : Class) (raw : Text) → IsBearer c raw → IsBearer d raw → c ≡ d
bearer_class c d raw w v =
    (prefix_of_both c d w.prefix v.prefix w.payload v.payload w.prefix_eq v.prefix_eq
      (sym w.raw_eq ∙ v.raw_eq)).0

-- What a prefix contributes, by the cut of the bearer.
from_cut : Class → Option Text → Parsed → Parsed
unfolding parse_payload
from_cut c none next = next
from_cut c (some payload) next = parse_payload c payload

parse_prefix-cut :
    (c : Class) (p raw : Text) (next : Parsed)
    → parse_prefix c (some p) raw next ≡ from_cut c (cut_prefix raw p) next
unfolding parse_prefix has_prefix trim_prefix from_cut
parse_prefix-cut c p raw next = ground arith

parse_payload-eq_of_class :
    (d c : Class) (payload : Text)
    → parse_payload d payload ≡ of_class c
    → (d ≡ c) × IsPayload payload
unfolding parse_payload
parse_payload-eq_of_class d c payload h = elim (Bool-cases (is_well_formed_payload payload)) [
  | inl e ↦ (cc (rw e at h), (is_well_formed_payload_iff payload).0 e)
  | inr e ↦ absurd (cc (rw e at h))
]

parse_payload_ok :
    (d : Class) (payload : Text) → IsPayload payload → parse_payload d payload ≡ of_class d
unfolding parse_payload
parse_payload_ok d payload w = rw ((is_well_formed_payload_iff payload).1 w)

from_cut_sound :
    (d c : Class) (p raw : Text) (next : Parsed) (o : Option Text)
    → prefix_by_class d ≡ some p
    → cut_prefix raw p ≡ o
    → from_cut d o next ≡ of_class c
    → (next ≡ of_class c → IsBearer c raw)
    → IsBearer c raw
unfolding from_cut
from_cut_sound d c p raw next none e k h later = later h
from_cut_sound d c p raw next (some rest) e k h later =
    let (same, fine) = parse_payload-eq_of_class d c rest h in
    record {
      prefix = p;
      prefix_eq = ap prefix_by_class (sym same) ∙ e;
      payload = rest;
      raw_eq = cut_prefix-eq_some raw p rest k;
      payload_ok = fine;
    }

parse_prefix_sound :
    (d : Class) (o : Option Text) (raw : Text) (next : Parsed) (c : Class)
    → prefix_by_class d ≡ o
    → parse_prefix d o raw next ≡ of_class c
    → (next ≡ of_class c → IsBearer c raw)
    → IsBearer c raw
unfolding parse_prefix
parse_prefix_sound d none raw next c e h later = later h
parse_prefix_sound d (some p) raw next c e h later =
    from_cut_sound d c p raw next (cut_prefix raw p) e refl
      (sym (parse_prefix-cut d p raw next) ∙ h) later

parse_bearer_class_sound :
    (order : List Class) (raw : Text) (c : Class)
    → parse_bearer_class order raw ≡ of_class c
    → IsBearer c raw
unfolding parse_bearer_class
parse_bearer_class_sound [] raw c h = absurd (cc h)
parse_bearer_class_sound (d ∷ order) raw c h =
    parse_prefix_sound d (prefix_by_class d) raw (parse_bearer_class order raw) c refl h
      (parse_bearer_class_sound order raw c)

from_cut_complete :
    (d c : Class) (p raw : Text) (next : Parsed) (o : Option Text)
    → prefix_by_class d ≡ some p
    → cut_prefix raw p ≡ o
    → IsBearer c raw
    → (c ≢ d → next ≡ of_class c)
    → from_cut d o next ≡ of_class c
unfolding from_cut
from_cut_complete d c p raw next none e k w later = later (λ same. absurd (
    cc
      (k, w.raw_eq, cut_prefix-append w.prefix w.payload, e, w.prefix_eq, ap prefix_by_class same)))
from_cut_complete d c p raw next (some rest) e k w later =
    let (same, equal) =
      prefix_of_both c d w.prefix p w.payload rest w.prefix_eq e
        (sym w.raw_eq ∙ cut_prefix-eq_some raw p rest k) in
    parse_payload_ok d rest (subst IsPayload equal w.payload_ok) ∙ ap of_class (sym same)

parse_prefix_complete :
    (d : Class) (o : Option Text) (raw : Text) (next : Parsed) (c : Class)
    → prefix_by_class d ≡ o
    → IsBearer c raw
    → (c ≢ d → next ≡ of_class c)
    → parse_prefix d o raw next ≡ of_class c
unfolding parse_prefix
parse_prefix_complete d none raw next c e w later =
    later (λ same. absurd (cc (ap prefix_by_class same, e, w.prefix_eq)))
parse_prefix_complete d (some p) raw next c e w later =
    parse_prefix-cut d p raw next
    ∙ from_cut_complete d c p raw next (cut_prefix raw p) e refl w later

parse_bearer_class_complete :
    (order : List Class) (raw : Text) (c : Class)
    → Memᴰ c order
    → IsBearer c raw
    → parse_bearer_class order raw ≡ of_class c
unfolding parse_bearer_class
parse_bearer_class_complete [] raw c m w = elim m [ ]
parse_bearer_class_complete (d ∷ order) raw c m w =
    parse_prefix_complete d (prefix_by_class d) raw (parse_bearer_class order raw) c refl w
      (λ n. parse_bearer_class_complete order raw c (in_tail m n) w)
  where
    in_tail : Memᴰ c (d ∷ order) → c ≢ d → Memᴰ c order
    in_tail (Memᴰ.head e) n = absurd (n e)
    in_tail (Memᴰ.tail m) n = m

-- The digest that a bearer must have: the current one, or the previous one until it expires.
abbrev pub IsAccepted : RotationConfig → ℕ → Text → Type 0
IsAccepted cfg now digest =
    (digest ≡ cfg.current)
    ⊎ ((cfg.previous ≢ []) × (digest ≡ cfg.previous) × (now ≤ cfg.previous_valid_until))

matches_iff :
    (cfg : RotationConfig) (now : ℕ) (digest : Text)
    → (matches cfg now digest ≡ true) ↔ IsAccepted cfg now digest
unfolding matches
matches_iff cfg now digest = ground (
  arith,
  text_eq_iff digest cfg.current,
  text_eq_iff digest cfg.previous,
  is_empty_iff cfg.previous,
)

class_eq_iff : (c d : Class) → (class_eq c d ≡ true) ↔ (c ≡ d)
unfolding class_eq
class_eq_iff user user = ground arith
class_eq_iff user admin = ground arith
class_eq_iff user (unknown t) = ground arith
class_eq_iff admin user = ground arith
class_eq_iff admin admin = ground arith
class_eq_iff admin (unknown t) = ground arith
class_eq_iff (unknown s) user = ground arith
class_eq_iff (unknown s) admin = ground arith
class_eq_iff (unknown s) (unknown t) = ground (arith, text_eq_iff s t)

-- What `Verify` answers for an accepted bearer.
abbrev pub token_of : (Text → List ℕ) → Class → Text → TokenInfo
token_of sha256 c raw = record {
  scope = scope_for_class c;
  user_id = take 16 (hex64 (digest_bearer sha256 raw));
  class = c;
  bearer = raw;
}

unknown-IsBearer : (s raw : Text) → ¬ IsBearer (unknown s) raw
unfolding prefix_by_class
unknown-IsBearer s raw w = cc (w.prefix_eq)

build_from-eq_built :
    (x y : Option ConfigError) (w v : Verifier)
    → build_from x y w ≡ built v
    → (x ≡ none) × (y ≡ none) × (w ≡ v)
unfolding build_from
build_from-eq_built (some e) y w v h = absurd (cc h)
build_from-eq_built none (some e) w v h = absurd (cc h)
build_from-eq_built none none w v h = (refl, refl, cc)

validated :
    (now : ℕ) (u a : RotationConfig) (v : Verifier) (c : Class)
    → new_verifier_at now u a ≡ built v
    → validate_rotation now (config_for v c) ≡ none
unfolding new_verifier_at
validated now u a v c h =
    let (first, second, same) =
      build_from-eq_built (validate_rotation now u) (validate_rotation now a)
        (record { user = u; admin = a }) v h in
    of_class_config c (subst (λ (w : Verifier). validate_rotation now w.user ≡ none) same first)
      (subst (λ (w : Verifier). validate_rotation now w.admin ≡ none) same second)
  where
    of_class_config :
        (c : Class)
        → validate_rotation now v.user ≡ none
        → validate_rotation now v.admin ≡ none
        → validate_rotation now (config_for v c) ≡ none
    of_class_config user p q = p
    of_class_config admin p q = q
    of_class_config (unknown s) p q = p

overlap_bounded :
    (built_at now : ℕ) (cfg : RotationConfig)
    → cfg.previous ≢ []
    → validate_rotation built_at cfg ≡ none
    → built_at + max_rotation_overlap < now
    → ¬ (now ≤ cfg.previous_valid_until)
unfolding validate_rotation
overlap_bounded built_at now cfg p h late fresh = ground (arith, is_empty_iff cfg.previous)

-- The last test, for a bearer of the required class.
verify_matched :
    (sha256 : Text → List ℕ) (now : ℕ) (v : Verifier) (raw : Text) (c : Class) (t : TokenInfo)
    → (verify_parsed sha256 now v raw c (of_class c) ≡ ok t)
      ↔ (IsAccepted (config_for v c) now (digest_bearer sha256 raw) × (t ≡ token_of sha256 c raw))
unfolding verify_parsed
verify_matched sha256 now v raw c t =
    let test = matches_iff (config_for v c) now (digest_bearer sha256 raw) in
    rw ((class_eq_iff c c).1 refl)
      (elim (Bool-cases (matches (config_for v c) now (digest_bearer sha256 raw))) [
        | inl e ↦ rw e (λ h. (test.0 e, cc), λ (a, h). cc)
        | inr e ↦ rw e (λ h. absurd (cc h), λ (a, h). absurd (cc (e, test.1 a)))
      ])

verify_parsed_sound :
    (sha256 : Text → List ℕ) (now : ℕ) (v : Verifier) (raw : Text) (required : Class) (o : Parsed)
    (t : TokenInfo)
    → verify_parsed sha256 now v raw required o ≡ ok t
    → o ≡ of_class required
unfolding verify_parsed
verify_parsed_sound sha256 now v raw required malformed t h = absurd (cc h)
verify_parsed_sound sha256 now v raw required (of_class c) t h =
    elim (Bool-cases (class_eq c required)) [
      | inl e ↦ ap of_class ((class_eq_iff c required).0 e)
      | inr e ↦ absurd (cc (rw e at h))
    ]

-- `Verify` accepts a bearer exactly if it is a prefix of the required class in front of a payload and
-- its digest is the current one of that class, or the previous one which has not expired; the answer
-- names the scope of the class, the user by the digest, and the bearer. The order in which the
-- range over the prefixes visits them does not matter.
pub verify_iff :
    (sha256 : Text → List ℕ) (order : List Class) (now : ℕ) (v : Verifier) (raw : Text)
    (required : Class) (t : TokenInfo)
    → IsOrder order
    → (verify sha256 order now v raw required ≡ ok t) ↔ (
        IsBearer required raw
        × IsAccepted (config_for v required) now (digest_bearer sha256 raw)
        × (t ≡ token_of sha256 required raw))
unfolding verify
verify_iff sha256 order now v raw required t every = (
  λ h.
      let parsed =
        verify_parsed_sound sha256 now v raw required (parse_bearer_class order raw) t h in
      let (accepted, same) =
        (verify_matched sha256 now v raw required t).0
          (sym (ap (verify_parsed sha256 now v raw required) parsed) ∙ h) in
      (parse_bearer_class_sound order raw required parsed, accepted, same),
  λ (w, accepted, same).
      ap (verify_parsed sha256 now v raw required)
        (parse_bearer_class_complete order raw required (visited required w) w)
      ∙ (verify_matched sha256 now v raw required t).1 (accepted, same),
)
  where
    visited : (c : Class) → IsBearer c raw → Memᴰ c order
    visited user w = every.has_user
    visited admin w = every.has_admin
    visited (unknown s) w = absurd (unknown-IsBearer s raw w)

-- A verifier that `NewVerifier` built accepts, more than the longest overlap later, only the current
-- digest of the class.
pub rotation_ends :
    (sha256 : Text → List ℕ) (order : List Class) (built_at now : ℕ) (u a : RotationConfig)
    (v : Verifier) (raw : Text) (c : Class) (t : TokenInfo)
    → IsOrder order
    → new_verifier_at built_at u a ≡ built v
    → built_at + max_rotation_overlap < now
    → verify sha256 order now v raw c ≡ ok t
    → digest_bearer sha256 raw ≡ (config_for v c).current
rotation_ends sha256 order built_at now u a v raw c t every made late h =
    let (w, accepted, same) = (verify_iff sha256 order now v raw c t every).0 h in
    elim accepted [
      | inl e ↦ e
      | inr (some_previous, e, fresh) ↦ absurd (
          overlap_bounded built_at now (config_for v c) some_previous
            (validated built_at u a v c made) late fresh)
    ]

-- Two rotations that pass make a verifier.
pub new_verifier_at-eq_built :
    (now : ℕ) (u a : RotationConfig)
    → validate_rotation now u ≡ none
    → validate_rotation now a ≡ none
    → new_verifier_at now u a ≡ built (record { user = u; admin = a })
unfolding new_verifier_at build_from
new_verifier_at-eq_built now u a eu ea =
    ap (λ o. build_from o (validate_rotation now a) (record { user = u; admin = a })) eu
    ∙ ap (λ o. build_from none o (record { user = u; admin = a })) ea
