-- ===== src/Update/Ref/Parts.antt =====
-- What the four parts of a reference look like, and which characters they cannot hold.
use hadron_desktop.Base.{ℕ, ◌≡◌, refl, true, false, ◌&&◌, ◌||◌, [], arith, ◌==◌, and-eq_true, ◌⊎◌}
use hadron_desktop.Base.Text.{Text, is_empty}
use hadron_desktop.Base.Cuts.{Lacks}
use hadron_desktop.Base.Regex.{cls, Over, up_to-Over, full_match, full_match-All}
use hadron_desktop.Update.Ref.{ImageRef, name_re, tag_re, digest_re, host_re, is_host, is_tag_char}

-- A reference with well-formed parts, identified by a tag or a digest.
pub record IsRef (r : ImageRef) : Type 0 where
  pub host_ok : is_host r.host ≡ true
  pub name_ok : full_match name_re r.name ≡ true
  pub tag_ok : (is_empty r.tag || full_match tag_re r.tag) ≡ true
  pub digest_ok : (is_empty r.digest || full_match digest_re r.digest) ≡ true
  pub identified : (is_empty r.tag && is_empty r.digest) ≡ false

abbrev Not : ℕ → ℕ → Type 0
Not d c = (c == d) ≡ false

host-Over : (d : ℕ) → (d ≡ b'@') ⊎ (d ≡ b'/') → Over (Not d) host_re
unfolding host_re
host-Over d h = ground arith

name-Over : (d : ℕ) → (d ≡ b'@') ⊎ (d ≡ b':') → Over (Not d) name_re
unfolding name_re
name-Over d h = ground arith

tag-Over : (d : ℕ) → (d ≡ b'@') ⊎ (d ≡ b':') ⊎ (d ≡ b'/') → Over (Not d) tag_re
unfolding tag_re
tag-Over d h = (ground arith, up_to-Over (Not d) 127 (cls is_tag_char) (ground arith))

host_matches : (h : Text) → is_host h ≡ true → full_match host_re h ≡ true
unfolding is_host
host_matches h e = (and-eq_true (full_match host_re h) _ e).0

pub host-Lacks : (d : ℕ) (h : Text) → (d ≡ b'@') ⊎ (d ≡ b'/') → is_host h ≡ true → Lacks d h
host-Lacks d h e m = full_match-All (Not d) host_re h (host-Over d e) (host_matches h m)

pub name-Lacks :
    (d : ℕ) (n : Text) → (d ≡ b'@') ⊎ (d ≡ b':') → full_match name_re n ≡ true → Lacks d n
name-Lacks d n e m = full_match-All (Not d) name_re n (name-Over d e) m

pub tag-Lacks :
    (d : ℕ) (t : Text)
    → (d ≡ b'@') ⊎ (d ≡ b':') ⊎ (d ≡ b'/')
    → full_match tag_re t ≡ true
    → Lacks d t
tag-Lacks d t e m = full_match-All (Not d) tag_re t (tag-Over d e) m

-- An empty text is neither a tag nor a digest.
pub tag_re_empty : full_match tag_re [] ≡ false
unfolding tag_re full_match
tag_re_empty = refl

pub digest_re_empty : full_match digest_re [] ≡ false
unfolding digest_re full_match
digest_re_empty = refl
