-- ===== src/Update/Ref/RoundTrip.antt =====
-- Parsing a reference and rendering it are inverse to one another.
use hadron_desktop.Base.{
  ℕ, ◌≡◌, ◌↔◌, refl, true, false, ◌&&◌, ◌||◌, [], ◌∷◌, ◌++◌, arith, Bool-cases, inl, inr, Option,
  none, some, append-nil, append_assoc, sym,
}
use hadron_desktop.Base.Text.{Text, is_empty, cut, cut_last, contains}
use hadron_desktop.Base.Cuts.{
  Joins, Lacks, cut-Joins, cut_last-Joins, cut-append, cut_free, cut_last-append, cut_last_free,
  contains_free, Lacks-append,
}
use hadron_desktop.Base.Regex.{full_match}
use hadron_desktop.Update.Ref.{
  ImageRef, name_re, tag_re, digest_re, is_host, Parsed, ok, parse_name, parse_tag, parse_host,
  parse_digest, parse_ref, prefixed, ref_string, repo,
}
use hadron_desktop.Update.Ref.Parts.{
  IsRef, host-Lacks, name-Lacks, tag-Lacks, tag_re_empty, digest_re_empty,
}

-- What is known of the result once the host and the digest are split off.
record IsSplit (r : ImageRef) (host rest digest : Text) : Type 0 where
  same_host : r.host ≡ host
  same_digest : r.digest ≡ digest
  joined : rest ≡ r.name ++ prefixed b':' r.tag
  name_ok : full_match name_re r.name ≡ true
  tag_ok : (is_empty r.tag || full_match tag_re r.tag) ≡ true
  identified : (is_empty r.tag && is_empty r.digest) ≡ false

prefixed_full : (c : ℕ) (s : Text) → is_empty s ≡ false → prefixed c s ≡ c ∷ s
unfolding prefixed is_empty
prefixed_full c [] h = cc
prefixed_full c (d ∷ s) h = refl

full_of_tag : (s : Text) → full_match tag_re s ≡ true → is_empty s ≡ false
unfolding is_empty
full_of_tag [] h = cc tag_re_empty
full_of_tag (d ∷ s) h = refl

full_of_digest : (s : Text) → full_match digest_re s ≡ true → is_empty s ≡ false
unfolding is_empty
full_of_digest [] h = cc digest_re_empty
full_of_digest (d ∷ s) h = refl

parse_name_sound :
    (digest host tag name : Text) (r : ImageRef)
    → parse_name digest host tag name ≡ ok r
    → (r ≡ record { host = host; name = name; tag = tag; digest = digest })
      × (full_match name_re name ≡ true)
      × ((is_empty tag && is_empty digest) ≡ false)
unfolding parse_name
parse_name_sound digest host tag name r h = ground arith

no_tag_sound :
    (digest host rest : Text) (r : ImageRef)
    → parse_name digest host [] rest ≡ ok r
    → IsSplit r host rest digest
unfolding prefixed is_empty
no_tag_sound digest host rest r h =
    ground (arith, parse_name_sound digest host [] rest r h, append-nil rest)

with_tag_sound :
    (digest host name tag : Text) (r : ImageRef)
    → full_match tag_re tag ≡ true
    → parse_name digest host tag name ≡ ok r
    → IsSplit r host (name ++ (b':' ∷ tag)) digest
with_tag_sound digest host name tag r m h =
    ground
      (arith, parse_name_sound digest host tag name r h, prefixed_full b':' tag (full_of_tag tag m))

parse_tag_sound :
    (digest host rest : Text) (o : Option (Text × Text)) (r : ImageRef)
    → Joins rest b':' o
    → parse_tag digest host rest o ≡ ok r
    → IsSplit r host rest digest
unfolding parse_tag
parse_tag_sound digest host rest none r j h = no_tag_sound digest host rest r h
parse_tag_sound digest host rest (some (name, tag)) r j h = elim (Bool-cases (contains tag b'/')) [
  | inl e ↦ no_tag_sound digest host rest r (rw e at h)
  | inr e ↦ elim (Bool-cases (full_match tag_re tag)) [
    | inl m ↦ rw j (with_tag_sound digest host name tag r m (rw (e, m) at h))
    | inr m ↦ absurd (cc (rw (e, m) at h))
  ]
]

-- The whole text, from what is known of its parts.
record IsWhole (r : ImageRef) (s digest : Text) : Type 0 where
  same_digest : r.digest ≡ digest
  joined : s ≡ r.host ++ (b'/' ∷ (r.name ++ prefixed b':' r.tag))
  host_ok : is_host r.host ≡ true
  name_ok : full_match name_re r.name ≡ true
  tag_ok : (is_empty r.tag || full_match tag_re r.tag) ≡ true
  identified : (is_empty r.tag && is_empty r.digest) ≡ false

parse_host_sound :
    (digest s : Text) (o : Option (Text × Text)) (r : ImageRef)
    → Joins s b'/' o
    → parse_host digest o ≡ ok r
    → IsWhole r s digest
unfolding parse_host
parse_host_sound digest s none r j h = absurd (cc h)
parse_host_sound digest s (some (host, rest)) r j h = elim (Bool-cases (is_host host)) [
  | inr e ↦ absurd (cc (rw e at h))
  | inl e ↦ ground (
    arith,
    j,
    parse_tag_sound digest host rest (cut_last rest b':') r (cut_last-Joins rest b':') (rw e at h),
  )
]

abbrev body : ImageRef → Text
body r = r.host ++ (b'/' ∷ (r.name ++ prefixed b':' r.tag))

ref_string-eq : (r : ImageRef) → ref_string r ≡ body r ++ prefixed b'@' r.digest
unfolding ref_string
ref_string-eq r = simp append_assoc

assemble :
    (r : ImageRef) (s rest digest : Text)
    → IsWhole r rest digest
    → (is_empty digest || full_match digest_re digest) ≡ true
    → s ≡ rest ++ prefixed b'@' digest
    → IsRef r × (ref_string r ≡ s)
assemble r s rest digest w d e = (
  record {
    host_ok = w.host_ok;
    name_ok = w.name_ok;
    tag_ok = w.tag_ok;
    digest_ok = rw w.same_digest d;
    identified = w.identified;
  },
  rw (ref_string-eq r, e, ← w.joined, w.same_digest),
)

parse_digest_sound :
    (s : Text) (o : Option (Text × Text)) (r : ImageRef)
    → Joins s b'@' o
    → parse_digest s o ≡ ok r
    → IsRef r × (ref_string r ≡ s)
unfolding parse_digest prefixed is_empty
parse_digest_sound s none r j h =
    assemble r s s [] (parse_host_sound [] s (cut s b'/') r (cut-Joins s b'/') h) refl
      (sym (append-nil s))
parse_digest_sound s (some (rest, digest)) r j h = elim (Bool-cases (full_match digest_re digest)) [
  | inr e ↦ absurd (cc (rw e at h))
  | inl e ↦
      assemble r s rest digest
        (parse_host_sound digest rest (cut rest b'/') r (cut-Joins rest b'/') (rw e at h))
        (ground (arith, e)) (rw (prefixed_full b'@' digest (full_of_digest digest e)) j)
]

parse_name_complete : (r : ImageRef) → IsRef r → parse_name r.digest r.host r.tag r.name ≡ ok r
unfolding parse_name
parse_name_complete r w = ground arith

parse_tag_complete :
    (digest host name tag : Text) (p : Parsed)
    → full_match name_re name ≡ true
    → (is_empty tag || full_match tag_re tag) ≡ true
    → parse_name digest host tag name ≡ p
    → (let rest = name ++ prefixed b':' tag in parse_tag digest host rest (cut_last rest b':') ≡ p)
unfolding parse_tag prefixed is_empty
parse_tag_complete digest host name [] p n t h =
    rw (append-nil name) (rw (cut_last_free name b':' (name-Lacks b':' name (inr refl) n)) h)
parse_tag_complete digest host name (c ∷ tag) p n t h =
    rw (cut_last-append name (c ∷ tag) b':' (tag-Lacks b':' (c ∷ tag) (inr (inl refl)) t))
      (rw (contains_free (c ∷ tag) b'/' (tag-Lacks b'/' (c ∷ tag) (inr (inr refl)) t)) (rw t h))

parse_host_complete : (r : ImageRef) → IsRef r → parse_host r.digest (cut (body r) b'/') ≡ ok r
unfolding parse_host
parse_host_complete r w =
    rw
      (cut-append r.host (r.name ++ prefixed b':' r.tag) b'/'
        (host-Lacks b'/' r.host (inr refl) w.host_ok))
      (rw w.host_ok (
        parse_tag_complete r.digest r.host r.name r.tag (ok r) w.name_ok w.tag_ok
          (parse_name_complete r w)))

prefixed-Lacks :
    (tag : Text) → (is_empty tag || full_match tag_re tag) ≡ true → Lacks b'@' (prefixed b':' tag)
unfolding prefixed is_empty
prefixed-Lacks [] t = tt
prefixed-Lacks (c ∷ tag) t = (refl, tag-Lacks b'@' (c ∷ tag) (inl refl) t)

body-Lacks : (r : ImageRef) → IsRef r → Lacks b'@' (body r)
body-Lacks r w = Lacks-append r.host _ b'@' (host-Lacks b'@' r.host (inl refl) w.host_ok) (
  refl,
  Lacks-append r.name _ b'@' (name-Lacks b'@' r.name (inl refl) w.name_ok)
      (prefixed-Lacks r.tag w.tag_ok),
)

parse_digest_complete :
    (front digest : Text) (p : Parsed)
    → Lacks b'@' front
    → (is_empty digest || full_match digest_re digest) ≡ true
    → parse_host digest (cut front b'/') ≡ p
    → (let s = front ++ prefixed b'@' digest in parse_digest s (cut s b'@') ≡ p)
unfolding parse_digest prefixed is_empty
parse_digest_complete front [] p l d h = rw (append-nil front) (rw (cut_free front b'@' l) h)
parse_digest_complete front (c ∷ digest) p l d h =
    rw (cut-append front (c ∷ digest) b'@' l) (rw d h)

-- `ParseRef` accepts a text exactly if it is the rendering of a reference with a well-formed host,
-- name, tag and digest, and then returns that reference.
pub parse_ref_iff :
    (s : Text) (r : ImageRef) → (parse_ref s ≡ ok r) ↔ (IsRef r × (ref_string r ≡ s))
unfolding parse_ref
parse_ref_iff s r = (
  λ h. parse_digest_sound s (cut s b'@') r (cut-Joins s b'@') h,
  λ (w, e).
      rw (← e, ref_string-eq r)
        (parse_digest_complete (body r) r.digest (ok r) (body-Lacks r w) w.digest_ok
          (parse_host_complete r w)),
)

pub ref_string_tagged :
    (r : ImageRef) → IsRef r → r.digest ≡ [] → ref_string r ≡ repo r ++ (b':' ∷ r.tag)
unfolding ref_string is_empty prefixed
ref_string_tagged r w d =
    ground (arith, w.identified, prefixed_full b':' r.tag, append-nil (b':' ∷ r.tag))
