-- ===== src/Update/Release/Lines.antt =====
-- What the lines of a release file say.
use mathlib.Core.Path.{subst}
use hadron_desktop.Base.{
  ℕ, ◌≡◌, ◌≢◌, ◌↔◌, inl, inr, refl, sym, ap, ◌∙◌, Bool, true, false, ◌||◌, Option, none, some, List,
  [], ◌∷◌, ◌++◌, ◌==◌, ==_iff, get_or, if◌then◌else◌, Bool-cases,
}
use hadron_desktop.Base.Text.{Text, Dict, cut, trim, trim_space}
use hadron_desktop.Base.Cuts.{Lacks, IsCut, cut-IsCut, cut_free, cut-append}
use hadron_desktop.Update.Release.{
  File, missing, unreadable, contents, ok, err, line_too_long, scan_lines, starts_comment, add_cut,
  add_line, add_lines, read_kv,
}

-- A line without the space around it, and the entry that it makes, if any: it makes none if it is
-- blank, begins with a hash or has no equals sign, and else the key in front of the first equals
-- sign and the value behind it, without the space around them and the quotes around the value.
pub data IsEntry (t : Text) : Option (Text × Text) → Type 0 where
  blank : t ≡ [] → IsEntry t none
  comment : (s : Text) → t ≡ b'#' ∷ s → IsEntry t none
  no_equals : Lacks b'=' t → IsEntry t none
  entry :
      (k v : Text)
      → ((s : Text) → t ≢ b'#' ∷ s)
      → Lacks b'=' k
      → t ≡ k ++ (b'=' ∷ v)
      → IsEntry t (some (trim_space k, trim (λ c. c == 34 || c == 39) (trim_space v)))

abbrev push : Option (Text × Text) → Dict → Dict
push none kv = kv
push (some e) kv = e ∷ kv

-- The lines, from the first on, put their entries in front of a dictionary.
pub data Reads : List Text → Dict → Dict → Type 0 where
  no_line : {kv : Dict} → Reads [] kv kv
  line :
      {raw : Text} {more : List Text} {kv kv' : Dict} (o : Option (Text × Text))
      → IsEntry (trim_space raw) o
      → Reads more (push o kv) kv'
      → Reads (raw ∷ more) kv kv'

abbrev body : Text → Dict → Dict
body t kv = if starts_comment t then kv else add_cut (cut t b'=') kv

by_cut :
    (t : Text) (kv : Dict) (o : Option (Text × Text))
    → ((s : Text) → t ≢ b'#' ∷ s)
    → IsCut b'=' t o
    → (p : Option (Text × Text)) × IsEntry t p × (add_cut o kv ≡ push p kv)
unfolding add_cut
by_cut t kv none h l = (none, no_equals l, refl)
by_cut t kv (some (k, v)) h (l, j) = (_, entry k v h l j, refl)

not_hash : (c : ℕ) (s r : Text) → (c == b'#') ≡ false → ◌≢◌ {A = Text} (c ∷ s) (b'#' ∷ r)
not_hash c s r e h =
    let same : c ≡ b'#' = ap {A = Text} (λ t. get_or t 0 0) h in cc (e, (==_iff c b'#').1 same)

not_nil : (k v : Text) → ◌≢◌ {A = Text} [] (k ++ (b'=' ∷ v))
not_nil [] v e = cc (e)
not_nil (c ∷ k) v e = cc (e)

body_sound :
    (t : Text) (kv : Dict) → (p : Option (Text × Text)) × IsEntry t p × (body t kv ≡ push p kv)
unfolding starts_comment
body_sound [] kv = (none, blank refl, refl)
body_sound (c ∷ s) kv = elim (Bool-cases (c == b'#')) [
  | inl e ↦ rw e (none, comment s (ap {A = ℕ} {B = Text} (λ x. x ∷ s) ((==_iff c b'#').0 e)), refl)
  | inr e ↦
      rw e
        (by_cut (c ∷ s) kv (cut (c ∷ s) b'=') (λ r h. not_hash c s r e h) (cut-IsCut (c ∷ s) b'='))
]

body_complete :
    (t : Text) (kv : Dict) (p : Option (Text × Text)) → IsEntry t p → body t kv ≡ push p kv
unfolding starts_comment add_cut
body_complete t kv none (blank e) = rw e refl
body_complete t kv none (comment s e) = rw e refl
body_complete [] kv none (no_equals l) = refl
body_complete (c ∷ s) kv none (no_equals l) = elim (Bool-cases (c == b'#')) [
  | inl e ↦ rw e refl
  | inr e ↦ rw (e, cut_free (c ∷ s) b'=' l) refl
]
body_complete [] kv (some p) (entry k v h l j) = absurd (not_nil k v j)
body_complete (c ∷ s) kv (some p) (entry k v h l j) = elim (Bool-cases (c == b'#')) [
  | inl e ↦ absurd (h s (ap {A = ℕ} {B = Text} (λ x. x ∷ s) ((==_iff c b'#').0 e)))
  | inr e ↦ rw e (ap (λ o. add_cut o kv) (ap (λ x. cut x b'=') j ∙ cut-append k v b'=' l))
]

-- The dictionary of the lines is the one that they describe.
add_lines_sound : (ls : List Text) (kv : Dict) → Reads ls kv (add_lines ls kv)
unfolding add_lines add_line
add_lines_sound [] kv = no_line
add_lines_sound (raw ∷ more) kv =
    let (o, shape, same) = body_sound (trim_space raw) kv in
    line o shape (
      subst (λ x. Reads more (push o kv) (add_lines more x)) (sym same)
        (add_lines_sound more (push o kv)))

add_lines_complete : {ls : List Text} {kv kv' : Dict} → Reads ls kv kv' → add_lines ls kv ≡ kv'
unfolding add_lines add_line
add_lines_complete no_line = refl
add_lines_complete (line {raw} {more} {kv} o shape rest) =
    ap (λ x. add_lines more x) (body_complete (trim_space raw) kv o shape) ∙ add_lines_complete rest

-- A file that can be read, has no line that is too long for the scanner, and says what is in the
-- dictionary.
pub data ReadsFile : File → Dict → Type 0 where
  reads_file :
      (s : Text) (lines : List Text) {kv : Dict}
      → scan_lines s ≡ (lines, false)
      → Reads lines [] kv
      → ReadsFile (contents s) kv

scanned :
    (s : Text) (r : List Text × Bool) (kv : Dict)
    → scan_lines s ≡ r
    → ((if r.1 then err line_too_long else ok (add_lines r.0 [])) ≡ ok kv)
      ↔ ReadsFile (contents s) kv
scanned s (lines, true) kv e = (λ h. absurd (cc (h)), λ h. absurd (too_long h))
  where
    too_long : ReadsFile (contents s) kv → ⊥
    too_long (reads_file t ls f r) =
        let h : true ≡ false = ap {A = List Text × Bool} (λ p. p.1) (sym e ∙ f) in cc (h)
scanned s (lines, false) kv e = (
  λ h. reads_file s lines e (subst (λ x. Reads lines [] x) (cc (h)) (add_lines_sound lines [])),
  back,
)
  where
    back : ReadsFile (contents s) kv → ok (add_lines lines []) ≡ ok kv
    back (reads_file t ls f r) =
        let same : ls ≡ lines = ap {A = List Text × Bool} (λ p. p.0) (sym f ∙ e) in
        ap ok (subst (λ x. add_lines x [] ≡ kv) same (add_lines_complete r))

pub read_kv-ReadsFile : (f : File) (kv : Dict) → (read_kv f ≡ ok kv) ↔ ReadsFile f kv
unfolding read_kv
read_kv-ReadsFile missing kv = (λ h. absurd (cc (h)), λ h. elim h [ ])
read_kv-ReadsFile (unreadable e) kv = (λ h. absurd (cc (h)), λ h. elim h [ ])
read_kv-ReadsFile (contents s) kv = scanned s (scan_lines s) kv refl
