-- ===== src/Agent/Wire/Files/Shape.antt =====
-- Which inputs of patch are valid.
use hadron_desktop.Base.{ℕ, suc, ◌≡◌, ◌↔◌, refl, true, not, none, List, [], ◌∷◌, All}
use hadron_desktop.Base.Text.{is_empty}
use hadron_desktop.Agent.Wire.Fields.{or_error-eq_none, require-eq_none}
use hadron_desktop.Agent.Wire.Files.{
  no_files, no_file_path, no_replacements, no_old, PatchReplacement, PatchFile, PatchInput, is_nil,
  check_replacements, check_file, check_files, validate_patch,
}

-- A file with a path and replacements, each of a text that is not empty.
pub IsFilled : PatchFile → Type 0
IsFilled f =
    (not (is_empty f.path) ≡ true)
    × (not (is_nil f.replacements) ≡ true)
    × All (λ (r : PatchReplacement). not (is_empty r.old_text) ≡ true) f.replacements

check_replacements-eq_none :
    (i j : ℕ) (rs : List PatchReplacement)
    → (check_replacements i j rs ≡ none)
      ↔ All (λ (r : PatchReplacement). not (is_empty r.old_text) ≡ true) rs
unfolding check_replacements
check_replacements-eq_none i j [] = (λ h. tt, λ h. refl)
check_replacements-eq_none i j (r ∷ rs) =
    let first =
      require-eq_none (not (is_empty r.old_text)) (no_old i j) (check_replacements i (suc j) rs) in
    let ih = check_replacements-eq_none i (suc j) rs in
    (λ h. let (a, b) = first.0 h in (a, ih.0 b), λ (a, b). first.1 (a, ih.1 b))

check_file-eq_none : (i : ℕ) (f : PatchFile) → (check_file i f ≡ none) ↔ IsFilled f
unfolding check_file IsFilled
check_file-eq_none i f =
    let path = require-eq_none (not (is_empty f.path)) (no_file_path i) _ in
    let some_of = require-eq_none (not (is_nil f.replacements)) (no_replacements i) _ in
    let each = check_replacements-eq_none i 0 f.replacements in
    (
      λ h. let (a, b) = path.0 h in let (c, d) = some_of.0 b in (a, c, each.0 d),
      λ (a, c, d). path.1 (a, some_of.1 (c, each.1 d)),
    )

check_files-eq_none : (i : ℕ) (fs : List PatchFile) → (check_files i fs ≡ none) ↔ All IsFilled fs
unfolding check_files
check_files-eq_none i [] = (λ h. tt, λ h. refl)
check_files-eq_none i (f ∷ fs) =
    let first = or_error-eq_none (check_file i f) (check_files (suc i) fs) in
    let file = check_file-eq_none i f in
    let ih = check_files-eq_none (suc i) fs in
    (λ h. let (a, b) = first.0 h in (file.0 a, ih.0 b), λ (a, b). first.1 (file.1 a, ih.1 b))

-- `Validate` accepts an input of patch exactly if it has a file and each file has a path and
-- replacements, each of a text that is not empty.
pub validate_patch_iff :
    (r : PatchInput)
    → (validate_patch r ≡ none) ↔ ((not (is_nil r.files) ≡ true) × All IsFilled r.files)
unfolding validate_patch
validate_patch_iff r =
    let first = require-eq_none (not (is_nil r.files)) no_files (check_files 0 r.files) in
    let each = check_files-eq_none 0 r.files in
    (λ h. let (a, b) = first.0 h in (a, each.0 b), λ (a, b). first.1 (a, each.1 b))
