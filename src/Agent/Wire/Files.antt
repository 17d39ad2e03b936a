-- ===== src/Agent/Wire/Files.antt =====
-- agent/internal/api/schema.go: the inputs of bash, read_file, search_files, write_file and patch.
pub mod Shape
use hadron_desktop.Base.{ℕ, Bool, true, false, not, Option, none, some, List, [], ◌∷◌, suc}
use hadron_desktop.Base.Text.{Text, is_empty}
use hadron_desktop.Base.Int.{ℤ}
use hadron_desktop.Agent.Wire.Fields.{or_error, require}

-- An error names the field, with the indices of the file and of the replacement.
pub data Invalid : Type 0 where
  no_command no_path no_query no_files : Invalid
  bad_encoding bad_mode : Text → Invalid
  no_file_path no_replacements : ℕ → Invalid
  no_old : ℕ → ℕ → Invalid

pub record BashInput : Type 0 where
  pub command : Text
  pub cwd : Text
  pub env : List Text

unfoldable pub validate_bash : BashInput → Option Invalid
unfolding is_empty
validate_bash r = require (not (is_empty r.command)) no_command

-- `FileEncoding`; the empty one is absent.
pub data Encoding : Type 0 where
  no_encoding utf8 base64 : Encoding
  other_encoding : Text → Encoding

check_encoding : Encoding → Option Invalid
check_encoding (other_encoding s) = some (bad_encoding s)
check_encoding e = none

pub record ReadFileInput : Type 0 where
  pub path : Text
  pub offset : Option ℤ
  pub limit : Option ℤ
  pub encoding : Encoding
  pub metadata_only : Bool

unfoldable pub validate_read_file : ReadFileInput → Option Invalid
unfolding is_empty check_encoding
validate_read_file r =
    or_error (require (not (is_empty r.path)) no_path) (check_encoding r.encoding)

-- `SearchMode`; the empty one is absent.
pub data SearchMode : Type 0 where
  no_mode by_name by_content : SearchMode
  other_mode : Text → SearchMode

check_mode : SearchMode → Option Invalid
check_mode (other_mode s) = some (bad_mode s)
check_mode m = none

pub record SearchFilesInput : Type 0 where
  pub path : Text
  pub query : Text
  pub mode : SearchMode
  pub regex : Bool
  pub max_results : Option ℤ
  pub max_file_bytes : Option ℤ

unfoldable pub validate_search_files : SearchFilesInput → Option Invalid
unfolding is_empty check_mode
validate_search_files r =
    or_error (require (not (is_empty r.path)) no_path)
      (or_error (require (not (is_empty r.query)) no_query) (check_mode r.mode))

pub record WriteFileInput : Type 0 where
  pub path : Text
  pub content : Text
  pub encoding : Encoding
  pub mode : Text
  pub create_parents : Bool

unfoldable pub validate_write_file : WriteFileInput → Option Invalid
unfolding is_empty check_encoding
validate_write_file r =
    or_error (require (not (is_empty r.path)) no_path) (check_encoding r.encoding)

pub record PatchReplacement : Type 0 where
  pub old_text : Text
  pub new_text : Text
  pub every : Bool

pub record PatchFile : Type 0 where
  pub path : Text
  pub replacements : List PatchReplacement

pub record PatchInput : Type 0 where
  pub files : List PatchFile

abbrev is_nil {ℓ} : {A : Type ℓ} → List A → Bool
is_nil [] = true
is_nil (x ∷ xs) = false

-- The two loops of `PatchInput.Validate`, from an index on.
unfoldable check_replacements : ℕ → ℕ → List PatchReplacement → Option Invalid
unfolding is_empty
check_replacements i j [] = none
check_replacements i j (r ∷ rs) =
    or_error (require (not (is_empty r.old_text)) (no_old i j)) (check_replacements i (suc j) rs)

unfoldable check_file : ℕ → PatchFile → Option Invalid
unfolding is_empty check_replacements
check_file i f = or_error (require (not (is_empty f.path)) (no_file_path i)) (
    or_error (require (not (is_nil f.replacements)) (no_replacements i))
      (check_replacements i 0 f.replacements))

unfoldable check_files : ℕ → List PatchFile → Option Invalid
unfolding check_file
check_files i [] = none
check_files i (f ∷ fs) = or_error (check_file i f) (check_files (suc i) fs)

unfoldable pub validate_patch : PatchInput → Option Invalid
unfolding check_files
validate_patch r = or_error (require (not (is_nil r.files)) no_files) (check_files 0 r.files)
