-- ===== src/Update/Release.antt =====
-- update/release.go: the identity of the running system, its image line, and the file that records
-- them. A file read is an argument; reading beyond it is not modelled.
pub mod Load
pub mod Lines
use hadron_desktop.Base.{
  ℕ, ◌+◌, ◌<◌, Bool, true, false, not, ◌&&◌, ◌||◌, String, Option, none, some, List, [], ◌∷◌, ◌++◌,
  ltb, leb, ◌==◌, if◌then◌else◌,
}
use hadron_desktop.Base.Text.{
  Text, text, text_eq, trim, trim_space, cut, split, is_empty, Dict, get,
}

pub record Release : Type 0 where
  pub flavor : Text
  pub version : Text
  pub hadron_version : Text
  pub image_repo : Text
  pub github_repo : Text
  pub gpu : Text

abbrev pub gpu_full : Text
gpu_full = text "full"

abbrev pub gpu_vm : Text
gpu_vm = text "vm"

-- `flavorAgent` of update/main.go
abbrev pub flavor_agent : Text
flavor_agent = text "agent"

unfoldable pub line : Release → Text
unfolding text_eq
line r = if text_eq r.gpu gpu_vm then gpu_vm else gpu_full

abbrev pub dash : Text
dash = b'-' ∷ []

unfoldable pub line_tag : Text → Text → Text → Text
unfolding text_eq
line_tag flavor ln tag =
    if text_eq ln gpu_vm && not (text_eq flavor flavor_agent)
    then flavor ++ (dash ++ (gpu_vm ++ (dash ++ tag)))
    else flavor ++ (dash ++ tag)

unfoldable pub image_for : Release → Text → Text
unfolding line line_tag
image_for r tag = r.image_repo ++ (b':' ∷ line_tag r.flavor (line r) tag)

-- What `os.Open` and `os.ReadFile` answer.
pub data File : Type 0 where
  missing : File
  unreadable : Text → File
  contents : Text → File

-- The bytes of a code point in UTF-8, and of a text.
char_bytes : ℕ → ℕ
char_bytes c = if ltb c 0x80 then 1 else if ltb c 0x800 then 2 else if ltb c 0x10000 then 3 else 4

unfoldable pub byte_length : Text → ℕ
unfolding char_bytes
byte_length [] = 0
byte_length (c ∷ s) = char_bytes c + byte_length s

-- `bufio.ScanLines` drops one carriage return at the end of a line, and an empty last line.
strip_cr : Text → Text
strip_cr [] = []
strip_cr (c ∷ []) = if c == 13 then [] else c ∷ []
strip_cr (c ∷ d ∷ s) = c ∷ strip_cr (d ∷ s)

-- The lines that the scanner yields, and whether it stopped at one that does not fit its buffer of
-- 64 KiB, the newline included.
scan_pieces : List Text → List Text × Bool
unfolding byte_length strip_cr is_empty
scan_pieces [] = ([], false)
scan_pieces (piece ∷ []) =
    if is_empty piece
    then ([], false)
    else if ltb (byte_length piece) 65536
    then (strip_cr piece ∷ [], false)
    else ([], true)
scan_pieces (piece ∷ next ∷ more) =
    let (lines, long) = scan_pieces (next ∷ more) in
    if ltb (byte_length piece) 65536 then (strip_cr piece ∷ lines, long) else ([], true)

unfoldable pub scan_lines : Text → List Text × Bool
unfolding scan_pieces split
scan_lines s = scan_pieces (split s b'\n')

is_quote : ℕ → Bool
is_quote c = c == 34 || c == 39

-- The body of the loop of `readKV`.
starts_comment : Text → Bool
starts_comment [] = true
starts_comment (c ∷ s) = c == b'#'

add_cut : Option (Text × Text) → Dict → Dict
unfolding trim_space trim is_quote
add_cut none kv = kv
add_cut (some (k, v)) kv = (trim_space k, trim is_quote (trim_space v)) ∷ kv

add_line : Text → Dict → Dict
unfolding add_cut starts_comment cut
add_line raw kv =
    let trimmed = trim_space raw in
    if starts_comment trimmed then kv else add_cut (cut trimmed b'=') kv

add_lines : List Text → Dict → Dict
unfolding add_line
add_lines [] kv = kv
add_lines (raw ∷ more) kv = add_lines more (add_line raw kv)

pub data LoadError : Type 0 where
  no_file : LoadError
  read_failed : Text → LoadError
  line_too_long : LoadError
  bad_gpu : Text → LoadError
  not_set : Text → LoadError

pub data Loaded {ℓ} (A : Type ℓ) : Type ℓ where
  ok : A → Loaded A
  err : LoadError → Loaded A

unfoldable pub read_kv : File → Loaded Dict
unfolding add_lines scan_lines
read_kv missing = err no_file
read_kv (unreadable e) = err (read_failed e)
read_kv (contents s) =
    let (lines, long) = scan_lines s in if long then err line_too_long else ok (add_lines lines [])

unfoldable pub of_dict : Dict → Release
unfolding get
of_dict kv = record {
  flavor = get kv (text "FLAVOR");
  version = get kv (text "VERSION");
  hadron_version = get kv (text "HADRON_VERSION");
  image_repo = get kv (text "IMAGE_REPO");
  github_repo = get kv (text "GITHUB_REPO");
  gpu = get kv (text "GPU");
}

unfoldable pub is_gpu : Text → Bool
unfolding text_eq is_empty
is_gpu g = is_empty g || text_eq g gpu_full || text_eq g gpu_vm

-- The keys that must be set, each with its value. Go ranges over this map in any order.
pub data Key : Type 0 where
  flavor_key version_key image_repo_key github_repo_key : Key

key_name : Key → Text
key_name flavor_key = text "FLAVOR"
key_name version_key = text "VERSION"
key_name image_repo_key = text "IMAGE_REPO"
key_name github_repo_key = text "GITHUB_REPO"

abbrev pub key_value : Key → Release → Text
key_value flavor_key r = r.flavor
key_value version_key r = r.version
key_value image_repo_key r = r.image_repo
key_value github_repo_key r = r.github_repo

check_keys : List Key → Release → Loaded Release
unfolding is_empty key_name
check_keys [] r = ok r
check_keys (k ∷ order) r =
    let rest = check_keys order r in
    if is_empty (key_value k r) then err (not_set (key_name k)) else rest

check_release : List Key → Release → Loaded Release
unfolding is_gpu check_keys
check_release order r = if is_gpu r.gpu then check_keys order r else err (bad_gpu r.gpu)

load_dict : List Key → Loaded Dict → Loaded Release
unfolding check_release of_dict
load_dict order (err e) = err e
load_dict order (ok kv) = check_release order (of_dict kv)

-- `LoadRelease`, with the order in which the range over the map visits the keys.
unfoldable pub load_release : List Key → File → Loaded Release
unfolding load_dict read_kv
load_release order f = load_dict order (read_kv f)
