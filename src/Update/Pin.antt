-- ===== src/Update/Pin.antt =====
-- update/pin.go: the pin file and the advanced switch of update.conf. What reading a file answers
-- is a `File`; a write that goes through a temporary file and a rename either replaces the content
-- or leaves the file as it was, and which of the two happens is an argument.
pub mod Advanced
use hadron_desktop.Base.{
  Bool, true, false, ◌||◌, Option, none, some, List, [], ◌∷◌, ◌++◌, if◌then◌else◌,
}
use hadron_desktop.Base.Text.{Text, text, text_eq, trim_space, to_lower, cut, split}
use hadron_desktop.Update.Release.{File, missing, unreadable, contents}

-- An outcome of a call into the operating system: `none` is success.
abbrev pub Outcome : Type 0
Outcome = Option Text

-- `LoadPin`: the pin, "" if there is none, or an error.
pub data Pinned : Type 0 where
  pin : Text → Pinned
  pin_error : Text → Pinned

unfoldable pub load_pin : File → Pinned
unfolding trim_space
load_pin missing = pin []
load_pin (unreadable e) = pin_error e
load_pin (contents s) = pin (trim_space s)

-- `pin, _ := LoadPin()`
unfoldable pub pin_or_empty : File → Text
unfolding load_pin
pin_or_empty f = elim (load_pin f) [ pin p ↦ p | pin_error e ↦ [] ]

-- `SavePin(ref)`, by the first of its system calls that fails.
unfoldable pub save_pin : Outcome → Text → File → File × Outcome
save_pin none ref f = (contents (ref ++ (b'\n' ∷ [])), none)
save_pin (some e) ref f = (f, some e)

-- `ClearPin()`, by the error of `os.Remove` other than that there is no such file.
unfoldable pub clear_pin : Outcome → File → File × Outcome
clear_pin none missing = (missing, none)
clear_pin (some e) missing = (missing, some e)
clear_pin none (unreadable e) = (missing, none)
clear_pin none (contents s) = (missing, none)
clear_pin (some e) (unreadable e') = (unreadable e', some e)
clear_pin (some e) (contents s) = (contents s, some e)

-- The `switch` on the value of an `advanced=` line.
pub data Setting : Type 0 where
  on off invalid : Setting

setting : Text → Setting
unfolding text_eq text
setting v =
    if text_eq v (text "true")
      || text_eq v (text "yes")
      || text_eq v (text "1")
      || text_eq v (text "on")
    then on
    else if text_eq v (text "false")
        || text_eq v (text "no")
        || text_eq v (text "0")
        || text_eq v (text "off")
    then off
    else invalid

-- What one line says, if it sets the switch: the setting, and the value as it is written.
line_setting : Option (Text × Text) → Option (Setting × Text)
line_setting none = none
line_setting (some (k, v)) =
    if text_eq (trim_space k) (text "advanced")
    then some (setting (to_lower (trim_space v)), trim_space v)
    else none

conf_line : Text → Option (Setting × Text)
conf_line l = line_setting (cut (trim_space l) b'=')

-- `badAdvanced`, the problem logged last, and what has been logged so far.
pub record Log : Type 0 where
  pub last : Text
  pub logged : List Text

unfoldable pub log_bad : Text → Log → Log
unfolding text_eq
log_bad key log =
    if text_eq key log.last then log else record { last = key; logged = log.logged ++ (key ∷ []) }

-- The body of the loop over the lines: the switch and the log.
apply_setting : Option (Setting × Text) → Bool → Log → Bool × Log
apply_setting none enabled log = (enabled, log)
apply_setting (some (on, v)) enabled log = (true, log)
apply_setting (some (off, v)) enabled log = (false, log)
apply_setting (some (invalid, v)) enabled log = (false, log_bad v log)

apply_lines : List Text → Bool → Log → Bool × Log
apply_lines [] enabled log = (enabled, log)
apply_lines (l ∷ more) enabled log =
    let (enabled', log') = apply_setting (conf_line l) enabled log in apply_lines more enabled' log'

-- `AdvancedEnabled()`
pub advanced_enabled : File → Log → Bool × Log
advanced_enabled missing log = (true, log)
advanced_enabled (unreadable e) log = (false, log_bad (text "unreadable: " ++ e) log)
advanced_enabled (contents s) log = apply_lines (split s b'\n') true log
