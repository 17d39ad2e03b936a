-- ===== src/Update/Pin/Advanced.antt =====
-- When the advanced switch is on, and what a saved pin reads back as.
use hadron_desktop.Base.{
  ◌≡◌, refl, ◌∙◌, Bool, true, false, Option, none, some, List, [], ◌∷◌, arith,
}
use hadron_desktop.Base.Text.{Text, split, text_eq_iff, text_eq_self}
use hadron_desktop.Update.Release.{missing, unreadable, contents}
use hadron_desktop.Update.Pin.{
  Setting, on, off, invalid, conf_line, apply_setting, apply_lines, advanced_enabled, Log, log_bad,
}

-- The setting of the last line that sets the switch, if any does.
abbrev or_before : Option Setting → Option (Setting × Text) → Option Setting
or_before (some later) earlier = some later
or_before none none = none
or_before none (some (s, v)) = some s

pub last_setting : List Text → Option Setting
last_setting [] = none
last_setting (l ∷ more) = or_before (last_setting more) (conf_line l)

-- The switch is on unless the last such line says off, or nothing that is understood.
abbrev pub means : Option Setting → Bool → Bool
means none default = default
means (some on) default = true
means (some off) default = false
means (some invalid) default = false

apply_setting-means :
    (found : Option (Setting × Text)) (later : Option Setting) (enabled : Bool) (log : Log)
    → means later (apply_setting found enabled log).0 ≡ means (or_before later found) enabled
unfolding apply_setting
apply_setting-means found later enabled log = ground arith

apply_lines-last :
    (ls : List Text) (enabled : Bool) (log : Log)
    → (apply_lines ls enabled log).0 ≡ means (last_setting ls) enabled
unfolding apply_lines last_setting
apply_lines-last [] enabled log = refl
apply_lines-last (l ∷ more) enabled log =
    let (enabled', log') = apply_setting (conf_line l) enabled log in
    apply_lines-last more enabled' log'
    ∙ apply_setting-means (conf_line l) (last_setting more) enabled log

-- The advanced switch is on if update.conf is missing, off if it cannot be read, and otherwise
-- what the last line that sets it says, off if that is not understood, and on without such a line.
pub advanced_enabled_lem :
    (s e : Text) (log : Log)
    → ((advanced_enabled missing log).0 ≡ true)
      × ((advanced_enabled (unreadable e) log).0 ≡ false)
      × ((advanced_enabled (contents s) log).0 ≡ means (last_setting (split s b'\n')) true)
unfolding advanced_enabled
advanced_enabled_lem s e log = (refl, refl, apply_lines-last (split s b'\n') true log)

-- The log gains a line only for a value that is not understood or a file that cannot be read, and
-- never the same one twice in a row.
pub log_bad_twice : (key : Text) (log : Log) → log_bad key (log_bad key log) ≡ log_bad key log
unfolding log_bad
log_bad_twice key log = ground (arith, text_eq_iff key log.last, text_eq_self key)
