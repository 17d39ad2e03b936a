-- ===== src/Agent/Tests/Asking.antt =====
-- Inputs of computer_use and of browser.
use hadron_desktop.Base.{◌≡◌, ◌↔◌, refl, true, false, none, some, [], ◌∷◌}
use hadron_desktop.Base.Text.{text, is_empty}
use hadron_desktop.Base.Int.{pos, negsuc}
use hadron_desktop.Agent.Wire.Computer.{
  click, wait, capture, other_action, window, no_scope, no_button, left_button, no_direction, up,
  f_x, f_y, extraneous, unknown_action, no_target, half_point, bad_duration, is_set,
}
use hadron_desktop.Agent.Wire.Computer
use hadron_desktop.Agent.Wire.Computer.Shape.{validate_iff}
use hadron_desktop.Agent.Wire.Browse.{navigate, scroll, f_url, url_missing}
use hadron_desktop.Agent.Wire.Browse
use hadron_desktop.Agent.Wire.Files.{
  validate_patch, validate_read_file, no_old, bad_encoding, other_encoding,
}
use hadron_desktop.Agent.Wire.Browse.Shape.{browser_validate_iff}

abbrev blank : Computer.Input
blank = record {
  action = click;
  scope = no_scope;
  pid = none;
  window_id = none;
  element_index = none;
  x = none;
  y = none;
  from_x = none;
  from_y = none;
  to_x = none;
  to_y = none;
  button = no_button;
  direction = no_direction;
  amount = none;
  text = [];
  key_name = [];
  modifiers = [];
  duration_ms = none;
  query = [];
  max_elements = none;
  max_depth = none;
}

-- A click at the origin, which is set although it is zero.
abbrev at_origin : Computer.Input
at_origin = record blank { x = some (pos 0); y = some (pos 0); button = left_button }

validate_iff_example : (Computer.validate at_origin ≡ none) ↔ Computer.Shape.IsValid at_origin
validate_iff_example = validate_iff at_origin

clicks : Computer.validate at_origin ≡ none
unfolding Computer.validate is_empty
clicks = refl

half_a_point :
    Computer.validate (record blank { x = some (pos 4); element_index = some (pos 1) })
    ≡ some half_point
unfolding Computer.validate is_empty
half_a_point = refl

waits_at_a_point :
    Computer.validate
      (record at_origin { action = wait; button = no_button; duration_ms = some (pos 5) })
    ≡ some (extraneous (f_x ∷ f_y ∷ []))
unfolding Computer.validate is_empty
waits_at_a_point = refl

waits_backwards :
    Computer.validate (record blank { action = wait; duration_ms = some (negsuc 4) })
    ≡ some bad_duration
unfolding Computer.validate is_empty
waits_backwards = refl

which_window :
    Computer.validate (record blank { action = capture; scope = window }) ≡ some no_target
unfolding Computer.validate is_empty
which_window = refl

abbrev no_page : Browse.Input
no_page = record {
  action = navigate;
  url = [];
  ref = [];
  text = [];
  submit = false;
  key_name = [];
  direction = no_direction;
  amount = none;
  max_elements = none;
  window_id = some (pos 3);
}

browser_validate_iff_example :
    (Browse.validate (record no_page { action = scroll; direction = up }) ≡ none)
    ↔ Browse.Shape.IsValid (record no_page { action = scroll; direction = up })
browser_validate_iff_example =
    browser_validate_iff (record no_page { action = scroll; direction = up })

no_address : Browse.validate no_page ≡ some url_missing
unfolding Browse.validate is_empty
no_address = refl

extra_address :
    Browse.validate (record no_page { action = scroll; direction = up; url = text "about:blank" })
    ≡ some (Browse.extraneous (f_url ∷ []))
unfolding Browse.validate text is_empty
extra_address = refl

missing_old :
    validate_patch (record {
      files =
          record {
            path = text "a";
            replacements =
                record { old_text = text "x"; new_text = []; every = false }
                ∷ record { old_text = []; new_text = text "y"; every = true }
                ∷ [];
          }
          ∷ [];
    })
    ≡ some (no_old 0 1)
unfolding validate_patch text
missing_old = refl

odd_encoding :
    validate_read_file (record {
      path = text "a";
      offset = none;
      limit = none;
      encoding = other_encoding (text "utf16");
      metadata_only = false;
    })
    ≡ some (bad_encoding (text "utf16"))
unfolding validate_read_file text
odd_encoding = refl
