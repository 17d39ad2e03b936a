-- ===== src/Agent/Wire/Browse.antt =====
-- agent/internal/api/browser.go: the input of browser and its validation.
pub mod Shape
use hadron_desktop.Base.{
  ℕ, Bool, true, false, not, ◌&&◌, Option, none, some, List, [], ◌∷◌, if◌then◌else◌,
}
use hadron_desktop.Base.Text.{Text, is_empty, is_some}
use hadron_desktop.Base.Int.{ℤ}
use hadron_desktop.Agent.Wire.Fields.{or_error, require, reject}
use hadron_desktop.Agent.Wire.Computer.{Direction, has_direction, is_direction}

-- `BrowserAction`
pub data Action : Type 0 where
  navigate snapshot click type_text press scroll back page_text : Action
  other_action : Text → Action

-- `BrowserInput`
pub record Input : Type 0 where
  pub action : Action
  pub url : Text
  pub ref : Text
  pub text : Text
  pub submit : Bool
  pub key_name : Text
  pub direction : Direction
  pub amount : Option ℤ
  pub max_elements : Option ℤ
  pub window_id : Option ℤ

-- `bField`
pub data Field : Type 0 where
  f_url f_ref f_text f_submit f_key f_direction f_amount f_max_elements f_window_id : Field

abbrev pub bit : Field → ℕ
bit f_url = 0
bit f_ref = 1
bit f_text = 2
bit f_submit = 3
bit f_key = 4
bit f_direction = 5
bit f_amount = 6
bit f_max_elements = 7
bit f_window_id = 8

abbrev pub fields : List Field
fields =
    f_url ∷ f_ref ∷ f_text ∷ f_submit ∷ f_key ∷ f_direction ∷ f_amount ∷ f_max_elements
    ∷ f_window_id ∷ []

-- `presentFields`, field by field.
pub is_set : Input → Field → Bool
is_set r f_url = not (is_empty r.url)
is_set r f_ref = not (is_empty r.ref)
is_set r f_text = not (is_empty r.text)
is_set r f_submit = r.submit
is_set r f_key = not (is_empty r.key_name)
is_set r f_direction = has_direction r.direction
is_set r f_amount = is_some r.amount
is_set r f_max_elements = is_some r.max_elements
is_set r f_window_id = is_some r.window_id

pub data Invalid : Type 0 where
  unknown_action bad_direction url_missing ref_missing text_missing key_missing direction_missing :
      Invalid
  extraneous : List Field → Invalid

-- `rejectExtraneous`
pub reject_extraneous : Input → List Field → Option Invalid
unfolding reject is_set
reject_extraneous r allowed = reject bit extraneous (is_set r) fields allowed

abbrev pub is_known : Action → Bool
is_known (other_action t) = false
is_known a = true

-- The fields that an action accepts, and what it requires.
abbrev pub allowed : Action → List Field
allowed navigate = f_url ∷ f_window_id ∷ []
allowed snapshot = f_max_elements ∷ f_window_id ∷ []
allowed click = f_ref ∷ f_window_id ∷ []
allowed type_text = f_ref ∷ f_text ∷ f_submit ∷ f_window_id ∷ []
allowed press = f_key ∷ f_window_id ∷ []
allowed scroll = f_ref ∷ f_direction ∷ f_amount ∷ f_window_id ∷ []
allowed back = f_window_id ∷ []
allowed page_text = f_ref ∷ f_window_id ∷ []
allowed (other_action t) = fields

required : Action → Input → Option Invalid
required navigate r = require (not (is_empty r.url)) url_missing
required snapshot r = none
required click r = require (not (is_empty r.ref)) ref_missing
required type_text r =
    or_error (require (not (is_empty r.ref)) ref_missing)
      (require (not (is_empty r.text)) text_missing)
required press r = require (not (is_empty r.key_name)) key_missing
required scroll r = require (has_direction r.direction) direction_missing
required back r = none
required page_text r = none
required (other_action t) r = none

-- `Validate`
unfoldable pub validate : Input → Option Invalid
unfolding reject_extraneous required
validate r = or_error (require (is_known r.action) unknown_action) (
    or_error (require (is_direction r.direction) bad_direction)
      (or_error (reject_extraneous r (allowed r.action)) (required r.action r)))
