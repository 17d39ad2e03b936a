-- ===== src/Agent/Wire/Computer.antt =====
-- agent/internal/api/schema.go: the input of computer_use and its validation. An optional text is
-- its emptiness where nothing else of it is read.
pub mod Shape
use hadron_desktop.Base.{
  ℕ, Bool, true, false, not, ◌&&◌, ◌||◌, Option, none, some, List, [], ◌∷◌, ◌==◌, if◌then◌else◌,
}
use hadron_desktop.Base.Text.{Text, is_empty, is_some}
use hadron_desktop.Base.Int.{ℤ, is_positive}
use hadron_desktop.Agent.Wire.Fields.{or_error, require, reject}

-- `ComputerUseAction`, and the closed texts, where an absent one is empty.
pub data Action : Type 0 where
  capture accessibility click double_click drag scroll type_text key wait : Action
  list_applications focus_application : Action
  other_action : Text → Action

pub data Scope : Type 0 where
  no_scope screen window : Scope
  other_scope : Text → Scope

pub data Button : Type 0 where
  no_button left_button right_button middle_button : Button
  other_button : Text → Button

pub data Direction : Type 0 where
  no_direction up down left right : Direction
  other_direction : Text → Direction

-- `ComputerUseInput`
pub record Input : Type 0 where
  pub action : Action
  pub scope : Scope
  pub pid : Option ℤ
  pub window_id : Option ℤ
  pub element_index : Option ℤ
  pub x : Option ℤ
  pub y : Option ℤ
  pub from_x : Option ℤ
  pub from_y : Option ℤ
  pub to_x : Option ℤ
  pub to_y : Option ℤ
  pub button : Button
  pub direction : Direction
  pub amount : Option ℤ
  pub text : Text
  pub key_name : Text
  pub modifiers : List Text
  pub duration_ms : Option ℤ
  pub query : Text
  pub max_elements : Option ℤ
  pub max_depth : Option ℤ

-- `cuField`
pub data Field : Type 0 where
  f_scope f_pid f_window_id f_element_index f_x f_y f_from_x f_from_y f_to_x f_to_y : Field
  f_button f_direction f_amount f_text f_key f_modifiers f_duration_ms f_query : Field
  f_max_elements f_max_depth : Field

abbrev pub bit : Field → ℕ
bit f_scope = 0
bit f_pid = 1
bit f_window_id = 2
bit f_element_index = 3
bit f_x = 4
bit f_y = 5
bit f_from_x = 6
bit f_from_y = 7
bit f_to_x = 8
bit f_to_y = 9
bit f_button = 10
bit f_direction = 11
bit f_amount = 12
bit f_text = 13
bit f_key = 14
bit f_modifiers = 15
bit f_duration_ms = 16
bit f_query = 17
bit f_max_elements = 18
bit f_max_depth = 19

abbrev pub fields : List Field
fields =
    f_scope ∷ f_pid ∷ f_window_id ∷ f_element_index ∷ f_x ∷ f_y ∷ f_from_x ∷ f_from_y ∷ f_to_x
    ∷ f_to_y ∷ f_button ∷ f_direction ∷ f_amount ∷ f_text ∷ f_key ∷ f_modifiers ∷ f_duration_ms
    ∷ f_query ∷ f_max_elements ∷ f_max_depth ∷ []

abbrev pub has_scope : Scope → Bool
has_scope no_scope = false
has_scope s = true

abbrev pub has_button : Button → Bool
has_button no_button = false
has_button b = true

abbrev pub has_direction : Direction → Bool
has_direction no_direction = false
has_direction d = true

abbrev pub is_nil {ℓ} : {A : Type ℓ} → List A → Bool
is_nil [] = true
is_nil (x ∷ xs) = false

-- `presentFields`, field by field.
pub is_set : Input → Field → Bool
is_set r f_scope = has_scope r.scope
is_set r f_pid = is_some r.pid
is_set r f_window_id = is_some r.window_id
is_set r f_element_index = is_some r.element_index
is_set r f_x = is_some r.x
is_set r f_y = is_some r.y
is_set r f_from_x = is_some r.from_x
is_set r f_from_y = is_some r.from_y
is_set r f_to_x = is_some r.to_x
is_set r f_to_y = is_some r.to_y
is_set r f_button = has_button r.button
is_set r f_direction = has_direction r.direction
is_set r f_amount = is_some r.amount
is_set r f_text = not (is_empty r.text)
is_set r f_key = not (is_empty r.key_name)
is_set r f_modifiers = not (is_nil r.modifiers)
is_set r f_duration_ms = is_some r.duration_ms
is_set r f_query = not (is_empty r.query)
is_set r f_max_elements = is_some r.max_elements
is_set r f_max_depth = is_some r.max_depth

pub data Invalid : Type 0 where
  unknown_action bad_button bad_direction bad_scope no_target no_point half_point : Invalid
  no_drag_points direction_missing bad_amount text_missing key_missing bad_duration : Invalid
  extraneous : List Field → Invalid

-- `rejectExtraneous`
pub reject_extraneous : Input → List Field → Option Invalid
unfolding reject is_set
reject_extraneous r allowed = reject bit extraneous (is_set r) fields allowed

abbrev pub is_known : Action → Bool
is_known (other_action t) = false
is_known a = true

abbrev pub is_scope : Scope → Bool
is_scope (other_scope t) = false
is_scope s = true

abbrev pub is_button : Button → Bool
is_button (other_button t) = false
is_button b = true

abbrev pub is_direction : Direction → Bool
is_direction (other_direction t) = false
is_direction d = true

abbrev pub is_window : Scope → Bool
is_window window = true
is_window s = false

abbrev pub targets_window : Input → Bool
targets_window r = is_some r.pid || is_some r.window_id

-- Absent, or positive.
abbrev pub is_amount : Option ℤ → Bool
is_amount none = true
is_amount (some z) = is_positive z

abbrev pub is_duration : Option ℤ → Bool
is_duration none = false
is_duration (some z) = is_positive z

-- The fields that an action accepts, and what it requires.
abbrev pub allowed : Action → List Field
allowed capture = f_scope ∷ f_pid ∷ f_window_id ∷ []
allowed accessibility = f_scope ∷ f_pid ∷ f_window_id ∷ f_query ∷ f_max_elements ∷ f_max_depth ∷ []
allowed click = f_x ∷ f_y ∷ f_window_id ∷ f_pid ∷ f_button ∷ f_element_index ∷ []
allowed double_click = f_x ∷ f_y ∷ f_window_id ∷ f_pid ∷ f_button ∷ f_element_index ∷ []
allowed drag = f_from_x ∷ f_from_y ∷ f_to_x ∷ f_to_y ∷ f_button ∷ f_window_id ∷ f_pid ∷ []
allowed scroll = f_x ∷ f_y ∷ f_direction ∷ f_amount ∷ f_window_id ∷ f_pid ∷ []
allowed type_text = f_text ∷ f_window_id ∷ f_pid ∷ f_element_index ∷ []
allowed key = f_key ∷ f_modifiers ∷ f_window_id ∷ f_pid ∷ []
allowed wait = f_duration_ms ∷ []
allowed list_applications = f_query ∷ []
allowed focus_application = f_pid ∷ f_window_id ∷ []
allowed (other_action t) = fields

require_point : Input → Option Invalid
require_point r =
    or_error (require (is_some r.x && is_some r.y || is_some r.element_index) no_point)
      (require (is_some r.x && is_some r.y || not (is_some r.x) && not (is_some r.y)) half_point)

required : Action → Input → Option Invalid
unfolding require_point
required capture r = require (not (is_window r.scope) || targets_window r) no_target
required accessibility r = require (not (is_window r.scope) || targets_window r) no_target
required click r = require_point r
required double_click r = require_point r
required drag r =
    require (is_some r.from_x && (is_some r.from_y && (is_some r.to_x && is_some r.to_y)))
      no_drag_points
required scroll r =
    or_error (require (has_direction r.direction) direction_missing)
      (require (is_amount r.amount) bad_amount)
required type_text r = require (not (is_empty r.text)) text_missing
required key r = require (not (is_empty r.key_name)) key_missing
required wait r = require (is_duration r.duration_ms) bad_duration
required list_applications r = none
required focus_application r = require (targets_window r) no_target
required (other_action t) r = none

-- `Validate`
unfoldable pub validate : Input → Option Invalid
unfolding reject_extraneous required
validate r = or_error (require (is_known r.action) unknown_action) (
    or_error (require (is_button r.button) bad_button) (
      or_error (require (is_direction r.direction) bad_direction) (
        or_error (require (is_scope r.scope) bad_scope)
          (or_error (reject_extraneous r (allowed r.action)) (required r.action r)))))
