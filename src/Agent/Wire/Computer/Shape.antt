-- ===== src/Agent/Wire/Computer/Shape.antt =====
-- Which inputs of computer_use are valid, field by field and need by need.
use hadron_desktop.Base.{◌≡◌, ◌↔◌, ◌⊎◌, refl, Bool, true, false, Option, none, All, arith}
use hadron_desktop.Base.Text.{is_empty, is_some}
use hadron_desktop.Agent.Wire.Fields.{or_error-eq_none, require-eq_none, has, reject-eq_none}
use hadron_desktop.Agent.Wire.Computer.{
  Action, capture, accessibility, click, double_click, drag, scroll, type_text, key, wait,
  list_applications, focus_application, other_action, Field, f_scope, f_pid, f_window_id,
  f_element_index, f_x, f_y, f_from_x, f_from_y, f_to_x, f_to_y, f_button, f_direction, f_amount,
  f_text, f_key, f_modifiers, f_duration_ms, f_query, f_max_elements, f_max_depth, Input,
  unknown_action, bad_button, bad_direction, bad_scope, bit, fields, is_set, reject_extraneous,
  extraneous, is_known, is_scope, is_button, is_direction, is_window, is_amount, is_duration,
  has_direction, allowed, require_point, required, validate,
}

-- The actions to which each field belongs.
abbrev pub accepts : Field → Action → Bool
accepts f_scope capture = true
accepts f_scope accessibility = true
accepts f_scope a = false
accepts f_pid wait = false
accepts f_pid list_applications = false
accepts f_pid a = true
accepts f_window_id wait = false
accepts f_window_id list_applications = false
accepts f_window_id a = true
accepts f_element_index click = true
accepts f_element_index double_click = true
accepts f_element_index type_text = true
accepts f_element_index a = false
accepts f_x click = true
accepts f_x double_click = true
accepts f_x scroll = true
accepts f_x a = false
accepts f_y click = true
accepts f_y double_click = true
accepts f_y scroll = true
accepts f_y a = false
accepts f_from_x drag = true
accepts f_from_x a = false
accepts f_from_y drag = true
accepts f_from_y a = false
accepts f_to_x drag = true
accepts f_to_x a = false
accepts f_to_y drag = true
accepts f_to_y a = false
accepts f_button click = true
accepts f_button double_click = true
accepts f_button drag = true
accepts f_button a = false
accepts f_direction scroll = true
accepts f_direction a = false
accepts f_amount scroll = true
accepts f_amount a = false
accepts f_text type_text = true
accepts f_text a = false
accepts f_key key = true
accepts f_key a = false
accepts f_modifiers key = true
accepts f_modifiers a = false
accepts f_duration_ms wait = true
accepts f_duration_ms a = false
accepts f_query accessibility = true
accepts f_query list_applications = true
accepts f_query a = false
accepts f_max_elements accessibility = true
accepts f_max_elements a = false
accepts f_max_depth accessibility = true
accepts f_max_depth a = false

abbrev Given {ℓ} : {A : Type ℓ} → Option A → Type 0
Given o = is_some o ≡ true

abbrev Targets : Input → Type 0
Targets r = Given r.pid ⊎ Given r.window_id

abbrev AtPoint : Input → Type 0
AtPoint r =
    (Given r.x × Given r.y)
    ⊎ (Given r.element_index × (is_some r.x ≡ false) × (is_some r.y ≡ false))

-- What each action needs.
abbrev pub Needs : Action → Input → Type 0
Needs capture r = (is_window r.scope ≡ false) ⊎ Targets r
Needs accessibility r = (is_window r.scope ≡ false) ⊎ Targets r
Needs click r = AtPoint r
Needs double_click r = AtPoint r
Needs drag r = Given r.from_x × Given r.from_y × Given r.to_x × Given r.to_y
Needs scroll r = (has_direction r.direction ≡ true) × (is_amount r.amount ≡ true)
Needs type_text r = is_empty r.text ≡ false
Needs key r = is_empty r.key_name ≡ false
Needs wait r = is_duration r.duration_ms ≡ true
Needs list_applications r = Unit
Needs focus_application r = Targets r
Needs (other_action t) r = ⊥

pub record IsValid (r : Input) : Type 0 where
  pub button_ok : is_button r.button ≡ true
  pub direction_ok : is_direction r.direction ≡ true
  pub scope_ok : is_scope r.scope ≡ true
  pub fields_ok : All (λ (f : Field). (is_set r f ≡ false) ⊎ (accepts f r.action ≡ true)) fields
  pub needs_ok : Needs r.action r

-- The list of an action's fields and the list of a field's actions are the same table.
accepts-agrees : (a : Action) (f : Field) → is_known a ≡ true → has bit (allowed a) f ≡ accepts f a
unfolding has
accepts-agrees capture f_scope h = refl
accepts-agrees capture f h = refl
accepts-agrees accessibility f_scope h = refl
accepts-agrees accessibility f h = refl
accepts-agrees click f_scope h = refl
accepts-agrees click f h = refl
accepts-agrees double_click f_scope h = refl
accepts-agrees double_click f h = refl
accepts-agrees drag f_scope h = refl
accepts-agrees drag f h = refl
accepts-agrees scroll f_scope h = refl
accepts-agrees scroll f h = refl
accepts-agrees type_text f_scope h = refl
accepts-agrees type_text f h = refl
accepts-agrees key f_scope h = refl
accepts-agrees key f h = refl
accepts-agrees wait f_scope h = refl
accepts-agrees wait f h = refl
accepts-agrees list_applications f_scope h = refl
accepts-agrees list_applications f h = refl
accepts-agrees focus_application f_scope h = refl
accepts-agrees focus_application f h = refl
accepts-agrees (other_action t) f h = absurd (cc (h))

reject_iff :
    (r : Input) (a : Action)
    → is_known a ≡ true
    → (reject_extraneous r (allowed a) ≡ none)
      ↔ All (λ (f : Field). (is_set r f ≡ false) ⊎ (accepts f a ≡ true)) fields
unfolding reject_extraneous
reject_iff r a h =
    reject-eq_none bit extraneous (is_set r) fields (allowed a) (λ (f : Field). accepts f a)
      (λ f. accepts-agrees a f h)

required_iff : (a : Action) (r : Input) → is_known a ≡ true → (required a r ≡ none) ↔ Needs a r
unfolding required require_point
required_iff capture r h = ground arith
required_iff accessibility r h = ground arith
required_iff click r h = ground arith
required_iff double_click r h = ground arith
required_iff drag r h = ground arith
required_iff scroll r h = ground arith
required_iff type_text r h = ground arith
required_iff key r h = ground arith
required_iff wait r h = ground arith
required_iff list_applications r h = (λ e. tt, λ e. refl)
required_iff focus_application r h = ground arith
required_iff (other_action t) r h = absurd (cc (h))

Needs-known : (a : Action) (r : Input) → Needs a r → is_known a ≡ true
Needs-known capture r n = refl
Needs-known (other_action t) r n = absurd n
Needs-known a r n = refl

-- `Validate` accepts an input of computer_use exactly if its button, direction and scope are known
-- words or absent, each field that it sets belongs to its action, and it has what the action needs.
pub validate_iff : (r : Input) → (validate r ≡ none) ↔ IsValid r
unfolding validate
validate_iff r = (
  λ h.
      let (known, h1) = (require-eq_none (is_known r.action) unknown_action _).0 h in
      let (button, h2) = (require-eq_none (is_button r.button) bad_button _).0 h1 in
      let (direction, h3) = (require-eq_none (is_direction r.direction) bad_direction _).0 h2 in
      let (scope, h4) = (require-eq_none (is_scope r.scope) bad_scope _).0 h3 in
      let (allow, need) =
        (or_error-eq_none (reject_extraneous r (allowed r.action)) (required r.action r)).0 h4 in
      record {
        button_ok = button;
        direction_ok = direction;
        scope_ok = scope;
        fields_ok = (reject_iff r r.action known).0 allow;
        needs_ok = (required_iff r.action r known).0 need;
      },
  λ v.
      let known = Needs-known r.action r v.needs_ok in
      (require-eq_none (is_known r.action) unknown_action _).1 (
        known,
        (require-eq_none (is_button r.button) bad_button _).1 (
          v.button_ok,
          (require-eq_none (is_direction r.direction) bad_direction _).1 (
            v.direction_ok,
            (require-eq_none (is_scope r.scope) bad_scope _).1 (
              v.scope_ok,
              (or_error-eq_none (reject_extraneous r (allowed r.action)) (required r.action r)).1 (
                (reject_iff r r.action known).1 v.fields_ok,
                (required_iff r.action r known).1 v.needs_ok,
              ),
            ),
          ),
        ),
      ),
)
