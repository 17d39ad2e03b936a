-- ===== src/Agent/Wire/Browse/Shape.antt =====
-- Which inputs of browser are valid, field by field and need by need.
use hadron_desktop.Base.{◌≡◌, ◌↔◌, ◌⊎◌, refl, Bool, true, false, none, All, arith}
use hadron_desktop.Base.Text.{is_empty}
use hadron_desktop.Agent.Wire.Fields.{or_error-eq_none, require-eq_none, has, reject-eq_none}
use hadron_desktop.Agent.Wire.Computer.{has_direction, is_direction}
use hadron_desktop.Agent.Wire.Browse.{
  Action, navigate, snapshot, click, type_text, press, scroll, back, page_text, other_action, Field,
  f_url, f_ref, f_text, f_submit, f_key, f_direction, f_amount, f_max_elements, f_window_id, Input,
  unknown_action, bad_direction, bit, fields, is_set, reject_extraneous, extraneous, is_known,
  allowed, required, validate,
}

-- The actions to which each field belongs; a window may be named for each of them.
abbrev pub accepts : Field → Action → Bool
accepts f_url navigate = true
accepts f_url a = false
accepts f_ref click = true
accepts f_ref type_text = true
accepts f_ref scroll = true
accepts f_ref page_text = true
accepts f_ref a = false
accepts f_text type_text = true
accepts f_text a = false
accepts f_submit type_text = true
accepts f_submit a = false
accepts f_key press = true
accepts f_key a = false
accepts f_direction scroll = true
accepts f_direction a = false
accepts f_amount scroll = true
accepts f_amount a = false
accepts f_max_elements snapshot = true
accepts f_max_elements a = false
accepts f_window_id a = true

-- What each action needs.
abbrev pub Needs : Action → Input → Type 0
Needs navigate r = is_empty r.url ≡ false
Needs snapshot r = Unit
Needs click r = is_empty r.ref ≡ false
Needs type_text r = (is_empty r.ref ≡ false) × (is_empty r.text ≡ false)
Needs press r = is_empty r.key_name ≡ false
Needs scroll r = has_direction r.direction ≡ true
Needs back r = Unit
Needs page_text r = Unit
Needs (other_action t) r = ⊥

pub record IsValid (r : Input) : Type 0 where
  pub direction_ok : is_direction r.direction ≡ true
  pub fields_ok : All (λ (f : Field). (is_set r f ≡ false) ⊎ (accepts f r.action ≡ true)) fields
  pub needs_ok : Needs r.action r

-- The list of an action's fields and the list of a field's actions are the same table.
accepts-agrees : (a : Action) (f : Field) → is_known a ≡ true → has bit (allowed a) f ≡ accepts f a
unfolding has
accepts-agrees navigate f_url h = refl
accepts-agrees navigate f h = refl
accepts-agrees snapshot f_url h = refl
accepts-agrees snapshot f h = refl
accepts-agrees click f_url h = refl
accepts-agrees click f h = refl
accepts-agrees type_text f_url h = refl
accepts-agrees type_text f h = refl
accepts-agrees press f_url h = refl
accepts-agrees press f h = refl
accepts-agrees scroll f_url h = refl
accepts-agrees scroll f h = refl
accepts-agrees back f_url h = refl
accepts-agrees back f h = refl
accepts-agrees page_text f_url h = refl
accepts-agrees page_text f h = refl
accepts-agrees (other_action t) f h = absurd (cc (h))

reject_iff :
    (r : Input) (a : Action)
    → is_known a ≡ true
    → (reject_extraneous r (allowed a) ≡ none)
      ↔ All (λ (f : Field). (is_set r f ≡ false) ⊎ (accepts f a ≡ true)) fields
unfolding reject_extraneous
reject_iff r a h =
    reject-eq_none bit extraneous (is_set r) fields (allowed a) (λ (f : Field). accepts f a)
      (λ f. accepts-agrees a f h)

required_iff : (a : Action) (r : Input) → is_known a ≡ true → (required a r ≡ none) ↔ Needs a r
unfolding required
required_iff navigate r h = ground arith
required_iff snapshot r h = (λ e. tt, λ e. refl)
required_iff click r h = ground arith
required_iff type_text r h = ground arith
required_iff press r h = ground arith
required_iff scroll r h = ground arith
required_iff back r h = (λ e. tt, λ e. refl)
required_iff page_text r h = (λ e. tt, λ e. refl)
required_iff (other_action t) r h = absurd (cc (h))

Needs-known : (a : Action) (r : Input) → Needs a r → is_known a ≡ true
Needs-known navigate r n = refl
Needs-known (other_action t) r n = absurd n
Needs-known a r n = refl

-- `Validate` accepts an input of browser exactly if its direction is a known word or absent, each
-- field that it sets belongs to its action, and it has what the action needs.
pub browser_validate_iff : (r : Input) → (validate r ≡ none) ↔ IsValid r
unfolding validate
browser_validate_iff r = (
  λ h.
      let (known, h1) = (require-eq_none (is_known r.action) unknown_action _).0 h in
      let (direction, h2) = (require-eq_none (is_direction r.direction) bad_direction _).0 h1 in
      let (allow, need) =
        (or_error-eq_none (reject_extraneous r (allowed r.action)) (required r.action r)).0 h2 in
      record {
        direction_ok = direction;
        fields_ok = (reject_iff r r.action known).0 allow;
        needs_ok = (required_iff r.action r known).0 need;
      },
  λ v.
      let known = Needs-known r.action r v.needs_ok in
      (require-eq_none (is_known r.action) unknown_action _).1 (
        known,
        (require-eq_none (is_direction r.direction) bad_direction _).1 (
          v.direction_ok,
          (or_error-eq_none (reject_extraneous r (allowed r.action)) (required r.action r)).1 (
            (reject_iff r r.action known).1 v.fields_ok,
            (required_iff r.action r known).1 v.needs_ok,
          ),
        ),
      ),
)
