-- ===== src/Agent/Wire/Fields.antt =====
-- agent/internal/api: the checks that the inputs of computer_use and of browser share. A bitmask of
-- fields is the list of its bits, a field known by the number of its bit.
use hadron_desktop.Base.{
  ℕ, ◌≡◌, ◌↔◌, ◌⊎◌, inl, inr, refl, sym, ◌∙◌, Bool, true, false, not, ◌||◌, Option, none, some,
  List, [], ◌∷◌, All, ◌==◌, if◌then◌else◌, Bool-cases, arith,
}
use hadron_desktop.Base.Picks.{All-mono}

-- The first error.
abbrev pub or_error {ℓ} : {E : Type ℓ} → Option E → Option E → Option E
or_error none next = next
or_error (some e) next = some e

abbrev pub require {ℓ} : {E : Type ℓ} → Bool → E → Option E
require test e = if test then none else some e

pub or_error-eq_none {ℓ} :
    {E : Type ℓ} (a b : Option E) → (or_error a b ≡ none) ↔ ((a ≡ none) × (b ≡ none))
or_error-eq_none none b = (λ h. (refl, h), λ (e, h). h)
or_error-eq_none (some e) b = (λ h. absurd (cc (h)), λ (k, h). absurd (cc (k)))

-- A check in front of the others.
pub require-eq_none {ℓ} :
    {E : Type ℓ} (test : Bool) (e : E) (next : Option E)
    → (or_error (require test e) next ≡ none) ↔ ((test ≡ true) × (next ≡ none))
require-eq_none true e next = (λ h. (refl, h), λ (t, h). h)
require-eq_none false e next = (λ h. absurd (cc (h)), λ (t, h). absurd (cc (t)))

module _ {ℓ} {F : Type ℓ} (bit : F → ℕ) where
  unfoldable pub has : List F → F → Bool
  has [] f = false
  has (g ∷ gs) f = bit g == bit f || has gs f

  -- The fields of the list that pass a test.
  pub keep : (F → Bool) → List F → List F
  keep test [] = []
  keep test (f ∷ fs) = let rest = keep test fs in if test f then f ∷ rest else rest

  -- `presentFields() &^ allowed`
  unfoldable pub extra : (F → Bool) → List F → List F → List F
  unfolding has keep
  extra is_set fields allowed = keep (λ f. not (has allowed f)) (keep is_set fields)

  pub extra-eq_nil :
      (is_set : F → Bool) (fields allowed : List F)
      → (extra is_set fields allowed ≡ [])
        ↔ All (λ (f : F). (is_set f ≡ false) ⊎ (has allowed f ≡ true)) fields
  unfolding extra
  extra-eq_nil is_set [] allowed = (λ h. tt, λ h. refl)
  extra-eq_nil is_set (f ∷ fs) allowed =
      let ih = extra-eq_nil is_set fs allowed in
      elim (Bool-cases (is_set f)) [
        | inr e ↦ rw e (λ h. (inl refl, ih.0 h), λ (g, gs). ih.1 gs)
        | inl e ↦ elim (Bool-cases (has allowed f)) [
          | inl k ↦ rw (e, k) (λ h. (inr refl, ih.0 h), λ (g, gs). ih.1 gs)
          | inr k ↦ rw (e, k) (λ h. absurd (cc (h)), λ (g, gs). absurd (ground arith))
        ]
      ]

  of_extra {κ} : {E : Type κ} → (List F → E) → List F → Option E
  of_extra err [] = none
  of_extra err (f ∷ fs) = some (err (f ∷ fs))

  -- `rejectExtraneous`, with an error that names the fields.
  unfoldable pub reject {κ} : {E : Type κ} → (List F → E) → (F → Bool) → List F → List F → Option E
  unfolding of_extra extra
  reject err is_set fields allowed = of_extra err (extra is_set fields allowed)

  of_extra-eq_none {κ} :
      {E : Type κ} (err : List F → E) (fs : List F) → (of_extra err fs ≡ none) ↔ (fs ≡ [])
  unfolding of_extra
  of_extra-eq_none err [] = (λ e. refl, λ e. refl)
  of_extra-eq_none err (f ∷ fs) = (λ e. absurd (cc (e)), λ e. absurd (cc (e)))

  -- A table may be put for another that agrees with it.
  swap_table :
      (is_set s t : F → Bool)
      → ((f : F) → s f ≡ t f)
      → (f : F) → (is_set f ≡ false) ⊎ (s f ≡ true)
      → (is_set f ≡ false) ⊎ (t f ≡ true)
  swap_table is_set s t same f (inl e) = inl e
  swap_table is_set s t same f (inr e) = inr (sym (same f) ∙ e)

  -- Nothing is rejected exactly if every field that is set stands in the table.
  pub reject-eq_none {κ} :
      {E : Type κ} (err : List F → E) (is_set : F → Bool) (fields allowed : List F)
      (table : F → Bool)
      → ((f : F) → has allowed f ≡ table f)
      → (reject err is_set fields allowed ≡ none)
        ↔ All (λ (f : F). (is_set f ≡ false) ⊎ (table f ≡ true)) fields
  unfolding reject
  reject-eq_none err is_set fields allowed table same =
      let none_extra = of_extra-eq_none err (extra is_set fields allowed) in
      let listed = extra-eq_nil is_set fields allowed in
      (
        λ e.
            All-mono _ _ (swap_table is_set (has allowed) table same) fields
              (listed.0 (none_extra.0 e)),
        λ k. none_extra.1 (
            listed.1
              (All-mono _ _ (swap_table is_set table (has allowed) (λ f. sym (same f))) fields k)),
      )
