-- ===== src/Agent/Provision/Stored/Rotating.antt =====
-- What the services read back is what was configured or rotated.
use hadron_desktop.Base.{
  ℕ, ◌+◌, ◌-◌, ◌%◌, ◌^◌, ◌≤◌, ◌<◌, Bool, true, false, Option, none, some, [], ◌∷◌, ◌≡◌, ◌≢◌, refl,
  sym, ap, ltb, ◌==◌, Bool-cases, if◌then◌else◌, inl, inr, arith,
}
use hadron_desktop.Base.Text.{Text, is_empty, text_eq, text_eq_iff}
use hadron_desktop.Agent.Auth.{
  RotationConfig, DigestError, ConfigError, bad_current, bad_previous, or_config, validate_digest,
  validate_rotation, max_rotation_overlap,
}
use hadron_desktop.Agent.Provision.{validate_previous, validate_auth_pair}
use hadron_desktop.Agent.Provision.Stored.{
  Rotation, rotation_from_config, restored, with_until, auth_rotation, make_rotation, until_of,
}

or_config-eq_none :
    (f : DigestError → ConfigError) (o : Option DigestError) (next : Option ConfigError)
    → or_config f o next ≡ none
    → next ≡ none
or_config-eq_none f none next e = e
or_config-eq_none f (some x) next e = cc (e)

else_of {ℓ} :
    {A : Type ℓ} {b : Bool} (x y : A) {z : A} → b ≡ false → (if b then x else y) ≡ z → y ≡ z
else_of {b = true} x y e h = absurd (cc (e))
else_of {b = false} x y e h = h

then_of {ℓ} :
    {A : Type ℓ} {b : Bool} (x y : A) {z : A} → b ≡ true → (if b then x else y) ≡ z → x ≡ z
then_of {b = true} x y e h = h
then_of {b = false} x y e h = absurd (cc (e))

-- A pair that passes has a previous digest exactly if it has an instant.
validate_previous-eq_none :
    (current previous : Text) (t now : ℕ)
    → validate_previous current previous t now ≡ none
    → is_empty previous ≡ (t == 0)
unfolding validate_previous
validate_previous-eq_none current previous t now v = elim (Bool-cases (is_empty previous)) [
  | inl e ↦ let w = then_of _ _ e v in ground arith
  | inr e ↦
      let w = or_config-eq_none bad_previous (validate_digest previous) _ (else_of _ _ e v) in
      ground arith
]

validate_auth_pair-eq_none :
    (current previous : Text) (t now : ℕ)
    → validate_auth_pair current previous t now ≡ none
    → validate_previous current previous t now ≡ none
unfolding validate_auth_pair
validate_auth_pair-eq_none current previous t now v = elim (Bool-cases (is_empty current)) [
  | inl e ↦ then_of _ _ e v
  | inr e ↦ or_config-eq_none bad_current (validate_digest current) _ (else_of _ _ e v)
]

auth_rotation-both :
    (parse_time : Text → Option ℕ) (c p s : Text) (t : ℕ)
    → is_empty p ≡ false
    → is_empty s ≡ false
    → parse_time s ≡ some t
    → auth_rotation parse_time (record { current = c; previous = p; previous_valid_until = s })
      ≡ restored (record { current = c; previous = p; previous_valid_until = t })
unfolding auth_rotation with_until
auth_rotation-both parse_time c p s t e n z = rw (e, n, z) refl

auth_rotation-current :
    (parse_time : Text → Option ℕ) (c : Text)
    → auth_rotation parse_time (record { current = c; previous = []; previous_valid_until = [] })
      ≡ restored (record { current = c; previous = []; previous_valid_until = 0 })
unfolding auth_rotation is_empty
auth_rotation-current parse_time c = refl

-- The reading of a rotation that is stored with an instant exactly if it has a previous digest.
auth_rotation-stored :
    (parse_time : Text → Option ℕ) (c p s : Text) (t : ℕ)
    → is_empty p ≡ (t == 0)
    → is_empty s ≡ false
    → parse_time s ≡ some t
    → auth_rotation parse_time
        (record { current = c; previous = p; previous_valid_until = if t == 0 then [] else s })
      ≡ restored (record { current = c; previous = p; previous_valid_until = t })
unfolding auth_rotation with_until is_empty
auth_rotation-stored parse_time c [] s t q n z =
    let zero : 0 ≡ t = ground arith in
    rw (sym q)
      (ap (λ u. restored (record { current = c; previous = []; previous_valid_until = u })) zero)
auth_rotation-stored parse_time c (d ∷ p) s t q n z = rw (sym q, n, z) refl

-- What Materialize writes for a class is what the services read back: the three values of a class
-- whose pair passes and whose instant keeps its value through the format and its reverse.
pub auth_rotation-rotation_from_config :
    (format_time : ℕ → Text) (parse_time : Text → Option ℕ) (r : RotationConfig) (now : ℕ)
    → validate_auth_pair r.current r.previous r.previous_valid_until now ≡ none
    → is_empty (format_time r.previous_valid_until) ≡ false
    → parse_time (format_time r.previous_valid_until) ≡ some r.previous_valid_until
    → auth_rotation parse_time
        (rotation_from_config format_time r.current r.previous r.previous_valid_until)
      ≡ restored r
unfolding rotation_from_config
auth_rotation-rotation_from_config format_time parse_time r now v n p =
    auth_rotation-stored parse_time r.current r.previous (format_time r.previous_valid_until)
      r.previous_valid_until
      (validate_previous-eq_none r.current r.previous r.previous_valid_until now
        (validate_auth_pair-eq_none r.current r.previous r.previous_valid_until now v))
      n p

validate_rotation-current :
    (c : Text) (now : ℕ)
    → validate_digest c ≡ none
    → validate_rotation now (record { current = c; previous = []; previous_valid_until = 0 }) ≡ none
unfolding validate_rotation is_empty
validate_rotation-current c now vc = rw vc refl

validate_rotation-eq_none :
    (c p : Text) (u now : ℕ)
    → validate_digest c ≡ none
    → validate_digest p ≡ none
    → is_empty p ≡ false
    → text_eq p c ≡ false
    → 0 < u
    → u ≤ now + max_rotation_overlap
    → validate_rotation now (record { current = c; previous = p; previous_valid_until = u }) ≡ none
unfolding validate_rotation
validate_rotation-eq_none c p u now vc vp e d some_time bound =
    let zero : (u == 0) ≡ false = ground arith in
    let long : ltb max_rotation_overlap (u - now) ≡ false = ground arith in
    rw (vc, vp, e, d, zero, long) refl

whole_seconds :
    (now overlap : ℕ)
    → 10 ^ 9 ≤ now
    → overlap ≤ max_rotation_overlap
    → (0 < now + overlap - (now + overlap) % 10 ^ 9)
      × (now + overlap - (now + overlap) % 10 ^ 9 ≤ now + max_rotation_overlap)
whole_seconds now overlap late bound = (omega arith, omega arith)

text_eq-eq_false : (s t : Text) → t ≢ s → text_eq s t ≡ false
text_eq-eq_false s t d = elim (Bool-cases (text_eq s t)) [
  | inl e ↦ absurd (d (sym ((text_eq_iff s t).0 e)))
  | inr e ↦ e
]

-- The rotation that Rotate makes of a class whose current digest is well formed and differs from the
-- new one, at most the longest overlap, is one that the services read back and the verifier accepts
-- at that instant: it has the new digest and, under an overlap, the old one until the end of the
-- overlap in whole seconds.
pub make_rotation-validate_rotation :
    (format_time : ℕ → Text) (parse_time : Text → Option ℕ) (old : Rotation) (digest : Text)
    (now overlap : ℕ)
    → is_empty (format_time (now + overlap)) ≡ false
    → parse_time (format_time (now + overlap)) ≡ some (now + overlap - (now + overlap) % 10 ^ 9)
    → validate_digest digest ≡ none
    → is_empty old.current ≡ false
    → validate_digest old.current ≡ none
    → digest ≢ old.current
    → 10 ^ 9 ≤ now
    → overlap ≤ max_rotation_overlap
    → (r : RotationConfig) × (auth_rotation parse_time
          (make_rotation old digest (until_of format_time now overlap) overlap)
        ≡ restored r)
      × (validate_rotation now r ≡ none)
      × (r.current ≡ digest)
      × (r.previous ≡ (if ltb 0 overlap then old.current else []))
      × (r.previous_valid_until
          ≡ (if ltb 0 overlap then now + overlap - (now + overlap) % 10 ^ 9 else 0))
unfolding make_rotation until_of
make_rotation-validate_rotation format_time parse_time old digest now overlap f p vd set vo ne late
      bound =
    elim (Bool-cases (ltb 0 overlap)) [
      | inl e ↦
          let (low, high) = whole_seconds now overlap late bound in
          rw (e, set)
            (
              record {
                current = digest;
                previous = old.current;
                previous_valid_until = now + overlap - (now + overlap) % 10 ^ 9;
              },
              auth_rotation-both parse_time digest old.current (format_time (now + overlap)) _ set f
                  p,
              validate_rotation-eq_none digest old.current _ now vd vo set
                  (text_eq-eq_false old.current digest ne) low high,
              refl,
              refl,
              refl,
            )
      | inr e ↦ rw e (
        record { current = digest; previous = []; previous_valid_until = 0 },
        auth_rotation-current parse_time digest,
        validate_rotation-current digest now vd,
        refl,
        refl,
        refl,
      )
    ]
