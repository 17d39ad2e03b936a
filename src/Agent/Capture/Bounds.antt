-- ===== src/Agent/Capture/Bounds.antt =====
-- What a capture keeps, and the range of the limits.
use mathlib.Core.Path.{subst}
use hadron_desktop.Base.{
  ℕ, zero, suc, ◌+◌, ◌-◌, ◌≤◌, ◌<◌, ◌≡◌, ◌⊎◌, inl, refl, ap, sym, ◌∙◌, false, Option, none, some,
  List, [], ◌∷◌, ◌++◌, append-nil, append_assoc, length, length-append, length-take, take, leb, ltb,
  ◌==◌, if◌then◌else◌, if_cases, arith,
}
use hadron_desktop.Agent.Capture.{CapWriter, write, drain, clamp_timeout}

-- All the bytes of a stream, in order.
abbrev pub concat : List (List ℕ) → List ℕ
concat [] = []
concat (p ∷ reads) = p ++ concat reads

-- The capture of a history of bytes: all of it without a limit, else its first bytes up to the
-- limit, and whether more came.
pub record Captures (w : CapWriter) (limit : ℕ) (h : List ℕ) : Type 0 where
  pub same_limit : w.limit ≡ limit
  pub kept : w.buf ≡ (if limit == 0 then h else take limit h)
  pub flagged : w.truncated ≡ (if limit == 0 then false else ltb limit (length h))

take_all : (n : ℕ) (h : List ℕ) → length h ≤ n → take n h ≡ h
take_all zero [] e = refl
take_all zero (c ∷ h) e = absurd (omega arith)
take_all (suc n) [] e = refl
take_all (suc n) (c ∷ h) e = ap (λ (l : List ℕ). c ∷ l) (take_all n h (omega arith))

take-append : (n : ℕ) (h p : List ℕ) → take n (h ++ p) ≡ take n h ++ take (n - length h) p
take-append zero [] p = refl
take-append zero (c ∷ h) p = let e : 0 - suc (length h) ≡ 0 = omega arith in rw (e) refl
take-append (suc n) [] p = let e : suc n ≡ suc n - 0 = omega arith in ap (λ (k : ℕ). take k p) e
take-append (suc n) (c ∷ h) p =
    let e : suc n - suc (length h) ≡ n - length h = omega arith in
    let rest : take n (h ++ p) ≡ take n h ++ take (n - length h) p = take-append n h p in
    ap (λ (l : List ℕ). c ∷ l) (rest ∙ ap (λ (k : ℕ). take n h ++ take k p) (sym e))

take_fits : (n : ℕ) (h p : List ℕ) → length h + length p ≤ n → take n (h ++ p) ≡ take n h ++ p
take_fits n h p e =
    take-append n h p ∙ ap (λ (l : List ℕ). take n h ++ l) (take_all (n - length h) p (omega arith))

take_full : (n : ℕ) (h p : List ℕ) → n ≤ length h → take n (h ++ p) ≡ take n h
take_full n h p e =
    let none_left : n - length h ≡ 0 = omega arith in
    take-append n h p ∙ ap (λ (k : ℕ). take n h ++ take k p) none_left ∙ append-nil (take n h)

take_empty : (n : ℕ) (h p : List ℕ) → length p ≡ 0 → take n (h ++ p) ≡ take n h
take_empty n h [] e = ap (λ (l : List ℕ). take n l) (append-nil h)
take_empty n h (c ∷ p) e = absurd (omega arith)

write-Captures :
    (p : List ℕ) (w : CapWriter) (limit : ℕ) (h : List ℕ)
    → Captures w limit h
    → Captures (write p w) limit (h ++ p)
unfolding write
write-Captures p w limit h c =
    if_cases (λ r. Captures r limit (h ++ p)) (w.limit == 0) _ _
      (λ e. record { same_limit = c.same_limit; kept = ground arith; flagged = ground arith })
      (λ e.
        if_cases (λ r. Captures r limit (h ++ p)) (ltb (length w.buf) w.limit) _ _
          (λ e2.
            if_cases (λ r. Captures r limit (h ++ p)) (leb (length p) (w.limit - length w.buf)) _ _
              (λ e3. record {
                same_limit = c.same_limit;
                kept = ground (arith, length-take limit h, take_fits limit h p);
                flagged = ground (arith, length-append h p, length-take limit h);
              })
              (λ e3. record {
                same_limit = c.same_limit;
                kept = ground (arith, length-take limit h, take-append limit h p);
                flagged = ground (arith, length-append h p, length-take limit h);
              }))
          (λ e2.
            if_cases (λ r. Captures r limit (h ++ p)) (ltb 0 (length p)) _ _
              (λ e3. record {
                same_limit = c.same_limit;
                kept = ground (arith, length-take limit h, take_full limit h p);
                flagged = ground (arith, length-append h p, length-take limit h);
              })
              (λ e3. record {
                same_limit = c.same_limit;
                kept =
                    ground (arith, length-take limit h, take_empty limit h p, take_full limit h p);
                flagged = ground (arith, length-append h p, length-take limit h);
              })))

-- A capture without a limit keeps every byte that its stream was read in, and one with a limit
-- keeps the first bytes up to the limit and is marked truncated exactly if more bytes came; the
-- same holds after more reads.
pub drain-Captures :
    (reads : List (List ℕ)) (w : CapWriter) (limit : ℕ) (h : List ℕ)
    → Captures w limit h
    → Captures (drain reads w) limit (h ++ concat reads)
unfolding drain
drain-Captures [] w limit h c = subst (λ l. Captures w limit l) (sym (append-nil h)) c
drain-Captures (p ∷ reads) w limit h c =
    subst (λ l. Captures (drain reads (write p w)) limit l) (append_assoc h p (concat reads))
      (drain-Captures reads (write p w) limit (h ++ p) (write-Captures p w limit h c))

-- The resolved timeout is the default, or else positive and at most the ceiling, if that is
-- positive.
pub clamp_timeout_bounds :
    (ms : Option ℕ) (def max : ℕ)
    → 0 < max
    → (clamp_timeout ms def max ≡ def)
      ⊎ ((clamp_timeout ms def max ≤ max) × (0 < clamp_timeout ms def max))
unfolding clamp_timeout
clamp_timeout_bounds none def max h = inl refl
clamp_timeout_bounds (some ms) def max h = ground arith
