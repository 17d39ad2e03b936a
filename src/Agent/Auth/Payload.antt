-- ===== src/Agent/Auth/Payload.antt =====
-- Which payloads are well formed, and which bearers.
use hadron_desktop.Base.{
  ℕ, suc, ◌≤◌, ◌≡◌, ◌↔◌, refl, ap, ◌∙◌, true, Option, none, some, [], ◌∷◌, length, All, arith,
}
use hadron_desktop.Base.Text.{Text}
use hadron_desktop.Agent.Auth.{
  is_url_char, count_char, count_chars, decoded_of, is_decoded, is_well_formed_payload,
}

-- 43 characters of the URL alphabet, which encode 32 bytes.
pub record IsPayload (p : Text) : Type 0 where
  pub sized : length p ≡ 43
  pub in_alphabet : All (λ (c : ℕ). is_url_char c ≡ true) p

Counts : (o : Option ℕ) (s : Text) → Type 0
Counts none s = Unit
Counts (some n) s = (n ≤ length s) × (n ≡ length s → All (λ (c : ℕ). is_url_char c ≡ true) s)

count_char-Counts : (c : ℕ) (s : Text) (o : Option ℕ) → Counts o s → Counts (count_char c o) (c ∷ s)
unfolding count_char Counts
count_char-Counts c s none h = tt
count_char-Counts c s (some n) h = ground arith

count_chars-Counts : (s : Text) → Counts (count_chars s) s
unfolding count_chars Counts
count_chars-Counts [] = (omega arith, λ e. tt)
count_chars-Counts (c ∷ s) = count_char-Counts c s (count_chars s) (count_chars-Counts s)

count_char_url : (c n : ℕ) → is_url_char c ≡ true → count_char c (some n) ≡ some (suc n)
unfolding count_char
count_char_url c n h = ground arith

count_chars_full :
    (s : Text) → All (λ (c : ℕ). is_url_char c ≡ true) s → count_chars s ≡ some (length s)
unfolding count_chars
count_chars_full [] h = refl
count_chars_full (c ∷ s) (h, hs) =
    ap (count_char c) (count_chars_full s hs) ∙ count_char_url c (length s) h

decoded_full :
    (s : Text) (o : Option ℕ)
    → length s ≡ 43
    → Counts o s
    → is_decoded (decoded_of o) ≡ true
    → IsPayload s
unfolding is_decoded decoded_of Counts
decoded_full s none e h d = cc
decoded_full s (some n) e (le, h) d = record { sized = e; in_alphabet = h (ground arith) }

-- A payload is accepted exactly if it is 43 characters of the URL alphabet.
pub is_well_formed_payload_iff : (p : Text) → (is_well_formed_payload p ≡ true) ↔ IsPayload p
unfolding is_well_formed_payload
is_well_formed_payload_iff p = (
  λ h. decoded_full p (count_chars p) (ground arith) (count_chars-Counts p) (ground arith),
  λ w. rw (count_chars_full p w.in_alphabet, w.sized),
)
