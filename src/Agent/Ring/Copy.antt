-- ===== src/Agent/Ring/Copy.antt =====
-- Reading a buffer behind a copy, and the places of a window modulo its size.
use native.Mathlib.Nat.{mod-lt, mod-eq_of_lt, mod-add-mod, mod-eq-sub-mod}
use native.Mathlib.Decide.{dec_lt}
use hadron_desktop.Base.{
  ℕ, zero, suc, ◌+◌, ◌-◌, ◌%◌, ◌≤◌, ◌<◌, ◌≡◌, ◌⊎◌, inl, inr, refl, ap, sym, ◌∙◌, ◌&&◌, List, [],
  ◌∷◌, ◌++◌, length, take, get_or, leb, ltb, if◌then◌else◌, arith,
}
use hadron_desktop.Agent.Ring.{overwrite, copy_at}

length-overwrite : (buf p : List ℕ) → length (overwrite buf p) ≡ length buf
unfolding overwrite
length-overwrite [] p = refl
length-overwrite (b ∷ buf) [] = refl
length-overwrite (b ∷ buf) (c ∷ p) = ap suc (length-overwrite buf p)

pub length-copy_at : (off : ℕ) (buf p : List ℕ) → length (copy_at off buf p) ≡ length buf
unfolding copy_at
length-copy_at off [] p = refl
length-copy_at zero (b ∷ buf) p = length-overwrite (b ∷ buf) p
length-copy_at (suc off) (b ∷ buf) p = ap suc (length-copy_at off buf p)

get_or-overwrite :
    (buf p : List ℕ) (j : ℕ)
    → j < length buf
    → get_or (overwrite buf p) j 0 ≡ (if ltb j (length p) then get_or p j 0 else get_or buf j 0)
unfolding overwrite
get_or-overwrite [] p j h = elim h [ ]
get_or-overwrite (b ∷ buf) [] j h = ground arith
get_or-overwrite (b ∷ buf) (c ∷ p) zero h = ground arith
get_or-overwrite (b ∷ buf) (c ∷ p) (suc j) h = ground (arith, get_or-overwrite buf p j)

-- A copy writes its window and nothing else.
pub get_or-copy_at :
    (off : ℕ) (buf p : List ℕ) (j : ℕ)
    → j < length buf
    → get_or (copy_at off buf p) j 0
      ≡ (if leb off j && ltb j (off + length p) then get_or p (j - off) 0 else get_or buf j 0)
unfolding copy_at
get_or-copy_at off [] p j h = elim h [ ]
get_or-copy_at zero (b ∷ buf) p j h = ground (arith, get_or-overwrite (b ∷ buf) p j)
get_or-copy_at (suc off) (b ∷ buf) p zero h = ground arith
get_or-copy_at (suc off) (b ∷ buf) p (suc j) h = ground (arith, get_or-copy_at off buf p j)

pub get_or-append :
    (xs ys : List ℕ) (i : ℕ)
    → get_or (xs ++ ys) i 0
      ≡ (if ltb i (length xs) then get_or xs i 0 else get_or ys (i - length xs) 0)
get_or-append [] ys i = ground arith
get_or-append (x ∷ xs) ys zero = ground arith
get_or-append (x ∷ xs) ys (suc i) = ground (arith, get_or-append xs ys i)

pub get_or-take : (n : ℕ) (p : List ℕ) (i : ℕ) → i < n → get_or (take n p) i 0 ≡ get_or p i 0
get_or-take zero p i h = elim h [ ]
get_or-take (suc n) [] i h = refl
get_or-take (suc n) (x ∷ p) zero h = refl
get_or-take (suc n) (x ∷ p) (suc i) h = get_or-take n p i (omega arith)

-- A place behind the head, while the window does not wrap.
pub place_of_new :
    (cap total i n : ℕ)
    → total ≤ i
    → i < total + n
    → total % cap + n ≤ cap
    → i % cap ≡ total % cap + (i - total)
place_of_new cap total i n a b c =
    ap (λ (k : ℕ). k % cap) (omega arith)
    ∙ (sym (mod-add-mod total cap (i - total)) ∙ mod-eq_of_lt (omega arith))

-- A place that is kept lies outside the window.
pub place_of_old :
    (cap total i n : ℕ)
    → i < total
    → total + n ≤ i + cap
    → 0 < cap
    → (i % cap < total % cap) ⊎ (total % cap + n ≤ i % cap)
place_of_old cap total i n a b c =
    let z = i % cap in
    let y = total - i in
    let small : z < cap = mod-lt i c in
    let shift : total % cap ≡ (z + y) % cap =
      ap (λ (k : ℕ). k % cap) (omega arith) ∙ sym (mod-add-mod i cap y) in
    elim (dec_lt (z + y) cap) [
      | yes h ↦ let e : (z + y) % cap ≡ z + y = mod-eq_of_lt h in inl (omega arith)
      | no h ↦
          let e : (z + y) % cap ≡ (z + y - cap) % cap = mod-eq-sub-mod (omega arith) in
          let f : (z + y - cap) % cap ≡ z + y - cap = mod-eq_of_lt (omega arith) in
          inr (omega arith)
    ]
