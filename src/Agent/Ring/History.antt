-- ===== src/Agent/Ring/History.antt =====
-- The ring against the list of all bytes ever written to it.
use Prim.Native.Nat.{min}
use native.Mathlib.Nat.{mod-lt}
use native.Mathlib.Decide.{dec_lt}
use mathlib.Core.Path.{subst}
use hadron_desktop.Base.{
  ℕ, zero, suc, ◌+◌, ◌-◌, ◌%◌, ◌≤◌, ◌<◌, ◌≡◌, ◌↔◌, refl, ap, sym, ◌∙◌, true, List, [], ◌∷◌, ◌++◌,
  append-nil, append_assoc, length, length-append, length-take, length-drop, length-replicate,
  take-append-drop, take, drop, get_or, ltb, if◌then◌else◌, arith,
}
use hadron_desktop.Agent.Ring.{
  Ring, new_ring, copy_at, chunk, write_loop, write, collect, read_from,
}
use hadron_desktop.Agent.Ring.Copy.{
  length-copy_at, get_or-copy_at, get_or-append, get_or-take, place_of_new, place_of_old,
}

-- The ring holds the newest bytes of a history, each at its place modulo the capacity.
pub record Holds (r : Ring) (h : List ℕ) : Type 0 where
  pub has_room : 0 < r.cap
  pub sized : length r.buf ≡ r.cap
  pub counted : r.total ≡ length h
  pub newest :
      (i : ℕ) → i < length h → length h ≤ i + r.cap → get_or r.buf (i % r.cap) 0 ≡ get_or h i 0

pub new_ring-Holds : (capacity : ℕ) → Holds (new_ring capacity) []
unfolding new_ring
new_ring-Holds capacity = record {
  has_room = ground arith;
  sized = length-replicate _ 0;
  counted = refl;
  newest = λ i h. absurd (omega arith);
}

-- How many bytes one round takes.
abbrev taken : List ℕ → Ring → ℕ
taken p r = min (length r.buf - r.total % r.cap) (length p)

module _ (p h : List ℕ) (r : Ring) (w : Holds r h) where
  window_fits : r.total % r.cap + taken p r ≤ r.cap
  window_fits =
      let small : r.total % r.cap < r.cap = mod-lt r.total w.has_room in omega (arith, w.sized)

  newest_old :
      (i : ℕ)
      → i < length h
      → length h + taken p r ≤ i + r.cap
      → get_or (copy_at (r.total % r.cap) r.buf p) (i % r.cap) 0
        ≡ get_or (h ++ take (taken p r) p) i 0
  newest_old i a b =
      let small : i % r.cap < r.cap = mod-lt i w.has_room in
      ground (
        arith,
        w.sized,
        w.counted,
        window_fits,
        get_or-append h (take (taken p r) p) i,
        get_or-copy_at (r.total % r.cap) r.buf p (i % r.cap),
        place_of_old r.cap r.total i (taken p r),
        w.newest i a,
      )

  newest_new :
      (i : ℕ)
      → length h ≤ i
      → i < length h + taken p r
      → get_or (copy_at (r.total % r.cap) r.buf p) (i % r.cap) 0
        ≡ get_or (h ++ take (taken p r) p) i 0
  newest_new i a b =
      let small : i % r.cap < r.cap = mod-lt i w.has_room in
      let place : i % r.cap ≡ r.total % r.cap + (i - r.total) =
        place_of_new r.cap r.total i (taken p r) (omega (arith, w.counted))
          (omega (arith, w.counted)) window_fits in
      let same : i % r.cap - r.total % r.cap ≡ i - length h = omega (arith, w.counted) in
      ground (
        arith,
        w.sized,
        get_or-append h (take (taken p r) p) i,
        get_or-copy_at (r.total % r.cap) r.buf p (i % r.cap),
        get_or-take (taken p r) p (i - length h),
        ap (λ (k : ℕ). get_or p k 0) same,
      )

  chunk-Holds : Holds (chunk p r).0 (h ++ take (taken p r) p)
  unfolding chunk
  chunk-Holds =
      let grown : length (h ++ take (taken p r) p) ≡ length h + taken p r =
        omega (arith, length-append {0} h (take (taken p r) p), length-take {0} (taken p r) p) in
      record {
        has_room = w.has_room;
        sized = length-copy_at _ r.buf p ∙ w.sized;
        counted = omega (arith, w.counted, grown);
        newest = λ i a b. elim (dec_lt i (length h)) [
          | yes k ↦ newest_old i k (omega (arith, grown))
          | no k ↦ newest_new i (omega arith) (omega (arith, grown))
        ];
      }

write_loop-Holds :
    (fuel : ℕ) (p h : List ℕ) (r : Ring)
    → length p ≤ fuel
    → Holds r h
    → Holds (write_loop fuel p r) (h ++ p)
unfolding write_loop chunk
write_loop-Holds fuel [] h r e w = rw (append-nil h) w
write_loop-Holds zero (c ∷ p) h r e w = absurd (omega arith)
write_loop-Holds (suc fuel) (c ∷ p) h r e w =
    let n = taken (c ∷ p) r in
    let small : r.total % r.cap < r.cap = mod-lt r.total w.has_room in
    let shorter : length (drop n (c ∷ p)) ≤ fuel =
      omega (arith, w.sized, length-drop {0} n (c ∷ p)) in
    subst (Holds (write_loop fuel (drop n (c ∷ p)) (chunk (c ∷ p) r).0))
      (append_assoc h (take n (c ∷ p)) (drop n (c ∷ p))
        ∙ ap (λ (l : List ℕ). h ++ l) (take-append-drop n (c ∷ p)))
      (write_loop-Holds fuel (drop n (c ∷ p)) (h ++ take n (c ∷ p)) (chunk (c ∷ p) r).0 shorter
        (chunk-Holds (c ∷ p) h r w))

-- A write, of any length, extends the history by the bytes written, and keeps the ring on its
-- newest bytes.
pub write-Holds : (p h : List ℕ) (r : Ring) → Holds r h → Holds (write p r) (h ++ p)
unfolding write
write-Holds p h r w = write_loop-Holds (length p) p h r (omega arith) w

drop_all : (n : ℕ) (h : List ℕ) → length h ≤ n → drop n h ≡ []
drop_all zero [] e = refl
drop_all zero (c ∷ h) e = absurd (omega arith)
drop_all (suc n) [] e = refl
drop_all (suc n) (c ∷ h) e = drop_all n h (omega arith)

drop_next : (n : ℕ) (h : List ℕ) → n < length h → drop n h ≡ get_or h n 0 ∷ drop (suc n) h
drop_next n [] e = elim e [ ]
drop_next zero (c ∷ h) e = refl
drop_next (suc n) (c ∷ h) e = drop_next n h (omega arith)

collect-eq-drop :
    (n start : ℕ) (h : List ℕ) (r : Ring)
    → Holds r h
    → start + n ≡ length h
    → length h ≤ start + r.cap
    → collect start n r ≡ drop start h
unfolding collect
collect-eq-drop zero start h r w e b = sym (drop_all start h (omega arith))
collect-eq-drop (suc n) start h r w e b =
    let rest : collect (start + 1) n r ≡ drop (start + 1) h =
      collect-eq-drop n (start + 1) h r w (omega arith) (omega arith) in
    let here : get_or r.buf (start % r.cap) 0 ≡ get_or h start 0 =
      w.newest start (omega arith) (omega arith) in
    let one_on : start + 1 ≡ suc start = omega arith in
    let next : drop (start + 1) h ≡ drop (suc start) h = ap (λ (k : ℕ). drop k h) one_on in
    cc (rest, here, next, drop_next start h (omega arith))

-- Where a read begins: at the cursor, or at the oldest byte kept if that is later.
abbrev pub begins_at : ℕ → ℕ → ℕ → ℕ
begins_at cursor total cap = if ltb cursor (total - cap) then total - cap else cursor

-- Reading from a cursor returns the bytes of the history behind it that are still kept, all of
-- them if none was lost, with the head as the next cursor; and it reports a loss exactly if the
-- cursor lies in front of the oldest byte kept.
pub read_from_lem :
    (cursor : ℕ) (h : List ℕ) (r : Ring)
    → Holds r h
    → ((read_from cursor r).bytes ≡ drop (begins_at cursor (length h) r.cap) h)
      × ((read_from cursor r).next ≡ length h)
      × (((read_from cursor r).lost ≡ true) ↔ (cursor + r.cap < length h))
unfolding read_from
read_from_lem cursor h r w =
    let start = begins_at cursor (length h) r.cap in
    ground (arith, w.counted, drop_all start h, collect-eq-drop (length h - start) start h r w)
