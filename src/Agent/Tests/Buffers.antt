-- ===== src/Agent/Tests/Buffers.antt =====
-- The ring buffer, the capture and the limits.
use hadron_desktop.Base.{
  ℕ, ◌+◌, ◌^◌, ◌<◌, ◌≡◌, ◌↔◌, refl, true, false, some, List, [], ◌∷◌, length, drop,
}
use hadron_desktop.Agent.Ring.{Ring, new_ring, write, read_from}
use hadron_desktop.Agent.Ring.History.{Holds, new_ring-Holds, write-Holds, begins_at, read_from_lem}
use hadron_desktop.Agent.Capture.{CapWriter, clamp_timeout, clamp_cap}

abbrev written : Ring
written = write (3 ∷ 4 ∷ 5 ∷ []) (write (1 ∷ 2 ∷ []) (new_ring 4))

lost_one : (read_from 0 written).bytes ≡ 2 ∷ 3 ∷ 4 ∷ 5 ∷ []
unfolding read_from write new_ring
lost_one = refl

write-Holds_example : Holds (write (1 ∷ 2 ∷ []) (new_ring 4)) (1 ∷ 2 ∷ [])
write-Holds_example = write-Holds (1 ∷ 2 ∷ []) [] (new_ring 4) (new_ring-Holds 4)

written-Holds : Holds written (1 ∷ 2 ∷ 3 ∷ 4 ∷ 5 ∷ [])
written-Holds =
    write-Holds (3 ∷ 4 ∷ 5 ∷ []) (1 ∷ 2 ∷ []) (write (1 ∷ 2 ∷ []) (new_ring 4))
      (write-Holds (1 ∷ 2 ∷ []) [] (new_ring 4) (new_ring-Holds 4))

read_from_lem_example :
    let h : List ℕ = 1 ∷ 2 ∷ 3 ∷ 4 ∷ 5 ∷ [] in
    ((read_from 0 written).bytes ≡ drop (begins_at 0 (length h) written.cap) h)
    × ((read_from 0 written).next ≡ length h)
    × (((read_from 0 written).lost ≡ true) ↔ (0 + written.cap < length h))
read_from_lem_example = read_from_lem 0 (1 ∷ 2 ∷ 3 ∷ 4 ∷ 5 ∷ []) written written-Holds

abbrev fresh : CapWriter
fresh = record { limit = 3; buf = []; truncated = false }

wrapped : clamp_timeout (some (2 ^ 44)) 7 9 ≡ 7
unfolding clamp_timeout
wrapped = refl

capped : clamp_cap (some 5) 1 3 ≡ 3
unfolding clamp_cap
capped = refl
