-- ===== src/Agent/Capture.antt =====
-- agent/internal/process/manager.go: the bounded capture of a terminal call's stream, and the
-- resolution of the caller's limits.
pub mod Bounds
use hadron_desktop.Base.{
  ℕ, ◌+◌, ◌-◌, ◌*◌, ◌%◌, ◌^◌, Bool, true, false, ◌&&◌, Option, none, some, List, [], ◌∷◌, ◌++◌,
  length, take, ltb, leb, ◌==◌, if◌then◌else◌,
}

-- A limit of 0 stands for every limit that is not positive.
pub record CapWriter : Type 0 where
  pub limit : ℕ
  pub buf : List ℕ
  pub truncated : Bool

-- `Write(p)`; it always answers that it took all of `p`.
pub write : List ℕ → CapWriter → CapWriter
write p w =
    if w.limit == 0
    then record w { buf = w.buf ++ p }
    else if ltb (length w.buf) w.limit
    then if leb (length p) (w.limit - length w.buf)
      then record w { buf = w.buf ++ p }
      else record w { buf = w.buf ++ take (w.limit - length w.buf) p; truncated = true }
    else if ltb 0 (length p)
    then record w { truncated = true }
    else w

-- `drainInto`: the reads of a stream, each written as it arrives.
pub drain : List (List ℕ) → CapWriter → CapWriter
drain [] w = w
drain (p ∷ reads) w = drain reads (write p w)

-- A `time.Duration`, an int64 of nanoseconds, by its bit pattern.
abbrev is_positive : ℕ → Bool
is_positive d = ltb 0 d && ltb d (2 ^ 63)

-- `clampTimeout(ms, def, max)`. The caller's `int` and the product with a millisecond are 64 bits
-- wide and wrap; they are given by their bit patterns, the defaults are not negative.
unfoldable pub clamp_timeout : Option ℕ → ℕ → ℕ → ℕ
clamp_timeout none def max = def
clamp_timeout (some ms) def max =
    let d = ms * 1_000_000 % 2 ^ 64 in if is_positive d then if ltb max d then max else d else def

-- `clampCap(n, def, max)`, the caller's `int` by its bit pattern.
unfoldable pub clamp_cap : Option ℕ → ℕ → ℕ → ℕ
clamp_cap none def max = def
clamp_cap (some n) def max = if is_positive n then if ltb max n then max else n else def
