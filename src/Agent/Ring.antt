-- ===== src/Agent/Ring.antt =====
-- agent/internal/process/manager.go: the ring buffer of a tracked process's stream. The total is an
-- unbounded number: the source's int64 wraps only after 2^63 bytes.
pub mod Copy
pub mod History
use hadron_desktop.Base.{
  ℕ, zero, suc, ◌+◌, ◌-◌, ◌*◌, ◌%◌, ◌^◌, Bool, true, false, List, [], ◌∷◌, length, drop, get_or,
  replicate, ltb, leb, ◌==◌, if◌then◌else◌,
}
use Prim.Native.Nat.{min}

pub record Ring : Type 0 where
  pub buf : List ℕ
  pub cap : ℕ
  pub total : ℕ

-- `DefaultRingSize`
abbrev pub default_ring_size : ℕ
default_ring_size = 2 ^ 20

-- `newRing(capacity)`; a capacity that is not positive reads as 0 here.
unfoldable pub new_ring : ℕ → Ring
new_ring capacity =
    let cap = if capacity == 0 then default_ring_size else capacity in
    record { buf = replicate cap 0; cap = cap; total = 0 }

-- Go's `copy(buf[off:], p)`.
overwrite : List ℕ → List ℕ → List ℕ
overwrite [] p = []
overwrite (b ∷ buf) [] = b ∷ buf
overwrite (b ∷ buf) (c ∷ p) = c ∷ overwrite buf p

pub copy_at : ℕ → List ℕ → List ℕ → List ℕ
unfolding overwrite
copy_at off [] p = []
copy_at zero (b ∷ buf) p = overwrite (b ∷ buf) p
copy_at (suc off) (b ∷ buf) p = b ∷ copy_at off buf p

-- One round of the loop of `write`: the ring behind it, and how many bytes it took.
chunk : List ℕ → Ring → Ring × ℕ
unfolding copy_at
chunk p r =
    let off = r.total % r.cap in
    let n = min (length r.buf - off) (length p) in
    (record r { buf = copy_at off r.buf p; total = r.total + n }, n)

-- The loop, on fuel. A round takes at least one byte, so the length of the input is enough.
write_loop : ℕ → List ℕ → Ring → Ring
unfolding chunk
write_loop fuel [] r = r
write_loop zero (c ∷ p) r = r
write_loop (suc fuel) (c ∷ p) r =
    let (r', n) = chunk (c ∷ p) r in write_loop fuel (drop n (c ∷ p)) r'

-- `write(p)`
unfoldable pub write : List ℕ → Ring → Ring
unfolding write_loop
write p r = write_loop (length p) p r

-- The loop that collects `n` bytes from a position on.
collect : ℕ → ℕ → Ring → List ℕ
collect start zero r = []
collect start (suc n) r = get_or r.buf (start % r.cap) 0 ∷ collect (start + 1) n r

pub record Chunk : Type 0 where
  pub bytes : List ℕ
  pub next : ℕ
  pub lost : Bool

-- `readFrom(cursor)`. Subtraction stops at 0, which is what the source does with `oldest`.
unfoldable pub read_from : ℕ → Ring → Chunk
unfolding collect
read_from cursor r =
    if leb r.total cursor
    then record { bytes = []; next = r.total; lost = false }
    else let oldest = r.total - r.cap in
      let start = if ltb cursor oldest then oldest else cursor in
      record { bytes = collect start (r.total - start) r; next = r.total; lost = ltb cursor oldest }
