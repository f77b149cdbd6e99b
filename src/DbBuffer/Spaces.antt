-- ===== src/DbBuffer/Spaces.antt =====
-- The space reported for reading and for writing, and how the two pointers move it.
use native.Mathlib.Nat.{mod-eq_of_lt}
use ecasound.Common.{ℕ, ◌+◌, ◌-◌, ◌%◌, ◌^◌, ◌<◌, ◌≡◌, arith, leb, if◌then◌else◌}
use ecasound.DbBuffer.{
  DbBuffer, wrapped_difference, read_space, write_space, advance_read_pointer,
  advance_write_pointer,
}

-- Both pointers index the ring, which holds at least one buffer and fits an `int`.
pub record IsValid (b : DbBuffer) : Type 0 where
  pub read_in : b.readptr < b.size
  pub write_in : b.writeptr < b.size
  pub small : b.size < 2 ^ 31

-- The distance from one ring position to another.
abbrev pub distance : ℕ → ℕ → ℕ → ℕ
distance from to n = if leb from to then to - from else to + n - from

wrapped_difference_lem :
    (a b n : ℕ) → a < b → b < n → n < 2 ^ 31 → wrapped_difference a b n % n ≡ a + n - b
wrapped_difference_lem a b n h k s =
    let e : wrapped_difference a b n ≡ a + n - b = omega arith in rw e (mod-eq_of_lt (omega arith))

pub read_space-distance :
    (b : DbBuffer) → IsValid b → read_space b ≡ distance b.readptr b.writeptr b.size
unfolding read_space
read_space-distance b v = ground (arith, wrapped_difference_lem b.writeptr b.readptr b.size)

write_space-distance :
    (b : DbBuffer) → IsValid b → write_space b + 1 + distance b.readptr b.writeptr b.size ≡ b.size
unfolding write_space
write_space-distance b v = ground (arith, wrapped_difference_lem b.readptr b.writeptr b.size)

-- On a valid ring the buffers ready for reading, those free for writing and one more make up the
-- ring.
pub read_space-add-write_space :
    (b : DbBuffer) → IsValid b → read_space b + write_space b + 1 ≡ b.size
read_space-add-write_space b v = omega (arith, read_space-distance b v, write_space-distance b v)

pub advance_read_pointer-IsValid : (b : DbBuffer) → IsValid b → IsValid (advance_read_pointer b)
unfolding advance_read_pointer
advance_read_pointer-IsValid b v = omega arith

pub advance_write_pointer-IsValid : (b : DbBuffer) → IsValid b → IsValid (advance_write_pointer b)
unfolding advance_write_pointer
advance_write_pointer-IsValid b v = omega arith

distance-advance_write :
    (r w n : ℕ)
    → r < n
    → w < n
    → distance r w n + 1 < n
    → distance r ((w + 1) % n) n ≡ distance r w n + 1
distance-advance_write r w n hr hw h = grind arith

distance-advance_read :
    (r w n : ℕ)
    → r < n
    → w < n
    → 0 < distance r w n
    → distance ((r + 1) % n) w n + 1 ≡ distance r w n
distance-advance_read r w n hr hw h = grind arith

-- Where there is room, advancing the write pointer hands one buffer over to the reader.
pub read_space-advance_write_pointer :
    (b : DbBuffer)
    → IsValid b
    → 0 < write_space b
    → read_space (advance_write_pointer b) ≡ read_space b + 1
unfolding advance_write_pointer
read_space-advance_write_pointer b v h = ground (
  arith,
  read_space-distance b v,
  read_space-distance (advance_write_pointer b) (advance_write_pointer-IsValid b v),
  write_space-distance b v,
  distance-advance_write b.readptr b.writeptr b.size,
)

-- Where there is data, advancing the read pointer takes one buffer from the reader.
pub read_space-advance_read_pointer :
    (b : DbBuffer)
    → IsValid b
    → 0 < read_space b
    → read_space (advance_read_pointer b) + 1 ≡ read_space b
unfolding advance_read_pointer
read_space-advance_read_pointer b v h = ground (
  arith,
  read_space-distance b v,
  read_space-distance (advance_read_pointer b) (advance_read_pointer-IsValid b v),
  distance-advance_read b.readptr b.writeptr b.size,
)
