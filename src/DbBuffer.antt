-- ===== src/DbBuffer.antt =====
-- libecasound/audioio-db-buffer.cpp: the ring of sample buffers between the disk thread
-- (AUDIO_IO_DB_SERVER) and the engine thread (AUDIO_IO_DB_CLIENT). Each side moves one pointer.
-- `int` pointers are never negative, and `size_t` arithmetic is done modulo 2 ^ 64.
pub mod Spaces
pub mod Pending
pub mod Threads
pub mod Client
mod Tests
use ecasound.Common.{ℕ, ◌+◌, ◌-◌, ◌%◌, ◌^◌, Bool, ltb, leb, if◌then◌else◌}

-- The three ATOMIC_INTEGER members, and the size of `sbufs_rep`.
pub record DbBuffer : Type 0 where
  pub readptr : ℕ
  pub writeptr : ℕ
  pub finished : ℕ
  pub size : ℕ

-- The constructor.
pub create : ℕ → DbBuffer
create number_of_buffers = record {
  readptr = 0;
  writeptr = 0;
  finished = 0;
  size = number_of_buffers;
}

pub reset : DbBuffer → DbBuffer
reset b = record b { readptr = 0; writeptr = 0; finished = 0 }

-- `a - b + n` of an `int` difference and a `size_t`: both are converted to `size_t`, so the
-- difference wraps.
abbrev pub wrapped_difference : ℕ → ℕ → ℕ → ℕ
wrapped_difference a b n = (a + (2 ^ 64 - b) + n) % 2 ^ 64

-- What `read_space` computes from the two values that it has loaded.
pub read_space_of : (write read size : ℕ) → ℕ
read_space_of write read size =
    if leb read write then write - read else wrapped_difference write read size % size

pub read_space : DbBuffer → ℕ
unfolding read_space_of
read_space b = read_space_of b.writeptr b.readptr b.size

-- What `write_space` computes from the two values that it has loaded.
pub write_space_of : (write read size : ℕ) → ℕ
write_space_of write read size =
    if ltb read write
    then (wrapped_difference read write size % size) - 1
    else if ltb write read
    then read - write - 1
    else size - 1

pub write_space : DbBuffer → ℕ
unfolding write_space_of
write_space b = write_space_of b.writeptr b.readptr b.size

pub advance_read_pointer : DbBuffer → DbBuffer
advance_read_pointer b = record b { readptr = (b.readptr + 1) % b.size }

pub advance_write_pointer : DbBuffer → DbBuffer
advance_write_pointer b = record b { writeptr = (b.writeptr + 1) % b.size }
