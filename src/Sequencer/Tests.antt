-- ===== src/Sequencer/Tests.antt =====
-- Sections of a child of ten samples, and the theorems about AUDIO_SEQUENCER_BASE at concrete
-- positions.
use ecasound.Common.{ℕ, ◌-◌, ◌≡◌, refl, min, true, false, List, [], ◌∷◌, some, arith}
use ecasound.Sequencer.{
  Child, Sequencer, Call, set_buffersize, seek, read_sbuf, read_tmp, sbuf_length, sbuf_channels,
  copy_tmp, priv_public_to_child_pos, read_buffer,
}
use ecasound.Sequencer.Sync.{replay, IsSynced}
use ecasound.Sequencer.Loop.{read_buffer-IsSynced}
use ecasound.Sequencer.Once.{read_buffer-once}

abbrev ten_at : ℕ → Child
ten_at p = record {
  channels = 2;
  finite_length_stream = true;
  supports_seeking_sample_accurate = true;
  finished = false;
  position_in_samples = p;
  frames_read = λ q n. min n (10 - q);
}

-- From sample 2 of the child on, 4 samples late, in buffers of 3; the position is 9.
abbrev looped : Sequencer
looped = record {
  child_offset = 4;
  child_start_pos = 2;
  child_length = 10;
  child_looping = true;
  child_length_set_by_client = false;
  child_write_started = false;
  is_open = true;
  io_read = true;
  buffersize = 3;
  channels = 2;
  position_in_samples = 9;
  length_in_samples = 9;
}

-- The same section, 5 samples of it, played once.
abbrev once : Sequencer
once = record looped { child_looping = false; child_length = 5; position_in_samples = 7 }

-- The last sample of one round and the first of the next.
abbrev wrapping : Sequencer
wrapping = record looped { position_in_samples = 11 }

reads_around :
    read_buffer (ten_at 9) wrapping
    ≡ some (
      set_buffersize 3
          ∷ read_sbuf 1
          ∷ seek 2
          ∷ set_buffersize 2
          ∷ read_tmp 2
          ∷ sbuf_length 3
          ∷ sbuf_channels 2
          ∷ copy_tmp 1
          ∷ set_buffersize 3
          ∷ [],
      record wrapping { position_in_samples = 14; length_in_samples = 14 },
    )
unfolding read_buffer priv_public_to_child_pos
reads_around = refl

reads_the_rest :
    read_buffer (ten_at 5) once
    ≡ some (
      set_buffersize 3 ∷ read_sbuf 3 ∷ sbuf_length 2 ∷ [],
      record once { position_in_samples = 9 },
    )
unfolding read_buffer priv_public_to_child_pos
reads_the_rest = refl

wrapping-IsSynced : IsSynced 9 wrapping
unfolding priv_public_to_child_pos
wrapping-IsSynced = refl

read_buffer-IsSynced_example :
    (calls : List Call) × (s' : Sequencer) × (read_buffer (ten_at 9) wrapping ≡ some (calls, s'))
    × IsSynced (replay 9 calls) s'
    × (s'.position_in_samples ≡ 14)
read_buffer-IsSynced_example =
    read_buffer-IsSynced (ten_at 9) wrapping refl (omega arith) (omega arith) wrapping-IsSynced
      (λ p n h. omega arith)

read_buffer-once_example :
    (calls : List Call) × (s' : Sequencer) × (read_buffer (ten_at 5) once ≡ some (calls, s'))
    × (s'.position_in_samples ≡ 9)
read_buffer-once_example =
    read_buffer-once (ten_at 5) once refl refl (omega arith) (omega arith) (omega arith)
      (omega arith)
