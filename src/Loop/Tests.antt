-- ===== src/Loop/Tests.antt =====
-- A loop device with two outputs, whose buffers are numbered.
use ecasound.Common.{ℕ, ◌≡◌, refl, true, false, [], ◌∷◌}
use ecasound.Loop.{LoopDevice, read_buffer, write_buffer}
use ecasound.Loop.Rounds.{write_all, read_buffer-write_all}

abbrev device : LoopDevice ℕ
device = record {
  writes = 0;
  registered_inputs = 1;
  registered_outputs = 2;
  empty_rounds = 0;
  finished = false;
  filled = false;
  sbuf = [];
  position = 0;
  length_in_samples = 0;
}

-- The second output has ended, and the device is finished although the first one goes on.
read_buffer-write_all_example :
    let d' = write_all ((64, 7) ∷ (0, 8) ∷ []) device in
    (d'.writes ≡ 0)
    × (d'.position ≡ 64)
    × ((read_buffer d').1 ≡ [])
    × ((read_buffer d').0.finished ≡ true)
read_buffer-write_all_example = read_buffer-write_all (64, 7) ((0, 8) ∷ []) device refl refl

summed_test : (read_buffer (write_all ((64, 7) ∷ (64, 8) ∷ []) device)).1 ≡ (2, 7) ∷ (2, 8) ∷ []
unfolding read_buffer write_all write_buffer
summed_test = refl
