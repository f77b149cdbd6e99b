-- ===== src/Loop.antt =====
-- libecasound/audioio-loop.cpp: LOOP_DEVICE, an audio object that carries what its outputs write to
-- its inputs of the next iteration. `B` is what a write brings of its buffer: the device adds it,
-- divided by a weight, to its own, which starts out silent in each iteration.
pub mod Rounds
mod Tests
use ecasound.Common.{ℕ, ◌+◌, Bool, true, false, List, [], ◌∷◌, ◌++◌, ◌==◌, ltb, if◌then◌else◌}

pub record LoopDevice (B : Type 0) : Type 0 where
  pub writes : ℕ
  pub registered_inputs : ℕ
  pub registered_outputs : ℕ
  pub empty_rounds : ℕ
  pub finished : Bool
  pub filled : Bool
  -- The buffers that have been added to `sbuf` since it was silent, each with the weight by which it
  -- was divided.
  pub sbuf : List (ℕ × B)
  pub position : ℕ
  pub length_in_samples : ℕ

module _ {B : Type 0} where
  pub create : LoopDevice B
  create = record {
    writes = 0;
    registered_inputs = 0;
    registered_outputs = 0;
    empty_rounds = 0;
    finished = false;
    filled = false;
    sbuf = [];
    position = 0;
    length_in_samples = 0;
  }

  pub register_input : LoopDevice B → LoopDevice B
  register_input d = record d { registered_inputs = d.registered_inputs + 1 }

  pub register_output : LoopDevice B → LoopDevice B
  register_output d = record d { registered_outputs = d.registered_outputs + 1 }

  unfoldable pub seek_position : LoopDevice B → LoopDevice B
  seek_position d = record d { writes = 0; empty_rounds = 0; filled = false; finished = false }

  -- With the buffers and their weights whose sum is read: none is silence.
  unfoldable pub read_buffer : LoopDevice B → LoopDevice B × List (ℕ × B)
  read_buffer d =
      if d.empty_rounds == 0
      then (d, if d.filled then d.sbuf else [])
      else (record d { finished = true }, [])

  unfoldable pub change_position : ℕ → LoopDevice B → LoopDevice B
  change_position length d =
      let reached = d.position + length in
      record d {
        position = reached;
        length_in_samples =
            if ltb d.length_in_samples reached then reached else d.length_in_samples;
      }

  -- The first write after a read, or after the last output has written.
  pub begin_round : ℕ → LoopDevice B → LoopDevice B
  unfolding change_position
  begin_round length d =
      if d.writes == 1 then record (change_position length d) { sbuf = [] } else d

  -- A write of `length` samples; a buffer without samples is empty.
  unfoldable pub write_buffer : (length : ℕ) → B → LoopDevice B → LoopDevice B
  unfolding begin_round
  write_buffer length buffer d =
      let begun = begin_round length (record d { writes = d.writes + 1 }) in
      let counted =
        if begun.writes == begun.registered_outputs then record begun { writes = 0 } else begun in
      if length == 0
      then record counted { empty_rounds = counted.empty_rounds + 1 }
      else record counted {
        empty_rounds = 0;
        sbuf = counted.sbuf ++ (counted.registered_outputs, buffer) ∷ [];
        filled = true;
      }
