-- ===== src/Sequencer.antt =====
-- libecasound/audioio-seqbase.cpp: AUDIO_SEQUENCER_BASE, which plays a section of a child object from
-- an offset on, once or in a loop, and the positions of libecasound/eca-audio-position.cpp that it
-- moves. Times are counted in samples; a position is never negative here.
pub mod Sync
pub mod Loop
pub mod Once
mod Tests
use ecasound.Common.{
  ℕ, zero, suc, ◌+◌, ◌-◌, ◌%◌, min, Bool, true, false, not, ◌&&◌, ◌||◌, List, [], ◌∷◌, ◌++◌, Option,
  none, some, ◌==◌, ltb, leb, if◌then◌else◌,
}

-- The child object: `frames_read p n` is the number of samples that a read of `n` at position `p`
-- gives.
pub record Child : Type 0 where
  pub channels : ℕ
  pub finite_length_stream : Bool
  pub supports_seeking_sample_accurate : Bool
  pub finished : Bool
  pub position_in_samples : ℕ
  pub frames_read : ℕ → ℕ → ℕ

pub record Sequencer : Type 0 where
  pub child_offset : ℕ
  pub child_start_pos : ℕ
  pub child_length : ℕ
  pub child_looping : Bool
  pub child_length_set_by_client : Bool
  pub child_write_started : Bool
  pub is_open : Bool
  pub io_read : Bool
  pub buffersize : ℕ
  pub channels : ℕ
  pub position_in_samples : ℕ
  pub length_in_samples : ℕ

-- What is called on the child, on the buffer to fill, `sbuf`, and on `tmp_buffer`; a read has the
-- number of samples that it gives.
pub data Call : Type 0 where
  set_buffersize : ℕ → Call
  seek : ℕ → Call
  read_sbuf : ℕ → Call
  read_tmp : ℕ → Call
  sbuf_channels : ℕ → Call
  sbuf_length : ℕ → Call
  sbuf_silent : Call
  copy_tmp : ℕ → Call
  write_sbuf : Call

-- The position in a loop of length `one_loop`.
abbrev pub looped_pos : (one_loop res : ℕ) → ℕ
looped_pos one_loop res = if ltb 0 one_loop then res % one_loop else res

pub priv_public_to_child_pos : Sequencer → ℕ → ℕ
priv_public_to_child_pos s pubpos =
    if leb pubpos s.child_offset
    then s.child_start_pos
    else if s.child_looping
    then looped_pos (s.child_length - s.child_start_pos) (pubpos - s.child_offset)
      + s.child_start_pos
    else pubpos - s.child_offset + s.child_start_pos

abbrev pub change_position_in_samples : ℕ → Sequencer → Sequencer
change_position_in_samples n s = record s { position_in_samples = s.position_in_samples + n }

abbrev pub extend_position : Sequencer → Sequencer
extend_position s = record s {
  length_in_samples =
      if ltb s.length_in_samples s.position_in_samples
      then s.position_in_samples
      else s.length_in_samples;
}

-- The position of the child before its end, for a section that is played once.
abbrev pub section_end : Sequencer → ℕ
section_end s = s.child_length + s.child_start_pos

-- Case 1: the child is not active yet.
pub read_before : Child → Sequencer → List Call × Sequencer
read_before child s = (
  sbuf_channels child.channels ∷ sbuf_length s.buffersize ∷ sbuf_silent ∷ [],
  change_position_in_samples s.buffersize s,
)

-- Case 2: the read brings in the first samples of the child.
pub read_across : Child → Sequencer → List Call × Sequencer
unfolding priv_public_to_child_pos
read_across child s =
    let chipos = priv_public_to_child_pos s s.position_in_samples in
    let sought = if chipos == child.position_in_samples then [] else seek chipos ∷ [] in
    let segment = min (s.position_in_samples + s.buffersize - s.child_offset) s.buffersize in
    let got = child.frames_read chipos segment in
    (
      sought
          ++ set_buffersize segment
            ∷ read_tmp got
            ∷ sbuf_channels child.channels
            ∷ sbuf_length s.buffersize
            ∷ copy_tmp (s.buffersize - segment)
            ∷ set_buffersize s.buffersize
            ∷ [],
      change_position_in_samples s.buffersize s,
    )

-- Case 3a: a section that is played once comes to its end; `none` where the position is past the
-- end already, and the length of the buffer becomes negative.
pub read_last : Child → Sequencer → Option (List Call × Sequencer)
unfolding priv_public_to_child_pos
read_last child s =
    let chipos = priv_public_to_child_pos s s.position_in_samples in
    let got = child.frames_read child.position_in_samples s.buffersize in
    let samples_to_include = section_end s - chipos in
    if ltb (section_end s) chipos
    then none
    else if ltb samples_to_include got
    then some (
      set_buffersize s.buffersize ∷ read_sbuf got ∷ sbuf_length samples_to_include ∷ [],
      change_position_in_samples samples_to_include s,
    )
    else some (set_buffersize s.buffersize ∷ read_sbuf got ∷ [], change_position_in_samples got s)

-- Case 3b: the section is played in a loop and its end is reached: the rest comes from its start.
pub read_around : Child → Sequencer → List Call × Sequencer
unfolding priv_public_to_child_pos
read_around child s =
    let chipos = priv_public_to_child_pos s (s.position_in_samples + s.buffersize) in
    let over = chipos - s.child_start_pos in
    let chistart = priv_public_to_child_pos s (s.position_in_samples + s.buffersize - over) in
    let rest =
      if ltb 0 over
      then set_buffersize over
        ∷ read_tmp (child.frames_read chistart over)
        ∷ sbuf_length s.buffersize
        ∷ sbuf_channels s.channels
        ∷ copy_tmp (s.buffersize - over)
        ∷ set_buffersize s.buffersize
        ∷ []
      else [] in
    (
      set_buffersize s.buffersize
          ∷ read_sbuf (child.frames_read child.position_in_samples s.buffersize)
          ∷ seek chistart
          ∷ rest,
      change_position_in_samples s.buffersize s,
    )

-- Case 3c: the samples are read from the child.
pub read_inside : Child → Sequencer → List Call × Sequencer
read_inside child s =
    let got = child.frames_read child.position_in_samples s.buffersize in
    (set_buffersize s.buffersize ∷ read_sbuf got ∷ [], change_position_in_samples got s)

-- The five cases, without the change of the length at the end.
pub read_cases : Child → Sequencer → Option (List Call × Sequencer)
unfolding read_before read_across read_last read_around read_inside
read_cases child s =
    let chipos1 = priv_public_to_child_pos s s.position_in_samples in
    let chipos2 = priv_public_to_child_pos s (s.position_in_samples + s.buffersize) in
    if leb (s.position_in_samples + s.buffersize) s.child_offset
    then some (read_before child s)
    else if ltb s.position_in_samples s.child_offset
    then some (read_across child s)
    else if leb (section_end s) chipos2 && not s.child_looping && child.finite_length_stream
    then read_last child s
    else if ltb chipos2 chipos1 && s.child_looping
    then some (read_around child s)
    else some (read_inside child s)

-- A loop and a child without an end make the object as long as what has been read.
pub extends : Child → Sequencer → Bool
extends child s =
    s.child_looping || (not s.child_length_set_by_client && not child.finite_length_stream)

pub read_buffer : Child → Sequencer → Option (List Call × Sequencer)
unfolding read_cases extends
read_buffer child s = elim (read_cases child s) [
  | none ↦ none
  | some (calls, s') ↦ some (calls, if extends child s then extend_position s' else s')
]

-- `len` is the length of `sbuf`.
pub write_buffer : ℕ → Sequencer → List Call × Sequencer
write_buffer len s =
    let offset = if s.child_write_started then s.child_offset else s.position_in_samples in
    (
      write_sbuf ∷ [],
      extend_position (
          change_position_in_samples len
            (record s { child_write_started = true; child_offset = offset })),
    )

-- The position that is reached, and what is called on the child.
pub seek_position : ℕ → Sequencer → List Call × ℕ
seek_position pos s =
    if s.is_open && (s.io_read || s.child_write_started)
    then (seek (priv_public_to_child_pos s pos) ∷ [], pos)
    else ([], pos)

-- `seek_position_in_samples` of ECA_AUDIO_POSITION.
pub seek_position_in_samples : ℕ → Sequencer → List Call × Sequencer
unfolding seek_position
seek_position_in_samples pos s =
    ((seek_position pos s).0, record s { position_in_samples = (seek_position pos s).1 })

pub set_child_offset : ℕ → Sequencer → Sequencer
set_child_offset v s = record s { child_offset = v }

pub set_child_start_position : Child → ℕ → Sequencer → Sequencer
set_child_start_position child v s =
    if s.is_open && not child.supports_seeking_sample_accurate
    then s
    else record s { child_start_pos = v }

pub set_child_length : ℕ → Sequencer → Sequencer
set_child_length v s = record s { child_length = v; child_length_set_by_client = true }

-- `none` is a time that is marked as invalid.
pub child_length : Child → Sequencer → Option ℕ
child_length child s =
    if not s.child_length_set_by_client && not child.finite_length_stream
    then none
    else some s.child_length

pub finite_length_stream : Child → Sequencer → Bool
finite_length_stream child s = if s.child_looping then false else child.finite_length_stream

pub finished : Child → Sequencer → Bool
unfolding priv_public_to_child_pos
finished child s =
    if child.finished
    then true
    else if not s.io_read
    then false
    else not s.child_looping
      && child.finite_length_stream
      && leb (section_end s) (priv_public_to_child_pos s s.position_in_samples)
