-- ===== src/DbBuffer/Tests.antt =====
-- Runs of the ring of AUDIO_IO_DB_BUFFER, and the theorems at concrete rings.
use ecasound.Common.{ℕ, true, false, List, ◌≡◌, ◌≢◌, refl, [], ◌∷◌, ◌++◌, arith}
use ecasound.DbBuffer.{DbBuffer, create, read_space, write_space, advance_write_pointer}
use ecasound.DbBuffer.Client.{Transfer, server, client, run}
use ecasound.DbBuffer.Client.Delivery.{IsFaithful, run-delivered}
use ecasound.DbBuffer.Pending.{store, pending}
use ecasound.DbBuffer.Threads.{
  granted, System, fill_test, fill_copy, fill_advance, drain_test, Reach, here, next, started,
  Reach-stream, Reach-exclusive,
}

-- Three of four slots in use, across the end.
abbrev wrapped_ring : DbBuffer
wrapped_ring = record { readptr = 3; writeptr = 2; finished = 0; size = 4 }

wrapped_spaces : read_space wrapped_ring ≡ 3
unfolding read_space
wrapped_spaces = refl

abbrev blank : ℕ → ℕ
blank i = 0

-- Block 7 has been written, the drainer has seen it, and the filler has its next slot.
abbrev both_granted : System ℕ
both_granted = record {
  ring = advance_write_pointer (create 3);
  slots = store blank 0 7;
  filler = granted;
  drainer = granted;
  written = 7 ∷ [];
  delivered = [];
}

both_granted-Reach : Reach ℕ (started ℕ 3 blank) both_granted
unfolding create write_space read_space advance_write_pointer
both_granted-Reach =
    next
      (next
        (next (next (next here (fill_test refl (omega arith) refl)) (fill_copy 7 refl refl))
          (fill_advance 7 refl refl))
        (fill_test refl (omega arith) refl))
      (drain_test refl (omega arith) refl)

Reach-stream_example : 7 ∷ [] ≡ [] ++ pending both_granted.slots 3 0 (read_space both_granted.ring)
unfolding create advance_write_pointer
Reach-stream_example = Reach-stream ℕ 3 blank (omega arith) (omega arith) both_granted-Reach

Reach-exclusive_example : both_granted.ring.writeptr ≢ both_granted.ring.readptr
Reach-exclusive_example =
    Reach-exclusive ℕ 3 blank (omega arith) (omega arith) both_granted-Reach (λ e. cc) (λ e. cc)

-- A file of three buffers behind a ring of three slots.
abbrev opened : Transfer ℕ
opened = record {
  ring = create 3;
  slots = blank;
  child = 1 ∷ 2 ∷ 3 ∷ [];
  delivered = [];
  client_finished = false;
  xruns = 0;
}

opened-IsFaithful : IsFaithful (1 ∷ 2 ∷ 3 ∷ []) opened
unfolding create read_space
opened-IsFaithful = record {
  valid = record { read_in = omega arith; write_in = omega arith; small = omega arith };
  content = refl;
  ended = λ e. cc;
  drained = λ e. cc;
}

run-delivered_example :
    let t' =
      run (server ∷ client ∷ client ∷ server ∷ server ∷ client ∷ client ∷ client ∷ []) opened in
    ((rest : List ℕ) × (1 ∷ 2 ∷ 3 ∷ [] ≡ t'.delivered ++ rest))
    × (t'.client_finished ≡ true → t'.delivered ≡ 1 ∷ 2 ∷ 3 ∷ [])
run-delivered_example =
    run-delivered (1 ∷ 2 ∷ 3 ∷ [])
      (server ∷ client ∷ client ∷ server ∷ server ∷ client ∷ client ∷ client ∷ []) opened
      opened-IsFaithful
