-- ===== src/DbBuffer/Threads.antt =====
-- The two threads around one ring, as interleaved steps: the one that fills buffers (the server of a
-- file that is read, AUDIO_IO_DB_SERVER::io_thread, or the client of one that is written,
-- AUDIO_IO_DB_CLIENT::write_buffer) and the one that drains them (AUDIO_IO_DB_CLIENT::read_buffer,
-- or io_thread). Each tests its space, touches the slot at its own pointer, and then moves that
-- pointer. A space is computed from two loads, but a thread's own pointer cannot move between them,
-- so the load of the other's is the moment of the test.
use ecasound.Common.{ℕ, ◌+◌, ◌%◌, ◌^◌, ◌<◌, ◌≡◌, sym, ◌≢◌, List, [], ◌∷◌, ◌++◌, arith}
use ecasound.DbBuffer.{
  DbBuffer, create, reset, read_space, write_space, advance_read_pointer, advance_write_pointer,
}
use ecasound.DbBuffer.Pending.{
  store, pending, pending-uncons, pending-store, pending-snoc, stream-fill, stream-drain,
  writeptr-read_space, readptr-ne-writeptr,
}
use ecasound.DbBuffer.Spaces.{
  IsValid, read_space-add-write_space, read_space-advance_write_pointer,
  read_space-advance_read_pointer, advance_read_pointer-IsValid, advance_write_pointer-IsValid,
}

-- Where a thread stands in its loop: before its test, past a test that found space, and past the
-- transfer of one sample buffer.
pub data Phase {ℓ} (A : Type ℓ) : Type ℓ where
  testing granted : Phase A
  moved : A → Phase A

module _ (A : Type 0) where
  -- The shared ring with its sample buffers, the two threads, and the history of what went in at
  -- the write pointer and came out at the read pointer.
  pub record System : Type 0 where
    pub ring : DbBuffer
    pub slots : ℕ → A
    pub filler : Phase A
    pub drainer : Phase A
    pub written : List A
    pub delivered : List A

  -- `fill_stops` and `drain_stops` are the paths on which a thread does nothing after its test.
  pub data Step (s t : System) : Type 0 where
    fill_test :
        s.filler ≡ testing → 0 < write_space s.ring → t ≡ record s { filler = granted } → Step s t
    fill_stops : s.filler ≡ granted → t ≡ record s { filler = testing } → Step s t
    fill_copy :
        (v : A)
        → s.filler ≡ granted
        → t ≡ record s { slots = store s.slots s.ring.writeptr v; filler = moved v }
        → Step s t
    fill_advance :
        (v : A)
        → s.filler ≡ moved v
        → t ≡ record s {
          ring = advance_write_pointer s.ring;
          filler = testing;
          written = s.written ++ (v ∷ []);
        }
        → Step s t
    drain_test :
        s.drainer ≡ testing → 0 < read_space s.ring → t ≡ record s { drainer = granted } → Step s t
    drain_stops : s.drainer ≡ granted → t ≡ record s { drainer = testing } → Step s t
    drain_copy :
        s.drainer ≡ granted → t ≡ record s { drainer = moved (s.slots s.ring.readptr) } → Step s t
    drain_advance :
        (v : A)
        → s.drainer ≡ moved v
        → t ≡ record s {
          ring = advance_read_pointer s.ring;
          drainer = testing;
          delivered = s.delivered ++ (v ∷ []);
        }
        → Step s t
    -- A seek, done while the server is stopped.
    seek_reset :
        s.filler ≡ testing
        → s.drainer ≡ testing
        → t ≡ record s { ring = reset s.ring; written = []; delivered = [] }
        → Step s t

  pub data Reach (s : System) : System → Type 0 where
    here : Reach s s
    next : {t u : System} → Reach s t → Step t u → Reach s u

  abbrev pub HasSpace : ℕ → Phase A → Type 0
  HasSpace space testing = Unit
  HasSpace space _ = 0 < space

  abbrev pub Holds : A → Phase A → Type 0
  Holds x (moved v) = x ≡ v
  Holds x _ = Unit

  -- What holds between any two steps.
  pub record IsSound (s : System) : Type 0 where
    pub ring_valid : IsValid s.ring
    pub fill_space : HasSpace (write_space s.ring) s.filler
    pub drain_space : HasSpace (read_space s.ring) s.drainer
    pub fill_holds : Holds (s.slots s.ring.writeptr) s.filler
    pub drain_holds : Holds (s.slots s.ring.readptr) s.drainer
    pub stream :
        s.written ≡ s.delivered ++ pending s.slots s.ring.size s.ring.readptr (read_space s.ring)

  fill_copy-stream :
      (s : System) (v : A)
      → IsSound s
      → 0 < write_space s.ring
      → pending (store s.slots s.ring.writeptr v) s.ring.size s.ring.readptr (read_space s.ring)
        ≡ pending s.slots s.ring.size s.ring.readptr (read_space s.ring)
  fill_copy-stream s v i h =
      pending-store s.slots s.ring.size s.ring.readptr (read_space s.ring) (read_space s.ring)
        s.ring.writeptr v i.ring_valid.read_in
        (omega (arith, read_space-add-write_space s.ring i.ring_valid)) (omega arith)
        (writeptr-read_space s.ring i.ring_valid)

  fill_copy-IsSound :
      (s : System) (v : A)
      → s.filler ≡ granted
      → IsSound s
      → IsSound (record s { slots = store s.slots s.ring.writeptr v; filler = moved v })
  fill_copy-IsSound s v a i =
      ground (arith, fill_copy-stream s v i, readptr-ne-writeptr s.ring i.ring_valid)

  fill_advance-IsSound :
      (s : System) (v : A)
      → s.filler ≡ moved v
      → IsSound s
      → IsSound (record s {
        ring = advance_write_pointer s.ring;
        filler = testing;
        written = s.written ++ (v ∷ []);
      })
  unfolding advance_write_pointer
  fill_advance-IsSound s v a i =
      let valid = i.ring_valid in
      ground (
        arith,
        advance_write_pointer-IsValid s.ring valid,
        read_space-advance_write_pointer s.ring valid,
        stream-fill s.written s.delivered
            (pending s.slots s.ring.size s.ring.readptr (read_space s.ring)) _ _ v i.stream
            (pending-snoc s.slots s.ring.size s.ring.readptr (read_space s.ring) _
              (read_space-advance_write_pointer s.ring valid (rw a at i.fill_space)))
            (rw (← writeptr-read_space s.ring valid) (rw a at i.fill_holds)),
      )

  drain_advance-IsSound :
      (s : System) (v : A)
      → s.drainer ≡ moved v
      → IsSound s
      → IsSound (record s {
        ring = advance_read_pointer s.ring;
        drainer = testing;
        delivered = s.delivered ++ (v ∷ []);
      })
  unfolding advance_read_pointer
  drain_advance-IsSound s v a i =
      let valid = i.ring_valid in
      ground (
        arith,
        advance_read_pointer-IsValid s.ring valid,
        read_space-advance_read_pointer s.ring valid,
        read_space-add-write_space s.ring valid,
        read_space-add-write_space (advance_read_pointer s.ring)
            (advance_read_pointer-IsValid s.ring valid),
        stream-drain s.written s.delivered _
            (pending s.slots s.ring.size ((s.ring.readptr + 1) % s.ring.size)
              (read_space (advance_read_pointer s.ring)))
            (s.slots s.ring.readptr) v i.stream
            (pending-uncons s.slots s.ring.size s.ring.readptr (read_space s.ring) _ valid.read_in
              (sym (read_space-advance_read_pointer s.ring valid (rw a at i.drain_space))))
            (rw a at i.drain_holds),
      )

  seek_reset-IsSound :
      (s : System)
      → s.filler ≡ testing
      → s.drainer ≡ testing
      → IsSound s
      → IsSound (record s { ring = reset s.ring; written = []; delivered = [] })
  unfolding reset read_space
  seek_reset-IsSound s a b i = ground arith

  Step-IsSound : {s t : System} → Step s t → IsSound s → IsSound t
  Step-IsSound {s} (fill_test a b e) i = ground arith
  Step-IsSound (fill_stops a e) i = ground arith
  Step-IsSound {s} (fill_copy v a e) i = rw e (fill_copy-IsSound s v a i)
  Step-IsSound {s} (fill_advance v a e) i = rw e (fill_advance-IsSound s v a i)
  Step-IsSound (drain_test a b e) i = ground arith
  Step-IsSound (drain_stops a e) i = ground arith
  Step-IsSound (drain_copy a e) i = ground arith
  Step-IsSound {s} (drain_advance v a e) i = rw e (drain_advance-IsSound s v a i)
  Step-IsSound {s} (seek_reset a b e) i = rw e (seek_reset-IsSound s a b i)

  Reach-IsSound : {s t : System} → IsSound s → Reach s t → IsSound t
  Reach-IsSound i here = i
  Reach-IsSound i (next r st) = Step-IsSound st (Reach-IsSound i r)

  abbrev pub started : ℕ → (ℕ → A) → System
  started size slots = record {
    ring = create size;
    slots = slots;
    filler = testing;
    drainer = testing;
    written = [];
    delivered = [];
  }

  started-IsSound :
      (size : ℕ) (slots : ℕ → A) → 0 < size → size < 2 ^ 31 → IsSound (started size slots)
  unfolding create read_space
  started-IsSound size slots h k = ground arith

  -- From a ring as constructed, with between 1 and 2 ^ 31 - 1 buffers, whatever the interleaving of
  -- the two threads and of seeks: what has been written since the last seek is what has been
  -- delivered, followed by the buffers that wait in the ring, in order and with nothing lost,
  -- repeated or torn.
  pub Reach-stream :
      (size : ℕ) (slots : ℕ → A) {t : System}
      → 0 < size
      → size < 2 ^ 31
      → Reach (started size slots) t
      → t.written ≡ t.delivered ++ pending t.slots t.ring.size t.ring.readptr (read_space t.ring)
  Reach-stream size slots h k r = (Reach-IsSound (started-IsSound size slots h k) r).stream

  -- From a ring as constructed, with between 1 and 2 ^ 31 - 1 buffers, whatever the interleaving of
  -- the two threads and of seeks: two threads that are both past their tests are at different slots.
  pub Reach-exclusive :
      (size : ℕ) (slots : ℕ → A) {t : System}
      → 0 < size
      → size < 2 ^ 31
      → Reach (started size slots) t
      → t.filler ≢ testing
      → t.drainer ≢ testing
      → t.ring.writeptr ≢ t.ring.readptr
  Reach-exclusive size slots {t} h k r f d =
      let i : IsSound t = Reach-IsSound (started-IsSound size slots h k) r in
      ground (arith, readptr-ne-writeptr t.ring i.ring_valid)
