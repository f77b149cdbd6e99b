-- ===== src/DbBuffer/Client.antt =====
-- The end of a file that is read through the ring: AUDIO_IO_DB_CLIENT::read_buffer in
-- libecasound/audioio-db-client.cpp, and a turn of AUDIO_IO_DB_SERVER::io_thread in
-- libecasound/audioio-db-server.cpp for that client. The file is the list of the buffers that it
-- still gives, and is finished where that is empty. Positions and the waking of the server are left
-- out.
pub mod Delivery
use mathlib.Core.List.{append-nil, append_assoc}
use ecasound.Common.{
  ℕ, ◌+◌, ◌%◌, ◌<◌, ◌≡◌, refl, sym, ap, ◌∙◌, inl, inr, Bool, true, false, List, [], ◌∷◌, ◌++◌, ◌==◌,
  ltb, if◌then◌else◌, arith, Bool-cases,
}
use ecasound.DbBuffer.{
  DbBuffer, read_space, write_space, advance_read_pointer, advance_write_pointer,
}
use ecasound.DbBuffer.Pending.{
  store, pending, pending-uncons, pending-store, pending-snoc, stream-fill, stream-drain,
  writeptr-read_space,
}
use ecasound.DbBuffer.Spaces.{
  IsValid, read_space-add-write_space, read_space-advance_write_pointer,
  read_space-advance_read_pointer, advance_read_pointer-IsValid, advance_write_pointer-IsValid,
}

pub data Turn : Type 0 where
  server client : Turn

module _ (A : Type 0) where
  pub record Transfer : Type 0 where
    pub ring : DbBuffer
    pub slots : ℕ → A
    pub child : List A
    pub delivered : List A
    pub client_finished : Bool
    pub xruns : ℕ

module _ {A : Type 0} where
  pub is_empty : List A → Bool
  is_empty [] = true
  is_empty (v ∷ vs) = false

  -- The server reads a buffer into the slot at the write pointer, and notes whether that was the
  -- last one.
  pub serve_read : A → List A → Transfer A → Transfer A
  unfolding is_empty
  serve_read v rest t = record t {
    slots = store t.slots t.ring.writeptr v;
    child = rest;
    ring = record t.ring { finished = if is_empty rest then 1 else t.ring.finished };
  }

  pub serve_advance : Transfer A → Transfer A
  serve_advance t = record t { ring = advance_write_pointer t.ring }

  pub serve_child : List A → Transfer A → Transfer A
  unfolding serve_read serve_advance
  serve_child [] t = record t { ring = record t.ring { finished = 1 } }
  serve_child (v ∷ rest) t =
      if ltb 0 (write_space t.ring) then serve_advance (serve_read v rest t) else t

  -- The server's turn for the client.
  unfoldable pub serve : Transfer A → Transfer A
  unfolding serve_child
  serve t = if t.ring.finished == 0 then serve_child t.child t else t

  -- The client reads one buffer.
  unfoldable pub read_buffer : Transfer A → Transfer A
  read_buffer t =
      if ltb 0 (read_space t.ring)
      then record t {
        delivered = t.delivered ++ t.slots t.ring.readptr ∷ [];
        ring = advance_read_pointer t.ring;
      }
      else if t.ring.finished == 1
      then record t { client_finished = true }
      else record t { xruns = t.xruns + 1 }

  unfoldable pub run : List Turn → Transfer A → Transfer A
  unfolding serve read_buffer
  run [] t = t
  run (server ∷ turns) t = run turns (serve t)
  run (client ∷ turns) t = run turns (read_buffer t)
