-- ===== src/DbBuffer/Client/Delivery.antt =====
-- What a client of the disk server gets of a file, over turns of AUDIO_IO_DB_SERVER::io_thread and
-- calls of AUDIO_IO_DB_CLIENT::read_buffer.
use mathlib.Core.List.{append-nil, append_assoc}
use ecasound.Common.{
  ℕ, ◌+◌, ◌%◌, ◌<◌, ◌≡◌, refl, sym, ap, ◌∙◌, inl, inr, true, List, [], ◌∷◌, ◌++◌, ◌==◌, ltb,
  if◌then◌else◌, arith, Bool-cases,
}
use ecasound.DbBuffer.{
  DbBuffer, read_space, write_space, advance_read_pointer, advance_write_pointer,
}
use ecasound.DbBuffer.Pending.{
  store, pending, pending-uncons, pending-store, pending-snoc, stream-drain, writeptr-read_space,
}
use ecasound.DbBuffer.Spaces.{
  IsValid, read_space-add-write_space, read_space-advance_write_pointer,
  read_space-advance_read_pointer, advance_read_pointer-IsValid, advance_write_pointer-IsValid,
}
use ecasound.DbBuffer.Client.{
  Transfer, Turn, server, client, is_empty, serve_read, serve_advance, serve_child, serve,
  read_buffer, run,
}

marked-IsValid : (b : DbBuffer) (n : ℕ) → IsValid b → IsValid (record b { finished = n })
marked-IsValid b n h = record { read_in = h.read_in; write_in = h.write_in; small = h.small }

module _ {A : Type 0} where
  abbrev buffered : Transfer A → List A
  buffered t = pending t.slots t.ring.size t.ring.readptr (read_space t.ring)

  -- Of the file's buffers `all`, those that are neither delivered nor in the ring are still to come,
  -- and the finished flags are raised at the end only.
  pub record IsFaithful (all : List A) (t : Transfer A) : Type 0 where
    pub valid : IsValid t.ring
    pub content : all ≡ (t.delivered ++ buffered t) ++ t.child
    pub ended : (t.ring.finished == 1) ≡ true → t.child ≡ []
    pub drained : t.client_finished ≡ true → (read_space t.ring ≡ 0) × (t.child ≡ [])

  store_same : (slots : ℕ → A) (i j : ℕ) (v : A) → i ≡ j → store slots i v j ≡ v
  store_same slots i j v e = ground arith

  pending-advance_write_pointer :
      (slots : ℕ → A) (b : DbBuffer) (v : A)
      → IsValid b
      → 0 < write_space b
      → pending (store slots b.writeptr v) b.size b.readptr (read_space (advance_write_pointer b))
        ≡ pending slots b.size b.readptr (read_space b) ++ v ∷ []
  pending-advance_write_pointer slots b v h w =
      let k = read_space b in
      let sum = read_space-add-write_space b h in
      pending-snoc (store slots b.writeptr v) b.size b.readptr k
        (read_space (advance_write_pointer b)) (read_space-advance_write_pointer b h w)
      ∙ ap (λ p. p ++ store slots b.writeptr v ((b.readptr + k) % b.size) ∷ [])
          (pending-store slots b.size b.readptr k k b.writeptr v h.read_in (omega (arith, sum))
            (omega arith) (writeptr-read_space b h))
      ∙ ap (λ x. pending slots b.size b.readptr k ++ x ∷ [])
          (store_same slots b.writeptr ((b.readptr + k) % b.size) v (writeptr-read_space b h))

  stored-content :
      (v : A) (rest : List A) (t : Transfer A)
      → IsValid t.ring
      → 0 < write_space t.ring
      → (t.delivered ++ buffered t) ++ (v ∷ rest)
        ≡ (t.delivered
            ++ pending
                (store t.slots t.ring.writeptr v)
                t.ring.size
                t.ring.readptr
                (read_space (advance_write_pointer t.ring)))
          ++ rest
  stored-content v rest t h w =
      sym (append_assoc (t.delivered ++ buffered t) (v ∷ []) rest)
      ∙ ap (λ xs. xs ++ rest)
          (append_assoc t.delivered (buffered t) (v ∷ [])
            ∙ ap (λ xs. t.delivered ++ xs)
                (sym (pending-advance_write_pointer t.slots t.ring v h w)))

  read-content :
      (t : Transfer A)
      → IsValid t.ring
      → 0 < read_space t.ring
      → t.delivered ++ buffered t
        ≡ (t.delivered ++ t.slots t.ring.readptr ∷ [])
          ++ pending t.slots t.ring.size
              ((t.ring.readptr + 1) % t.ring.size)
              (read_space (advance_read_pointer t.ring))
  read-content t h some_left =
      stream-drain (t.delivered ++ buffered t) t.delivered (buffered t) _ (t.slots t.ring.readptr) _
        refl
        (pending-uncons t.slots t.ring.size t.ring.readptr (read_space t.ring) _ h.read_in
          (sym (read_space-advance_read_pointer t.ring h some_left)))
        refl

  nil_apart : (v : A) (rest child : List A) → child ≡ v ∷ rest → child ≡ [] → ⊥
  nil_apart v rest child e n = cc

  ended_lem :
      (v : A) (rest child : List A) (finished : ℕ)
      → child ≡ v ∷ rest
      → ((finished == 1) ≡ true → child ≡ [])
      → ((if is_empty rest then 1 else finished) == 1) ≡ true
      → rest ≡ []
  unfolding is_empty
  ended_lem v [] child finished e h f = refl
  ended_lem v (w ∷ ws) child finished e h f = absurd (nil_apart v (w ∷ ws) child e (h f))

  serve_child-IsFaithful :
      (all vs : List A) (t : Transfer A)
      → t.child ≡ vs
      → IsFaithful all t
      → IsFaithful all (serve_child vs t)
  unfolding serve_child serve_read serve_advance is_empty advance_write_pointer read_space
      write_space
  serve_child-IsFaithful all [] t e h = record {
    valid = marked-IsValid t.ring 1 h.valid;
    content = h.content;
    ended = λ _. e;
    drained = h.drained;
  }
  serve_child-IsFaithful all (v ∷ rest) t e h = elim (Bool-cases (ltb 0 (write_space t.ring))) [
    | inl room ↦
        let w : 0 < write_space t.ring = ground arith in
        rw room (record {
          valid = advance_write_pointer-IsValid _ (marked-IsValid t.ring _ h.valid);
          content =
              h.content
              ∙ ap (λ c. (t.delivered ++ buffered t) ++ c) e
              ∙ stored-content v rest t h.valid w;
          ended = ended_lem v rest t.child t.ring.finished e h.ended;
          drained = λ c. absurd (nil_apart v rest t.child e (h.drained c).1);
        })
    | inr full ↦ rw full h
  ]

  read_buffer-IsFaithful :
      (all : List A) (t : Transfer A) → IsFaithful all t → IsFaithful all (read_buffer t)
  unfolding read_buffer advance_read_pointer
  read_buffer-IsFaithful all t h = elim (Bool-cases (ltb 0 (read_space t.ring))) [
    | inl more ↦
        let some_left : 0 < read_space t.ring = ground arith in
        rw more (record {
          valid = advance_read_pointer-IsValid t.ring h.valid;
          content = h.content ∙ ap (λ w. w ++ t.child) (read-content t h.valid some_left);
          ended = h.ended;
          drained = λ c. absurd (let left = (h.drained c).0 in omega (arith, left, some_left));
        })
    | inr none_left ↦ rw none_left (elim (Bool-cases (t.ring.finished == 1)) [
      | inl over ↦
          let none_at_all : read_space t.ring ≡ 0 = ground arith in
          let gone = h.ended over in
          rw over (record {
            valid = h.valid;
            content = h.content;
            ended = h.ended;
            drained = λ _. (none_at_all, gone);
          })
      | inr goes_on ↦
          rw goes_on
            (record { valid = h.valid; content = h.content; ended = h.ended; drained = h.drained })
    ])
  ]

  serve-IsFaithful : (all : List A) (t : Transfer A) → IsFaithful all t → IsFaithful all (serve t)
  unfolding serve
  serve-IsFaithful all t h = ground (arith, serve_child-IsFaithful all t.child t refl h)

  run-IsFaithful :
      (all : List A) (turns : List Turn) (t : Transfer A)
      → IsFaithful all t
      → IsFaithful all (run turns t)
  unfolding run
  run-IsFaithful all [] t h = h
  run-IsFaithful all (server ∷ turns) t h =
      run-IsFaithful all turns (serve t) (serve-IsFaithful all t h)
  run-IsFaithful all (client ∷ turns) t h =
      run-IsFaithful all turns (read_buffer t) (read_buffer-IsFaithful all t h)

  all_drained :
      (t : Transfer A)
      → (read_space t.ring ≡ 0) × (t.child ≡ [])
      → (t.delivered ++ buffered t) ++ t.child ≡ t.delivered
  all_drained t (empty, gone) =
      rw (empty, gone) (append-nil (t.delivered ++ []) ∙ append-nil t.delivered)

  -- In any order of whole turns of server and client, the client has got the buffers of the file in
  -- order, none twice and none left out, and when it is finished it has got all of them.
  pub run-delivered :
      (all : List A) (turns : List Turn) (t : Transfer A)
      → IsFaithful all t
      → let t' = run turns t in
        ((rest : List A) × (all ≡ t'.delivered ++ rest))
        × (t'.client_finished ≡ true → t'.delivered ≡ all)
  run-delivered all turns t h =
      let t' = run turns t in
      let r = run-IsFaithful all turns t h in
      (
        (buffered t' ++ t'.child, r.content ∙ append_assoc t'.delivered (buffered t') t'.child),
        λ f. sym (r.content ∙ all_drained t' (r.drained f)),
      )

  -- The client is finished too early where it reads after the server has got the last buffer and
  -- before the server moves the write pointer.
  read_buffer-too_early :
      (v : A) (t : Transfer A)
      → read_space t.ring ≡ 0
      → ((read_buffer (serve_read v [] t)).client_finished ≡ true)
        × ((read_buffer (serve_read v [] t)).delivered ≡ t.delivered)
  unfolding read_buffer serve_read is_empty read_space
  read_buffer-too_early v t h = rw h (refl, refl)
