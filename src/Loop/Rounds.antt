-- ===== src/Loop/Rounds.antt =====
-- LOOP_DEVICE over one iteration of the engine, in which each output that is registered writes once.
use mathlib.Core.List.{append-nil, append_assoc}
use ecasound.Common.{
  ℕ, ◌+◌, ◌<◌, ◌≡◌, refl, sym, ap, ◌∙◌, Bool, true, false, not, ◌||◌, List, [], ◌∷◌, ◌++◌, ◌==◌,
  length, if◌then◌else◌, arith, inl, inr, Bool-cases,
}
use ecasound.Loop.{LoopDevice, read_buffer, write_buffer, change_position}

module _ {B : Type 0} where
  -- A write per output, in order, with the number of samples.
  unfoldable pub write_all : List (ℕ × B) → LoopDevice B → LoopDevice B
  write_all [] d = d
  write_all ((samples, b) ∷ ws) d = write_all ws (write_buffer samples b d)

  -- The buffers with samples, each with the weight `n`.
  abbrev pub contents : (n : ℕ) → List (ℕ × B) → List (ℕ × B)
  contents n [] = []
  contents n ((samples, b) ∷ ws) =
      let rest = contents n ws in if samples == 0 then rest else (n, b) ∷ rest

  abbrev pub ends_empty : List (ℕ × B) → Bool
  ends_empty [] = false
  ends_empty ((samples, b) ∷ []) = samples == 0
  ends_empty ((samples, b) ∷ w ∷ ws) = ends_empty (w ∷ ws)

  abbrev pub first_length : List (ℕ × B) → ℕ
  first_length [] = 0
  first_length ((samples, b) ∷ ws) = samples

  -- What the device is after the writes `ws`, with the position of the first of them.
  record Wrote (n : ℕ) (ws : List (ℕ × B)) (before : List (ℕ × B)) (position : ℕ) (finished : Bool)
      (d : LoopDevice B) : Type 0 where
    ended : d.writes ≡ 0
    summed : d.sbuf ≡ before ++ contents n ws
    at : d.position ≡ position
    unfinished : d.finished ≡ finished
    counted : (d.empty_rounds == 0) ≡ not (ends_empty ws)
    kept : ends_empty ws ≡ false → d.filled ≡ true

  -- After a write that is not the last one.
  record WroteOn (n : ℕ) (w : ℕ × B) (before : List (ℕ × B)) (position writes : ℕ)
      (d d' : LoopDevice B) : Type 0 where
    going : d'.writes ≡ writes + 1
    same_outputs : d'.registered_outputs ≡ n
    added : d'.sbuf ≡ before ++ contents n (w ∷ [])
    stays : d'.position ≡ position
    as_before : d'.finished ≡ d.finished

  write_middle :
      (samples : ℕ) (b : B) (d : LoopDevice B)
      → 0 < d.writes
      → d.writes + 1 < d.registered_outputs
      → WroteOn d.registered_outputs
          (samples, b)
          d.sbuf
          d.position
          d.writes
          d
          (write_buffer samples b d)
  unfolding write_buffer
  write_middle samples b d h n = ground (arith, append-nil d.sbuf)

  write_first :
      (samples : ℕ) (b : B) (d : LoopDevice B)
      → d.writes ≡ 0
      → 1 < d.registered_outputs
      → WroteOn d.registered_outputs
          (samples, b)
          []
          (d.position + samples)
          0
          d
          (write_buffer samples b d)
  unfolding write_buffer change_position
  write_first samples b d h n = ground arith

  write_last :
      (samples : ℕ) (b : B) (d : LoopDevice B)
      → 0 < d.writes
      → d.writes + 1 ≡ d.registered_outputs
      → Wrote d.registered_outputs
          ((samples, b) ∷ [])
          d.sbuf
          d.position
          d.finished
          (write_buffer samples b d)
  unfolding write_buffer
  write_last samples b d h n = ground (arith, append-nil d.sbuf)

  write_only :
      (samples : ℕ) (b : B) (d : LoopDevice B)
      → d.writes ≡ 0
      → 1 ≡ d.registered_outputs
      → Wrote d.registered_outputs
          ((samples, b) ∷ [])
          []
          (d.position + samples)
          d.finished
          (write_buffer samples b d)
  unfolding write_buffer change_position
  write_only samples b d h n = ground arith

  contents-cons :
      (n : ℕ) (w : ℕ × B) (ws : List (ℕ × B))
      → contents n (w ∷ ws) ≡ contents n (w ∷ []) ++ contents n ws
  contents-cons n w ws = ground arith

  Wrote-cons :
      (m n : ℕ) (w v : ℕ × B) (ws : List (ℕ × B)) (before : List (ℕ × B)) (position writes : ℕ)
      (d d' e : LoopDevice B)
      → WroteOn n w before position writes d d'
      → m ≡ n
      → Wrote m (v ∷ ws) d'.sbuf d'.position d'.finished e
      → Wrote n (w ∷ v ∷ ws) before position d.finished e
  Wrote-cons m n w v ws before position writes d d' e o same r = record {
    ended = r.ended;
    summed =
        r.summed
        ∙ ap (λ k. d'.sbuf ++ contents k (v ∷ ws)) same
        ∙ ap (λ xs. xs ++ contents n (v ∷ ws)) o.added
        ∙ append_assoc before (contents n (w ∷ [])) (contents n (v ∷ ws))
        ∙ ap (λ xs. before ++ xs) (sym (contents-cons n w (v ∷ ws)));
    at = r.at ∙ o.stays;
    unfinished = r.unfinished ∙ o.as_before;
    counted = r.counted;
    kept = r.kept;
  }

  write_rest :
      (w : ℕ × B) (ws : List (ℕ × B)) (d : LoopDevice B)
      → 0 < d.writes
      → d.writes + length (w ∷ ws) ≡ d.registered_outputs
      → Wrote d.registered_outputs (w ∷ ws) d.sbuf d.position d.finished (write_all (w ∷ ws) d)
  unfolding write_all
  write_rest (samples, b) [] d h n = write_last samples b d h (omega (arith, n))
  write_rest (samples, b) (v ∷ ws) d h n =
      let d' = write_buffer samples b d in
      let e = write_all (v ∷ ws) d' in
      let on = write_middle samples b d h (omega (arith, n)) in
      let going = on.going in
      let outputs = on.same_outputs in
      let rest = write_rest v ws d' (omega (arith, going)) (omega (arith, going, outputs, n)) in
      Wrote-cons d'.registered_outputs d.registered_outputs (samples, b) v ws d.sbuf d.position
        d.writes d d' e on outputs rest

  round :
      (w : ℕ × B) (ws : List (ℕ × B)) (d : LoopDevice B)
      → d.writes ≡ 0
      → length (w ∷ ws) ≡ d.registered_outputs
      → Wrote d.registered_outputs (w ∷ ws) [] (d.position + w.0) d.finished (write_all (w ∷ ws) d)
  unfolding write_all
  round (samples, b) [] d h n = write_only samples b d h n
  round (samples, b) (v ∷ ws) d h n =
      let d' = write_buffer samples b d in
      let e = write_all (v ∷ ws) d' in
      let on = write_first samples b d h (omega (arith, n)) in
      let going = on.going in
      let outputs = on.same_outputs in
      let rest = write_rest v ws d' (omega (arith, going)) (omega (arith, going, outputs, n)) in
      Wrote-cons d'.registered_outputs d.registered_outputs (samples, b) v ws []
        (d.position + samples) 0 d d' e on outputs rest

  read_lem :
      (n : ℕ) (ws : List (ℕ × B)) (position : ℕ) (finished : Bool) (d : LoopDevice B)
      → Wrote n ws [] position finished d
      → ((read_buffer d).1 ≡ (if ends_empty ws then [] else contents n ws))
        × ((read_buffer d).0.finished ≡ (ends_empty ws || finished))
  unfolding read_buffer
  read_lem n ws position finished d r = elim (Bool-cases (ends_empty ws)) [
    | inl empty ↦
        let busy : (d.empty_rounds == 0) ≡ false = r.counted ∙ ap not empty in
        rw (busy, empty) (refl, refl)
    | inr more ↦
        let none_empty : (d.empty_rounds == 0) ≡ true = r.counted ∙ ap not more in
        let filled = r.kept more in rw (none_empty, more, filled) (r.summed, r.unfinished)
  ]

  -- Where from the start of an iteration every output that is registered has written once, the next
  -- read gets the sum of their buffers, each divided by the number of those outputs, unless the last buffer was empty: then it
  -- gets silence and the device is finished, whatever the others wrote. The position moves by the
  -- first write.
  pub read_buffer-write_all :
      (w : ℕ × B) (ws : List (ℕ × B)) (d : LoopDevice B)
      → d.writes ≡ 0
      → length (w ∷ ws) ≡ d.registered_outputs
      → let d' = write_all (w ∷ ws) d in
        let delivered = contents d.registered_outputs (w ∷ ws) in
        (d'.writes ≡ 0)
        × (d'.position ≡ d.position + w.0)
        × ((read_buffer d').1 ≡ (if ends_empty (w ∷ ws) then [] else delivered))
        × ((read_buffer d').0.finished ≡ (ends_empty (w ∷ ws) || d.finished))
  read_buffer-write_all w ws d h n =
      let r = round w ws d h n in
      let (sum, finishes) =
        read_lem d.registered_outputs (w ∷ ws) (d.position + w.0) d.finished (write_all (w ∷ ws) d)
          r in
      (r.ended, r.at, sum, finishes)
