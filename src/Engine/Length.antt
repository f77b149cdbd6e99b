-- ===== src/Engine/Length.antt =====
-- How many samples ECA_ENGINE asks of its inputs: up to the maximum length of the chainsetup, which
-- prehandle_control_position and posthandle_control_position see to.
use ecasound.Common.{
  ℕ, ◌+◌, ◌-◌, ◌≤◌, ◌<◌, ◌≡◌, refl, true, false, List, [], ◌∷◌, arith, if◌then◌else◌,
}
use ecasound.Engine.{Engine}
use ecasound.Engine.Iteration.{engine_iteration, prehandle_control_position}

module _ {V E : Type 0} where
  -- What an input that is not a realtime device is asked for in an iteration.
  abbrev pub block : Engine V E → ℕ
  block e = (prehandle_control_position (record e { inputs_not_finished = 0 })).input_buffersize

  -- The samples that are asked of it until the engine is finished, in iterations with these counts
  -- of inputs that go on and outputs that fail.
  unfoldable pub asked : List (ℕ × ℕ) → Engine V E → ℕ
  asked [] e = 0
  asked ((unfinished, failures) ∷ rest) e =
      let more = asked rest (engine_iteration unfinished failures e) in
      if e.finished_rep then 0 else block e + more

  -- A maximum length that is not passed yet, and inputs with whole buffers.
  pub record IsOnTheWay (e : Engine V E) : Type 0 where
    pub limited : e.max_length_set ≡ true
    pub within : e.position ≤ e.max_length
    pub whole : e.input_buffersize ≡ e.buffersize
    pub going : e.finished_rep ≡ false

  module _ (unfinished failures : ℕ) (e : Engine V E) (h : IsOnTheWay e) where
    pub block_within : e.position + e.buffersize ≤ e.max_length → block e ≡ e.buffersize
    unfolding prehandle_control_position
    block_within w = ground arith

    block_past : e.max_length < e.position + e.buffersize → block e ≡ e.max_length - e.position
    unfolding prehandle_control_position
    block_past p = ground arith

    pub further :
        e.position + e.buffersize ≤ e.max_length
        → let e' = engine_iteration unfinished failures e in
          IsOnTheWay e'
          × (e'.position ≡ e.position + e.buffersize)
          × (e'.buffersize ≡ e.buffersize)
          × (e'.max_length ≡ e.max_length)
          × (e'.looping ≡ e.looping)
    unfolding engine_iteration
    further w = (
      record {
        limited = ground arith;
        within = ground arith;
        whole = ground arith;
        going = ground arith;
      },
      ground arith,
      ground arith,
      ground arith,
      ground arith,
    )

    -- The iteration that passes the maximum length finishes the engine, or takes it back to the
    -- start with whole buffers if the chainsetup is looping.
    pub engine_iteration-past :
        e.max_length < e.position + e.buffersize
        → let e' = engine_iteration unfinished failures e in
          (block e ≡ e.max_length - e.position)
          × (e'.finished_rep ≡ (if e.looping then false else true))
          × (e'.position ≡ (if e.looping then 0 else e.position + e.buffersize))
          × (e'.input_buffersize ≡ (if e.looping then e.buffersize else e.max_length - e.position))
    unfolding engine_iteration
    engine_iteration-past p = (block_past p, ground arith, ground arith, ground arith)

  pub asked_going :
      (u f : ℕ) (rounds : List (ℕ × ℕ)) (e : Engine V E)
      → e.finished_rep ≡ false
      → asked ((u, f) ∷ rounds) e ≡ block e + asked rounds (engine_iteration u f e)
  unfolding asked
  asked_going u f rounds e h = rw h refl
