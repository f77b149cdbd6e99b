-- ===== src/Engine/Looping.antt =====
-- How many samples ECA_ENGINE asks of its inputs where the chainsetup is looping: at the maximum
-- length posthandle_control_position takes it back to the start, with whole buffers.
use ecasound.Common.{ℕ, ◌+◌, ◌*◌, ◌≡◌, true, List, [], ◌∷◌, if◌then◌else◌, ltb}
use ecasound.Engine.{Engine}
use ecasound.Engine.Iteration.{engine_iteration}
use ecasound.Engine.Length.{asked, IsOnTheWay}

module _ {V E : Type 0} where
  -- The engine after iterations with these counts of inputs that go on and outputs that fail.
  pub iterations : List (ℕ × ℕ) → Engine V E → Engine V E
  iterations [] e = e
  iterations ((unfinished, failures) ∷ rest) e =
      iterations rest (engine_iteration unfinished failures e)

  -- How many of them pass the maximum length.
  unfoldable pub passes : List (ℕ × ℕ) → Engine V E → ℕ
  passes [] e = 0
  passes ((unfinished, failures) ∷ rest) e =
      (if ltb e.max_length (e.position + e.buffersize) then 1 else 0)
      + passes rest (engine_iteration unfinished failures e)

  -- What an iteration leaves of a looping engine: it goes on, in a chainsetup of the same length.
  record GoesOn (e e' : Engine V E) : Type 0 where
    on_the_way : IsOnTheWay e'
    same_limit : e'.max_length ≡ e.max_length
    same_loop : e'.looping ≡ true

  -- What a looping engine has been asked for, and where it is.
  pub record Accounted (rounds : List (ℕ × ℕ)) (e : Engine V E) : Type 0 where
    pub total :
        e.position + asked rounds e
        ≡ passes rounds e * e.max_length + (iterations rounds e).position
    pub ready : IsOnTheWay (iterations rounds e)
