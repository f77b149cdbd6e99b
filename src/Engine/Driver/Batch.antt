-- ===== src/Engine/Driver/Batch.antt =====
-- A run in batch mode ends: with a maximum length, no loop and no commands from outside,
-- ECA_ENGINE::exec returns after as many rounds as the length takes.
pub mod Ending
pub mod Starting
use ecasound.Common.{
  ℕ, zero, suc, ◌+◌, ◌*◌, ◌≤◌, ◌<◌, ◌≡◌, refl, ap, ◌∙◌, ◌⊎◌, inl, inr, Bool, true, false, not, ◌&&◌,
  ◌||◌, List, [], ◌∷◌, ◌++◌, Option, none, some, arith, ◌==◌, if◌then◌else◌, ltb, leb, length,
  Bool-cases,
}
use ecasound.Common.Int.{ℤ, pos}
use ecasound.Engine.{
  Command, start, stop, stop_with_drain, Engine, status, init_engine_state, command, driver_stop,
  stop_operation, driver_start, prepare_operation, start_operation,
}
use ecasound.Engine.Commands.{Seconds, check_command_queue, next_command, handle}
use ecasound.Engine.Iteration.{
  engine_iteration, update_engine_state, finish_inputs, state_change_to_finished,
  prehandle_control_position, posthandle_control_position,
}
use ecasound.Engine.Driver.{
  Round, checked, decide, exec_loop, stop_at_end, driver_exec, conclude, exec,
}

module _ {V E : Type 0} where
  -- The engine runs in batch mode up to a maximum length, with no command waiting.
  pub record IsRunning (e : Engine V E) : Type 0 where
    pub attached : e.attached ≡ true
    pub no_exit : e.exit_request ≡ false
    pub batch : e.batchmode ≡ true
    pub runs : e.is_running ≡ true
    pub unfinished : e.finished_rep ≡ false
    pub no_failure : e.outputs_finished ≡ 0
    pub no_error : e.driver_errors ≡ 0
    pub no_command : e.command_queue ≡ []
    pub limited : e.max_length_set ≡ true
    pub once : e.looping ≡ false

  -- It has come to its end, by itself or by a failure of an output. The command to stop is missing
  -- where an output has failed in the last round.
  pub data Waiting (e : Engine V E) : Type 0 where
    ended : e.finished_rep ≡ true → e.command_queue ≡ [] → Waiting e
    ending : e.finished_rep ≡ true → e.command_queue ≡ stop_with_drain ∷ [] → Waiting e
    broken :
        e.finished_rep ≡ false → 0 < e.outputs_finished → e.command_queue ≡ stop ∷ [] → Waiting e

  pub record IsOver (e : Engine V E) : Type 0 where
    pub attached : e.attached ≡ true
    pub batch : e.batchmode ≡ true
    pub waiting : Waiting e

  abbrev pub iterated : (unfinished failures : ℕ) → Engine V E → Engine V E
  iterated unfinished failures e = update_engine_state (engine_iteration unfinished failures e)

  pub record IsFurther (e e' : Engine V E) : Type 0 where
    pub runs_on : IsRunning e'
    pub moved : e'.position ≡ e.position + e.buffersize
    pub same_size : e'.buffersize ≡ e.buffersize
    pub same_length : e'.max_length ≡ e.max_length
    pub within : e'.position ≤ e.max_length

  module _ (unfinished failures : ℕ) (e : Engine V E) (h : IsRunning e) where
    abbrev e₁ : Engine V E
    e₁ = engine_iteration unfinished failures e

    module _ (within : e.position + e.buffersize ≤ e.max_length) where
      abbrev IsMoved : Engine V E → Type 0
      IsMoved e' =
          (e'.attached ≡ true)
          × (e'.exit_request ≡ false)
          × (e'.batchmode ≡ true)
          × (e'.is_running ≡ true)
          × (e'.finished_rep ≡ false)
          × (e'.outputs_finished ≡ failures)
          × (e'.driver_errors ≡ 0)
          × (e'.command_queue ≡ [])
          × (e'.max_length_set ≡ true)
          × (e'.looping ≡ false)
          × (e'.position ≡ e.position + e.buffersize)
          × (e'.buffersize ≡ e.buffersize)
          × (e'.max_length ≡ e.max_length)
          × (e'.inputs_not_finished ≡ unfinished)

      iterated_within : IsMoved e₁
      unfolding engine_iteration
      iterated_within = ground arith

      -- With an input that goes on and no failure, the engine runs on.
      updated_on :
          (e' : Engine V E)
          → IsMoved e'
          → failures ≡ 0
          → 0 < unfinished
          → IsFurther e (update_engine_state e')
      unfolding update_engine_state status
      updated_on e' m f u = record {
        runs_on = record {
          attached = ground arith;
          no_exit = ground arith;
          batch = ground arith;
          runs = ground arith;
          unfinished = ground arith;
          no_failure = ground arith;
          no_error = ground arith;
          no_command = ground arith;
          limited = ground arith;
          once = ground arith;
        };
        moved = ground arith;
        same_size = ground arith;
        same_length = ground arith;
        within = ground arith;
      }

      updated-failed :
          (e' : Engine V E) → IsMoved e' → 0 < failures → IsOver (update_engine_state e')
      unfolding update_engine_state status
      updated-failed e' m f = record {
        attached = ground arith;
        batch = ground arith;
        waiting = broken (ground arith) (ground arith) (ground arith);
      }

      updated-finished :
          (e' : Engine V E)
          → IsMoved e'
          → failures ≡ 0
          → unfinished ≡ 0
          → IsOver (update_engine_state e')
      unfolding update_engine_state status
      updated-finished e' m f u = record {
        attached = ground arith;
        batch = ground arith;
        waiting = ending (ground arith) (ground arith);
      }

    module _ (past : e.max_length < e.position + e.buffersize) where
      abbrev IsEnded : Engine V E → Type 0
      IsEnded e' =
          (e'.attached ≡ true)
          × (e'.batchmode ≡ true)
          × (e'.finished_rep ≡ true)
          × (e'.command_queue ≡ (if failures == 0 then stop_with_drain ∷ [] else []))

      moved-past : IsEnded e₁
      unfolding engine_iteration status
      moved-past = ground arith

      updated-ended : (e' : Engine V E) → IsEnded e' → IsOver (update_engine_state e')
      unfolding update_engine_state status
      updated-ended e' m = elim (Bool-cases (failures == 0)) [
        | inl whole ↦ record {
          attached = ground arith;
          batch = ground arith;
          waiting = ending (ground arith) (ground arith);
        }
        | inr hurt ↦ record {
          attached = ground arith;
          batch = ground arith;
          waiting = ended (ground arith) (ground arith);
        }
      ]

    pub iterated-cases :
        IsFurther e (iterated unfinished failures e) ⊎ IsOver (iterated unfinished failures e)
    iterated-cases = elim (Bool-cases (ltb e.max_length (e.position + e.buffersize))) [
      | inl past ↦
          let past' : e.max_length < e.position + e.buffersize = ground arith in
          inr (updated-ended past' e₁ (moved-past past'))
      | inr in_time ↦
          let within : e.position + e.buffersize ≤ e.max_length = ground arith in
          let m = iterated_within within in
          elim (Bool-cases (failures == 0)) [
            | inr hurt ↦ inr (updated-failed within e₁ m (ground arith))
            | inl whole ↦ elim (Bool-cases (unfinished == 0)) [
              | inl none_left ↦ inr (updated-finished within e₁ m (ground arith) (ground arith))
              | inr some_left ↦ inl (updated_on within e₁ m (ground arith) (ground arith))
            ]
          ]
    ]
