-- ===== src/Engine/Driver.antt =====
-- libecasound/eca-engine.cpp: ECA_ENGINE_DEFAULT_DRIVER::exec and ECA_ENGINE::exec. The main loop
-- runs over a schedule of rounds: what other threads and the audio objects do in a round is given
-- with it, and `none` is a schedule that ends before the loop does.
pub mod Stopping
pub mod Exit
pub mod Batch
use mathlib.Core.Option
use ecasound.Common.{
  ℕ, Bool, true, false, not, ◌&&◌, List, [], ◌∷◌, ◌++◌, Option, none, some, if◌then◌else◌,
}
use ecasound.Common.Int.{ℤ, pos, negsuc}
use ecasound.Engine.{
  Status, running, finished, error, Command, Engine, signal_exit, call, status, is_status_running,
  is_status_error, init_engine_state, driver_stop, cleanup,
}
use ecasound.Engine.Commands.{Seconds, check_command_queue}
use ecasound.Engine.Iteration.{engine_iteration, update_engine_state}

-- The commands that arrive before the queue is checked, how many of the queue are got, and what the
-- inputs and outputs count if there is an iteration.
pub record Round (V E : Type 0) : Type 0 where
  pub arrived : List (Command V E)
  pub pops : ℕ
  pub unfinished : ℕ
  pub failed : ℕ

-- A round after its check of the queue: the loop ends, goes on after an iteration, or waits for
-- commands and goes on.
abbrev pub decide :
    {V E : Type 0}
    → Engine V E
    → (iterated waited : Option (Bool × Engine V E)) → Option (Bool × Engine V E)
decide e iterated waited = if e.exit_request then some (false, e) else elim (status e) [
  | running ↦ iterated
  | finished ↦ if e.batchmode then some (true, e) else waited
  | error ↦ some (false, e)
  | _ ↦ waited
]

abbrev pub stop_at_end : {V E : Type 0} → Bool × Engine V E → Engine V E
stop_at_end ended = driver_stop ended.0 ended.1

-- The end of `exec`, with its result.
abbrev pub conclude : {V E : Type 0} → Engine V E → ℤ × Engine V E
conclude e = (
  if is_status_error e then negsuc 0 else pos 0,
  cleanup (call (signal_exit ∷ []) (record e { locked = false })),
)

module _ {V E : Type 0} (seconds : Seconds V) where
  abbrev pub checked : Round V E → Engine V E → Engine V E
  checked r e =
      check_command_queue seconds r.pops (record e { command_queue = e.command_queue ++ r.arrived })

  -- The state after the loop, with `drain_at_end`.
  unfoldable pub exec_loop : List (Round V E) → Engine V E → Option (Bool × Engine V E)
  exec_loop [] e = none
  exec_loop (r ∷ rs) e =
      let e' = checked r e in
      let iterated =
        exec_loop rs (update_engine_state (engine_iteration r.unfinished r.failed e')) in
      let waited = exec_loop rs (update_engine_state e') in decide e' iterated waited

  unfoldable pub driver_exec : List (Round V E) → Engine V E → Option (Engine V E)
  unfolding exec_loop
  driver_exec rounds e =
      Option.map stop_at_end
        (exec_loop rounds (init_engine_state (record e { exit_request = false })))

  unfoldable pub exec :
      (batch_mode : Bool) → List (Round V E) → Engine V E → Option (ℤ × Engine V E)
  unfolding driver_exec
  exec batch_mode rounds e =
      Option.map conclude (driver_exec rounds (record e { locked = true; batchmode = batch_mode }))
