-- ===== src/Engine/Commands.antt =====
-- libecasound/eca-engine.cpp: the commands of ECA_ENGINE and its changes of position.
use ecasound.Common.{ℕ, zero, suc, true, false, List, [], ◌∷◌, if◌then◌else◌}
use ecasound.Common.Int.{ℤ}
use ecasound.Engine.{
  init_chains, edit, Command, prepare, start, stop, stop_with_drain, debug, exit, exec_edit, rewind,
  forward, setpos, setpos_samples, setpos_live_samples, Engine, call, is_status_running, may_stop,
  init_engine_state, prepare_operation, driver_start, driver_stop, driver_exit, conditional_stop,
  conditional_start, seek_position_in_samples,
}

-- What the program computes in floating point: `displaced position v` is the position in samples
-- that lies `v` seconds after another one.
pub record Seconds (V : Type 0) : Type 0 where
  pub to_samples : V → ℤ
  pub displaced : ℕ → V → ℤ
  pub negative : V → V

module _ {V E : Type 0} where
  unfoldable pub set_position_samples : ℤ → Engine V E → Engine V E
  unfolding call conditional_start init_engine_state seek_position_in_samples conditional_stop
  set_position_samples samples e = conditional_start (
      init_engine_state
        (call (init_chains ∷ []) (seek_position_in_samples samples (conditional_stop e))))

  unfoldable pub set_position_samples_live : ℤ → Engine V E → Engine V E
  unfolding init_engine_state seek_position_in_samples
  set_position_samples_live samples e = init_engine_state (seek_position_in_samples samples e)

  abbrev pub unless_exit : Command V E → (returned rest : Engine V E) → Engine V E
  unless_exit exit returned rest = returned
  unless_exit _ returned rest = rest

  module _ (seconds : Seconds V) where
    unfoldable pub change_position : V → Engine V E → Engine V E
    unfolding conditional_start seek_position_in_samples conditional_stop
    change_position v e =
        let target = seconds.displaced e.position v in
        conditional_start (seek_position_in_samples target (conditional_stop e))

    -- The cases of `check_command_queue`, `ep_exit` with what it does after it has cleared the queue.
    unfoldable pub handle : Command V E → Engine V E → Engine V E
    unfolding call driver_start driver_stop driver_exit change_position set_position_samples
        set_position_samples_live
    handle prepare e = if e.prepared then e else prepare_operation e
    handle start e = if is_status_running e then e else driver_start e
    handle stop e = if may_stop e then driver_stop false e else e
    handle stop_with_drain e = if may_stop e then driver_stop true e else e
    handle debug e = e
    handle exit e = driver_exit (record e { command_queue = [] })
    handle (exec_edit x reinit) e = call (edit x ∷ (if reinit then init_chains ∷ [] else [])) e
    handle (rewind v) e = change_position (seconds.negative v) e
    handle (forward v) e = change_position v e
    handle (setpos v) e = set_position_samples (seconds.to_samples v) e
    handle (setpos_samples samples) e = set_position_samples samples e
    handle (setpos_live_samples samples) e = set_position_samples_live samples e

    -- One round of the loop on the queue `cs`, with the further rounds. `ep_exit` returns.
    unfoldable pub next_command :
        (Engine V E → Engine V E) → List (Command V E) → Engine V E → Engine V E
    next_command rest [] e = e
    next_command rest (c ∷ cs) e =
        let e' = handle c (record e { command_queue = cs }) in unless_exit c e' (rest e')

    -- The loop runs until the queue is empty, the lock of the queue is not obtained, or `ep_exit`;
    -- `pops` is how many items it gets before the lock is taken by another thread.
    unfoldable pub check_command_queue : (pops : ℕ) → Engine V E → Engine V E
    unfolding next_command
    check_command_queue zero e = e
    check_command_queue (suc pops) e = next_command (check_command_queue pops) e.command_queue e
