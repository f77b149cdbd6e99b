-- ===== src/Engine/Invariant.antt =====
-- What holds of an ECA_ENGINE in every state: the flags of the engine, its devices and its servers
-- agree.
use ecasound.Common.{
  ℕ, zero, suc, ◌+◌, ◌≡◌, refl, Bool, true, false, ◌&&◌, List, [], ◌∷◌, map, arith, if◌then◌else◌,
}
use ecasound.Common.Int.{ℤ, pos}
use ecasound.Engine.{
  Call, Command, prepare, start, stop, stop_with_drain, debug, exit, exec_edit, rewind, forward,
  setpos, setpos_samples, setpos_live_samples, Device, Engine, prepare_device, start_device,
  halt_device, init_engine_state, prepare_operation, start_operation, stop_operation, driver_start,
  driver_stop, driver_exit, conditional_stop, conditional_start, seek_position_in_samples, command,
  call,
}
use ecasound.Engine.Commands.{
  Seconds, set_position_samples, change_position, handle, unless_exit, next_command,
  check_command_queue,
}
use ecasound.Engine.Iteration.{
  update_engine_state, engine_iteration, finish_inputs, state_change_to_finished,
  prehandle_control_position, posthandle_control_position, in_preroll,
}

abbrev pub EachRuns : Bool → List Device → Type 0
EachRuns b [] = Unit
EachRuns b (d ∷ ds) = (d.is_running ≡ b) × EachRuns b ds

EachRuns-prepare :
    (b : Bool) (ds : List Device) → EachRuns b ds → EachRuns b (map prepare_device ds)
unfolding prepare_device
EachRuns-prepare b [] h = tt
EachRuns-prepare b (d ∷ ds) h = (h.0, EachRuns-prepare b ds h.1)

EachRuns-start : (ds : List Device) → EachRuns true (map start_device ds)
unfolding start_device
EachRuns-start [] = tt
EachRuns-start (d ∷ ds) = (refl, EachRuns-start ds)

EachRuns-halt : (ds : List Device) → EachRuns false (map halt_device ds)
unfolding halt_device
EachRuns-halt [] = tt
EachRuns-halt (d ∷ ds) = (ground arith, EachRuns-halt ds)

-- A running engine is prepared, a prepared one has locked the chainsetup and started the servers
-- and forked objects that there are, and all devices run just when the engine runs.
pub record IsCoherent {V E : Type 0} (e : Engine V E) : Type 0 where
  pub run_prepared : e.is_running ≡ true → e.prepared ≡ true
  pub prepared_locked : e.prepared ≡ true → e.locked ≡ true
  pub server : e.server_running ≡ (e.prepared && e.double_buffering)
  pub midi : e.midi_running ≡ (e.prepared && e.use_midi)
  pub forked : e.forked_running ≡ e.prepared
  pub devices_run : EachRuns e.is_running e.devices

module _ {V E : Type 0} where
  prepare_operation-IsCoherent : (e : Engine V E) → IsCoherent e → IsCoherent (prepare_operation e)
  unfolding prepare_operation
  prepare_operation-IsCoherent e h =
      ground (arith, EachRuns-prepare e.is_running e.devices h.devices_run)

  prepare_operation-prepared : (e : Engine V E) → (prepare_operation e).prepared ≡ true
  unfolding prepare_operation
  prepare_operation-prepared e = refl

  start_operation-IsCoherent :
      (e : Engine V E) → e.prepared ≡ true → IsCoherent e → IsCoherent (start_operation e)
  unfolding start_operation
  start_operation-IsCoherent e p h = ground (arith, EachRuns-start e.devices)

  stop_operation-IsCoherent :
      (drain : Bool) (e : Engine V E) → IsCoherent e → IsCoherent (stop_operation drain e)
  unfolding stop_operation
  stop_operation-IsCoherent drain e h = ground (arith, EachRuns-halt e.devices)

  abbrev readied : Engine V E → Engine V E
  readied e = if e.prepared then e else prepare_operation e

  readied-prepared : (e : Engine V E) → (readied e).prepared ≡ true
  readied-prepared e = ground (arith, prepare_operation-prepared e)

  readied-IsCoherent : (e : Engine V E) → IsCoherent e → IsCoherent (readied e)
  readied-IsCoherent e h = ground (arith, prepare_operation-IsCoherent e h)

  driver_start-IsCoherent : (e : Engine V E) → IsCoherent e → IsCoherent (driver_start e)
  unfolding driver_start
  driver_start-IsCoherent e h =
      start_operation-IsCoherent (readied e) (readied-prepared e) (readied-IsCoherent e h)

  pub driver_stop-IsCoherent :
      (drain : Bool) (e : Engine V E) → IsCoherent e → IsCoherent (driver_stop drain e)
  unfolding driver_stop
  driver_stop-IsCoherent drain e h = ground (arith, stop_operation-IsCoherent drain e h)

  -- After the driver has stopped nothing runs.
  pub driver_stop-stopped :
      (drain : Bool) (e : Engine V E)
      → IsCoherent e
      → ((driver_stop drain e).prepared ≡ false) × ((driver_stop drain e).is_running ≡ false)
  unfolding driver_stop stop_operation
  driver_stop-stopped drain e h = ground arith

  pub init_engine_state-IsCoherent :
      (e : Engine V E) → IsCoherent e → IsCoherent (init_engine_state e)
  unfolding init_engine_state
  init_engine_state-IsCoherent e h = ground arith

  seek-IsCoherent :
      (samples : ℤ) (e : Engine V E)
      → IsCoherent e
      → IsCoherent (seek_position_in_samples samples e)
  unfolding seek_position_in_samples
  seek-IsCoherent samples e h = ground arith

  conditional_stop-IsCoherent : (e : Engine V E) → IsCoherent e → IsCoherent (conditional_stop e)
  unfolding conditional_stop
  conditional_stop-IsCoherent e h =
      ground (arith, driver_stop-IsCoherent false (record e { was_running = true }))

  conditional_start-IsCoherent : (e : Engine V E) → IsCoherent e → IsCoherent (conditional_start e)
  unfolding conditional_start
  conditional_start-IsCoherent e h = ground (arith, driver_start-IsCoherent e h)

  call-IsCoherent : (cs : List (Call E)) (e : Engine V E) → IsCoherent e → IsCoherent (call cs e)
  unfolding call
  call-IsCoherent cs e h = ground arith

  set_position_samples-IsCoherent :
      (samples : ℤ) (e : Engine V E) → IsCoherent e → IsCoherent (set_position_samples samples e)
  unfolding set_position_samples
  set_position_samples-IsCoherent samples e h = conditional_start-IsCoherent _ (
      init_engine_state-IsCoherent _
        (call-IsCoherent _ _ (seek-IsCoherent samples _ (conditional_stop-IsCoherent e h))))

  pub unless_exit-keeps :
      (P : Engine V E → Type 0) (c : Command V E) (e r : Engine V E)
      → P e
      → P r
      → P (unless_exit c e r)
  unless_exit-keeps P exit e r p q = p
  unless_exit-keeps P _ e r p q = q

  exit-IsCoherent :
      (e : Engine V E) → IsCoherent e → IsCoherent (driver_exit (record e { command_queue = [] }))
  unfolding driver_exit
  exit-IsCoherent e h =
      let stopped : IsCoherent (record e { command_queue = [] }) = ground arith in
      ground (arith, driver_stop-IsCoherent false _ stopped)

  module _ (seconds : Seconds V) where
    change_position-IsCoherent :
        (v : V) (e : Engine V E) → IsCoherent e → IsCoherent (change_position seconds v e)
    unfolding change_position
    change_position-IsCoherent v e h =
        conditional_start-IsCoherent _
          (seek-IsCoherent (seconds.displaced e.position v) _ (conditional_stop-IsCoherent e h))

    handle-IsCoherent :
        (c : Command V E) (e : Engine V E) → IsCoherent e → IsCoherent (handle seconds c e)
    unfolding handle
    handle-IsCoherent prepare e h = ground (arith, prepare_operation-IsCoherent e h)
    handle-IsCoherent start e h = ground (arith, driver_start-IsCoherent e h)
    handle-IsCoherent stop e h = ground (arith, driver_stop-IsCoherent false e h)
    handle-IsCoherent stop_with_drain e h = ground (arith, driver_stop-IsCoherent true e h)
    handle-IsCoherent debug e h = h
    handle-IsCoherent exit e h = exit-IsCoherent e h
    handle-IsCoherent (exec_edit x reinit) e h = call-IsCoherent _ e h
    handle-IsCoherent (rewind v) e h = change_position-IsCoherent (seconds.negative v) e h
    handle-IsCoherent (forward v) e h = change_position-IsCoherent v e h
    handle-IsCoherent (setpos v) e h = set_position_samples-IsCoherent (seconds.to_samples v) e h
    handle-IsCoherent (setpos_samples samples) e h = set_position_samples-IsCoherent samples e h
    handle-IsCoherent (setpos_live_samples samples) e h =
        init_engine_state-IsCoherent _ (seek-IsCoherent samples e h)

    pub next_command-IsCoherent :
        (rest : Engine V E → Engine V E) (cs : List (Command V E)) (e : Engine V E)
        → ((e : Engine V E) → IsCoherent e → IsCoherent (rest e))
        → IsCoherent e
        → IsCoherent (next_command seconds rest cs e)
    unfolding next_command
    next_command-IsCoherent rest [] e keeps h = h
    next_command-IsCoherent rest (c ∷ cs) e keeps h =
        let kept : IsCoherent (record e { command_queue = cs }) = ground arith in
        let handled = handle-IsCoherent c _ kept in
        unless_exit-keeps IsCoherent c _ _ handled (keeps _ handled)

    pub check_command_queue-IsCoherent :
        (pops : ℕ) (e : Engine V E) → IsCoherent e → IsCoherent (check_command_queue seconds pops e)
    unfolding check_command_queue
    check_command_queue-IsCoherent zero e h = h
    check_command_queue-IsCoherent (suc pops) e h =
        next_command-IsCoherent (check_command_queue seconds pops) e.command_queue e
          (check_command_queue-IsCoherent pops) h

  command-IsCoherent : (c : Command V E) (e : Engine V E) → IsCoherent e → IsCoherent (command c e)
  unfolding command
  command-IsCoherent c e h = ground arith

  finish_inputs-IsCoherent : (e : Engine V E) → IsCoherent e → IsCoherent (finish_inputs e)
  unfolding finish_inputs state_change_to_finished
  finish_inputs-IsCoherent e h = ground (arith, command-IsCoherent stop_with_drain e h)

  pub update_engine_state-IsCoherent :
      (e : Engine V E) → IsCoherent e → IsCoherent (update_engine_state e)
  unfolding update_engine_state
  update_engine_state-IsCoherent e h =
      let h' = finish_inputs-IsCoherent e h in ground (arith, command-IsCoherent stop _ h')

  prehandle-IsCoherent : (e : Engine V E) → IsCoherent e → IsCoherent (prehandle_control_position e)
  unfolding prehandle_control_position
  prehandle-IsCoherent e h = ground arith

  posthandle-IsCoherent :
      (e : Engine V E) → IsCoherent e → IsCoherent (posthandle_control_position e)
  unfolding posthandle_control_position state_change_to_finished
  posthandle-IsCoherent e h =
      ground (arith, seek-IsCoherent (pos 0) e h, command-IsCoherent stop_with_drain e h)

  pub engine_iteration-IsCoherent :
      (unfinished failed : ℕ) (e : Engine V E)
      → IsCoherent e
      → IsCoherent (engine_iteration unfinished failed e)
  unfolding engine_iteration
  engine_iteration-IsCoherent unfinished failed e h =
      let start : IsCoherent (record e { inputs_not_finished = 0 }) = ground arith in
      let moved = prehandle-IsCoherent _ start in
      let e' = prehandle_control_position (record e { inputs_not_finished = 0 }) in
      let e'' = record e' {
        inputs_not_finished = e'.inputs_not_finished + unfinished;
        outputs_finished = e'.outputs_finished + failed;
        preroll_samples =
            if in_preroll e' then e'.preroll_samples + e'.buffersize else e'.preroll_samples;
      } in
      let counted : IsCoherent e'' = ground arith in posthandle-IsCoherent e'' counted
