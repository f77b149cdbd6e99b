-- ===== src/Engine.antt =====
-- libecasound/eca-engine.cpp: the state of ECA_ENGINE and its transport control, with start, stop and
-- exit of ECA_ENGINE_DEFAULT_DRIVER. The state holds what the engine reads and changes of the chainsetup
-- (lock, position, lengths) and the running flags of devices and servers; `calls` is what has been
-- called on other objects, in order. `V` is `double`, and `E` an edit of the chainsetup. The audio
-- objects and chains of one iteration are those of Routing, whose counts an iteration takes.
pub mod Commands
pub mod Iteration
pub mod Driver
pub mod Invariant
pub mod Length
pub mod Looping
pub mod Prefill
mod Tests
use ecasound.Common.{
  ℕ, zero, suc, ◌+◌, ◌-◌, ◌*◌, ◌/◌, min, Bool, true, false, not, ◌&&◌, ◌||◌, List, [], ◌∷◌, ◌++◌,
  map, Option, none, some, ◌==◌, ltb, leb, if◌then◌else◌,
}
use ecasound.Common.Int.{ℤ, pos, negsuc, pos_part, leb_ℤ}

-- ECA_ENGINE::Engine_status.
pub data Status : Type 0 where
  running stopped finished error notready : Status

-- ECA_ENGINE::complex_command. An edit comes with its `need_chain_reinit`.
pub data Command (V E : Type 0) : Type 0 where
  prepare start stop stop_with_drain debug exit : Command V E
  exec_edit : E → Bool → Command V E
  rewind forward setpos : V → Command V E
  setpos_samples setpos_live_samples : ℤ → Command V E

-- A realtime device: the flags of AUDIO_IO_DEVICE.
pub record Device : Type 0 where
  pub is_prepared : Bool
  pub is_running : Bool

pub data Call (E : Type 0) : Type 0 where
  init_chains clear_tags start_forked stop_forked start_server stop_server start_midi stop_midi
        prepare_devices start_devices flush signal_exit disconnect_buffers :
      Call E
  stop_device : (drain : Bool) → Call E
  edit : E → Call E
  seek_objects : ℤ → Call E

pub record Engine (V E : Type 0) : Type 0 where
  pub attached : Bool
  pub prepared : Bool
  pub is_running : Bool
  pub was_running : Bool
  pub finished_rep : Bool
  pub batchmode : Bool
  pub exit_request : Bool
  pub outputs_finished : ℕ
  pub driver_errors : ℕ
  pub inputs_not_finished : ℕ
  pub preroll_samples : ℕ
  pub recording_offset : ℤ
  pub command_queue : List (Command V E)
  -- The chainsetup.
  pub locked : Bool
  pub position : ℕ
  pub max_length_set : Bool
  pub max_length : ℕ
  pub looping : Bool
  pub double_buffering : Bool
  pub buffersize : ℕ
  -- The buffer size of the inputs that are not realtime devices, which is the same for all.
  pub input_buffersize : ℕ
  pub devices : List Device
  pub use_midi : Bool
  pub server_running : Bool
  pub midi_running : Bool
  pub forked_running : Bool
  pub calls : List (Call E)

pub prepare_device : Device → Device
prepare_device d = record d { is_prepared = true }

pub start_device : Device → Device
start_device d = record d { is_running = true }

-- Only a device that is running is stopped.
pub halt_device : Device → Device
halt_device d = if d.is_running then record { is_prepared = false; is_running = false } else d

pub halts : {E : Type 0} → Bool → List Device → List (Call E)
halts drain [] = []
halts drain (d ∷ ds) = if d.is_running then stop_device drain ∷ halts drain ds else halts drain ds

module _ {V E : Type 0} where
  pub call : List (Call E) → Engine V E → Engine V E
  call cs e = record e { calls = e.calls ++ cs }

  unfoldable pub status : Engine V E → Status
  status e =
      if not e.attached
      then notready
      else if e.finished_rep
      then finished
      else if ltb 0 e.outputs_finished || ltb 0 e.driver_errors
      then error
      else if e.is_running
      then running
      else stopped

  abbrev pub is_status_running : Engine V E → Bool
  is_status_running e = elim (status e) [ running ↦ true | _ ↦ false ]

  -- `status() == engine_status_running || status() == engine_status_finished`.
  abbrev pub may_stop : Engine V E → Bool
  may_stop e = elim (status e) [ running ↦ true | finished ↦ true | _ ↦ false ]

  abbrev pub is_status_error : Engine V E → Bool
  is_status_error e = elim (status e) [ error ↦ true | _ ↦ false ]

  unfoldable pub command : Command V E → Engine V E → Engine V E
  command c e = record e { command_queue = e.command_queue ++ c ∷ [] }

  unfoldable pub init_engine_state : Engine V E → Engine V E
  unfolding call
  init_engine_state e =
      call (clear_tags ∷ [])
        (record e { finished_rep = false; inputs_not_finished = 1; outputs_finished = 0 })

  unfoldable pub start_servers : Engine V E → Engine V E
  unfolding call
  start_servers e =
      call
        ((if e.double_buffering then start_server ∷ [] else [])
          ++ (if e.use_midi then start_midi ∷ [] else []))
        (record e {
          server_running = e.double_buffering || e.server_running;
          midi_running = e.use_midi || e.midi_running;
        })

  unfoldable pub stop_servers : Engine V E → Engine V E
  unfolding call
  stop_servers e =
      call
        ((if e.double_buffering then stop_server ∷ [] else [])
          ++ (if e.use_midi then stop_midi ∷ [] else []))
        (record e {
          server_running = not e.double_buffering && e.server_running;
          midi_running = not e.use_midi && e.midi_running;
        })

  unfoldable pub prepare_operation : Engine V E → Engine V E
  unfolding call start_servers init_engine_state prepare_device
  prepare_operation e =
      let locked_up = start_servers (
        call (init_chains ∷ start_forked ∷ [])
          (record e { locked = true; forked_running = true })) in
      init_engine_state (
        call (prepare_devices ∷ []) (record locked_up {
          devices = map prepare_device e.devices;
          preroll_samples = e.buffersize;
          prepared = true;
        }))

  unfoldable pub start_operation : Engine V E → Engine V E
  unfolding call start_device
  start_operation e =
      call (start_devices ∷ [])
        (record e { devices = map start_device e.devices; is_running = true })

  -- With `signal_stop`, which clears the running flag.
  unfoldable pub stop_operation : Bool → Engine V E → Engine V E
  unfolding call stop_servers halt_device halts
  stop_operation drain e =
      let served = stop_servers (
        call (halts drain e.devices)
          (record e { devices = map halt_device e.devices; prepared = false })) in
      call (stop_forked ∷ [])
        (record served { forked_running = false; locked = false; is_running = false })

  -- ECA_ENGINE_DEFAULT_DRIVER.
  unfoldable pub driver_start : Engine V E → Engine V E
  driver_start e = start_operation (if e.prepared then e else prepare_operation e)

  unfoldable pub driver_stop : Bool → Engine V E → Engine V E
  driver_stop drain e = if e.prepared then stop_operation drain e else e

  unfoldable pub driver_exit : Engine V E → Engine V E
  unfolding driver_stop
  driver_exit e = record (driver_stop false e) { exit_request = true }

  unfoldable pub conditional_stop : Engine V E → Engine V E
  unfolding driver_stop
  conditional_stop e =
      if is_status_running e
      then driver_stop false (record e { was_running = true })
      else record e { was_running = false }

  unfoldable pub conditional_start : Engine V E → Engine V E
  unfolding driver_start
  conditional_start e = if e.was_running then driver_start e else e

  -- ECA_CHAINSETUP::seek_position, through ECA_AUDIO_POSITION::seek_position_in_samples.
  unfoldable pub seek_position_in_samples : ℤ → Engine V E → Engine V E
  unfolding call
  seek_position_in_samples samples e =
      call ((if e.double_buffering then flush ∷ [] else []) ++ seek_objects samples ∷ [])
        (record e { position = pos_part samples })

  -- The constructor, with a chainsetup's state. `was_running` starts out indeterminate.
  unfoldable pub init_connection : Engine V E → Engine V E
  unfolding init_engine_state call
  init_connection e = call (init_chains ∷ []) (
      init_engine_state (record e {
        attached = true;
        prepared = false;
        is_running = false;
        finished_rep = false;
        outputs_finished = 0;
        driver_errors = 0;
        batchmode = false;
        command_queue = [];
        locked = false;
      }))

  unfoldable pub cleanup : Engine V E → Engine V E
  unfolding call
  cleanup e = call (disconnect_buffers ∷ []) (record e { attached = false; locked = false })
