-- ===== src/Engine/Tests.antt =====
-- An engine on a setup of 25 samples in buffers of 10, with one realtime device and the disk server.
use ecasound.Common.{ℕ, ◌+◌, ◌≡◌, ◌≤◌, ◌<◌, ◌*◌, refl, true, false, List, [], ◌∷◌, some, arith}
use ecasound.Common.Int.{ℤ, pos}
use ecasound.Engine.{Engine, start, exit, setpos_samples}
use ecasound.Engine.Commands.{Seconds}
use ecasound.Engine.Invariant.{IsCoherent}
use ecasound.Engine.Looping.{passes}
use ecasound.Engine.Iteration.{engine_iteration}
use ecasound.Engine.Prefill.{
  RealtimeObject, prefill_outputs, output_latency, AllFit, prefill_outputs_lem,
  output_latency-prefill_outputs,
}
use ecasound.Engine.Driver.{Round, exec_loop, exec}
use ecasound.Engine.Driver.Stopping.{IsAtRest, exec-IsAtRest}
use ecasound.Engine.Driver.Exit.{exec_loop-exit}
use ecasound.Engine.Driver.Batch.Ending.{IsQuiet, AllQuiet}
use ecasound.Engine.Driver.Batch.Starting.{IsReady, exec-Ends}

-- Positions in seconds at 10 samples per second.
abbrev decimal : Seconds ℕ
decimal = record {
  to_samples = λ v. pos (v + v);
  displaced = λ p v. pos (p + v);
  negative = λ v. v;
}

abbrev ready : Engine ℕ ℕ
ready = record {
  attached = true;
  prepared = false;
  is_running = false;
  was_running = false;
  finished_rep = false;
  batchmode = false;
  exit_request = false;
  outputs_finished = 0;
  driver_errors = 0;
  inputs_not_finished = 1;
  preroll_samples = 0;
  recording_offset = pos 0;
  command_queue = [];
  locked = false;
  position = 0;
  max_length_set = true;
  max_length = 25;
  looping = false;
  double_buffering = true;
  buffersize = 10;
  input_buffersize = 10;
  devices = record { is_prepared = false; is_running = false } ∷ [];
  use_midi = false;
  server_running = false;
  midi_running = false;
  forked_running = false;
  calls = [];
}

abbrev ready_IsCoherent : IsCoherent ready
ready_IsCoherent = record {
  run_prepared = λ h. h;
  prepared_locked = λ h. h;
  server = refl;
  midi = refl;
  forked = refl;
  devices_run = (refl, tt);
}

abbrev quiet : Round ℕ ℕ
quiet = record { arrived = []; pops = 4; unfinished = 1; failed = 0 }

abbrev starting : Round ℕ ℕ
starting = record { arrived = start ∷ []; pops = 4; unfinished = 1; failed = 0 }

abbrev exiting : Round ℕ ℕ
exiting = record {
  arrived = setpos_samples (pos 5) ∷ exit ∷ start ∷ [];
  pops = 4;
  unfinished = 1;
  failed = 0;
}

abbrev looped : Engine ℕ ℕ
looped = record ready { looping = true }

-- The third iteration leads past the 25 samples, which are then played again.
passes_test : passes ((1, 0) ∷ (1, 0) ∷ (1, 2) ∷ (1, 0) ∷ []) looped ≡ 1
unfolding passes engine_iteration
passes_test = refl

abbrev schedule : List (Round ℕ ℕ)
schedule = starting ∷ quiet ∷ quiet ∷ quiet ∷ quiet ∷ []

abbrev ready_IsReady : IsReady ready
ready_IsReady = record {
  attached = refl;
  stopped = refl;
  no_error = refl;
  no_command = refl;
  limited = refl;
  once = refl;
}

once : IsQuiet quiet
once = (refl, omega arith)

quiet_rounds : AllQuiet (quiet ∷ quiet ∷ quiet ∷ quiet ∷ [])
quiet_rounds = (once, (once, (once, (once, tt))))

schedule_ends : (returned : ℤ × Engine ℕ ℕ) × (exec decimal true schedule ready ≡ some returned)
schedule_ends =
    exec-Ends decimal 3 starting (quiet ∷ quiet ∷ quiet ∷ quiet ∷ []) ready ready_IsReady refl
      (omega arith) quiet_rounds (omega arith) (omega arith)

exec-Ends_example : (returned : ℤ × Engine ℕ ℕ) × (exec decimal true schedule ready ≡ some returned)
exec-Ends_example =
    exec-Ends decimal 3 starting (quiet ∷ quiet ∷ quiet ∷ quiet ∷ []) ready ready_IsReady refl
      (omega arith) quiet_rounds (omega arith) (omega arith)

exec-IsAtRest_example : IsAtRest schedule_ends.0.1
exec-IsAtRest_example = exec-IsAtRest decimal true schedule ready ready_IsCoherent schedule_ends.1

exec_loop-exit_example :
    (e' : Engine ℕ ℕ) × (exec_loop decimal (exiting ∷ []) ready ≡ some (false, e'))
    × (e'.command_queue ≡ [])
    × (e'.prepared ≡ false)
    × (e'.is_running ≡ false)
exec_loop-exit_example =
    exec_loop-exit decimal 1 exiting [] ready ready_IsCoherent refl (omega arith)

abbrev device_space : List RealtimeObject
device_space =
    record { prefill_space = 1024; latency = 10 }
    ∷ record { prefill_space = 0; latency = 5 }
    ∷ record { prefill_space = 200; latency = 0 }
    ∷ []

prefill_test : prefill_outputs 100 16 device_space ≡ (10 ∷ 0 ∷ 2 ∷ [], 2)
unfolding prefill_outputs
prefill_test = refl

prefill_outputs_lem_example :
    let (blocks, left) = prefill_outputs 100 16 device_space in
    AllFit 100 16 device_space blocks × (left ≤ 16)
prefill_outputs_lem_example = prefill_outputs_lem 100 16 device_space (omega arith)

output_latency-prefill_outputs_example :
    (k : ℕ) × (rest : List ℕ) × (latency : ℕ) × ((prefill_outputs 100 16 device_space).0 ≡ k ∷ rest)
    × (output_latency 100 16 device_space ≡ pos latency)
    × (k * 100 + 10 ≤ latency)
    × (latency < k * 100 + 10 + 100)
output_latency-prefill_outputs_example =
    output_latency-prefill_outputs 100 16 (record { prefill_space = 1024; latency = 10 })
      (record { prefill_space = 0; latency = 5 } ∷ record { prefill_space = 200; latency = 0 } ∷ [])
      (omega arith)
