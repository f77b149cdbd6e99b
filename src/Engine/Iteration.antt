-- ===== src/Engine/Iteration.antt =====
-- libecasound/eca-engine.cpp: one iteration of ECA_ENGINE, and how it finds that it has finished.
use ecasound.Common.{ℕ, ◌+◌, ◌-◌, Bool, true, not, ◌&&◌, ◌==◌, ltb, if◌then◌else◌}
use ecasound.Common.Int.{pos, leb_ℤ}
use ecasound.Engine.{
  stop, stop_with_drain, Engine, may_stop, is_status_error, command, seek_position_in_samples,
}

module _ {V E : Type 0} where
  unfoldable pub state_change_to_finished : Engine V E → Engine V E
  state_change_to_finished e = record e { finished_rep = true }

  unfoldable pub finish_inputs : Engine V E → Engine V E
  unfolding command state_change_to_finished
  finish_inputs e =
      if e.inputs_not_finished == 0 && e.outputs_finished == 0 && not e.finished_rep
      then state_change_to_finished (if e.is_running then command stop_with_drain e else e)
      else e

  unfoldable pub update_engine_state : Engine V E → Engine V E
  unfolding command finish_inputs
  update_engine_state e =
      let e' = finish_inputs e in
      if is_status_error e' && e'.is_running then command stop e' else e'

  abbrev pub is_over_max_length : Engine V E → Bool
  is_over_max_length e = e.max_length_set && ltb e.max_length e.position

  unfoldable pub prehandle_control_position : Engine V E → Engine V E
  prehandle_control_position e =
      let e' = record e { position = e.position + e.buffersize } in
      if is_over_max_length e'
      then record e' { input_buffersize = e.buffersize - (e'.position - e.max_length) }
      else e'

  unfoldable pub posthandle_control_position : Engine V E → Engine V E
  unfolding seek_position_in_samples command state_change_to_finished
  posthandle_control_position e =
      if is_over_max_length e
      then (if e.looping
          then record (seek_position_in_samples (pos 0) e) {
            inputs_not_finished = 1;
            input_buffersize = e.buffersize;
          }
          else state_change_to_finished (if may_stop e then command stop_with_drain e else e))
      else e

  -- Whether `mix_to_outputs` skips realtime target outputs.
  unfoldable pub in_preroll : Engine V E → Bool
  in_preroll e = not (leb_ℤ e.recording_offset (pos e.preroll_samples))

  -- `unfinished` is what `inputs_to_chains` counts, and `failed` what `mix_to_outputs` counts.
  unfoldable pub engine_iteration : (unfinished failed : ℕ) → Engine V E → Engine V E
  unfolding prehandle_control_position posthandle_control_position in_preroll
  engine_iteration unfinished failed e =
      let e' = prehandle_control_position (record e { inputs_not_finished = 0 }) in
      posthandle_control_position (record e' {
        inputs_not_finished = e'.inputs_not_finished + unfinished;
        outputs_finished = e'.outputs_finished + failed;
        preroll_samples =
            if in_preroll e' then e'.preroll_samples + e'.buffersize else e'.preroll_samples;
      })
