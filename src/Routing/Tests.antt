-- ===== src/Routing/Tests.antt =====
-- Two chains from the first input to the first output and one from the second input, which is
-- finished, to the second output, a loop device.
use ecasound.Common.{◌≡◌, refl, true, false, List, [], ◌∷◌, none, some}
use ecasound.Common.Int.{ℤ, pos, negsuc}
use ecasound.Chain.{Chain}
use ecasound.Routing.{
  Input, Output, read_mix, mix_length, copy_mix, slot_length, slot_empty, inputs_to_chains,
  mix_to_outputs, mix_channels,
}
use ecasound.Routing.Inputs.{old, block_of, slot_after, slot_after-inputs_to_chains}
use ecasound.Routing.Reads.{reads, inputs_to_chains-reads}
use ecasound.Routing.Outputs.{written, mix_to_outputs-written}

abbrev chain : ℤ → ℤ → Chain
chain i o = record {
  initialized = true;
  muted = false;
  bypass = false;
  in_channels = 2;
  out_channels = 2;
  input_id = i;
  output_id = o;
  audioslot = 0;
  srate = pos 44100;
  position = pos 0;
  chainops = [];
  gcontrollers = [];
  selected_controller_ptr = 0;
  selected_dynobj = 0;
  selected_chainop_number = pos 0;
  selected_chainop_parameter = pos 0;
  selected_controller_number = pos 0;
  selected_controller_parameter = pos 0;
}

abbrev chains : List Chain
chains = chain (pos 0) (pos 0) ∷ chain (pos 0) (pos 0) ∷ chain (pos 1) (pos 1) ∷ []

abbrev inputs : List Input
inputs =
    record { finished = false; finished_after_read = false }
    ∷ record { finished = true; finished_after_read = true }
    ∷ []

abbrev outputs : List Output
outputs =
    record { channels = 2; is_loop_device = false; finished_after_write = true }
    ∷ record { channels = 2; is_loop_device = true; finished_after_write = true }
    ∷ []

inputs_test :
    inputs_to_chains (2 ∷ 1 ∷ []) inputs chains
    ≡ (mix_length ∷ read_mix 0 ∷ copy_mix 0 ∷ copy_mix 1 ∷ slot_length 2 ∷ slot_empty 2 ∷ [], 1)
unfolding inputs_to_chains
inputs_test = refl

-- A chain that is not connected is skipped, also where its output is not.
skipped_test :
    mix_to_outputs false false
      (λ o. false)
      (0 ∷ [])
      (record { channels = 1; is_loop_device = false; finished_after_write = true } ∷ [])
      (chain (pos 0) (negsuc 0) ∷ [])
    ≡ (mix_channels 1 ∷ [], 0)
unfolding mix_to_outputs
skipped_test = refl

slot_after-inputs_to_chains_example :
    slot_after 1 (inputs_to_chains (2 ∷ 1 ∷ []) inputs chains).0 old old ≡ block_of 0
slot_after-inputs_to_chains_example = slot_after-inputs_to_chains inputs chains 1 0 refl refl refl

inputs_to_chains-reads_example :
    (reads 0 (inputs_to_chains (2 ∷ 1 ∷ []) inputs chains).0 ≡ 1)
    × ((inputs_to_chains (2 ∷ 1 ∷ []) inputs chains).1 ≡ 1)
inputs_to_chains-reads_example = inputs_to_chains-reads inputs chains 0 refl

mix_to_outputs-written_example :
    let routed = mix_to_outputs true false (λ o. false) (2 ∷ 1 ∷ []) outputs chains in
    (written routed.0 [] ≡ (0, (0, some 2) ∷ (1, some 2) ∷ []) ∷ (1, (2, none) ∷ []) ∷ [])
    × (routed.1 ≡ 1)
mix_to_outputs-written_example = mix_to_outputs-written true false (λ o. false) outputs chains
