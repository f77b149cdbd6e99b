-- ===== src/Chain/Processing.antt =====
-- libecasound/eca-chain.cpp: CHAIN::init, release and process, and the sampling rate. The sample
-- buffer appears by its channel count and its length. `output_channels` is the virtual function of
-- CHAIN_OPERATOR: how many channels an operator puts out for so many that it takes in.
pub mod Runs
use ecasound.Common.{ℕ, ◌≤◌, Bool, true, false, List, [], ◌∷◌, ◌++◌, map, ◌==◌, ltb, if◌then◌else◌}
use ecasound.Common.Int.{ℤ, pos, ◌+ℤ◌}
use ecasound.Chain.{
  CopContainer, Controller, Chain, Call, set_rate, refresh, init_object, init_controller, run,
  release_object, update, widen, silence,
}

module _ {V : Type 0} where
  cop_calls : (ℕ → Call V) → List CopContainer → List (Call V)
  cop_calls call = map (λ k. call k.cop)

  controller_calls : (ℕ → Call V) → List Controller → List (Call V)
  controller_calls call = map (λ g. call g.self)

  unfoldable pub release : Chain → Chain × List (Call V)
  unfolding cop_calls
  release c = (record c { initialized = false }, cop_calls release_object c.chainops)

  unfoldable pub disconnect_buffer : Chain → Chain × List (Call V)
  unfolding release
  disconnect_buffer c = release (record c { audioslot = 0; initialized = false })

  -- The first loop of `init`, with `channels_next` channels that hold audio.
  unfoldable pub init_loop : (ℕ → ℕ → ℕ) → List CopContainer → ℕ → List (Call V)
  init_loop output_channels [] channels_next = []
  init_loop output_channels (k ∷ ks) channels_next =
      let out_ch = output_channels k.cop channels_next in
      let room = if ltb channels_next out_ch then out_ch else channels_next in
      widen room ∷ init_object k.cop ∷ init_loop output_channels ks out_ch

  -- `refresh` sets each parameter of an operator to its own value.
  unfoldable pub init : (ℕ → ℕ → ℕ) → (sbuf in_ch out_ch : ℕ) → Chain → Chain × List (Call V)
  unfolding init_loop controller_calls cop_calls
  init output_channels sbuf in_ch out_ch c =
      let in_channels = if in_ch == 0 then c.in_channels else in_ch in
      (
        record c {
          audioslot = if sbuf == 0 then c.audioslot else sbuf;
          in_channels = in_channels;
          out_channels = if out_ch == 0 then c.out_channels else out_ch;
          initialized = true;
        },
        (init_loop output_channels c.chainops in_channels
              ++ controller_calls init_controller c.gcontrollers)
            ++ cop_calls refresh c.chainops,
      )

  -- The loop of `process`, on a buffer of `ch` channels.
  unfoldable pub process_loop : (ℕ → ℕ → ℕ) → List CopContainer → ℕ → List (Call V)
  process_loop output_channels [] ch = []
  process_loop output_channels (k ∷ ks) ch =
      let out_ch = output_channels k.cop ch in
      let skipped = process_loop output_channels ks ch in
      let wider = widen out_ch ∷ run k.cop ∷ process_loop output_channels ks out_ch in
      let same = run k.cop ∷ process_loop output_channels ks ch in
      if k.bypassed then skipped else if ltb ch out_ch then wider else same

  -- On a buffer of `ch` channels and `len` samples.
  unfoldable pub process : (ℕ → ℕ → ℕ) → (ch len : ℕ) → Chain → Chain × List (Call V)
  unfolding controller_calls process_loop
  process output_channels ch len c = (
    record c { position = c.position +ℤ pos len },
    controller_calls update c.gcontrollers
        ++ (if c.muted
            then silence ∷ []
            else if c.bypass
            then []
            else process_loop output_channels c.chainops ch),
  )

  rate_calls : (ℕ → Bool) → ℤ → List CopContainer → List (Call V)
  rate_calls is_srate_aware v [] = []
  rate_calls is_srate_aware v (k ∷ ks) =
      if is_srate_aware k.cop
      then set_rate k.cop v ∷ rate_calls is_srate_aware v ks
      else rate_calls is_srate_aware v ks

  unfoldable pub set_samples_per_second : (ℕ → Bool) → ℤ → Chain → Chain × List (Call V)
  unfolding rate_calls
  set_samples_per_second is_srate_aware v c =
      (record c { srate = v }, rate_calls is_srate_aware v c.chainops)
