-- ===== src/Engine/Driver/Exit.antt =====
-- The exit command ends ECA_ENGINE::exec in the round that gets to it.
use ecasound.Common.{
  ℕ, zero, suc, ◌<◌, ◌≡◌, refl, ◌∙◌, ◌⊎◌, inl, inr, Bool, true, false, List, [], ◌∷◌, ◌++◌, Option,
  some, arith, get_elem?,
}
use ecasound.Common.Int.{ℤ}
use ecasound.Engine.{
  Command, init_chains, prepare, start, stop, stop_with_drain, debug, exit, exec_edit, rewind,
  forward, setpos, setpos_samples, setpos_live_samples, Engine, call, init_engine_state,
  prepare_operation, start_operation, stop_operation, driver_start, driver_stop, driver_exit,
  conditional_stop, conditional_start, seek_position_in_samples,
}
use ecasound.Engine.Commands.{
  Seconds, set_position_samples, set_position_samples_live, change_position, handle, unless_exit,
  next_command, check_command_queue,
}
use ecasound.Engine.Iteration.{engine_iteration, update_engine_state}
use ecasound.Engine.Invariant.{IsCoherent, check_command_queue-IsCoherent}
use ecasound.Engine.Driver.{Round, checked, decide, exec_loop}

decide_exit :
    {V E : Type 0} (e : Engine V E) (iterated waited : Option (Bool × Engine V E))
    → e.exit_request ≡ true
    → decide e iterated waited ≡ some (false, e)
decide_exit e iterated waited h = ground arith

module _ {V E : Type 0} where
  driver_start_queue : (e : Engine V E) → (driver_start e).command_queue ≡ e.command_queue
  unfolding driver_start prepare_operation start_operation
  driver_start_queue e = ground arith

  driver_stop_queue :
      (drain : Bool) (e : Engine V E) → (driver_stop drain e).command_queue ≡ e.command_queue
  unfolding driver_stop stop_operation
  driver_stop_queue drain e = ground arith

  conditional_stop_queue : (e : Engine V E) → (conditional_stop e).command_queue ≡ e.command_queue
  unfolding conditional_stop
  conditional_stop_queue e =
      ground (arith, driver_stop_queue false (record e { was_running = true }))

  conditional_start_queue : (e : Engine V E) → (conditional_start e).command_queue ≡ e.command_queue
  unfolding conditional_start
  conditional_start_queue e = ground (arith, driver_start_queue e)

  set_position_queue :
      (samples : ℤ) (e : Engine V E)
      → (set_position_samples samples e).command_queue ≡ e.command_queue
  unfolding set_position_samples init_engine_state seek_position_in_samples call
  set_position_queue samples e =
      let sought = seek_position_in_samples samples (conditional_stop e) in
      conditional_start_queue (init_engine_state (call (init_chains ∷ []) sought))
      ∙ conditional_stop_queue e

  module _ (seconds : Seconds V) where
    change_position_queue :
        (v : V) (e : Engine V E) → (change_position seconds v e).command_queue ≡ e.command_queue
    unfolding change_position seek_position_in_samples
    change_position_queue v e =
        let target = seconds.displaced e.position v in
        conditional_start_queue (seek_position_in_samples target (conditional_stop e))
        ∙ conditional_stop_queue e

    -- A command other than `exit` leaves the queue alone, and the loop goes on after it.
    GoesOn : Command V E → Type 0
    GoesOn c =
        ((e : Engine V E) → (handle seconds c e).command_queue ≡ e.command_queue)
        × ((a b : Engine V E) → unless_exit c a b ≡ b)

    command-cases : (c : Command V E) → (c ≡ exit) ⊎ GoesOn c
    unfolding GoesOn handle prepare_operation set_position_samples_live init_engine_state
        seek_position_in_samples call
    command-cases exit = inl refl
    command-cases prepare = inr (λ e. ground arith, λ a b. refl)
    command-cases start = inr (λ e. ground (arith, driver_start_queue e), λ a b. refl)
    command-cases stop = inr (λ e. ground (arith, driver_stop_queue false e), λ a b. refl)
    command-cases stop_with_drain = inr (λ e. ground (arith, driver_stop_queue true e), λ a b. refl)
    command-cases debug = inr (λ e. refl, λ a b. refl)
    command-cases (exec_edit x reinit) = inr (λ e. refl, λ a b. refl)
    command-cases (rewind v) = inr (λ e. change_position_queue (seconds.negative v) e, λ a b. refl)
    command-cases (forward v) = inr (λ e. change_position_queue v e, λ a b. refl)
    command-cases (setpos v) = inr (λ e. set_position_queue (seconds.to_samples v) e, λ a b. refl)
    command-cases (setpos_samples z) = inr (λ e. set_position_queue z e, λ a b. refl)
    command-cases (setpos_live_samples z) = inr (λ e. refl, λ a b. refl)

    -- The driver is asked to exit, and the rest of the queue is dropped.
    abbrev Exited : Engine V E → Type 0
    Exited e = (e.exit_request ≡ true) × (e.command_queue ≡ []) × (e.prepared ≡ false)

    handle_exit-Exited : (e : Engine V E) → Exited (handle seconds exit e)
    unfolding handle driver_exit driver_stop stop_operation
    handle_exit-Exited e = ground arith

    next_command-Exited :
        (rest : Engine V E → Engine V E) (n : ℕ) (cs : List (Command V E)) (e : Engine V E)
        → ((m : ℕ) (x : Engine V E)
            → n ≡ suc m
            → get_elem? x.command_queue m ≡ some exit
            → Exited (rest x))
        → get_elem? cs n ≡ some exit
        → Exited (next_command seconds rest cs e)
    unfolding next_command GoesOn
    next_command-Exited rest n [] e keeps g = cc
    next_command-Exited rest zero (c ∷ cs) e keeps g =
        let is_exit : c ≡ exit = cc in
        rw is_exit (handle_exit-Exited (record e { command_queue = cs }))
    next_command-Exited rest (suc n) (c ∷ cs) e keeps g = elim (command-cases c) [
      | inl is_exit ↦ rw is_exit (handle_exit-Exited (record e { command_queue = cs }))
      | inr goes ↦
          let e' = handle seconds c (record e { command_queue = cs }) in
          let left : e'.command_queue ≡ cs = goes.0 (record e { command_queue = cs }) in
          rw (goes.1 e' (rest e')) (keeps n e' refl (rw left g))
    ]

    check_command_queue-Exited :
        (pops n : ℕ) (e : Engine V E)
        → n < pops
        → get_elem? e.command_queue n ≡ some exit
        → Exited (check_command_queue seconds pops e)
    unfolding check_command_queue
    check_command_queue-Exited zero n e h g = absurd (omega arith)
    check_command_queue-Exited (suc pops) n e h g =
        next_command-Exited (check_command_queue seconds pops) n e.command_queue e
          (λ m x s. check_command_queue-Exited pops m x (omega arith)) g

    -- A round that gets as far in the queue as an exit command, with the commands that have arrived
    -- by then, ends the loop without draining: the engine is not prepared any more, nor does it run
    -- if it was coherent, and the rest of the queue is dropped.
    pub exec_loop-exit :
        (n : ℕ) (r : Round V E) (rs : List (Round V E)) (e : Engine V E)
        → IsCoherent e
        → get_elem? (e.command_queue ++ r.arrived) n ≡ some exit
        → n < r.pops
        → (e' : Engine V E) × (exec_loop seconds (r ∷ rs) e ≡ some (false, e'))
          × (e'.command_queue ≡ [])
          × (e'.prepared ≡ false)
          × (e'.is_running ≡ false)
    unfolding exec_loop
    exec_loop-exit n r rs e h g l =
        let arrived : IsCoherent (record e { command_queue = e.command_queue ++ r.arrived }) =
          ground arith in
        let c = checked seconds r e in
        let h' = check_command_queue-IsCoherent seconds r.pops _ arrived in
        let x =
          check_command_queue-Exited r.pops n
            (record e { command_queue = e.command_queue ++ r.arrived }) l g in
        let loop = exec_loop seconds rs in
        let iterated = engine_iteration r.unfinished r.failed c in
        (
          c,
          decide_exit c (loop (update_engine_state iterated)) (loop (update_engine_state c)) x.0,
          x.1,
          x.2,
          ground arith,
        )
