-- ===== src/Engine/Driver/Batch/Starting.antt =====
-- ECA_ENGINE::exec in batch mode, from the command that starts the engine to its return.
use mathlib.Core.Option
use ecasound.Common.{
  ℕ, zero, suc, ◌+◌, ◌*◌, ◌<◌, ◌≡◌, refl, ap, ◌∙◌, inl, inr, true, false, List, [], ◌∷◌, ◌++◌,
  Option, some, arith, length,
}
use ecasound.Common.Int.{ℤ}
use ecasound.Engine.{
  Command, start, Engine, status, init_engine_state, driver_start, prepare_operation,
  start_operation,
}
use ecasound.Engine.Commands.{Seconds, check_command_queue, next_command, handle}
use ecasound.Engine.Driver.{Round, checked, exec_loop, stop_at_end, driver_exec, conclude, exec}
use ecasound.Engine.Driver.Batch.{IsRunning, iterated, iterated-cases}
use ecasound.Engine.Driver.Batch.Ending.{
  AllQuiet, Ends, with_queue, check_command_queue_nil, exec_loop_step, exec_loop-Ends,
  exec_loop-Ends_over, past_end,
}

-- An engine that is connected to a chainsetup with a maximum length and no loop, and is stopped.
pub record IsReady {V E : Type 0} (e : Engine V E) : Type 0 where
  pub attached : e.attached ≡ true
  pub stopped : e.is_running ≡ false
  pub no_error : e.driver_errors ≡ 0
  pub no_command : e.command_queue ≡ []
  pub limited : e.max_length_set ≡ true
  pub once : e.looping ≡ false

map-Ends : {A B : Type 0} (f : A → B) (o : Option A) → Ends o → Ends (Option.map f o)
map-Ends f o (a, p) = (f a, ap (Option.map f) p)

module _ {V E : Type 0} where
  -- The state that the loop starts with in batch mode.
  abbrev begun : Engine V E → Engine V E
  begun e = init_engine_state (record e { locked = true; batchmode = true; exit_request = false })

  module _ (seconds : Seconds V) where
    next_command-start :
        (rest : Engine V E → Engine V E) (cs : List (Command V E)) (e : Engine V E)
        → cs ≡ start ∷ []
        → next_command seconds rest cs e ≡ rest (handle seconds start (with_queue [] e))
    unfolding next_command
    next_command-start rest cs e h = rw h refl

    check_command_queue-start :
        (pops : ℕ) (e : Engine V E)
        → 0 < pops
        → e.command_queue ≡ start ∷ []
        → (handle seconds start (with_queue [] e)).command_queue ≡ []
        → check_command_queue seconds pops e ≡ handle seconds start (with_queue [] e)
    unfolding check_command_queue
    check_command_queue-start zero e p h c = absurd (omega arith)
    check_command_queue-start (suc pops) e p h c =
        next_command-start (check_command_queue seconds pops) e.command_queue e h
        ∙ check_command_queue_nil seconds pops (handle seconds start (with_queue [] e)) c

    abbrev started : Round V E → Engine V E → Engine V E
    started r e =
        let b = begun e in
        handle seconds start (with_queue [] (with_queue (b.command_queue ++ r.arrived) b))

    module _ (r : Round V E) (e : Engine V E) (h : IsReady e) where
      started-IsRunning : IsRunning (started r e)
      unfolding handle driver_start prepare_operation start_operation init_engine_state status
      started-IsRunning = ground arith

      started_same :
          ((started r e).position ≡ e.position)
          × ((started r e).buffersize ≡ e.buffersize)
          × ((started r e).max_length ≡ e.max_length)
      unfolding handle driver_start prepare_operation start_operation init_engine_state status
      started_same = ground arith

      checked-start :
          r.arrived ≡ start ∷ [] → 0 < r.pops → checked seconds r (begun e) ≡ started r e
      unfolding init_engine_state
      checked-start a p =
          let b = begun e in
          check_command_queue-start r.pops (with_queue (b.command_queue ++ r.arrived) b) p
            (rw (h.no_command, a) refl) started-IsRunning.no_command

    exec_loop-Ends_started :
        (n : ℕ) (r : Round V E) (rs : List (Round V E)) (e c : Engine V E)
        → checked seconds r e ≡ c
        → IsRunning c
        → AllQuiet rs
        → c.max_length < c.position + n * c.buffersize
        → n < length rs
        → Ends (exec_loop seconds (r ∷ rs) e)
    exec_loop-Ends_started n r [] e c same h q p l = absurd (omega arith)
    exec_loop-Ends_started zero r (r' ∷ rs) e c same h q p l =
        rw (exec_loop_step seconds r (r' ∷ rs) e c same h)
          (elim (iterated-cases r.unfinished r.failed c h) [
            | inr over ↦
                exec_loop-Ends_over seconds r' rs (iterated r.unfinished r.failed c) q.0 over
            | inl further ↦ absurd (ground (arith, further.within, further.moved))
          ])
    exec_loop-Ends_started (suc n) r (r' ∷ rs) e c same h q p l =
        let c' = iterated r.unfinished r.failed c in
        rw (exec_loop_step seconds r (r' ∷ rs) e c same h)
          (elim (iterated-cases r.unfinished r.failed c h) [
            | inr over ↦ exec_loop-Ends_over seconds r' rs c' q.0 over
            | inl further ↦
                exec_loop-Ends seconds n (r' ∷ rs) c' further.runs_on q
                  (past_end seconds n c c' further p) (omega arith)
          ])

    -- In batch mode, with a maximum length and no loop, `exec` returns after at most `n + 1` rounds
    -- that follow the start, where `n` buffers lead past the maximum length, whatever inputs and
    -- outputs do. No other command arrives, and in each round the lock of the queue is got at least
    -- once.
    pub exec-Ends :
        (n : ℕ) (r : Round V E) (rs : List (Round V E)) (e : Engine V E)
        → IsReady e
        → r.arrived ≡ start ∷ []
        → 0 < r.pops
        → AllQuiet rs
        → e.max_length < e.position + n * e.buffersize
        → n < length rs
        → (returned : ℤ × Engine V E) × (exec seconds true (r ∷ rs) e ≡ some returned)
    unfolding exec driver_exec
    exec-Ends n r rs e h a p q l k =
        let same = started_same r e h in
        let far : (started r e).max_length < (started r e).position + n * (started r e).buffersize =
          rw (same.0, same.1, same.2) l in
        map-Ends conclude (Option.map stop_at_end (exec_loop seconds (r ∷ rs) (begun e))) (
          map-Ends stop_at_end (exec_loop seconds (r ∷ rs) (begun e)) (
            exec_loop-Ends_started n r rs (begun e) (started r e) (checked-start r e h a p)
              (started-IsRunning r e h) q far k))
