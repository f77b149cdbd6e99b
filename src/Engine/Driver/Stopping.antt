-- ===== src/Engine/Driver/Stopping.antt =====
-- How ECA_ENGINE::exec ends: nothing runs any more, and an exit command ends it.
use mathlib.Core.Option
use ecasound.Common.{◌≡◌, ap, Bool, true, false, List, [], ◌∷◌, ◌++◌, Option, none, some, arith}
use ecasound.Common.Int.{ℤ}
use ecasound.Engine.{notready, Engine, status, init_engine_state, driver_stop, cleanup}
use ecasound.Engine.Commands.{Seconds}
use ecasound.Engine.Invariant.{
  EachRuns, IsCoherent, init_engine_state-IsCoherent, check_command_queue-IsCoherent,
  update_engine_state-IsCoherent, engine_iteration-IsCoherent, driver_stop-IsCoherent,
  driver_stop-stopped,
}
use ecasound.Engine.Driver.{
  Round, checked, decide, exec_loop, stop_at_end, driver_exec, conclude, exec,
}

-- Nothing of the engine runs, and the chainsetup is free.
pub record IsAtRest {V E : Type 0} (e : Engine V E) : Type 0 where
  pub unprepared : e.prepared ≡ false
  pub still : e.is_running ≡ false
  pub devices_still : EachRuns false e.devices
  pub server_still : e.server_running ≡ false
  pub midi_still : e.midi_running ≡ false
  pub forked_still : e.forked_running ≡ false
  pub unlocked : e.locked ≡ false
  pub detached : status e ≡ notready

-- What holds of the state that the loop ends in, if it does.
abbrev Ensures : {V E : Type 0} → (Engine V E → Type 0) → Option (Bool × Engine V E) → Type 0
Ensures P none = Unit
Ensures P (some (drain, e)) = P e

decide-Ensures :
    {V E : Type 0} (P : Engine V E → Type 0) (e : Engine V E)
    (iterated waited : Option (Bool × Engine V E))
    → P e
    → Ensures P iterated
    → Ensures P waited
    → Ensures P (decide e iterated waited)
decide-Ensures P e iterated waited p i w = ground arith

conclude-IsAtRest :
    {V E : Type 0} (e : Engine V E)
    → e.prepared ≡ false
    → e.is_running ≡ false
    → IsCoherent e
    → IsAtRest (conclude e).1
unfolding cleanup status
conclude-IsAtRest e unprepared still h = ground arith

some_inj : {A : Type 0} {a b : A} → some a ≡ some b → a ≡ b
some_inj p = cc

concluded :
    {V E : Type 0} (ended : Option (Bool × Engine V E)) {result : ℤ} {e' : Engine V E}
    → Ensures IsCoherent ended
    → Option.map conclude (Option.map stop_at_end ended) ≡ some (result, e')
    → IsAtRest e'
concluded none h p = cc
concluded (some (drain, e)) {e'} h p =
    let (unprepared, still) = driver_stop-stopped drain e h in
    let rest =
      conclude-IsAtRest (driver_stop drain e) unprepared still (driver_stop-IsCoherent drain e h) in
    rw (ap (λ (r : ℤ × Engine _ _). r.1) (some_inj p)) at rest

module _ {V E : Type 0} (seconds : Seconds V) where
  checked-IsCoherent :
      (r : Round V E) (e : Engine V E) → IsCoherent e → IsCoherent (checked seconds r e)
  checked-IsCoherent r e h =
      let arrived : IsCoherent (record e { command_queue = e.command_queue ++ r.arrived }) =
        ground arith in
      check_command_queue-IsCoherent seconds r.pops _ arrived

  exec_loop-IsCoherent :
      (rounds : List (Round V E)) (e : Engine V E)
      → IsCoherent e
      → Ensures IsCoherent (exec_loop seconds rounds e)
  unfolding exec_loop
  exec_loop-IsCoherent [] e h = tt
  exec_loop-IsCoherent (r ∷ rs) e h =
      let e' = checked seconds r e in
      let h' = checked-IsCoherent r e h in
      let iterated = engine_iteration-IsCoherent r.unfinished r.failed e' h' in
      decide-Ensures IsCoherent e' _ _ h'
        (exec_loop-IsCoherent rs _ (update_engine_state-IsCoherent _ iterated))
        (exec_loop-IsCoherent rs _ (update_engine_state-IsCoherent e' h'))

  -- Whatever the schedule: where `exec` returns, on a coherent engine, the engine, its devices, its
  -- servers and its forked objects are stopped, the chainsetup is unlocked and the engine has let go
  -- of it.
  pub exec-IsAtRest :
      (batch_mode : Bool) (rounds : List (Round V E)) (e : Engine V E) {result : ℤ}
      {e' : Engine V E}
      → IsCoherent e
      → exec seconds batch_mode rounds e ≡ some (result, e')
      → IsAtRest e'
  unfolding exec driver_exec
  exec-IsAtRest batch_mode rounds e h p =
      let started =
        init_engine_state
          (record e { locked = true; batchmode = batch_mode; exit_request = false }) in
      let begun : IsCoherent started = init_engine_state-IsCoherent _ (ground arith) in
      concluded (exec_loop seconds rounds started) (exec_loop-IsCoherent rounds started begun) p
