-- ===== src/Engine/Driver/Batch/Ending.antt =====
-- The rounds of a run in batch mode, put together.
use mathlib.Core.List.{append-nil}
use ecasound.Common.{
  ℕ, zero, suc, ◌+◌, ◌*◌, ◌≤◌, ◌<◌, ◌≡◌, refl, ap, ◌∙◌, ◌⊎◌, inl, inr, Bool, true, false, List, [],
  ◌∷◌, ◌++◌, Option, some, arith, length, Bool-cases,
}
use ecasound.Engine.{Command, stop, stop_with_drain, Engine, status, stop_operation}
use ecasound.Engine.Commands.{Seconds, check_command_queue, next_command, handle}
use ecasound.Engine.Iteration.{engine_iteration, update_engine_state}
use ecasound.Engine.Driver.{Round, checked, decide, exec_loop}
use ecasound.Engine.Driver.Batch.{
  IsRunning, Waiting, ended, ending, broken, IsOver, IsFurther, iterated-cases,
}

-- A round in which no command arrives and the lock of the queue is got at least once.
abbrev pub IsQuiet : {V E : Type 0} → Round V E → Type 0
IsQuiet r = (r.arrived ≡ []) × (0 < r.pops)

abbrev pub AllQuiet : {V E : Type 0} → List (Round V E) → Type 0
AllQuiet [] = Unit
AllQuiet (r ∷ rs) = IsQuiet r × AllQuiet rs

-- The loop has ended.
abbrev pub Ends : {A : Type 0} → Option A → Type 0
Ends {A} o = (a : A) × (o ≡ some a)

module _ {V E : Type 0} where
  abbrev pub with_queue : List (Command V E) → Engine V E → Engine V E
  with_queue cs e = record e { command_queue = cs }

  decide-Ends_over :
      (e : Engine V E) (i w : Option (Bool × Engine V E))
      → e.attached ≡ true
      → e.batchmode ≡ true
      → (e.finished_rep ≡ true) ⊎ (0 < e.outputs_finished)
      → Ends (decide e i w)
  unfolding status
  decide-Ends_over e i w a b (inl f) = elim (Bool-cases e.exit_request) [
    | inl x ↦ ((false, e), ground arith)
    | inr x ↦ ((true, e), ground arith)
  ]
  decide-Ends_over e i w a b (inr f) = elim (Bool-cases e.exit_request) [
    | inl x ↦ ((false, e), ground arith)
    | inr x ↦ elim (Bool-cases e.finished_rep) [
      | inl y ↦ ((true, e), ground arith)
      | inr y ↦ ((false, e), ground arith)
    ]
  ]

  decide_running :
      (e : Engine V E) (i w : Option (Bool × Engine V E)) → IsRunning e → decide e i w ≡ i
  unfolding status
  decide_running e i w h = ground arith

  module _ (seconds : Seconds V) where
    next_command_nil :
        (rest : Engine V E → Engine V E) (cs : List (Command V E)) (e : Engine V E)
        → cs ≡ []
        → next_command seconds rest cs e ≡ e
    unfolding next_command
    next_command_nil rest [] e h = refl
    next_command_nil rest (c ∷ cs) e h = cc

    pub check_command_queue_nil :
        (pops : ℕ) (e : Engine V E) → e.command_queue ≡ [] → check_command_queue seconds pops e ≡ e
    unfolding check_command_queue
    check_command_queue_nil zero e h = refl
    check_command_queue_nil (suc pops) e h =
        next_command_nil (check_command_queue seconds pops) e.command_queue e h

    -- What a stop leaves of the state that decides how the loop goes on.
    abbrev Kept : Engine V E → Engine V E → Type 0
    Kept e e' =
        (e'.attached ≡ e.attached)
        × (e'.batchmode ≡ e.batchmode)
        × (e'.finished_rep ≡ e.finished_rep)
        × (e'.outputs_finished ≡ e.outputs_finished)
        × (e'.command_queue ≡ e.command_queue)

    handle_stop_with_drain-Kept : (e : Engine V E) → Kept e (handle seconds stop_with_drain e)
    unfolding handle stop_operation
    handle_stop_with_drain-Kept e = ground arith

    handle_stop-Kept : (e : Engine V E) → Kept e (handle seconds stop e)
    unfolding handle stop_operation
    handle_stop-Kept e = ground arith

    -- A run that has come to its end.
    abbrev Over : Engine V E → Type 0
    Over e =
        (e.attached ≡ true)
        × (e.batchmode ≡ true)
        × ((e.finished_rep ≡ true) ⊎ (0 < e.outputs_finished))

    abbrev Pending : List (Command V E) → Type 0
    Pending cs = (cs ≡ []) ⊎ (cs ≡ stop_with_drain ∷ []) ⊎ (cs ≡ stop ∷ [])

    Kept-Over : (e e' : Engine V E) → Kept e e' → Over e → Over e'
    Kept-Over e e' k (a, b, inl f) = (k.0 ∙ a, k.1 ∙ b, inl (k.2 ∙ f))
    Kept-Over e e' k (a, b, inr f) = (k.0 ∙ a, k.1 ∙ b, inr (omega arith))

    next_command-Over :
        (rest : Engine V E → Engine V E) (cs : List (Command V E)) (e : Engine V E)
        → ((x : Engine V E) → x.command_queue ≡ [] → Over x → Over (rest x))
        → Over e
        → Pending cs
        → Over (next_command seconds rest cs e)
    unfolding next_command
    next_command-Over rest cs e keeps o (inl p) = rw p o
    next_command-Over rest cs e keeps o (inr (inl p)) =
        let e' = handle seconds stop_with_drain (with_queue [] e) in
        let k = handle_stop_with_drain-Kept (with_queue [] e) in
        rw p (keeps e' k.4 (Kept-Over (with_queue [] e) e' k o))
    next_command-Over rest cs e keeps o (inr (inr p)) =
        let e' = handle seconds stop (with_queue [] e) in
        let k = handle_stop-Kept (with_queue [] e) in
        rw p (keeps e' k.4 (Kept-Over (with_queue [] e) e' k o))

    check_command_queue-Over :
        (pops : ℕ) (e : Engine V E)
        → 0 < pops
        → Over e
        → Pending e.command_queue
        → Over (check_command_queue seconds pops e)
    unfolding check_command_queue
    check_command_queue-Over zero e h o p = absurd (omega arith)
    check_command_queue-Over (suc pops) e h o p =
        let rest = check_command_queue seconds pops in
        next_command-Over rest e.command_queue e
          (λ x none_left o'. rw (check_command_queue_nil pops x none_left) o') o p

    Pending-Waiting : (e : Engine V E) → Waiting e → Pending e.command_queue
    Pending-Waiting e (ended f c) = inl c
    Pending-Waiting e (ending f c) = inr (inl c)
    Pending-Waiting e (broken f o c) = inr (inr c)

    Over-IsOver : (e : Engine V E) → Waiting e → (e.finished_rep ≡ true) ⊎ (0 < e.outputs_finished)
    Over-IsOver e (ended f c) = inl f
    Over-IsOver e (ending f c) = inl f
    Over-IsOver e (broken f o c) = inr o

    checked-Over :
        (r : Round V E) (e : Engine V E) → IsQuiet r → IsOver e → Over (checked seconds r e)
    checked-Over r e q h =
        let e' = with_queue (e.command_queue ++ r.arrived) e in
        let w = Pending-Waiting e h.waiting in
        let o = Over-IsOver e h.waiting in
        let same : e.command_queue ++ r.arrived ≡ e.command_queue =
          rw q.0 (append-nil e.command_queue) in
        check_command_queue-Over r.pops e' q.1 (h.attached, h.batch, o) (rw same w)

    pub exec_loop-Ends_over :
        (r : Round V E) (rs : List (Round V E)) (e : Engine V E)
        → IsQuiet r
        → IsOver e
        → Ends (exec_loop seconds (r ∷ rs) e)
    unfolding exec_loop
    exec_loop-Ends_over r rs e q h =
        let o = checked-Over r e q h in decide-Ends_over (checked seconds r e) _ _ o.0 o.1 o.2

    requeued :
        (r : Round V E) (e : Engine V E)
        → IsQuiet r
        → IsRunning e
        → IsRunning (with_queue (e.command_queue ++ r.arrived) e)
    requeued r e q h = record {
      attached = h.attached;
      no_exit = h.no_exit;
      batch = h.batch;
      runs = h.runs;
      unfinished = h.unfinished;
      no_failure = h.no_failure;
      no_error = h.no_error;
      no_command = rw (q.0, h.no_command);
      limited = h.limited;
      once = h.once;
    }

    checked-IsRunning :
        (r : Round V E) (e : Engine V E)
        → IsQuiet r
        → IsRunning e
        → checked seconds r e ≡ with_queue (e.command_queue ++ r.arrived) e
    checked-IsRunning r e q h =
        let empty : e.command_queue ++ r.arrived ≡ [] = ground arith in
        check_command_queue_nil r.pops (with_queue (e.command_queue ++ r.arrived) e) empty

    -- The state after a round of a running engine.
    abbrev after_round : Round V E → Engine V E → Engine V E
    after_round r e =
        update_engine_state
          (engine_iteration r.unfinished r.failed (with_queue (e.command_queue ++ r.arrived) e))

    -- A round whose check of the queue leaves a running engine goes on after an iteration.
    pub exec_loop_step :
        (r : Round V E) (rs : List (Round V E)) (e c : Engine V E)
        → checked seconds r e ≡ c
        → IsRunning c
        → exec_loop seconds (r ∷ rs) e
          ≡ exec_loop seconds rs (update_engine_state (engine_iteration r.unfinished r.failed c))
    unfolding exec_loop
    exec_loop_step r rs e c same h =
        let loop = exec_loop seconds rs in
        let body = λ (x : Engine V E).
          decide x (loop (update_engine_state (engine_iteration r.unfinished r.failed x)))
            (loop (update_engine_state x)) in
        ap body same
        ∙ decide_running c (loop (update_engine_state (engine_iteration r.unfinished r.failed c)))
            (loop (update_engine_state c)) h

    exec_loop_running :
        (r : Round V E) (rs : List (Round V E)) (e : Engine V E)
        → IsQuiet r
        → IsRunning e
        → exec_loop seconds (r ∷ rs) e ≡ exec_loop seconds rs (after_round r e)
    exec_loop_running r rs e q h =
        exec_loop_step r rs e (with_queue (e.command_queue ++ r.arrived) e)
          (checked-IsRunning r e q h) (requeued r e q h)

    round-cases :
        (r : Round V E) (e : Engine V E)
        → IsQuiet r
        → IsRunning e
        → IsFurther e (after_round r e) ⊎ IsOver (after_round r e)
    round-cases r e q h =
        let e' = with_queue (e.command_queue ++ r.arrived) e in
        elim (iterated-cases r.unfinished r.failed e' (requeued r e q h)) [
          | inr over ↦ inr over
          | inl f ↦ inl (record {
            runs_on = f.runs_on;
            moved = f.moved;
            same_size = f.same_size;
            same_length = f.same_length;
            within = f.within;
          })
        ]

    pub past_end :
        (n : ℕ) (e e' : Engine V E)
        → IsFurther e e'
        → e.max_length < e.position + suc n * e.buffersize
        → e'.max_length < e'.position + n * e'.buffersize
    past_end n e e' f p = rw (f.moved, f.same_size, f.same_length) (grind arith)

    -- With `n` buffers from the position past the maximum length, two rounds more than that are
    -- enough.
    pub exec_loop-Ends :
        (n : ℕ) (rounds : List (Round V E)) (e : Engine V E)
        → IsRunning e
        → AllQuiet rounds
        → e.max_length < e.position + n * e.buffersize
        → n + 2 ≤ length rounds
        → Ends (exec_loop seconds rounds e)
    exec_loop-Ends n [] e h q p l = absurd (omega arith)
    exec_loop-Ends n (r ∷ []) e h q p l = absurd (omega arith)
    exec_loop-Ends zero (r ∷ r' ∷ rs) e h q p l =
        rw (exec_loop_running r (r' ∷ rs) e q.0 h) (elim (round-cases r e q.0 h) [
          | inr over ↦ exec_loop-Ends_over r' rs (after_round r e) q.1.0 over
          | inl further ↦ absurd (ground (arith, further.within, further.moved))
        ])
    exec_loop-Ends (suc n) (r ∷ r' ∷ rs) e h q p l =
        rw (exec_loop_running r (r' ∷ rs) e q.0 h) (elim (round-cases r e q.0 h) [
          | inr over ↦ exec_loop-Ends_over r' rs (after_round r e) q.1.0 over
          | inl further ↦
              exec_loop-Ends n (r' ∷ rs) (after_round r e) further.runs_on q.1
                (past_end n e (after_round r e) further p) (omega arith)
        ])
