-- ===== src/Chain/Tests.antt =====
-- A chain of three operators, and the theorems about CHAIN at concrete chains.
use ecasound.Common.{ℕ, ◌+◌, ◌≡◌, refl, inr, true, false, [], ◌∷◌, arith}
use ecasound.Common.Int.{pos, negsuc}
use ecasound.Chain.{
  CopContainer, Chain, free, add_chain_operator, operator_at, get_selected_chain_operator,
  bypass_operator, is_operator_bypassed,
}
use ecasound.Chain.Removal.{done, fault, remove_chain_operator}
use ecasound.Chain.Removal.Removed.{
  removed, deletions, remove_chain_operator-removed, remove_chain_operator-fault,
  get_selected_chain_operator-removed,
}
use ecasound.Chain.Processing.{process}
use ecasound.Chain.Processing.Runs.{runs, IsAdequate, runs-process, process-IsAdequate}

abbrev cop : ℕ → CopContainer
cop n = record { cop = n; bypassed = false }

-- Operators 11, 12 and 13, controller 21 on 12 and 22 on 13; operator 3 and controller 1 selected.
abbrev three : Chain
three = record {
  initialized = true;
  muted = false;
  bypass = false;
  in_channels = 2;
  out_channels = 2;
  input_id = pos 2;
  output_id = pos 0;
  audioslot = 5;
  srate = pos 44100;
  position = pos 0;
  chainops = cop 11 ∷ cop 12 ∷ cop 13 ∷ [];
  gcontrollers = record { self = 21; target = 12 } ∷ record { self = 22; target = 13 } ∷ [];
  selected_controller_ptr = 21;
  selected_dynobj = 13;
  selected_chainop_number = pos 3;
  selected_chainop_parameter = pos 1;
  selected_controller_number = pos 1;
  selected_controller_parameter = pos 1;
}

-- The same, after `remove_chain_operator(1)`: two operators, and the selected number is still 3.
abbrev two : Chain
two = record three { initialized = false; chainops = cop 12 ∷ cop 13 ∷ [] }

removes_first : remove_chain_operator {V = ℕ} (pos 1) three ≡ done (two, free 11 ∷ [])
unfolding remove_chain_operator operator_at
removes_first = refl

then_faults : remove_chain_operator {V = ℕ} (pos 2) two ≡ fault
unfolding remove_chain_operator operator_at
then_faults = refl

adds_last : (add_chain_operator {V = ℕ} (λ k. false) 14 two).0.selected_chainop_number ≡ pos 3
unfolding add_chain_operator
adds_last = refl

toggles : is_operator_bypassed (pos 2) (bypass_operator (pos 2) (negsuc 0) three) ≡ true
unfolding is_operator_bypassed bypass_operator
toggles = refl

remove_chain_operator-removed_example :
    remove_chain_operator (pos 2) three
    ≡ done (removed 1 (cop 12) three, deletions {V = ℕ} (cop 12) three)
remove_chain_operator-removed_example =
    remove_chain_operator-removed 1 (cop 12) three refl (omega arith) (omega arith)
      (inr (omega arith))

remove_chain_operator-fault_example : remove_chain_operator {V = ℕ} (pos 2) two ≡ fault
remove_chain_operator-fault_example =
    remove_chain_operator-fault 1 (cop 13) two refl (omega arith) (omega arith) refl refl

-- With operator 2 selected, removing operator 1 leaves operator 13 selected in place of 12.
get_selected_chain_operator-removed_example :
    (d : Chain) × (remove_chain_operator {V = ℕ}
        (pos 1)
        (record three { selected_chainop_number = pos 2 })
      ≡ done (d, deletions (cop 11) (record three { selected_chainop_number = pos 2 })))
    × (get_selected_chain_operator d
        ≡ operator_at (pos 3) (record three { selected_chainop_number = pos 2 }))
get_selected_chain_operator-removed_example =
    get_selected_chain_operator-removed 0 1 (cop 11)
      (record three { selected_chainop_number = pos 2 }) refl (omega arith) (omega arith)
      (omega arith) (omega arith) refl

-- Each operator puts out a channel more than it takes in.
abbrev one_more : ℕ → ℕ → ℕ
one_more k n = n + 1

runs-process_example : runs (process {V = ℕ} one_more 2 64 three).1 ≡ 11 ∷ 12 ∷ 13 ∷ []
runs-process_example = runs-process ℕ one_more 2 64 three

process-IsAdequate_example : IsAdequate one_more 2 2 (process {V = ℕ} one_more 2 64 three).1
process-IsAdequate_example = process-IsAdequate ℕ one_more 2 64 three
