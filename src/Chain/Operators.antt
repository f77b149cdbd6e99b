-- ===== src/Chain/Operators.antt =====
-- The chain operators of a CHAIN by their numbers, from 1, and the selection among them.
use ecasound.Common.{
  ℕ, ◌+◌, ◌-◌, ◌≡◌, ◌⊎◌, some, arith, length, get_elem?, get_elem?-lt, if◌then◌else◌,
}
use ecasound.Common.Int.{ℤ, pos, negsuc, ◌≤ℤ◌}
use ecasound.Chain.{CopContainer, Chain, operator_at, select_chain_operator, is_valid_op_index}

-- A number that is one more than an operator's position is that operator's.
pub operator_at-found :
    (k : ℕ) (c : Chain) (op : CopContainer)
    → get_elem? c.chainops k ≡ some op
    → operator_at (pos (k + 1)) c ≡ op.cop
unfolding operator_at
operator_at-found k c op h =
    let e : k + 1 - 1 ≡ k = omega arith in
    let e' : get_elem? c.chainops (k + 1 - 1) ≡ some op = rw e h in
    ground (arith, get_elem?-lt c.chainops k h)

-- Any other number stands for no operator.
pub operator_at-missing :
    (index : ℤ) (c : Chain)
    → (index ≤ℤ pos 0) ⊎ (pos (length c.chainops + 1) ≤ℤ index)
    → operator_at index c ≡ 0
unfolding operator_at
operator_at-missing (negsuc n) c h = ground arith
operator_at-missing (pos n) c h = ground arith

-- Selecting the number of an operator makes it the selected one and the target of control; any other
-- number changes nothing.
select_chain_operator_lem :
    (index : ℤ) (c : Chain)
    → select_chain_operator index c ≡ (
        if is_valid_op_index index c.chainops
        then record c { selected_chainop_number = index; selected_dynobj = operator_at index c }
        else c)
unfolding select_chain_operator operator_at
select_chain_operator_lem index c = ground arith
