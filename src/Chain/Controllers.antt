-- ===== src/Chain/Controllers.antt =====
-- libecasound/eca-chain.cpp: the controllers of a CHAIN and their selection.
pub mod Selection
use ecasound.Common.{
  ℕ, ◌+◌, ◌-◌, ◌&&◌, List, [], ◌∷◌, ◌++◌, Option, none, some, length, get_elem?, if◌then◌else◌,
}
use ecasound.Common.Int.{ℤ, pos, negsuc, pos_part, ltb_ℤ, leb_ℤ, eq_ℤ}
use ecasound.Chain.{Controller, Chain, Call, set_param, free}

-- `assign_target` on the new controller is its `target` field.
unfoldable pub add_controller : ℕ → Chain → Chain
add_controller gcontroller c = record c {
  gcontrollers = c.gcontrollers ++ (record { self = gcontroller; target = c.selected_dynobj } ∷ []);
  selected_controller_ptr = gcontroller;
  selected_controller_number = pos (length c.gcontrollers + 1);
}

-- The loop of `select_controller`, from position `n` on.
unfoldable pub select_loop : ℤ → ℕ → List Controller → Chain → Chain
select_loop index n [] c = c
select_loop index n (g ∷ gs) c = select_loop index (n + 1) gs (
    if eq_ℤ (pos (n + 1)) index
    then record c { selected_controller_ptr = g.self; selected_controller_number = index }
    else c)

unfoldable pub select_controller : ℤ → Chain → Chain
unfolding select_loop
select_controller index c =
    select_loop index 0 c.gcontrollers
      (record c { selected_controller_ptr = 0; selected_controller_number = pos 0 })

unfoldable pub select_controller_parameter : ℤ → Chain → Chain
select_controller_parameter index c = record c { selected_controller_parameter = index }

-- The loop of `remove_controller`, from position `n` on: the object deleted, and the vector left.
unfoldable pub remove_loop : ℤ → ℕ → List Controller → Option ℕ × List Controller
remove_loop selected n [] = (none, [])
remove_loop selected n (g ∷ gs) =
    let (deleted, rest) = remove_loop selected (n + 1) gs in
    if eq_ℤ (pos (n + 1)) selected then (some g.self, gs) else (deleted, g ∷ rest)

unfoldable pub selected_controller_as_target : Chain → Chain
selected_controller_as_target c = record c { selected_dynobj = c.selected_controller_ptr }

controller_at : ℤ → List Controller → Option Controller
controller_at index gs =
    if ltb_ℤ (pos 0) index && leb_ℤ index (pos (length gs))
    then get_elem? gs (pos_part index - 1)
    else none

module _ {V : Type 0} where
  -- `select_controller(-1)` runs on the shortened vector, in the branch that has erased.
  unfoldable pub finish_removal : Option ℕ → List Controller → Chain → Chain × List (Call V)
  unfolding select_controller
  finish_removal none rest c = (c, [])
  finish_removal (some object) rest c =
      (select_controller (negsuc 0) (record c { gcontrollers = rest }), free object ∷ [])

  unfoldable pub remove_controller : Chain → Chain × List (Call V)
  unfolding remove_loop finish_removal
  remove_controller c =
      let (deleted, rest) = remove_loop c.selected_controller_number 0 c.gcontrollers in
      finish_removal deleted rest c

  send : Option Controller → ℤ → V → List (Call V)
  send none param value = []
  send (some g) param value = set_param g.self param value ∷ []

  unfoldable pub set_controller_parameter : ℤ → ℤ → V → Chain → List (Call V)
  unfolding controller_at send
  set_controller_parameter ctrl_index param_index value c =
      send
        (controller_at
          (if ltb_ℤ ctrl_index (pos 0) then c.selected_controller_number else ctrl_index)
          c.gcontrollers)
        (if ltb_ℤ param_index (pos 0) then c.selected_controller_parameter else param_index) value
