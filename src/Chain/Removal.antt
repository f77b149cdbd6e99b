-- ===== src/Chain/Removal.antt =====
-- libecasound/eca-chain.cpp: CHAIN::remove_chain_operator and CHAIN::clear, with the loops over the
-- two vectors. `fault` is an iterator moved past the end.
pub mod Loops
pub mod Removed
use ecasound.Common.{
  ℕ, zero, suc, ◌+◌, ◌-◌, Bool, true, false, List, [], ◌∷◌, ◌++◌, Option, none, some, ◌==◌, length,
  map, if◌then◌else◌,
}
use ecasound.Common.Int.{ℤ, pos, negsuc, pos_part, ltb_ℤ, leb_ℤ}
use ecasound.Chain.{CopContainer, Controller, Chain, Call, free, operator_at}

pub data Outcome (A : Type 0) : Type 0 where
  done : A → Outcome A
  fault : Outcome A

-- What the loops share: the vector of controllers, the selected one, and the objects deleted.
pub record Work : Type 0 where
  pub controllers : List Controller
  pub selected : ℕ
  pub freed : List ℕ

-- The first controller of the operator, and the vector with it erased.
unfoldable pub first_of_target : ℕ → List Controller → Option (ℕ × List Controller)
first_of_target cop [] = none
first_of_target cop (g ∷ gs) =
    if g.target == cop
    then some (g.self, gs)
    else elim (first_of_target cop gs) [ none ↦ none | some (x, rest) ↦ some (x, g ∷ rest) ]

-- The inner loop: it starts again from the beginning after each erasure. A vector of `n` controllers
-- needs at most `n` erasures.
unfoldable pub erase_controllers : ℕ → ℕ → Work → Work
erase_controllers cop zero w = w
erase_controllers cop (suc fuel) w = elim (first_of_target cop w.controllers) [
  | none ↦ w
  | some (x, rest) ↦ erase_controllers cop fuel (record {
    controllers = rest;
    selected = if w.selected == x then 0 else w.selected;
    freed = w.freed ++ (x ∷ []);
  })
]

-- The body of the outer loop where `(*p).cop == to_remove`.
unfoldable pub delete_operator : ℕ → Work → Work
unfolding erase_controllers first_of_target
delete_operator cop w =
    let w' = erase_controllers cop (length w.controllers) w in
    record w' { freed = w'.freed ++ (cop ∷ []) }

-- What the outer loop leaves, and whether it took the `break`.
pub record Erased : Type 0 where
  pub operators : List CopContainer
  pub work : Work
  pub stopped : Bool

unfoldable pub keep : CopContainer → Outcome Erased → Outcome Erased
keep k (done e) = done (record e { operators = k ∷ e.operators })
keep k fault = fault

-- The outer loop. Erasing moves the next container to the iterator, so without the `break` the
-- following `p++` skips it (`skip`), or passes the end.
unfoldable pub erase_loop : ℕ → Bool → Bool → Work → List CopContainer → Outcome Erased
unfolding delete_operator keep
erase_loop to_remove stops true w [] = fault
erase_loop to_remove stops true w (k ∷ ks) = keep k (erase_loop to_remove stops false w ks)
erase_loop to_remove stops false w [] = done (record { operators = []; work = w; stopped = false })
erase_loop to_remove stops false w (k ∷ ks) = elim (k.cop == to_remove) [
  | false ↦ keep k (erase_loop to_remove stops false w ks)
  | true ↦ elim stops [
    | true ↦ done (record { operators = ks; work = delete_operator to_remove w; stopped = true })
    | false ↦ erase_loop to_remove stops true (delete_operator to_remove w) ks
  ]
]

abbrev pub start : Chain → Work
start c = record { controllers = c.gcontrollers; selected = c.selected_controller_ptr; freed = [] }

-- A negative index stands for the selected operator.
unfoldable pub chosen_index : ℤ → Chain → ℤ
chosen_index op_index c = if ltb_ℤ op_index (pos 0) then c.selected_chainop_number else op_index

module _ {V : Type 0} where
  frees : List ℕ → List (Call V)
  frees = map free

  unfoldable pub finish : Chain → Outcome Erased → Outcome (Chain × List (Call V))
  unfolding frees
  finish c fault = fault
  finish c (done e) = done (
    record c {
      chainops = e.operators;
      gcontrollers = e.work.controllers;
      selected_controller_ptr = e.work.selected;
      selected_chainop_number = if e.stopped then negsuc 0 else c.selected_chainop_number;
      initialized = false;
    },
    frees e.work.freed,
  )

  -- From the test `to_remove != 0` on.
  unfoldable pub remove_object : ℕ → Bool → Chain → Outcome (Chain × List (Call V))
  unfolding erase_loop finish
  remove_object to_remove stops c =
      if to_remove == 0
      then done (c, [])
      else finish c (erase_loop to_remove stops false (start c) c.chainops)

  unfoldable pub remove_chain_operator : ℤ → Chain → Outcome (Chain × List (Call V))
  unfolding remove_object chosen_index
  remove_chain_operator op_index c =
      let index = chosen_index op_index c in
      remove_object (operator_at index c) (leb_ℤ c.selected_chainop_number index) c

  unfoldable pub clear : Chain → Chain × List (Call V)
  unfolding frees
  clear c = (
    record c { chainops = []; gcontrollers = []; initialized = false },
    frees (
        map (λ (k : CopContainer). k.cop) c.chainops
        ++ map (λ (g : Controller). g.self) c.gcontrollers),
  )
