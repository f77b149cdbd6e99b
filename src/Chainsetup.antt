-- ===== src/Chainsetup.antt =====
-- libecasound/eca-chainsetup.cpp: ECA_CHAINSETUP, its vectors of audio objects and chains, and how
-- chains are attached to objects. An audio object is the number of its address; what a dynamic_cast
-- tells of it is an argument. `vector::operator[]` outside a vector is `none`.
pub mod Attaching
pub mod Removing
pub mod Members
pub mod Editing
pub mod Counts
mod Tests
use Prim.Native.String.{String}
use text.Mathlib.Text.{◌==◌ as str_eq}
use ecasound.Common.{
  ℕ, zero, suc, ◌+◌, ◌-◌, Bool, true, false, not, ◌&&◌, ◌||◌, List, [], ◌∷◌, ◌++◌, map, Option,
  none, some, ◌==◌, ltb, length, get_elem?, if◌then◌else◌,
}
use ecasound.Common.Int.{ℤ, pos, negsuc, eq_ℤ}
use ecasound.Chain.{
  Chain, connect_input, connect_output, disconnect_input, disconnect_output, input_removed,
  output_removed, is_valid, set_mute, set_bypass,
}

-- cs_dir_input and cs_dir_output.
pub data Direction : Type 0 where
  input output : Direction

-- A chain with its name.
pub record Member : Type 0 where
  pub name : String
  pub chain : Chain

-- The vectors of one direction, in the same order: objects as the engine sees them, and the objects
-- behind a proxy, which are the same where there is no proxy.
pub record Objects : Type 0 where
  pub objs : List ℕ
  pub direct : List ℕ

pub record Chainsetup : Type 0 where
  pub inputs : Objects
  pub outputs : Objects
  pub chains : List Member
  pub selected_chainids : List String
  pub loop_map : List (String × ℕ)
  pub db_clients : ℕ

abbrev pub opposite : Direction → Direction
opposite input = output
opposite output = input

abbrev pub objects : Direction → Chainsetup → Objects
objects input s = s.inputs
objects output s = s.outputs

abbrev pub with_objects : Direction → Objects → Chainsetup → Chainsetup
with_objects input o s = record s { inputs = o }
with_objects output o s = record s { outputs = o }

-- connected_input() and connected_output().
abbrev pub connection : Direction → Chain → ℤ
connection input c = c.input_id
connection output c = c.output_id

pub connect : Direction → ℕ → Chain → Chain
unfolding connect_input connect_output
connect input k c = connect_input (pos k) c
connect output k c = connect_output (pos k) c

pub disconnect : Direction → Chain → Chain
unfolding disconnect_input disconnect_output
disconnect input c = disconnect_input c
disconnect output c = disconnect_output c

pub object_removed : Direction → ℕ → Chain → Chain
unfolding input_removed output_removed
object_removed input k c = input_removed (pos k) c
object_removed output k c = output_removed (pos k) c

abbrev pub on_chain : (Chain → Chain) → Member → Member
on_chain f m = record m { chain = f m.chain }

-- The loop over all chains for one selected name.
abbrev pub on_named : String → (Chain → Chain) → List Member → List Member
on_named p f = map (λ m. if str_eq p m.name then on_chain f m else m)

pub disconnect_from : Direction → ℕ → Member → Member
unfolding disconnect
disconnect_from dir c m =
    if eq_ℤ (connection dir m.chain) (pos c) then on_chain (disconnect dir) m else m

-- The loop over the selected names.
pub on_selected : (Chain → Chain) → List String → List Member → List Member
on_selected f [] ms = ms
on_selected f (p ∷ ps) ms = on_selected f ps (on_named p f ms)

-- The loop over the objects from position `c` on.
pub attach_from : Direction → ℕ → List String → (c : ℕ) → List ℕ → List Member → List Member
unfolding connect disconnect_from on_selected
attach_from dir obj ids c [] ms = ms
attach_from dir obj ids c (x ∷ xs) ms =
    attach_from dir obj ids (suc c) xs
      (if x == obj then on_selected (connect dir c) ids (map (disconnect_from dir c) ms) else ms)

-- attach_input_to_selected_chains and attach_output_to_selected_chains.
unfoldable pub attach_to_selected_chains : Direction → ℕ → Chainsetup → Chainsetup
unfolding attach_from
attach_to_selected_chains dir obj s = record s {
  chains = attach_from dir obj s.selected_chainids 0 (objects dir s).objs s.chains;
}

-- The object that a chain is connected to: `inputs[connected_input()]`.
abbrev pub object_of : Direction → Chainsetup → Chain → Option ℕ
object_of dir s c = elim (connection dir c) [
  | pos k ↦ get_elem? (objects dir s).objs k
  | negsuc n ↦ none
]

-- number_of_attached_chains_to_input and number_of_attached_chains_to_output; `none` where a chain
-- has no connection, and -1 is an index.
pub number_of_attached_chains : Direction → ℕ → Chainsetup → List Member → Option ℕ
number_of_attached_chains dir obj s [] = some 0
number_of_attached_chains dir obj s (m ∷ ms) = elim (object_of dir s m.chain) [
  | none ↦ none
  | some x ↦ elim (number_of_attached_chains dir obj s ms) [
    | none ↦ none
    | some n ↦ some (if obj == x then n + 1 else n)
  ]
]

-- ECA_ENGINE::update_cache_chain_connections, for the objects from some position on.
pub cache_chain_connections : Direction → Chainsetup → List ℕ → Option (List ℕ)
unfolding number_of_attached_chains
cache_chain_connections dir s [] = some []
cache_chain_connections dir s (obj ∷ objs) = elim (number_of_attached_chains dir obj s s.chains) [
  | none ↦ none
  | some n ↦ elim (cache_chain_connections dir s objs) [ none ↦ none | some ns ↦ some (n ∷ ns) ]
]

unfoldable pub update_cache_chain_connections : Chainsetup → Option (List ℕ × List ℕ)
unfolding cache_chain_connections
update_cache_chain_connections s = elim (cache_chain_connections input s s.inputs.objs) [
  | none ↦ none
  | some ins ↦ elim (cache_chain_connections output s s.outputs.objs) [
    | none ↦ none
    | some outs ↦ some (ins, outs)
  ]
]

-- The loops of is_realtime_target_output: whether a chain is found, and whether all chains found
-- have a realtime device as input.
pub realtime_targets : (is_device : ℕ → Bool) → ℕ → Chainsetup → List Member → Option (Bool × Bool)
realtime_targets is_device output_id s [] = some (false, true)
realtime_targets is_device output_id s (m ∷ ms) =
    let rest = realtime_targets is_device output_id s ms in
    if eq_ℤ m.chain.output_id (pos output_id)
    then elim (object_of input s m.chain) [
      | none ↦ none
      | some x ↦ elim rest [ none ↦ none | some (found, all) ↦ some (true, is_device x && all) ]
    ]
    else rest

unfoldable pub is_realtime_target_output : (is_device : ℕ → Bool) → ℕ → Chainsetup → Option Bool
unfolding realtime_targets
is_realtime_target_output is_device output_id s =
    elim (realtime_targets is_device output_id s s.chains) [
      | none ↦ none
      | some (found, all) ↦ some (found && all)
    ]

pub all_valid : List Member → Bool
unfolding is_valid
all_valid [] = true
all_valid (m ∷ ms) = is_valid m.chain && all_valid ms

-- Without the messages.
unfoldable pub is_valid_for_connection : Chainsetup → Bool
unfolding all_valid
is_valid_for_connection s =
    if length s.inputs.objs == 0
    then false
    else if length s.outputs.objs == 0
    then false
    else if length s.chains == 0
    then false
    else all_valid s.chains
