-- ===== src/Chainsetup/Tests.antt =====
-- A chainsetup with three chains, a file behind a proxy and a device as inputs, and one output.
use Prim.Native.String.{String}
use ecasound.Common.{
  ℕ, zero, suc, ◌==◌, ◌≡◌, refl, Bool, true, false, List, [], ◌∷◌, ◌++◌, none, some, get_elem?,
  arith,
}
use ecasound.Common.Int.{ℤ, pos, negsuc}
use ecasound.Chain.{Chain}
use ecasound.Chain.Connections.{object_at}
use ecasound.Chainsetup.{
  input, output, Member, Chainsetup, attach_to_selected_chains, update_cache_chain_connections,
}
use ecasound.Chainsetup.Attaching.{attach_to_selected_chains_lem}
use ecasound.Chainsetup.Counts.{AllDistinct, AllConnected, update_cache_chain_connections_lem}
use ecasound.Chainsetup.Editing.Edited.{IsEdited, execute_edit-get_chain_index}
use ecasound.Chainsetup.Members.{get_chain_index, add_new_chains, remove_chains}
use ecasound.Chainsetup.Members.Names.{AllNamed, AllExist, remove_chains_lem, add_new_chains_lem}
use ecasound.Chainsetup.Removing.{
  unregister, delete_proxy, delete_object, Removal, remove_proxy, remove_audio_object,
}
use ecasound.Chainsetup.Removing.Removed.{StandsOnce, IsRemoved, remove_audio_object-IsRemoved}

abbrev chain : ℤ → ℤ → Chain
chain i o = record {
  initialized = true;
  muted = false;
  bypass = false;
  in_channels = 2;
  out_channels = 2;
  input_id = i;
  output_id = o;
  audioslot = 0;
  srate = pos 44100;
  position = pos 0;
  chainops = [];
  gcontrollers = [];
  selected_controller_ptr = 0;
  selected_dynobj = 0;
  selected_chainop_number = pos 0;
  selected_chainop_parameter = pos 0;
  selected_controller_number = pos 0;
  selected_controller_parameter = pos 0;
}

abbrev member : String → ℤ → Member
member name i = record { name = name; chain = chain i (pos 0) }

-- The proxy 10 stands for the file 1, and the device 2 for itself.
abbrev setup : Chainsetup
setup = record {
  inputs = record { objs = 10 ∷ 2 ∷ []; direct = 1 ∷ 2 ∷ [] };
  outputs = record { objs = 3 ∷ []; direct = 3 ∷ [] };
  chains = member "a" (pos 0) ∷ member "b" (pos 1) ∷ member "c" (pos 1) ∷ [];
  selected_chainids = "a" ∷ "c" ∷ [];
  loop_map = [];
  db_clients = 1;
}

-- The chain "b" is not selected, and loses the object that the others are attached to.
attach_to_selected_chains_lem_example :
    (m' : Member) × (get_elem? (attach_to_selected_chains input 2 setup).chains 1 ≡ some m')
    × (m'.name ≡ "b")
    × (m'.chain.output_id ≡ pos 0)
    × (object_at setup.inputs.objs m'.chain.input_id ≡ none)
attach_to_selected_chains_lem_example =
    attach_to_selected_chains_lem input setup 2 (10 ∷ []) [] 1 refl (refl, tt) tt refl

distinct_inputs : AllDistinct (10 ∷ 2 ∷ [])
distinct_inputs zero zero x p q = refl
distinct_inputs zero (suc zero) x p q = ground (arith, p, q)
distinct_inputs zero (suc (suc j)) x p q = cc
distinct_inputs (suc zero) zero x p q = ground (arith, p, q)
distinct_inputs (suc zero) (suc zero) x p q = refl
distinct_inputs (suc zero) (suc (suc j)) x p q = cc
distinct_inputs (suc (suc i)) j x p q = cc

distinct_outputs : AllDistinct (3 ∷ [])
distinct_outputs zero zero x p q = refl
distinct_outputs zero (suc j) x p q = cc
distinct_outputs (suc i) j x p q = cc

abbrev inputs_connected : AllConnected input setup setup.chains
inputs_connected = ((0, 10, refl, refl), ((1, 2, refl, refl), ((1, 2, refl, refl), tt)))

abbrev outputs_connected : AllConnected output setup setup.chains
outputs_connected = ((0, 3, refl, refl), ((0, 3, refl, refl), ((0, 3, refl, refl), tt)))

update_cache_chain_connections_lem_example :
    update_cache_chain_connections setup ≡ some (1 ∷ 2 ∷ [], 3 ∷ [])
update_cache_chain_connections_lem_example =
    update_cache_chain_connections_lem setup distinct_inputs distinct_outputs inputs_connected
      outputs_connected

abbrev is_10 : ℕ → Bool
is_10 n = n == 10

abbrev stands_once : StandsOnce input setup 10 1
stands_once = record {
  before = [];
  after = 2 ∷ [];
  direct_before = [];
  direct_after = 2 ∷ [];
  split = refl;
  direct_split = refl;
  same_position = refl;
  once_before = tt;
  once_after = (refl, tt);
  direct_once = tt;
}

remove_audio_object-IsRemoved_example :
    (r : Removal) × (remove_audio_object is_10 (λ x. false) input 10 setup ≡ some r)
    × (r.calls ≡ unregister 1 ∷ delete_proxy 10 ∷ delete_object 1 ∷ [])
    × IsRemoved input 0 setup r.setup
unfolding remove_proxy
remove_audio_object-IsRemoved_example =
    remove_audio_object-IsRemoved is_10 (λ x. false) input 10 1 setup stands_once refl

abbrev all_named : AllNamed setup.chains
all_named = ((refl, (refl, tt)), ((refl, tt), (tt, tt)))

remove_chains_lem_example :
    ((remove_chains setup).chains ≡ member "b" (pos 1) ∷ [])
    × AllNamed (remove_chains setup).chains
    × ((remove_chains setup).selected_chainids ≡ [])
remove_chains_lem_example = remove_chains_lem setup all_named

add_new_chains_lem_example :
    let s' = add_new_chains (chain (negsuc 0) (negsuc 0)) (pos 48000) ("c" ∷ "d" ∷ []) setup in
    AllNamed s'.chains
    × AllExist ("c" ∷ "d" ∷ []) s'.chains
    × ((rest : List Member) × (s'.chains ≡ setup.chains ++ rest))
add_new_chains_lem_example =
    add_new_chains_lem (chain (negsuc 0) (negsuc 0)) (pos 48000) ("c" ∷ "d" ∷ []) setup all_named

abbrev not_understood : List ℕ → Chainsetup → Chainsetup × Bool
not_understood option s = (s, false)

execute_edit-get_chain_index_example :
    IsEdited {V = ℕ} not_understood 1 setup "b"
      (get_chain_index "b" setup)
      (pos 1)
      (pos 1)
      (pos 2)
      50
      (45 ∷ 101 ∷ [])
execute_edit-get_chain_index_example =
    execute_edit-get_chain_index not_understood 1 setup "b" (pos 1) (pos 1) (pos 2) 50
      (45 ∷ 101 ∷ [])
