-- ===== src/Chain.antt =====
-- libecasound/eca-chain.cpp: CHAIN, its connections, its chain operators and their selection. An
-- object is the number of its address, 0 for a null pointer. A method returns the chain with the
-- calls that it makes on other objects, in order; `fault` is undefined behaviour. An `int` is a ℤ,
-- and no counter comes near its limits.
pub mod Connections
pub mod Operators
pub mod Controllers
pub mod Processing
pub mod Removal
mod Tests
use ecasound.Common.{
  ℕ, zero, suc, ◌+◌, ◌-◌, Bool, true, false, not, ◌&&◌, ◌||◌, List, [], ◌∷◌, ◌++◌, Option, none,
  some, ◌==◌, length, get_elem?, if◌then◌else◌,
}
use ecasound.Common.Int.{ℤ, pos, negsuc, pos_part, ltb_ℤ, leb_ℤ, eq_ℤ, pred_ℤ}

-- CHAIN::COP_CONTAINER.
pub record CopContainer : Type 0 where
  pub cop : ℕ
  pub bypassed : Bool

-- A GENERIC_CONTROLLER, with its `target_pointer`.
pub record Controller : Type 0 where
  pub self : ℕ
  pub target : ℕ

-- With the sampling rate of ECA_SAMPLERATE_AWARE and the position of ECA_AUDIO_POSITION.
pub record Chain : Type 0 where
  pub initialized : Bool
  pub muted : Bool
  pub bypass : Bool
  pub in_channels : ℕ
  pub out_channels : ℕ
  pub input_id : ℤ
  pub output_id : ℤ
  pub audioslot : ℕ
  pub srate : ℤ
  pub position : ℤ
  pub chainops : List CopContainer
  pub gcontrollers : List Controller
  pub selected_controller_ptr : ℕ
  pub selected_dynobj : ℕ
  pub selected_chainop_number : ℤ
  pub selected_chainop_parameter : ℤ
  pub selected_controller_number : ℤ
  pub selected_controller_parameter : ℤ

-- A call on another object. `V` is CHAIN_OPERATOR::parameter_t.
pub data Call (V : Type 0) : Type 0 where
  set_rate : ℕ → ℤ → Call V
  set_param : ℕ → ℤ → V → Call V
  refresh init_object init_controller run release_object free update : ℕ → Call V
  widen : ℕ → Call V
  silence : Call V

-- The constructor sets all but these fields, which start out indeterminate.
pub create : (in_ch out_ch slot : ℕ) → ℤ → Chain
create in_ch out_ch slot rate = record {
  initialized = false;
  muted = false;
  bypass = false;
  in_channels = in_ch;
  out_channels = out_ch;
  input_id = negsuc 0;
  output_id = negsuc 0;
  audioslot = slot;
  srate = rate;
  position = pos 0;
  chainops = [];
  gcontrollers = [];
  selected_controller_ptr = 0;
  selected_dynobj = 0;
  selected_chainop_number = pos 0;
  selected_chainop_parameter = pos 0;
  selected_controller_number = pos 0;
  selected_controller_parameter = pos 0;
}

unfoldable pub is_valid : Chain → Bool
is_valid c = not (eq_ℤ c.input_id (negsuc 0) || eq_ℤ c.output_id (negsuc 0))

unfoldable pub connect_input : ℤ → Chain → Chain
connect_input input c = record c { input_id = input }

unfoldable pub connect_output : ℤ → Chain → Chain
connect_output output c = record c { output_id = output }

unfoldable pub disconnect_input : Chain → Chain
disconnect_input c = record c { input_id = negsuc 0; initialized = false }

unfoldable pub disconnect_output : Chain → Chain
disconnect_output c = record c { output_id = negsuc 0; initialized = false }

unfoldable pub input_removed : ℤ → Chain → Chain
unfolding disconnect_input
input_removed input c =
    if ltb_ℤ input c.input_id
    then record c { input_id = pred_ℤ c.input_id }
    else if eq_ℤ c.input_id input
    then disconnect_input c
    else c

unfoldable pub output_removed : ℤ → Chain → Chain
unfolding disconnect_output
output_removed output c =
    if ltb_ℤ output c.output_id
    then record c { output_id = pred_ℤ c.output_id }
    else if eq_ℤ c.output_id output
    then disconnect_output c
    else c

-- 1=on, 0=off, -1=toggle.
unfoldable pub switch : ℤ → Bool → Bool
switch state old =
    if ltb_ℤ state (pos 0) then not old else if ltb_ℤ (pos 0) state then true else false

unfoldable pub set_mute : ℤ → Chain → Chain
unfolding switch
set_mute state c = record c { muted = switch state c.muted }

unfoldable pub set_bypass : ℤ → Chain → Chain
unfolding switch
set_bypass state c = record c { bypass = switch state c.bypass }

pub number_of_chain_operators : Chain → ℕ
number_of_chain_operators c = length c.chainops

-- `is_valid_op_index`, on the vector itself.
pub is_valid_op_index : ℤ → List CopContainer → Bool
is_valid_op_index op_index ops = ltb_ℤ (pos 0) op_index && leb_ℤ op_index (pos (length ops))

-- `chainops_rep[op_index - 1]`, at an index that has been found valid.
pub container_at : List CopContainer → ℤ → Option CopContainer
container_at ops op_index = get_elem? ops (pos_part op_index - 1)

bypassed_after : ℤ → CopContainer → CopContainer
unfolding switch
bypassed_after state k = record k { bypassed = switch state k.bypassed }

update_at : (CopContainer → CopContainer) → List CopContainer → ℕ → List CopContainer
update_at f [] i = []
update_at f (k ∷ ks) zero = f k ∷ ks
update_at f (k ∷ ks) (suc i) = k ∷ update_at f ks i

pub bypass_operator : ℤ → ℤ → Chain → Chain
unfolding is_valid_op_index update_at bypassed_after
bypass_operator op_index state c =
    if is_valid_op_index op_index c.chainops
    then record c { chainops = update_at (bypassed_after state) c.chainops (pos_part op_index - 1) }
    else c

is_bypassed : Option CopContainer → Bool
is_bypassed none = false
is_bypassed (some k) = k.bypassed

pub is_operator_bypassed : ℤ → Chain → Bool
unfolding is_valid_op_index container_at is_bypassed
is_operator_bypassed op_index c =
    if is_valid_op_index op_index c.chainops
    then is_bypassed (container_at c.chainops op_index)
    else false

-- The `cop` of a container, or null.
cop_of : Option CopContainer → ℕ
cop_of none = 0
cop_of (some k) = k.cop

pub operator_at : ℤ → Chain → ℕ
unfolding is_valid_op_index container_at cop_of
operator_at op_index c =
    if is_valid_op_index op_index c.chainops then cop_of (container_at c.chainops op_index) else 0

pub get_selected_chain_operator : Chain → ℕ
unfolding operator_at
get_selected_chain_operator c = operator_at c.selected_chainop_number c

-- Past the bounds test of `select_chain_operator`, its call of `selected_chain_operator_as_target`
-- finds its two assertions true.
pub selected_chain_operator_as_target : Chain → Chain
unfolding operator_at
selected_chain_operator_as_target c = record c {
  selected_dynobj = operator_at c.selected_chainop_number c;
}

pub select_chain_operator : ℤ → Chain → Chain
unfolding is_valid_op_index selected_chain_operator_as_target
select_chain_operator index c =
    if is_valid_op_index index c.chainops
    then selected_chain_operator_as_target (record c { selected_chainop_number = index })
    else c

pub select_chain_operator_parameter : ℤ → Chain → Chain
select_chain_operator_parameter index c = record c { selected_chainop_parameter = index }

module _ {V : Type 0} where
  -- A null pointer gets no call.
  call_if : ℕ → Call V → List (Call V)
  call_if object k = if object == 0 then [] else k ∷ []

  pub set_parameter : ℤ → ℤ → V → Chain → List (Call V)
  unfolding call_if operator_at
  set_parameter op_index param_index value c =
      let cop =
        if ltb_ℤ op_index (pos 0)
        then operator_at c.selected_chainop_number c
        else operator_at op_index c in
      let param = if ltb_ℤ param_index (pos 0) then c.selected_chainop_parameter else param_index in
      call_if cop (set_param cop param value)

  -- `is_srate_aware` is the dynamic cast to ECA_SAMPLERATE_AWARE.
  pub add_chain_operator : (ℕ → Bool) → ℕ → Chain → Chain × List (Call V)
  add_chain_operator is_srate_aware chainop c = (
    record c {
      chainops = c.chainops ++ (record { cop = chainop; bypassed = false } ∷ []);
      selected_chainop_number = pos (length c.chainops + 1);
      initialized = false;
    },
    if is_srate_aware chainop then set_rate chainop c.srate ∷ [] else [],
  )
