-- ===== src/Chainsetup/Editing.antt =====
-- libecasound/eca-chainsetup.cpp: execute_edit, with the edits of eca-chainsetup-edit.h. A chain is
-- addressed by its number, which counts from one (get_chain_index).
pub mod Edited
pub mod Named
use ecasound.Common.{
  ℕ, zero, suc, ◌-◌, Bool, true, false, not, ◌&&◌, ◌||◌, List, [], ◌∷◌, ◌==◌, length, get_elem?,
  Option, none, some, if◌then◌else◌,
}
use ecasound.Common.Int.{ℤ, pos, negsuc, pos_part, ltb_ℤ}
use ecasound.Chain.{Chain, Call, set_mute, set_bypass, set_parameter, bypass_operator}
use ecasound.Chain.Controllers.{set_controller_parameter}
use ecasound.Chainsetup.{Member, Chainsetup, on_chain}

-- ECA::chainsetup_edit: the type with the members that it uses. A string parameter is a list of codes.
pub data Edit (V : Type 0) : Type 0 where
  c_bypass c_muting : (chain val : ℤ) → Edit V
  cop_add ctrl_add : (chain : ℤ) → List ℕ → Edit V
  cop_bypass : (chain op bypass : ℤ) → Edit V
  cop_set_param ctrl_set_param : (chain op param : ℤ) → V → Edit V

pub chain_of : {V : Type 0} → Edit V → ℤ
chain_of (c_bypass chain val) = chain
chain_of (c_muting chain val) = chain
chain_of (cop_add chain param) = chain
chain_of (ctrl_add chain param) = chain
chain_of (cop_bypass chain op bypass) = chain
chain_of (cop_set_param chain op param value) = chain
chain_of (ctrl_set_param chain op param value) = chain

-- The result, the calls on operators and controllers, and the setup.
pub record Executed (V : Type 0) : Type 0 where
  pub result : Bool
  pub calls : List (Call V)
  pub setup : Chainsetup

-- `chains[n]`, changed.
pub change_chain : (Chain → Chain) → ℕ → List Member → List Member
change_chain f n [] = []
change_chain f zero (m ∷ ms) = on_chain f m ∷ ms
change_chain f (suc n) (m ∷ ms) = m ∷ change_chain f n ms

-- An option begins with "-", which is put in front where it is missing.
pub dashed : List ℕ → List ℕ
dashed [] = 45 ∷ []
dashed (c ∷ cs) = if c == 45 then c ∷ cs else 45 ∷ c ∷ cs

-- The test that each case begins with.
pub is_chain_number : ℤ → Chainsetup → Bool
is_chain_number n s = not (ltb_ℤ n (pos 1) || ltb_ℤ (pos (length s.chains)) n)

module _ {V : Type 0} where
  pub with_chain : ℤ → (Chain → Chain) → Chainsetup → Executed V
  unfolding change_chain
  with_chain n f s = record {
    result = true;
    calls = [];
    setup = record s { chains = change_chain f (pos_part n - 1) s.chains };
  }

  -- A call on the chain, which gives calls on its objects.
  pub calls_of : ℤ → (Chain → List (Call V)) → Chainsetup → List (Call V)
  calls_of n f s = elim (get_elem? s.chains (pos_part n - 1)) [ none ↦ [] | some m ↦ f m.chain ]

  pub told : ℤ → (Chain → List (Call V)) → Chainsetup → Executed V
  unfolding calls_of
  told n f s = record { result = true; calls = calls_of n f s; setup = s }

  -- `interpret_object_option` of the parser, on the setup as it is while its lock is lifted: the setup
  -- that it leaves, and whether the option was understood.
  module _ (interpret_object_option : List ℕ → Chainsetup → Chainsetup × Bool) where
    pub add_object_of : List ℕ → Chainsetup → Executed V
    unfolding dashed
    add_object_of param s =
        let (s', understood) = interpret_object_option (dashed param) s in
        record { result = understood; calls = []; setup = s' }

    pub execute_type : Edit V → Chainsetup → Executed V
    unfolding with_chain told add_object_of
    execute_type (c_bypass chain val) s = with_chain chain (set_bypass val) s
    execute_type (c_muting chain val) s = with_chain chain (set_mute val) s
    execute_type (cop_add chain param) s = add_object_of param s
    execute_type (ctrl_add chain param) s = add_object_of param s
    execute_type (cop_bypass chain op bypass) s = with_chain chain (bypass_operator op bypass) s
    execute_type (cop_set_param chain op param value) s =
        told chain (set_parameter op param value) s
    execute_type (ctrl_set_param chain op param value) s =
        told chain (set_controller_parameter op param value) s

    -- `this` and `cs_ptr` are addresses of setups.
    unfoldable pub execute_edit : (this cs_ptr : ℕ) → Edit V → Chainsetup → Executed V
    unfolding execute_type is_chain_number chain_of
    execute_edit this cs_ptr edit s =
        if not (cs_ptr == this)
        then record { result = false; calls = []; setup = s }
        else if is_chain_number (chain_of edit) s
        then execute_type edit s
        else record { result = false; calls = []; setup = s }
