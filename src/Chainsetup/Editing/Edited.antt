-- ===== src/Chainsetup/Editing/Edited.antt =====
-- Which chain an edit reaches that is made with ECA_CHAINSETUP::get_chain_index.
use Prim.Native.String.{String}
use ecasound.Common.{
  ℕ, ◌+◌, ◌-◌, ◌<◌, ◌≡◌, refl, ap, sym, ◌∙◌, inl, inr, Bool, true, false, List, [], length,
  get_elem?, Option, none, some, if◌then◌else◌, arith,
}
use ecasound.Common.Int.{ℤ, pos, negsuc}
use ecasound.Chain.{Chain, Call, set_mute, set_bypass, set_parameter, bypass_operator}
use ecasound.Chain.Controllers.{set_controller_parameter}
use ecasound.Chainsetup.{Member, Chainsetup}
use ecasound.Chainsetup.Members.{exists, position_of, get_chain_index}
use ecasound.Chainsetup.Editing.Named.{
  first_named, of_first_named, Found, Missing, position_of-cases,
}
use ecasound.Chainsetup.Editing.{
  Edit, c_bypass, c_muting, cop_add, ctrl_add, add_object_of, cop_bypass, cop_set_param,
  ctrl_set_param, Executed, chain_of, change_chain, is_chain_number, with_chain, calls_of, told,
  execute_type, execute_edit,
}

is_chain_number_found :
    (s : Chainsetup) (i : ℕ) → i < length s.chains → is_chain_number (pos (1 + i)) s ≡ true
unfolding is_chain_number
is_chain_number_found s i h = ground arith

back : (i : ℕ) → 1 + i - 1 ≡ i
back i = omega arith

get_chain_index_missing :
    (name : String) (s : Chainsetup)
    → position_of name 1 s.chains ≡ none
    → get_chain_index name s ≡ negsuc 0
unfolding get_chain_index
get_chain_index_missing name s h = rw (get_chain_index, h) refl

get_chain_index_found :
    (name : String) (s : Chainsetup) (n : ℕ)
    → position_of name 1 s.chains ≡ some n
    → get_chain_index name s ≡ pos n
unfolding get_chain_index
get_chain_index_found name s n h = rw (get_chain_index, h) refl

module _ {V : Type 0} (interpret_object_option : List ℕ → Chainsetup → Chainsetup × Bool) where
  module _ (this : ℕ) (s : Chainsetup) where
    abbrev edited : Edit V → Executed V
    edited e = execute_edit interpret_object_option this this e s

    edited_in :
        (e : Edit V)
        → is_chain_number (chain_of e) s ≡ true
        → edited e ≡ execute_type interpret_object_option e s
    unfolding execute_edit is_chain_number
    edited_in e h = ground arith

    edited_out :
        (e : Edit V)
        → is_chain_number (chain_of e) s ≡ false
        → edited e ≡ record { result = false; calls = []; setup = s }
    unfolding execute_edit is_chain_number
    edited_out e h = ground arith

    with_chain-Found :
        (name : String) (i : ℕ) (f : Chain → Chain)
        → Found name s.chains i
        → with_chain {V = V} (pos (1 + i)) f s ≡ record {
          result = true;
          calls = [];
          setup = record s { chains = first_named name f s.chains };
        }
    unfolding with_chain
    with_chain-Found name i f h =
        ap (λ ms. record { result = true; calls = []; setup = record s { chains = ms } })
          (ap (λ k. change_chain f k s.chains) (back i) ∙ h.changed f)

    told-Found :
        (name : String) (i : ℕ) (g : Chain → List (Call V))
        → Found name s.chains i
        → told (pos (1 + i)) g s
          ≡ record { result = true; calls = of_first_named name g s.chains; setup = s }
    unfolding told calls_of
    told-Found name i g h =
        let (m, at, same) = h.read g in
        let there : get_elem? s.chains (1 + i - 1) ≡ some m =
          ap (get_elem? s.chains) (back i) ∙ at in
        ap (λ cs. record { result = true; calls = cs; setup = s })
          (ap (λ (o : Option Member). elim o [ none ↦ [] | some x ↦ g x.chain ]) there ∙ sym same)

    -- The first chain of that name is changed.
    abbrev pub chain_changed : String → (Chain → Chain) → Executed V
    chain_changed name f = record {
      result = exists name s.chains;
      calls = [];
      setup = record s { chains = first_named name f s.chains };
    }

    -- The objects of the first chain of that name get calls.
    abbrev pub chain_called : String → (Chain → List (Call V)) → Executed V
    chain_called name g = record {
      result = exists name s.chains;
      calls = of_first_named name g s.chains;
      setup = s;
    }

    -- The option is interpreted, if there is a chain of that name.
    abbrev pub object_added : String → List ℕ → Executed V
    object_added name option =
        if exists name s.chains
        then add_object_of interpret_object_option option s
        else record { result = false; calls = []; setup = s }

    -- What the seven edits do that address the chain `n`.
    pub record IsEdited (name : String) (n val op param : ℤ) (value : V) (option : List ℕ)
        : Type 0 where
      pub mutes : edited (c_muting n val) ≡ chain_changed name (set_mute val)
      pub bypasses : edited (c_bypass n val) ≡ chain_changed name (set_bypass val)
      pub bypasses_operator :
          edited (cop_bypass n op val) ≡ chain_changed name (bypass_operator op val)
      pub sets_parameter :
          edited (cop_set_param n op param value) ≡ chain_called name (set_parameter op param value)
      pub sets_controller :
          edited (ctrl_set_param n op param value)
          ≡ chain_called name (set_controller_parameter op param value)
      pub adds_operator : edited (cop_add n option) ≡ object_added name option
      pub adds_controller : edited (ctrl_add n option) ≡ object_added name option

    module _ (name : String) where
      chain_changed-Missing :
          (f : Chain → Chain)
          → Missing name s.chains
          → chain_changed name f ≡ record { result = false; calls = []; setup = s }
      chain_changed-Missing f h = rw (h.unknown, h.kept f) refl

      chain_called-Missing :
          (g : Chain → List (Call V))
          → Missing name s.chains
          → chain_called name g ≡ record { result = false; calls = []; setup = s }
      chain_called-Missing g h = rw (h.unknown, h.silent g) refl

      object_added-Missing :
          (option : List ℕ)
          → Missing name s.chains
          → object_added name option ≡ record { result = false; calls = []; setup = s }
      object_added-Missing option h = rw h.unknown refl

      changes :
          (i : ℕ) (f : Chain → Chain)
          → Found name s.chains i
          → with_chain (pos (1 + i)) f s ≡ chain_changed name f
      changes i f h = with_chain-Found name i f h ∙ rw h.known refl

      calls :
          (i : ℕ) (g : Chain → List (Call V))
          → Found name s.chains i
          → told (pos (1 + i)) g s ≡ chain_called name g
      calls i g h = told-Found name i g h ∙ rw h.known refl

      adds :
          (i : ℕ) (option : List ℕ)
          → Found name s.chains i
          → add_object_of interpret_object_option option s ≡ object_added name option
      adds i option h = rw h.known refl

      module _ (val op param : ℤ) (value : V) (option : List ℕ) where
        IsEdited-Missing :
            Missing name s.chains → IsEdited name (negsuc 0) val op param value option
        unfolding chain_of is_chain_number
        IsEdited-Missing h = record {
          mutes = edited_out _ refl ∙ sym (chain_changed-Missing _ h);
          bypasses = edited_out _ refl ∙ sym (chain_changed-Missing _ h);
          bypasses_operator = edited_out _ refl ∙ sym (chain_changed-Missing _ h);
          sets_parameter = edited_out _ refl ∙ sym (chain_called-Missing _ h);
          sets_controller = edited_out _ refl ∙ sym (chain_called-Missing _ h);
          adds_operator = edited_out _ refl ∙ sym (object_added-Missing option h);
          adds_controller = edited_out _ refl ∙ sym (object_added-Missing option h);
        }

        IsEdited-Found :
            (i : ℕ) → Found name s.chains i → IsEdited name (pos (1 + i)) val op param value option
        unfolding execute_type chain_of
        IsEdited-Found i h =
            let known = is_chain_number_found s i h.inside in
            record {
              mutes = edited_in _ known ∙ changes i _ h;
              bypasses = edited_in _ known ∙ changes i _ h;
              bypasses_operator = edited_in _ known ∙ changes i _ h;
              sets_parameter = edited_in _ known ∙ calls i _ h;
              sets_controller = edited_in _ known ∙ calls i _ h;
              adds_operator = edited_in _ known ∙ adds i option h;
              adds_controller = edited_in _ known ∙ adds i option h;
            }

        -- An edit that names a chain by `get_chain_index` reaches the first chain of that name, and
        -- is refused without any change or call if there is none: it mutes the chain, bypasses it or
        -- an operator of it, gives the calls that its operators and controllers get, or has the
        -- option of a new object interpreted.
        pub execute_edit-get_chain_index :
            IsEdited name (get_chain_index name s) val op param value option
        execute_edit-get_chain_index = elim (position_of-cases name 1 s.chains) [
          | inl (nowhere, h) ↦ rw (get_chain_index_missing name s nowhere) (IsEdited-Missing h)
          | inr (i, at, h) ↦ rw (get_chain_index_found name s (1 + i) at) (IsEdited-Found i h)
        ]
