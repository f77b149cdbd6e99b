-- ===== src/Chainsetup/Members.antt =====
-- libecasound/eca-chainsetup.cpp: the chains of a setup, their names and their selection. The
-- operation on chains loops over the names that are selected, and over the chains for each name.
pub mod Names
use Prim.Native.String.{String}
use text.Mathlib.Text.{◌==◌ as str_eq}
use ecasound.Common.{
  ℕ, zero, suc, ◌+◌, Bool, true, false, not, ◌&&◌, ◌||◌, List, [], ◌∷◌, ◌++◌, map, Option, none,
  some, length, if◌then◌else◌,
}
use ecasound.Common.Int.{ℤ, pos, negsuc}
use ecasound.Chain.{Chain, Call, set_mute, set_bypass}
use ecasound.Chain.Removal.{clear}
use ecasound.Chainsetup.{Member, Chainsetup, on_chain, on_named, on_selected}

-- `fresh` is what the constructor of CHAIN makes; it has no operators that would be told the rate.
pub add_chain_helper : (fresh : Chain) → (srate : ℤ) → String → List Member → List Member
add_chain_helper fresh srate name ms =
    ms ++ record { name = name; chain = record fresh { srate = srate } } ∷ []

pub add_default_chain : (fresh : Chain) → (srate : ℤ) → Chainsetup → Chainsetup
unfolding add_chain_helper
add_default_chain fresh srate s = record s {
  chains = add_chain_helper fresh srate "default" s.chains;
  selected_chainids = s.selected_chainids ++ "default" ∷ [];
}

unfoldable pub exists : String → List Member → Bool
exists p [] = false
exists p (m ∷ ms) = str_eq p m.name || exists p ms

pub add_names : (fresh : Chain) → (srate : ℤ) → List String → List Member → List Member
unfolding add_chain_helper exists
add_names fresh srate [] ms = ms
add_names fresh srate (p ∷ ps) ms =
    add_names fresh srate ps (if exists p ms then ms else add_chain_helper fresh srate p ms)

pub add_new_chains : (fresh : Chain) → (srate : ℤ) → List String → Chainsetup → Chainsetup
unfolding add_names
add_new_chains fresh srate newchains s = record s {
  chains = add_names fresh srate newchains s.chains;
}

-- The first chain of that name is deleted.
pub remove_named : String → List Member → List Member
remove_named p [] = []
remove_named p (m ∷ ms) = if str_eq p m.name then ms else m ∷ remove_named p ms

pub remove_each : List String → List Member → List Member
unfolding remove_named
remove_each [] ms = ms
remove_each (p ∷ ps) ms = remove_each ps (remove_named p ms)

pub remove_chains : Chainsetup → Chainsetup
unfolding remove_each
remove_chains s = record s {
  chains = remove_each s.selected_chainids s.chains;
  selected_chainids = [];
}

-- What the chain is after CHAIN::clear.
pub cleared : {V : Type 0} → (Chain → Chain × List (Call V)) → Chain → Chain
cleared run c = (run c).0

pub clear_chains : Chainsetup → Chainsetup
unfolding cleared on_selected
clear_chains s = record s {
  chains = on_selected (cleared (clear {V = ℕ})) s.selected_chainids s.chains;
}

-- The first chain with a selected name, going by the names in order; it alone is renamed.
pub rename_first : String → String → List Member → Option (List Member)
rename_first p name [] = none
rename_first p name (m ∷ ms) =
    if str_eq p m.name
    then some (record m { name = name } ∷ ms)
    else elim (rename_first p name ms) [ none ↦ none | some ms' ↦ some (m ∷ ms') ]

pub rename_selected : List String → String → List Member → List Member
unfolding rename_first
rename_selected [] name ms = ms
rename_selected (p ∷ ps) name ms =
    let rest = rename_selected ps name ms in
    elim (rename_first p name ms) [ none ↦ rest | some ms' ↦ ms' ]

pub rename_chain : String → Chainsetup → Chainsetup
unfolding rename_selected
rename_chain name s = record s { chains = rename_selected s.selected_chainids name s.chains }

pub names : List Member → List String
names [] = []
names (m ∷ ms) = m.name ∷ names ms

pub select_all_chains : Chainsetup → Chainsetup
unfolding names
select_all_chains s = record s { selected_chainids = names s.chains }

-- The position of a chain with that name, from position `n` on.
unfoldable pub position_of : String → (n : ℕ) → List Member → Option ℕ
position_of p n [] = none
position_of p n (m ∷ ms) =
    let rest = position_of p (suc n) ms in if str_eq m.name p then some n else rest

pub first_of : List String → List Member → ℕ
unfolding position_of
first_of [] ms = length ms
first_of (p ∷ ps) ms =
    let rest = first_of ps ms in elim (position_of p 0 ms) [ none ↦ rest | some n ↦ n ]

pub first_selected_chain : Chainsetup → ℕ
unfolding first_of
first_selected_chain s = first_of s.selected_chainids s.chains

-- The number of a chain counts from one, and is -1 if there is none.
unfoldable pub get_chain_index : String → Chainsetup → ℤ
unfolding position_of
get_chain_index name s = elim (position_of name 1 s.chains) [ none ↦ negsuc 0 | some n ↦ pos n ]

pub toggle_chain_muting : Chainsetup → Chainsetup
unfolding set_mute on_selected
toggle_chain_muting s = record s {
  chains = on_selected (set_mute (negsuc 0)) s.selected_chainids s.chains;
}

pub toggle_chain_bypass : Chainsetup → Chainsetup
unfolding set_bypass on_selected
toggle_chain_bypass s = record s {
  chains = on_selected (set_bypass (negsuc 0)) s.selected_chainids s.chains;
}
