-- ===== src/Routing.antt =====
-- libecasound/eca-engine.cpp: the signal routing of ECA_ENGINE, from the inputs to the chains and
-- from there to the outputs, with the numbers of attached chains that it goes by. A function gives
-- the calls that it makes on buffers and audio objects, in order, and a count. Chain `c` has the
-- per-chain slot `c`.
pub mod Inputs
pub mod Reads
pub mod Outputs
mod Tests
use ecasound.Common.{
  ℕ, zero, suc, ◌+◌, Bool, true, false, not, ◌&&◌, List, [], ◌∷◌, ◌++◌, Option, none, some, ◌==◌,
  ltb, get_elem?, if◌then◌else◌,
}
use ecasound.Common.Int.{ℤ, pos, negsuc, eq_ℤ}
use ecasound.Chain.{Chain}

-- An input: what `finished()` says before it is read in this iteration, and what it says after that.
pub record Input : Type 0 where
  pub finished : Bool
  pub finished_after_read : Bool

pub record Output : Type 0 where
  pub channels : ℕ
  pub is_loop_device : Bool
  pub finished_after_write : Bool

-- `mix_first` is the copy of the first chain into the mixslot and `mix_add` the addition of another
-- one; each has the number by which `mix_to_outputs_divide_helper` divides, if it is that.
pub data Call : Type 0 where
  mix_length mix_empty : Call
  read_mix : ℕ → Call
  slot_length slot_empty : ℕ → Call
  read_slot : (input chain : ℕ) → Call
  copy_mix : ℕ → Call
  mix_channels : ℕ → Call
  write_slot : (output chain : ℕ) → Call
  mix_first mix_add : (chain : ℕ) → Option ℕ → Call
  mix_tags : ℕ → Call
  write_mix : ℕ → Call

abbrev pub Routed : Type 0
Routed = List Call × ℕ

abbrev pub and_then : Routed → Routed → Routed
and_then a b = (a.0 ++ b.0, a.1 + b.1)

-- `inputs_not_finished_rep++` where an input that was read is not finished.
pub still_open : Input → ℕ
still_open i = if not i.finished && not i.finished_after_read then 1 else 0

-- Cases 1b and 2: the loop over the chains from chain `c` on, which ends at the only chain.
pub to_slots : (inputnum count : ℕ) → Input → (c : ℕ) → List Chain → Routed
unfolding still_open
to_slots inputnum count i c [] = ([], 0)
to_slots inputnum count i c (ch ∷ chs) =
    let rest = to_slots inputnum count i (suc c) chs in
    if eq_ℤ ch.input_id (pos inputnum)
    then (if count == 1
        then (
          slot_length c ∷ (if i.finished then slot_empty c else read_slot inputnum c) ∷ [],
          still_open i,
        )
        else and_then (copy_mix c ∷ [], 0) rest)
    else rest

-- Case 1a.
pub to_mixslot : (inputnum count : ℕ) → Input → Routed
unfolding still_open
to_mixslot inputnum count i =
    if ltb 1 count
    then (mix_length ∷ (if i.finished then mix_empty else read_mix inputnum) ∷ [], still_open i)
    else ([], 0)

pub inputs_from : (inputnum : ℕ) → (input_chain_count : List ℕ) → List Input → List Chain → Routed
unfolding to_mixslot to_slots
inputs_from inputnum counts [] chs = ([], 0)
inputs_from inputnum [] (i ∷ is) chs = ([], 0)
inputs_from inputnum (count ∷ counts) (i ∷ is) chs =
    and_then (and_then (to_mixslot inputnum count i) (to_slots inputnum count i 0 chs))
      (inputs_from (suc inputnum) counts is chs)

-- The calls, and what is added to `inputs_not_finished_rep`.
unfoldable pub inputs_to_chains : (input_chain_count : List ℕ) → List Input → List Chain → Routed
unfolding inputs_from
inputs_to_chains counts is chs = inputs_from 0 counts is chs

-- `outputs_finished_rep++` after a write.
pub failed : Output → ℕ
failed o = if o.finished_after_write && not o.is_loop_device then 1 else 0

-- With `mix_mode() == cs_mmode_avg` the sum is divided by the number of chains.
pub divisor : (average : Bool) → (count : ℕ) → Option ℕ
divisor average count = if average then some count else none

pub mix_chain : (average : Bool) → (total count chain : ℕ) → List Call
unfolding divisor
mix_chain average total count chain =
    (if count == 1
      then mix_first chain (divisor average total)
      else mix_add chain (divisor average total))
    ∷ mix_tags chain
    ∷ []

-- The loop over the chains from chain `c` on, with `count` chains mixed so far.
pub from_slots :
    (average : Bool) → (outputnum total : ℕ) → Output → (count c : ℕ) → List Chain → Routed
unfolding mix_chain failed
from_slots average outputnum total o count c [] = ([], 0)
from_slots average outputnum total o count c (ch ∷ chs) =
    let skipped = from_slots average outputnum total o count (suc c) chs in
    let counted = from_slots average outputnum total o (suc count) (suc c) chs in
    if eq_ℤ ch.output_id (negsuc 0)
    then skipped
    else if eq_ℤ ch.output_id (pos outputnum)
    then (if total == 1
        then (write_slot outputnum c ∷ [], failed o)
        else and_then (mix_chain average total (suc count) c, 0)
            (and_then (if suc count == total then (write_mix outputnum ∷ [], failed o) else ([], 0))
              counted))
    else skipped

pub outputs_from :
    (average skip : Bool)
    → (is_realtime_target : ℕ → Bool) → (outputnum : ℕ) → (output_chain_count : List ℕ)
    → List Output
    → List Chain
    → Routed
unfolding from_slots
outputs_from average skip target outputnum counts [] chs = ([], 0)
outputs_from average skip target outputnum [] (o ∷ os) chs = ([], 0)
outputs_from average skip target outputnum (total ∷ counts) (o ∷ os) chs =
    let rest = outputs_from average skip target (suc outputnum) counts os chs in
    if skip && target outputnum
    then rest
    else and_then
        (and_then (mix_channels o.channels ∷ [], 0) (from_slots average outputnum total o 0 0 chs))
        rest

-- The calls, and what is added to `outputs_finished_rep`.
unfoldable pub mix_to_outputs :
    (average skip_realtime_target_outputs : Bool)
    → (is_realtime_target : ℕ → Bool) → (output_chain_count : List ℕ) → List Output
    → List Chain
    → Routed
unfolding outputs_from
mix_to_outputs average skip target counts os chs = outputs_from average skip target 0 counts os chs
