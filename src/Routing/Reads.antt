-- ===== src/Routing/Reads.antt =====
-- How often ECA_ENGINE::inputs_to_chains reads each input, and what it counts.
use ecasound.Common.{
  ℕ, zero, suc, ◌+◌, ◌<◌, ◌≡◌, refl, ◌∙◌, inl, inr, not, ◌&&◌, List, [], ◌∷◌, ◌++◌, some, arith,
  ◌==◌, ltb, length, get_elem?, if◌then◌else◌, Bool-cases,
}
use ecasound.Common.Int.{pos, eq_ℤ}
use ecasound.Chain.{Chain}
use ecasound.Routing.{
  Input, Call, read_mix, read_slot, still_open, to_slots, to_mixslot, inputs_from, inputs_to_chains,
}
use ecasound.Routing.Inputs.{attached, counts_from}

-- How often input `i` is read.
abbrev pub reads : ℕ → List Call → ℕ
reads i [] = 0
reads i (read_mix k ∷ calls) = (if k == i then 1 else 0) + reads i calls
reads i (read_slot k c ∷ calls) = (if k == i then 1 else 0) + reads i calls
reads i (_ ∷ calls) = reads i calls

-- How often an input is to be read: once, if a chain is connected to it and it is not finished.
abbrev pub due : Input → (count : ℕ) → ℕ
due i count = if not i.finished && ltb 0 count then 1 else 0

-- The inputs with a chain that are not finished after the iteration, from input `k` on.
abbrev pub open_inputs : (k : ℕ) → List Input → List Chain → ℕ
open_inputs k [] chs = 0
open_inputs k (i ∷ is) chs =
    (if ltb 0 (attached k chs) && not i.finished && not i.finished_after_read then 1 else 0)
    + open_inputs (suc k) is chs

reads-append : (i : ℕ) (xs ys : List Call) → reads i (xs ++ ys) ≡ reads i xs + reads i ys
reads-append i [] ys = omega arith
reads-append i (read_mix k ∷ xs) ys = omega (arith, reads-append i xs ys)
reads-append i (read_slot k c ∷ xs) ys = omega (arith, reads-append i xs ys)
reads-append i (_ ∷ xs) ys = reads-append i xs ys

module _ (k : ℕ) (i : Input) where
  -- The loop over the chains reads the input if it has one chain only.
  to_slots-reads :
      (count j c : ℕ) (chs : List Chain)
      → (reads j (to_slots k count i c chs).0
          ≡ (if count == 1 && (k == j) then due i (attached k chs) else 0))
        × ((to_slots k count i c chs).1
            ≡ (if (count == 1) && ltb 0 (attached k chs) then still_open i else 0))
  unfolding to_slots still_open
  to_slots-reads count j c [] = (ground arith, ground arith)
  to_slots-reads count j c (ch ∷ chs) =
      let (r, u) = to_slots-reads count j (suc c) chs in
      elim (Bool-cases (eq_ℤ ch.input_id (pos k))) [
        | inr other ↦ rw other (ground arith, ground arith)
        | inl here ↦ elim (Bool-cases (count == 1)) [
          | inl one ↦ rw (here, one) (ground arith, ground arith)
          | inr many ↦ rw (here, many) (rw many at r, let u' = rw many at u in omega arith)
        ]
      ]

  to_mixslot-reads :
      (count j : ℕ)
      → (reads j (to_mixslot k count i).0
          ≡ (if ltb 1 count && not i.finished && (k == j) then 1 else 0))
        × ((to_mixslot k count i).1 ≡ (if ltb 1 count then still_open i else 0))
  unfolding to_mixslot still_open
  to_mixslot-reads count j = ground arith

  -- The calls for one input read that input once, if it is due, and no other input.
  one_input-reads :
      (j : ℕ) (chs : List Chain)
      → let count = attached k chs in
        (reads j ((to_mixslot k count i).0 ++ (to_slots k count i 0 chs).0)
          ≡ (if k == j then due i count else 0))
        × ((to_mixslot k count i).1 + (to_slots k count i 0 chs).1
            ≡ (if ltb 0 count && not i.finished && not i.finished_after_read then 1 else 0))
  unfolding still_open
  one_input-reads j chs =
      let count = attached k chs in
      let (r, u) = to_slots-reads count j 0 chs in
      let (r', u') = to_mixslot-reads count j in
      (
        reads-append j (to_mixslot k count i).0 (to_slots k count i 0 chs).0 ∙ ground arith,
        ground arith,
      )

module _ (chs : List Chain) where
  inputs_from-reads_past :
      (k j : ℕ) (is : List Input)
      → j < k
      → reads j (inputs_from k (counts_from k (length is) chs) is chs).0 ≡ 0
  unfolding inputs_from
  inputs_from-reads_past k j [] h = refl
  inputs_from-reads_past k j (i ∷ is) h =
      let calls = (to_mixslot k (attached k chs) i).0 ++ (to_slots k (attached k chs) i 0 chs).0 in
      reads-append j calls _
      ∙ ground (arith, inputs_from-reads_past (suc k) j is, one_input-reads k i j chs)

  inputs_from-reads :
      (k j : ℕ) (is : List Input) {i : Input}
      → get_elem? is j ≡ some i
      → reads (k + j) (inputs_from k (counts_from k (length is) chs) is chs).0
        ≡ due i (attached (k + j) chs)
  unfolding inputs_from
  inputs_from-reads k j [] g = cc
  inputs_from-reads k zero (i ∷ is) g =
      let calls = (to_mixslot k (attached k chs) i).0 ++ (to_slots k (attached k chs) i 0 chs).0 in
      let z : k + 0 ≡ k = omega arith in
      rw z (
        reads-append k calls _
        ∙ ground (arith, inputs_from-reads_past (suc k) k is, one_input-reads k i k chs))
  inputs_from-reads k (suc j) (i ∷ is) g =
      let calls = (to_mixslot k (attached k chs) i).0 ++ (to_slots k (attached k chs) i 0 chs).0 in
      let z : k + suc j ≡ suc k + j = omega arith in
      let rest = inputs_from-reads (suc k) j is g in
      rw z (
        reads-append (suc k + j) calls _
        ∙ ground (arith, rest, one_input-reads k i (suc k + j) chs))

  inputs_from-open :
      (k : ℕ) (is : List Input)
      → (inputs_from k (counts_from k (length is) chs) is chs).1 ≡ open_inputs k is chs
  unfolding inputs_from
  inputs_from-open k [] = refl
  inputs_from-open k (i ∷ is) =
      omega (arith, inputs_from-open (suc k) is, one_input-reads k i 0 chs)

-- With the numbers of chains that are attached to each input, `inputs_to_chains` reads an input once
-- if a chain is connected to it and it is not finished, and otherwise not; and it counts the inputs
-- with a chain that are not finished, neither before nor after.
pub inputs_to_chains-reads :
    (is : List Input) (chs : List Chain) (j : ℕ) {i : Input}
    → get_elem? is j ≡ some i
    → (reads j (inputs_to_chains (counts_from 0 (length is) chs) is chs).0 ≡ due i (attached j chs))
      × ((inputs_to_chains (counts_from 0 (length is) chs) is chs).1 ≡ open_inputs 0 is chs)
unfolding inputs_to_chains
inputs_to_chains-reads is chs j g =
    let z : 0 + j ≡ j = omega arith in
    (rw z at (inputs_from-reads chs 0 j is g), inputs_from-open chs 0 is)
