-- ===== src/Routing/Outputs.antt =====
-- What ECA_ENGINE::mix_to_outputs writes to each output.
use mathlib.Core.List.{append_assoc}
use ecasound.Common.{
  ℕ, zero, suc, ◌+◌, ◌≤◌, ◌<◌, ◌≡◌, refl, ap, ◌⊎◌, inl, inr, Bool, not, ◌&&◌, List, [], ◌∷◌, ◌++◌,
  map, Option, some, none, arith, ◌==◌, leb, length, if◌then◌else◌, Bool-cases,
}
use ecasound.Common.Int.{pos, eq_ℤ}
use ecasound.Chain.{Chain}
use ecasound.Routing.{
  Output, Call, divisor, write_slot, mix_first, mix_add, write_mix, from_slots, outputs_from,
  mix_to_outputs,
}

-- A sum of slots, each with its divisor.
abbrev pub Mix : Type 0
Mix = List (ℕ × Option ℕ)

-- What some calls write, output by output, from what the mixslot holds.
abbrev pub written : List Call → Mix → List (ℕ × Mix)
written [] mix = []
written (mix_first c d ∷ calls) mix = written calls ((c, d) ∷ [])
written (mix_add c d ∷ calls) mix = written calls (mix ++ (c, d) ∷ [])
written (write_slot o c ∷ calls) mix = (o, (c, none) ∷ []) ∷ written calls mix
written (write_mix o ∷ calls) mix = (o, mix) ∷ written calls mix
written (_ ∷ calls) mix = written calls mix

abbrev mix_of : List Call → Mix → Mix
mix_of [] mix = mix
mix_of (mix_first c d ∷ calls) mix = mix_of calls ((c, d) ∷ [])
mix_of (mix_add c d ∷ calls) mix = mix_of calls (mix ++ (c, d) ∷ [])
mix_of (_ ∷ calls) mix = mix_of calls mix

-- The chains that are connected to output `o`, from chain `c` on, and their numbers for `n` outputs.
abbrev pub connected : (o c : ℕ) → List Chain → List ℕ
connected o c [] = []
connected o c (ch ∷ chs) =
    if eq_ℤ ch.output_id (pos o) then c ∷ connected o (suc c) chs else connected o (suc c) chs

abbrev pub totals_from : (first n : ℕ) → List Chain → List ℕ
totals_from first zero chs = []
totals_from first (suc n) chs = length (connected first 0 chs) ∷ totals_from (suc first) n chs

-- Slots, each with the same divisor.
abbrev pub shares : Option ℕ → List ℕ → Mix
shares d = map (λ c. (c, d))

-- One write to output `o`, if there is a chain.
abbrev pub one_write : ℕ → Mix → List ℕ → Option ℕ → List (ℕ × Mix)
one_write o before [] d = []
one_write o before (c ∷ cs) d = (o, before ++ shares d (c ∷ cs)) ∷ []

abbrev pub failures : Output → List ℕ → ℕ
failures o [] = 0
failures o (c ∷ cs) = if o.finished_after_write && not o.is_loop_device then 1 else 0

List-cases : (xs : List ℕ) → (xs ≡ []) ⊎ ((y : ℕ) × (ys : List ℕ) × (xs ≡ y ∷ ys))
List-cases [] = inl refl
List-cases (y ∷ ys) = inr (y, ys, refl)

written-append :
    (xs ys : List Call) (m : Mix) → written (xs ++ ys) m ≡ written xs m ++ written ys (mix_of xs m)
written-append [] ys m = refl
written-append (mix_first c d ∷ xs) ys m = written-append xs ys _
written-append (mix_add c d ∷ xs) ys m = written-append xs ys _
written-append (write_slot o c ∷ xs) ys m =
    ap (λ l. (o, (c, none) ∷ []) ∷ l) (written-append xs ys m)
written-append (write_mix o ∷ xs) ys m = ap (λ l. (o, m) ∷ l) (written-append xs ys m)
written-append (_ ∷ xs) ys m = written-append xs ys m

module _ (average : Bool) (o total : ℕ) (out : Output) where
  -- No chain, or only one, whose slot is written.
  from_slots-single :
      (c : ℕ) (chs : List Chain) (m : Mix)
      → total ≤ 1
      → length (connected o c chs) ≡ total
      → (written (from_slots average o total out 0 c chs).0 m
          ≡ one_write o [] (connected o c chs) none)
        × ((from_slots average o total out 0 c chs).1 ≡ failures out (connected o c chs))
  unfolding from_slots
  from_slots-single c [] m h l = (refl, refl)
  from_slots-single c (ch ∷ chs) m h l = elim (Bool-cases (eq_ℤ ch.output_id (pos o))) [
    | inr other ↦ ground (arith, from_slots-single (suc c) chs m)
    | inl here ↦ elim (List-cases (connected o (suc c) chs)) [
      | inl last ↦ ground arith
      | inr (y, ys, more) ↦ absurd (ground (arith, ap length more))
    ]
  ]

  from_slots-mixed :
      (count c : ℕ) (chs : List Chain) (before m : Mix)
      → 1 < total
      → total ≡ count + length (connected o c chs)
      → before ≡ (if count == 0 then [] else m)
      → (written (from_slots average o total out count c chs).0 m
          ≡ one_write o before (connected o c chs) (divisor average total))
        × ((from_slots average o total out count c chs).1 ≡ failures out (connected o c chs))
  unfolding from_slots
  from_slots-mixed count c [] before m h e b = (refl, refl)
  from_slots-mixed count c (ch ∷ chs) before m h e b =
      let d = divisor average total in
      let m' = before ++ (c, d) ∷ [] in
      elim (Bool-cases (eq_ℤ ch.output_id (pos o))) [
        | inr other ↦ ground (arith, from_slots-mixed count (suc c) chs before m)
        | inl here ↦
            let rest = from_slots-mixed (suc count) (suc c) chs m' m' h in
            elim (List-cases (connected o (suc c) chs)) [
              | inl last ↦ ground (arith, rest)
              | inr (y, ys, more) ↦
                  ground (arith, rest, append_assoc before ((c, d) ∷ []) (shares d (y ∷ ys)))
            ]
      ]

-- The divisor of a slot that is written or mixed.
abbrev pub share : (average : Bool) → (total : ℕ) → Option ℕ
share average total = if leb total 1 then none else if average then some total else none

-- What is to be written to the outputs from one on, and how many of them count as failed.
module _ (average skip : Bool) (target : ℕ → Bool) (chs : List Chain) where
  abbrev pub writes : (o : ℕ) → List Output → List (ℕ × Mix)
  writes o [] = []
  writes o (out ∷ os) =
      let cs = connected o 0 chs in
      (if skip && target o then [] else one_write o [] cs (share average (length cs)))
      ++ writes (suc o) os

  abbrev pub failed_outputs : (o : ℕ) → List Output → ℕ
  failed_outputs o [] = 0
  failed_outputs o (out ∷ os) =
      (if skip && target o then 0 else failures out (connected o 0 chs)) + failed_outputs (suc o) os

  one_output-written :
      (o : ℕ) (out : Output) (m : Mix)
      → let cs = connected o 0 chs in
        (written (from_slots average o (length cs) out 0 0 chs).0 m
          ≡ one_write o [] cs (share average (length cs)))
        × ((from_slots average o (length cs) out 0 0 chs).1 ≡ failures out cs)
  unfolding divisor
  one_output-written o out m =
      let n = length (connected o 0 chs) in
      elim (Bool-cases (leb n 1)) [
        | inl few ↦
            ground
              (arith, from_slots-single average o n out 0 chs m, List-cases (connected o 0 chs))
        | inr many ↦ ground (arith, from_slots-mixed average o n out 0 0 chs [] m)
      ]

  outputs_from-written :
      (o : ℕ) (os : List Output) (m : Mix)
      → let routed = outputs_from average skip target o (totals_from o (length os) chs) os chs in
        (written routed.0 m ≡ writes o os) × (routed.1 ≡ failed_outputs o os)
  unfolding outputs_from
  outputs_from-written o [] m = (refl, refl)
  outputs_from-written o (out ∷ os) m = elim (Bool-cases (skip && target o)) [
    | inl skipped ↦ ground (arith, outputs_from-written (suc o) os m)
    | inr kept ↦
        let calls = (from_slots average o (length (connected o 0 chs)) out 0 0 chs).0 in
        ground (
          arith,
          one_output-written o out m,
          outputs_from-written (suc o) os (mix_of calls m),
          written-append calls
              (outputs_from average skip target (suc o) (totals_from (suc o) (length os) chs) os
                chs).0
              m,
        )
  ]

-- With the numbers of chains that are connected to each output, `mix_to_outputs` writes to each
-- output that is not skipped and has a chain exactly once: the slot of the only chain, or the sum of
-- the slots of all its chains, each divided by their number if `average` is set. It counts the
-- outputs written that are finished afterwards and not loop devices.
pub mix_to_outputs-written :
    (average skip : Bool) (target : ℕ → Bool) (os : List Output) (chs : List Chain)
    → let routed = mix_to_outputs average skip target (totals_from 0 (length os) chs) os chs in
      (written routed.0 [] ≡ writes average skip target chs 0 os)
      × (routed.1 ≡ failed_outputs average skip target chs 0 os)
unfolding mix_to_outputs
mix_to_outputs-written average skip target os chs =
    outputs_from-written average skip target chs 0 os []
