-- ===== src/Routing/Inputs.antt =====
-- What ECA_ENGINE::inputs_to_chains leaves in the per-chain slots, and how often it reads an input.
use ecasound.Common.{
  ℕ, zero, suc, ◌+◌, ◌≤◌, ◌<◌, ◌≡◌, refl, ◌∙◌, inl, inr, true, false, List, [], ◌∷◌, ◌++◌, some,
  arith, ◌==◌, ltb, length, get_elem?, if◌then◌else◌, Bool-cases,
}
use ecasound.Common.Int.{pos, eq_ℤ}
use ecasound.Chain.{Chain}
use ecasound.Routing.{
  Input, Call, mix_empty, read_mix, slot_empty, read_slot, copy_mix, to_slots, to_mixslot,
  inputs_from, inputs_to_chains,
}

-- What a buffer holds: what it held before the iteration, a block of an input, or no samples.
pub data Content : Type 0 where
  old empty : Content
  block_of : ℕ → Content

-- The mixslot after some calls.
abbrev pub mix_after : List Call → Content → Content
mix_after [] mix = mix
mix_after (mix_empty ∷ calls) mix = mix_after calls empty
mix_after (read_mix i ∷ calls) mix = mix_after calls (block_of i)
mix_after (_ ∷ calls) mix = mix_after calls mix

-- The slot of chain `c` after some calls.
abbrev pub slot_after : ℕ → List Call → (mix slot : Content) → Content
slot_after c [] mix slot = slot
slot_after c (mix_empty ∷ calls) mix slot = slot_after c calls empty slot
slot_after c (read_mix i ∷ calls) mix slot = slot_after c calls (block_of i) slot
slot_after c (slot_empty k ∷ calls) mix slot =
    slot_after c calls mix (if k == c then empty else slot)
slot_after c (read_slot i k ∷ calls) mix slot =
    slot_after c calls mix (if k == c then block_of i else slot)
slot_after c (copy_mix k ∷ calls) mix slot = slot_after c calls mix (if k == c then mix else slot)
slot_after c (_ ∷ calls) mix slot = slot_after c calls mix slot

-- The number of chains that are connected to an input, and these numbers for `n` inputs from one on.
abbrev pub attached : ℕ → List Chain → ℕ
attached i [] = 0
attached i (ch ∷ chs) = (if eq_ℤ ch.input_id (pos i) then 1 else 0) + attached i chs

abbrev pub counts_from : (first n : ℕ) → List Chain → List ℕ
counts_from first zero chs = []
counts_from first (suc n) chs = attached first chs ∷ counts_from (suc first) n chs

slot_after-append :
    (c : ℕ) (xs ys : List Call) (m s : Content)
    → slot_after c (xs ++ ys) m s ≡ slot_after c ys (mix_after xs m) (slot_after c xs m s)
slot_after-append c [] ys m s = refl
slot_after-append c (mix_empty ∷ xs) ys m s = slot_after-append c xs ys empty s
slot_after-append c (read_mix i ∷ xs) ys m s = slot_after-append c xs ys (block_of i) s
slot_after-append c (slot_empty k ∷ xs) ys m s = slot_after-append c xs ys m _
slot_after-append c (read_slot i k ∷ xs) ys m s = slot_after-append c xs ys m _
slot_after-append c (copy_mix k ∷ xs) ys m s = slot_after-append c xs ys m _
slot_after-append c (_ ∷ xs) ys m s = slot_after-append c xs ys m s

-- What an input that is read or finished puts into a buffer.
abbrev pub content : ℕ → Input → Content
content k i = if i.finished then empty else block_of k

attached_pos :
    (k n : ℕ) (chs : List Chain) {ch : Chain}
    → get_elem? chs n ≡ some ch
    → eq_ℤ ch.input_id (pos k) ≡ true
    → 1 ≤ attached k chs
attached_pos k n [] g e = cc
attached_pos k zero (ch ∷ chs) g e = ground arith
attached_pos k (suc n) (ch ∷ chs) g e = omega (arith, attached_pos k n chs g e)

module _ (k count : ℕ) (i : Input) where
  mix_after-to_slots :
      (c : ℕ) (chs : List Chain) (m : Content) → mix_after (to_slots k count i c chs).0 m ≡ m
  unfolding to_slots
  mix_after-to_slots c [] m = refl
  mix_after-to_slots c (ch ∷ chs) m = ground (arith, mix_after-to_slots (suc c) chs m)

  -- A slot before the first chain of the loop is left alone.
  slot_after-to_slots_before :
      (d c : ℕ) (chs : List Chain) (m s : Content)
      → d < c
      → slot_after d (to_slots k count i c chs).0 m s ≡ s
  unfolding to_slots
  slot_after-to_slots_before d c [] m s h = refl
  slot_after-to_slots_before d c (ch ∷ chs) m s h =
      ground (arith, slot_after-to_slots_before d (suc c) chs m s)

  -- So is the slot of a chain that is connected elsewhere.
  slot_after-to_slots_ne :
      (c n : ℕ) (chs : List Chain) (m s : Content) {ch : Chain}
      → get_elem? chs n ≡ some ch
      → eq_ℤ ch.input_id (pos k) ≡ false
      → slot_after (c + n) (to_slots k count i c chs).0 m s ≡ s
  unfolding to_slots
  slot_after-to_slots_ne c n [] m s g e = refl
  slot_after-to_slots_ne c zero (ch ∷ chs) m s g e =
      ground (arith, slot_after-to_slots_before (c + 0) (suc c) chs m s)
  slot_after-to_slots_ne c (suc n) (ch ∷ chs) m s g e =
      let at : c + suc n ≡ suc c + n = omega arith in
      let rest = slot_after-to_slots_ne (suc c) n chs m s g e in rw at (ground (arith, rest))

  slot_after-to_slots_eq :
      (c n : ℕ) (chs : List Chain) (m s : Content) {ch : Chain}
      → (count ≡ 1 → attached k chs ≤ 1)
      → get_elem? chs n ≡ some ch
      → eq_ℤ ch.input_id (pos k) ≡ true
      → slot_after (c + n) (to_slots k count i c chs).0 m s
        ≡ (if count == 1 then content k i else m)
  unfolding to_slots
  slot_after-to_slots_eq c n [] m s h g e = cc
  slot_after-to_slots_eq c zero (ch ∷ chs) m s h g e =
      ground (arith, slot_after-to_slots_before (c + 0) (suc c) chs m m)
  slot_after-to_slots_eq c (suc n) (ch ∷ chs) m s h g e =
      let at : c + suc n ≡ suc c + n = omega arith in
      let more = attached_pos k n chs g e in
      rw at (elim (Bool-cases (eq_ℤ ch.input_id (pos k))) [
        | inr other ↦
            rw other (slot_after-to_slots_eq (suc c) n chs m s (λ one. omega (arith, h one)) g e)
        | inl here ↦ elim (Bool-cases (count == 1)) [
          | inl one ↦ absurd (ground (arith, h (ground arith)))
          | inr many ↦
              let vacuous : count ≡ 1 → attached k chs ≤ 1 = λ one. absurd (ground arith) in
              let s' = if c == (suc c + n) then m else s in
              let rest = slot_after-to_slots_eq (suc c) n chs m s' vacuous g e in
              rw (here, many) (rw many at rest)
        ]
      ])

module _ (k count : ℕ) (i : Input) where
  mix_after-to_mixslot :
      (m : Content)
      → mix_after (to_mixslot k count i).0 m ≡ (if ltb 1 count then content k i else m)
  unfolding to_mixslot
  mix_after-to_mixslot m = ground arith

  slot_after-to_mixslot : (c : ℕ) (m s : Content) → slot_after c (to_mixslot k count i).0 m s ≡ s
  unfolding to_mixslot
  slot_after-to_mixslot c m s = ground arith

-- The calls for one input.
abbrev one_input : (k count : ℕ) → Input → List Chain → List Call
one_input k count i chs = (to_mixslot k count i).0 ++ (to_slots k count i 0 chs).0

module _ (k n : ℕ) (i : Input) (chs : List Chain) (m s : Content) {ch : Chain}
    (at : get_elem? chs n ≡ some ch) where
  slot_after-one_input_ne :
      (count : ℕ)
      → eq_ℤ ch.input_id (pos k) ≡ false
      → slot_after n (one_input k count i chs) m s ≡ s
  slot_after-one_input_ne count e =
      let z : 0 + n ≡ n = omega arith in
      let m' = mix_after (to_mixslot k count i).0 m in
      let s' = slot_after n (to_mixslot k count i).0 m s in
      slot_after-append n (to_mixslot k count i).0 _ m s
      ∙ rw z at (slot_after-to_slots_ne k count i 0 n chs m' s' at e)
      ∙ slot_after-to_mixslot k count i n m s

  slot_after-one_input_eq :
      eq_ℤ ch.input_id (pos k) ≡ true
      → slot_after n (one_input k (attached k chs) i chs) m s ≡ content k i
  slot_after-one_input_eq e =
      let z : 0 + n ≡ n = omega arith in
      let enough = attached_pos k n chs at e in
      let m' = mix_after (to_mixslot k (attached k chs) i).0 m in
      let s' = slot_after n (to_mixslot k (attached k chs) i).0 m s in
      let single : attached k chs ≡ 1 → attached k chs ≤ 1 = λ one. omega arith in
      slot_after-append n (to_mixslot k (attached k chs) i).0 _ m s
      ∙ rw z at (slot_after-to_slots_eq k (attached k chs) i 0 n chs m' s' single at e)
      ∙ ground (arith, mix_after-to_mixslot k (attached k chs) i m)

module _ (chs : List Chain) (n : ℕ) {ch : Chain} (at : get_elem? chs n ≡ some ch) where
  -- Inputs after the one that a chain is connected to leave its slot alone.
  slot_after-inputs_from_past :
      (k j : ℕ) (is : List Input) (m s : Content)
      → eq_ℤ ch.input_id (pos j) ≡ true
      → j < k
      → slot_after n (inputs_from k (counts_from k (length is) chs) is chs).0 m s ≡ s
  unfolding inputs_from
  slot_after-inputs_from_past k j [] m s e h = refl
  slot_after-inputs_from_past k j (i ∷ is) m s e h =
      let elsewhere : eq_ℤ ch.input_id (pos k) ≡ false = ground arith in
      slot_after-append n (one_input k (attached k chs) i chs) _ m s
      ∙ slot_after-inputs_from_past (suc k) j is _ _ e (omega arith)
      ∙ slot_after-one_input_ne k n i chs m s at (attached k chs) elsewhere

  slot_after-inputs_from :
      (k j : ℕ) (is : List Input) (m s : Content) {i : Input}
      → eq_ℤ ch.input_id (pos (k + j)) ≡ true
      → get_elem? is j ≡ some i
      → slot_after n (inputs_from k (counts_from k (length is) chs) is chs).0 m s
        ≡ content (k + j) i
  unfolding inputs_from
  slot_after-inputs_from k j [] m s e g = cc
  slot_after-inputs_from k zero (i ∷ is) m s e g =
      let z : k + 0 ≡ k = omega arith in
      let here : eq_ℤ ch.input_id (pos k) ≡ true = rw z at e in
      slot_after-append n (one_input k (attached k chs) i chs) _ m s
      ∙ slot_after-inputs_from_past (suc k) k is _ _ here (omega arith)
      ∙ slot_after-one_input_eq k n i chs m s at here
      ∙ ground arith
  slot_after-inputs_from k (suc j) (i ∷ is) m s e g =
      let z : k + suc j ≡ suc k + j = omega arith in
      let there : eq_ℤ ch.input_id (pos (suc k + j)) ≡ true = rw z at e in
      let elsewhere : eq_ℤ ch.input_id (pos k) ≡ false = ground arith in
      slot_after-append n (one_input k (attached k chs) i chs) _ m s
      ∙ rw z (slot_after-inputs_from (suc k) j is _ _ there g)

-- With the numbers of chains that are attached to each input, a chain that is connected to input `j`
-- has a block of that input in its slot after `inputs_to_chains`, and no samples if the input was
-- finished before.
pub slot_after-inputs_to_chains :
    (is : List Input) (chs : List Chain) (n j : ℕ) {ch : Chain} {i : Input}
    → get_elem? chs n ≡ some ch
    → eq_ℤ ch.input_id (pos j) ≡ true
    → get_elem? is j ≡ some i
    → slot_after n (inputs_to_chains (counts_from 0 (length is) chs) is chs).0 old old ≡ content j i
unfolding inputs_to_chains
slot_after-inputs_to_chains is chs n j {ch} at e g =
    let z : 0 + j ≡ j = omega arith in
    let there : eq_ℤ ch.input_id (pos (0 + j)) ≡ true = rw z e in
    rw z at (slot_after-inputs_from chs n at 0 j is old old there g)
