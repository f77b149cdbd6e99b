-- ===== src/Engine/Prefill.antt =====
-- libecasound/eca-engine.cpp: how many silent blocks ECA_ENGINE writes to its realtime outputs before
-- it starts, and the offset at which it begins to record. Sizes and latencies are not negative.
use native.Mathlib.Nat.{div-mul-le_self, div-add-mod', mod-lt, div-lt_iff_lt-mul}
use ecasound.Common.{
  ℕ, ◌+◌, ◌*◌, ◌/◌, ◌≤◌, ◌<◌, ◌≡◌, refl, inl, inr, Bool, ◌&&◌, List, [], ◌∷◌, ltb, if◌then◌else◌,
  arith, Bool-cases,
}
use ecasound.Common.Int.{ℤ, pos, negsuc, eq_ℤ, ltb_ℤ}

-- A realtime device.
pub record RealtimeObject : Type 0 where
  pub prefill_space : ℕ
  pub latency : ℕ

-- prefill_threshold_constant and prefill_blocks_constant.
pub init_prefill : (max_buffers : Bool) → (max_channels buffersize : ℕ) → ℕ
init_prefill max_buffers max_channels buffersize =
    let channels = if ltb 0 max_channels then max_channels else 1 in
    let threshold = if max_buffers then 16348 / buffersize / channels else 0 in
    if ltb threshold 3 then 3 else threshold

-- `prefill_threshold_rep` after the test for one output.
pub lowered : (buffersize threshold : ℕ) → RealtimeObject → ℕ
lowered buffersize threshold o =
    if ltb 0 o.prefill_space && ltb o.prefill_space (threshold * buffersize)
    then o.prefill_space / buffersize
    else threshold

-- The second step of prepare_realtime_objects: the blocks that each output gets, and the threshold
-- that is left.
unfoldable pub prefill_outputs : (buffersize threshold : ℕ) → List RealtimeObject → List ℕ × ℕ
unfolding lowered
prefill_outputs buffersize threshold [] = ([], threshold)
prefill_outputs buffersize threshold (o ∷ os) =
    let threshold' = lowered buffersize threshold o in
    let (blocks, left) = prefill_outputs buffersize threshold' os in
    ((if ltb 0 o.prefill_space then threshold' else 0) ∷ blocks, left)

-- `in_latency`.
pub input_latency : List RealtimeObject → ℤ
input_latency [] = negsuc 0
input_latency (i ∷ is) = pos i.latency

-- `out_latency`.
pub output_latency : (buffersize threshold : ℕ) → List RealtimeObject → ℤ
output_latency buffersize threshold [] = negsuc 0
output_latency buffersize threshold (o ∷ os) = pos (
    if ltb 0 o.prefill_space
    then (if ltb o.prefill_space (threshold * buffersize)
        then o.prefill_space
        else threshold * buffersize)
      + o.latency
    else o.latency)

-- `recording_offset_rep`, where an offset of -1 asks for the latency of the devices.
unfoldable pub update_cache_latency_values :
    (multitrack_mode : Bool)
    → (multitrack_mode_offset : ℤ) → (buffersize threshold : ℕ)
    → (realtime_inputs realtime_outputs : List RealtimeObject) → ℤ
unfolding input_latency output_latency
update_cache_latency_values multitrack offset buffersize threshold is os =
    if multitrack && eq_ℤ offset (negsuc 0)
    then (if ltb_ℤ (input_latency is) (output_latency buffersize threshold os)
        then output_latency buffersize threshold os
        else input_latency is)
    else if multitrack
    then offset
    else pos 0

-- Each output gets blocks that fit into its space, and no more of them than any output before it that
-- offers space.
abbrev pub AllFit : (buffersize threshold : ℕ) → List RealtimeObject → List ℕ → Type 0
AllFit buffersize threshold [] [] = Unit
AllFit buffersize threshold [] (k ∷ ks) = ⊥
AllFit buffersize threshold (o ∷ os) [] = ⊥
AllFit buffersize threshold (o ∷ os) (k ∷ ks) =
    (k ≤ threshold)
    × (k * buffersize ≤ o.prefill_space)
    × AllFit buffersize (if ltb 0 o.prefill_space then k else threshold) os ks

lowered_lem :
    (buffersize threshold : ℕ) (o : RealtimeObject)
    → 0 < buffersize
    → (lowered buffersize threshold o ≤ threshold)
      × (0 < o.prefill_space → lowered buffersize threshold o * buffersize ≤ o.prefill_space)
      × (o.prefill_space ≡ 0 → lowered buffersize threshold o ≡ threshold)
unfolding lowered
lowered_lem b t o h = elim (Bool-cases (ltb 0 o.prefill_space && ltb o.prefill_space (t * b))) [
  | inl tight ↦
      let small : o.prefill_space < t * b = ground arith in
      let some_space : 0 < o.prefill_space = ground arith in
      let less = (div-lt_iff_lt-mul {x = o.prefill_space} {y = t} h).1 small in
      rw tight (omega arith, λ _. div-mul-le_self o.prefill_space b, λ z. absurd (omega (arith, z)))
  | inr wide ↦ rw wide (omega arith, λ p. ground arith, λ z. refl)
]

trans_le : {a b c : ℕ} → a ≤ b → b ≤ c → a ≤ c
trans_le h k = omega arith

AllFit-step :
    (buffersize threshold threshold' : ℕ) (o : RealtimeObject) (os : List RealtimeObject)
    (blocks : List ℕ)
    → threshold' ≤ threshold
    → (0 < o.prefill_space → threshold' * buffersize ≤ o.prefill_space)
    → (o.prefill_space ≡ 0 → threshold' ≡ threshold)
    → AllFit buffersize threshold' os blocks
    → AllFit buffersize threshold
        (o ∷ os)
        ((if ltb 0 o.prefill_space then threshold' else 0) ∷ blocks)
AllFit-step b t t' o os ks less fits same rest = elim (Bool-cases (ltb 0 o.prefill_space)) [
  | inl room ↦ rw room (less, fits (ground arith), rest)
  | inr full ↦
      let kept = same (ground arith) in
      let rest' : AllFit b t os ks = rw kept at rest in rw full (omega arith, omega arith, rest')
]

-- With buffers of one sample or more, no realtime output is prefilled beyond the space that it
-- offers, so that one without space gets no block, nor with more blocks than the threshold or than an
-- output before it that offers space, and the threshold that is left is at most the one before.
pub prefill_outputs_lem :
    (buffersize threshold : ℕ) (os : List RealtimeObject)
    → 0 < buffersize
    → let (blocks, left) = prefill_outputs buffersize threshold os in
      AllFit buffersize threshold os blocks × (left ≤ threshold)
unfolding prefill_outputs
prefill_outputs_lem b t [] h = (tt, omega arith)
prefill_outputs_lem b t (o ∷ os) h =
    let t' = lowered b t o in
    let (less, fits, same) = lowered_lem b t o h in
    let (rest, left) = prefill_outputs_lem b t' os h in
    (AllFit-step b t t' o os (prefill_outputs b t' os).0 less fits same rest, trans_le left less)

abbrev counted : (buffersize threshold : ℕ) → RealtimeObject → ℕ
counted b t o = if ltb 0 o.prefill_space then lowered b t o else 0

counted_lem :
    (b t : ℕ) (o : RealtimeObject)
    → 0 < b
    → let latency =
        if ltb 0 o.prefill_space
        then (if ltb o.prefill_space (t * b) then o.prefill_space else t * b) + o.latency
        else o.latency in
      (counted b t o * b + o.latency ≤ latency) × (latency < counted b t o * b + o.latency + b)
unfolding lowered
counted_lem b t o h = elim (Bool-cases (ltb 0 o.prefill_space)) [
  | inr full ↦ rw full (omega arith, omega arith)
  | inl room ↦ elim (Bool-cases (ltb o.prefill_space (t * b))) [
    | inl tight ↦
        let parts = div-add-mod' o.prefill_space b in
        let part = mod-lt o.prefill_space h in
        rw (room, tight) (omega (arith, parts, part), omega (arith, parts, part))
    | inr wide ↦ rw (room, wide) (omega arith, omega arith)
  ]
]

-- With buffers of one sample or more, the latency that is computed for the first output is at least
-- its own latency plus the samples that it holds when it has been prefilled, and exceeds that sum by
-- less than a block.
pub output_latency-prefill_outputs :
    (buffersize threshold : ℕ) (o : RealtimeObject) (os : List RealtimeObject)
    → 0 < buffersize
    → (k : ℕ) × (rest : List ℕ) × (latency : ℕ) × ((prefill_outputs buffersize threshold (o ∷ os)).0
        ≡ k ∷ rest)
      × (output_latency buffersize threshold (o ∷ os) ≡ pos latency)
      × (k * buffersize + o.latency ≤ latency)
      × (latency < k * buffersize + o.latency + buffersize)
unfolding prefill_outputs output_latency
output_latency-prefill_outputs b t o os h =
    let (below, above) = counted_lem b t o h in (counted b t o, _, _, refl, refl, below, above)
