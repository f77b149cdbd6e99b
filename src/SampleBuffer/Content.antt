-- ===== src/SampleBuffer/Content.antt =====
-- The operations that take the samples of another SAMPLE_BUFFER, and those that reserve room: what
-- they leave, sample by sample.
use ecasound.Common.{
  ℕ, ◌≤◌, ◌<◌, ◌≡◌, refl, ◌∙◌, ◌&&◌, List, Option, none, some, arith, ltb, length, get_elem?,
  get_elem?-some, min, if◌then◌else◌, dec_lt,
}
use ecasound.SampleBuffer.{
  SampleBuffer, combine, with_channels, extend_to, matching, add_matching_channels,
  copy_all_content, reserve_channels, reserve_length_in_samples,
}
use ecasound.SampleBuffer.Blocks.{
  both, combined, combine-combined, length-combined, get_elem?-combined, on_matching-combined,
  combined-AllLong,
}
use ecasound.SampleBuffer.Size.{
  IsValid, sample, used_sample, used_sample_lem, AllLong-get_elem?, number_of_channels-samples,
}
use ecasound.SampleBuffer.Length.{length_in_samples-samples}

module _ {A : Type 0} where
  -- A sample of `b` as it reads after an extension.
  abbrev pub padded : A → SampleBuffer A → ℕ → ℕ → Option A
  padded silent b q t = if ltb t b.buffersize then sample b q t else some silent

  -- `b` with the first `n` samples of the channels that `x` has too put together by `f`.
  matched : (A → A → A) → ℕ → SampleBuffer A → SampleBuffer A → SampleBuffer A
  matched f n x b = with_channels b (
      combined (λ ys xs. combined f n xs ys) (min b.channel_count x.channel_count) x.buffer
        b.buffer)

  matching-matched :
      (f : A → A → A) (n : ℕ) (x b : SampleBuffer A)
      → IsValid x
      → IsValid b
      → n ≤ x.reserved_samples
      → n ≤ b.reserved_samples
      → matching f n x b ≡ some (matched f n x b)
  unfolding matching matched
  matching-matched f n x b u v h k = rw (
      on_matching-combined (combine f n) (λ ys xs. combined f n xs ys) x.reserved_samples
        b.reserved_samples (λ xs ys d e. combine-combined f n xs ys (rw d h) (rw e k))
        (min b.channel_count x.channel_count) x.buffer b.buffer u.long v.long
        (omega (arith, u.enough)) (omega (arith, v.enough)))

  matched-IsValid :
      (f : A → A → A) (n : ℕ) (x b : SampleBuffer A)
      → IsValid x
      → IsValid b
      → IsValid (matched f n x b)
  unfolding matched
  matched-IsValid f n x b u v = record {
    enough = omega (
      arith,
      v.enough,
      length-combined (λ ys xs. combined f n xs ys) (min b.channel_count x.channel_count) x.buffer
          b.buffer,
    );
    fits = v.fits;
    long =
        combined-AllLong (λ ys xs. combined f n xs ys) x.reserved_samples b.reserved_samples
          (min b.channel_count x.channel_count) (λ ys xs e. length-combined f n xs ys ∙ e) x.buffer
          b.buffer v.long;
  }

  sample-matched :
      (f : A → A → A) (n : ℕ) (x b : SampleBuffer A)
      → IsValid x
      → IsValid b
      → (q t : ℕ) → q < b.channel_count
      → n ≤ x.reserved_samples
      → n ≤ b.reserved_samples
      → sample (matched f n x b) q t ≡ (
          if ltb q x.channel_count && ltb t n
          then both f (sample x q t) (sample b q t)
          else sample b q t)
  unfolding matched
  sample-matched f n x b u v q t h k l =
      let w = min b.channel_count x.channel_count in
      let p = AllLong-get_elem? b.reserved_samples q b.buffer v.long (omega (arith, v.enough)) in
      let g : q < x.channel_count
          → (c : List A) × (get_elem? x.buffer q ≡ some c) × (length c ≡ x.reserved_samples) =
        λ m. AllLong-get_elem? x.reserved_samples q x.buffer u.long (omega (arith, u.enough)) in
      elim (dec_lt q x.channel_count) [
        | yes m ↦ ground (
          arith,
          u.enough,
          v.enough,
          p.1,
          p.2,
          (g m).1,
          (g m).2,
          get_elem?-combined f n t (g m).0 p.0,
          get_elem?-combined (λ ys xs. combined f n xs ys) w q x.buffer b.buffer,
        )
        | no m ↦ ground (
          arith,
          u.enough,
          v.enough,
          get_elem?-combined (λ ys xs. combined f n xs ys) w q x.buffer b.buffer,
        )
      ]

  -- The length after an extension to that of `x`.
  abbrev pub longer : SampleBuffer A → SampleBuffer A → ℕ
  longer x b = if ltb b.buffersize x.buffersize then x.buffersize else b.buffersize

  extend_to-samples :
      (garbage silent : A) (x b : SampleBuffer A)
      → IsValid b
      → (b' : SampleBuffer A) × (extend_to garbage silent x b ≡ some b')
        × IsValid b'
        × (b'.channel_count ≡ b.channel_count)
        × (b'.buffersize ≡ longer x b)
        × ((q t : ℕ) → q < b.channel_count → t < longer x b → sample b' q t ≡ padded silent b q t)
  unfolding extend_to
  extend_to-samples garbage silent x b v = elim (dec_lt b.buffersize x.buffersize) [
    | yes h ↦
        let p = length_in_samples-samples garbage silent x.buffersize b v in
        (
          p.0,
          ground (arith, p.1),
          p.2,
          p.3,
          ground (arith, p.4),
          λ q t k l. p.5 q t k (ground arith),
        )
    | no h ↦ (b, ground arith, v, refl, ground arith, λ q t k l. ground arith)
  ]

  -- `add_matching_channels` stays inside any two valid buffers and leaves a valid one with the same
  -- channels, extended with silence to the length of the other if that is longer. A sample that the
  -- other buffer has too is the sum of both; the others are as they were.
  pub add_matching_channels_lem :
      (garbage silent : A) (plus : A → A → A) (x b : SampleBuffer A)
      → IsValid x
      → IsValid b
      → (q t : ℕ)
      → (b' : SampleBuffer A) × (add_matching_channels garbage silent plus x b ≡ some b')
        × IsValid b'
        × (b'.channel_count ≡ b.channel_count)
        × (b'.buffersize ≡ longer x b)
        × (used_sample b' q t ≡ (
            if ltb q b.channel_count && ltb t (longer x b)
            then if ltb q x.channel_count && ltb t x.buffersize
              then both plus (sample x q t) (padded silent b q t)
              else padded silent b q t
            else none))
  unfolding add_matching_channels matched
  add_matching_channels_lem garbage silent plus x b u v q t =
      let e = extend_to-samples garbage silent x b v in
      let r : x.buffersize ≤ e.0.reserved_samples = ground (arith, e.2.fits, e.4) in
      let m = matched plus x.buffersize x e.0 in
      (
        m,
        rw e.1 (matching-matched plus x.buffersize x e.0 u e.2 u.fits r),
        matched-IsValid plus x.buffersize x e.0 u e.2,
        e.3,
        e.4,
        used_sample_lem m b.channel_count (longer x b) q t e.3 e.4 (λ h k.
            sample-matched plus x.buffersize x e.0 u e.2 q t (rw e.3 h) u.fits r
            ∙ rw (e.5 q t h k) refl),
      )

  sample-some :
      (b : SampleBuffer A)
      → IsValid b
      → (q t : ℕ) → q < b.channel_count
      → t < b.buffersize
      → (a : A) × (sample b q t ≡ some a)
  sample-some b v q t h k =
      let p = AllLong-get_elem? b.reserved_samples q b.buffer v.long (omega (arith, v.enough)) in
      let s = get_elem?-some p.0 t (omega (arith, v.fits, p.2)) in (s.0, rw p.1 s.1)

  tagged-IsValid :
      (tags : ℕ) (b : SampleBuffer A) → IsValid b → IsValid (record b { event_tags = tags })
  tagged-IsValid tags b v = record { enough = v.enough; fits = v.fits; long = v.long }

  -- What `copy_all_content` writes, where there is a sample to copy.
  sample-copied :
      (n : ℕ) (x c : SampleBuffer A)
      → IsValid x
      → IsValid c
      → (q t : ℕ) → n ≤ x.reserved_samples
      → c.channel_count ≡ x.channel_count
      → c.buffersize ≡ x.buffersize
      → n ≡ x.buffersize
      → q < x.channel_count
      → t < x.buffersize
      → sample (matched (λ y s. s) n x c) q t ≡ sample x q t
  sample-copied n x c u v q t r same_count same_size same h k =
      let y = sample-some x u q t h k in
      let z = sample-some c v q t (rw same_count h) (rw same_size k) in
      let l : n ≤ c.reserved_samples = omega (arith, same, same_size, v.fits) in
      sample-matched (λ y s. s) n x c u v q t (rw same_count h) r l ∙ ground (arith, y.1, z.1)

  -- `copy_all_content` stays inside any two valid buffers, and leaves a valid buffer with the
  -- channels, the length, the samples and the event tags of the other.
  pub copy_all_content_lem :
      (garbage silent : A) (x b : SampleBuffer A)
      → IsValid x
      → IsValid b
      → (q t : ℕ)
      → (b' : SampleBuffer A) × (copy_all_content garbage silent x b ≡ some b')
        × IsValid b'
        × (b'.channel_count ≡ x.channel_count)
        × (b'.buffersize ≡ x.buffersize)
        × (b'.event_tags ≡ x.event_tags)
        × (used_sample b' q t ≡ used_sample x q t)
  unfolding copy_all_content matched
  copy_all_content_lem garbage silent x b u v q t =
      let e = length_in_samples-samples garbage silent x.buffersize b v in
      let c = number_of_channels-samples garbage silent x.channel_count e.0 e.2 in
      let n = c.0.buffersize in
      let l : n ≡ x.buffersize = c.4 ∙ e.4 in
      let r : n ≤ x.reserved_samples = omega (arith, l, u.fits) in
      let m = matched (λ y s. s) n x c.0 in
      let copy = record m { event_tags = x.event_tags } in
      (
        copy,
        rw (e.1, c.1, matching-matched (λ y s. s) n x c.0 u c.2 r c.2.fits) refl,
        tagged-IsValid x.event_tags m (matched-IsValid (λ y s. s) n x c.0 u c.2),
        c.3,
        l,
        refl,
        used_sample_lem copy x.channel_count x.buffersize q t c.3 l
            (sample-copied n x c.0 u c.2 q t r c.3 l l),
      )

  -- Reserving room for `len` samples leaves the length of a valid buffer and the channels alone,
  -- but silences the samples in use from `len` on.
  pub reserve_length_in_samples_lem :
      (garbage silent : A) (len : ℕ) (b : SampleBuffer A)
      → IsValid b
      → (q t : ℕ) → q < b.channel_count
      → t < b.buffersize
      → (b' : SampleBuffer A) × (reserve_length_in_samples garbage silent len b ≡ some b')
        × IsValid b'
        × (b'.channel_count ≡ b.channel_count)
        × (b'.buffersize ≡ b.buffersize)
        × (sample b' q t ≡ (if ltb t len then sample b q t else some silent))
  unfolding reserve_length_in_samples
  reserve_length_in_samples_lem garbage silent len b v q t h k =
      let p = length_in_samples-samples garbage silent len b v in
      let r = length_in_samples-samples garbage silent b.buffersize p.0 p.2 in
      (
        r.0,
        rw (p.1) r.1,
        r.2,
        r.3 ∙ p.3,
        r.4,
        r.5 q t (rw p.3 h) k ∙ ground (arith, p.4, p.5 q t h),
      )

  -- Reserving `num` channels leaves the length of a valid buffer and the number of its channels
  -- alone, but silences the channels in use from `num` on.
  reserve_channels_lem :
      (garbage silent : A) (num : ℕ) (b : SampleBuffer A)
      → IsValid b
      → (q t : ℕ) → q < b.channel_count
      → t < b.buffersize
      → (b' : SampleBuffer A) × (reserve_channels garbage silent num b ≡ some b')
        × IsValid b'
        × (b'.channel_count ≡ b.channel_count)
        × (b'.buffersize ≡ b.buffersize)
        × (sample b' q t ≡ (if ltb q num then sample b q t else some silent))
  unfolding reserve_channels
  reserve_channels_lem garbage silent num b v q t h k =
      let p = number_of_channels-samples garbage silent num b v in
      let r = number_of_channels-samples garbage silent b.channel_count p.0 p.2 in
      (
        r.0,
        rw (p.1) r.1,
        r.2,
        r.3,
        r.4 ∙ p.4,
        r.5 q t h (rw p.4 k) ∙ ground (arith, p.3, λ (l : q < num). p.5 q t l k),
      )
