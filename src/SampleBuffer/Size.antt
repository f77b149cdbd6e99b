-- ===== src/SampleBuffer/Size.antt =====
-- The number of channels of a SAMPLE_BUFFER: what a change of it keeps, and what it adds.
use ecasound.Common.{
  ℕ, zero, suc, ◌+◌, ◌-◌, ◌≤◌, ◌<◌, ◌≡◌, ◌&&◌, Bool-cases, inl, inr, refl, ◌∙◌, List, [], ◌∷◌, ◌++◌,
  Option, none, some, arith, ltb, length, get_elem?, replicate, length-append, length-replicate,
  if◌then◌else◌,
}
use ecasound.SampleBuffer.{SampleBuffer, priv_alloc_sample_buf, resize_channels, number_of_channels}
use ecasound.SampleBuffer.Blocks.{
  filled, fill-filled, length-filled, get_elem?-filled, AllLong, mapped, on_channels-mapped,
  length-mapped, mapped-AllLong, get_elem?-mapped,
}

-- The channels in use are there, and every block has the reserved length, which covers the
-- samples in use.
pub record IsValid {A : Type 0} (b : SampleBuffer A) : Type 0 where
  pub enough : b.channel_count ≤ length b.buffer
  pub fits : b.buffersize ≤ b.reserved_samples
  pub long : AllLong b.reserved_samples b.buffer

module _ {A : Type 0} where
  -- The sample `t` of a channel that may not be there.
  abbrev pub sample_of : Option (List A) → ℕ → Option A
  sample_of none t = none
  sample_of (some block) t = get_elem? block t

  abbrev pub sample : SampleBuffer A → ℕ → ℕ → Option A
  sample b q t = sample_of (get_elem? b.buffer q) t

  -- A sample of a channel in use below the length, and `none` elsewhere.
  abbrev pub used_sample : SampleBuffer A → ℕ → ℕ → Option A
  used_sample b q t = if ltb q b.channel_count && ltb t b.buffersize then sample b q t else none

  pub used_sample_lem :
      (b : SampleBuffer A) (channels length q t : ℕ) {o : Option A}
      → b.channel_count ≡ channels
      → b.buffersize ≡ length
      → (q < channels → t < length → sample b q t ≡ o)
      → used_sample b q t ≡ (if ltb q channels && ltb t length then o else none)
  used_sample_lem b channels length q t c n h = elim (Bool-cases (ltb q channels && ltb t length)) [
    | inl inside ↦ rw (c, n, inside) (h (ground arith) (ground arith))
    | inr outside ↦ rw (c, n, outside) refl
  ]

  pub AllLong-get_elem? :
      (r q : ℕ) (bs : List (List A))
      → AllLong r bs
      → q < length bs
      → (c : List A) × (get_elem? bs q ≡ some c) × (length c ≡ r)
  AllLong-get_elem? r q [] a h = absurd (omega arith)
  AllLong-get_elem? r zero (b ∷ bs) a h = (b, refl, a.0)
  AllLong-get_elem? r (suc q) (b ∷ bs) a h = AllLong-get_elem? r q bs a.1 (omega arith)

  AllLong-append :
      (r n : ℕ) (c : List A) (bs : List (List A))
      → AllLong r bs
      → length c ≡ r
      → AllLong r (bs ++ replicate n c)
  AllLong-append r zero c [] a h = tt
  AllLong-append r (suc n) c [] a h = (h, AllLong-append r n c [] tt h)
  AllLong-append r n c (b ∷ bs) a h = (a.0, AllLong-append r n c bs a.1 h)

  get_elem?-append_lt :
      (xs ys : List (List A)) (q : ℕ) → q < length xs → get_elem? (xs ++ ys) q ≡ get_elem? xs q
  get_elem?-append_lt [] ys q h = absurd (omega arith)
  get_elem?-append_lt (x ∷ xs) ys zero h = refl
  get_elem?-append_lt (x ∷ xs) ys (suc q) h = get_elem?-append_lt xs ys q (omega arith)

  resize_channels-AllLong :
      (garbage silent : A) (len : ℕ) (b : SampleBuffer A)
      → IsValid b
      → AllLong b.reserved_samples (resize_channels garbage silent len b)
  unfolding resize_channels priv_alloc_sample_buf
  resize_channels-AllLong garbage silent len b v =
      AllLong-append b.reserved_samples (len - length b.buffer) _ b.buffer v.long
        (length-replicate b.reserved_samples garbage)

  length-resize_channels :
      (garbage silent : A) (len : ℕ) (b : SampleBuffer A)
      → length (resize_channels garbage silent len b) ≡ length b.buffer + (len - length b.buffer)
  unfolding resize_channels priv_alloc_sample_buf
  length-resize_channels garbage silent len b = omega (
    arith,
    length-append b.buffer
        (replicate (len - length b.buffer) (replicate b.reserved_samples garbage)),
    length-replicate (len - length b.buffer) (replicate b.reserved_samples garbage),
  )

  -- The buffer with `len` channels.
  abbrev resized : A → A → ℕ → SampleBuffer A → SampleBuffer A
  resized garbage silent len b = record b {
    channel_count = len;
    buffer =
        mapped (filled silent 0 b.reserved_samples) b.channel_count (len - b.channel_count)
          (resize_channels garbage silent len b);
  }

  number_of_channels-resized :
      (garbage silent : A) (len : ℕ) (b : SampleBuffer A)
      → IsValid b
      → number_of_channels garbage silent len b ≡ some (resized garbage silent len b)
  unfolding number_of_channels
  number_of_channels-resized garbage silent len b v = rw (
      on_channels-mapped _ (filled silent 0 b.reserved_samples) b.reserved_samples
        (λ c e. fill-filled silent 0 b.reserved_samples c (λ l. omega arith)) b.channel_count
        (len - b.channel_count) (resize_channels garbage silent len b)
        (resize_channels-AllLong garbage silent len b v)
        (omega (arith, length-resize_channels garbage silent len b, v.enough)))

  resized-IsValid :
      (garbage silent : A) (len : ℕ) (b : SampleBuffer A)
      → IsValid b
      → IsValid (resized garbage silent len b)
  resized-IsValid garbage silent len b v =
      let channels = resize_channels garbage silent len b in
      record {
        enough = omega (
          arith,
          length-resize_channels garbage silent len b,
          v.enough,
          length-mapped (filled silent 0 b.reserved_samples) b.channel_count (len - b.channel_count)
              channels,
        );
        fits = v.fits;
        long =
            mapped-AllLong _ b.reserved_samples b.channel_count (len - b.channel_count)
              (λ c e. length-filled silent 0 b.reserved_samples c ∙ e) channels
              (resize_channels-AllLong garbage silent len b v);
      }

  sample-resized :
      (garbage silent : A) (len : ℕ) (b : SampleBuffer A)
      → IsValid b
      → (q t : ℕ) → q < len
      → t < b.buffersize
      → sample (resized garbage silent len b) q t
        ≡ (if ltb q b.channel_count then sample b q t else some silent)
  unfolding resize_channels
  sample-resized garbage silent len b v q t h k =
      let channels = resize_channels garbage silent len b in
      let p =
        AllLong-get_elem? b.reserved_samples q channels
          (resize_channels-AllLong garbage silent len b v)
          (omega (arith, length-resize_channels garbage silent len b)) in
      let m =
        get_elem?-mapped (filled silent 0 b.reserved_samples) b.channel_count
          (len - b.channel_count) q channels in
      ground (
        arith,
        m,
        v.fits,
        v.enough,
        p.1,
        p.2,
        get_elem?-filled silent 0 b.reserved_samples t p.0,
        get_elem?-append_lt b.buffer
            (replicate (len - length b.buffer)
              (priv_alloc_sample_buf garbage silent b.reserved_samples))
            q,
      )

  -- What the change does to every sample, for use with other operations.
  pub number_of_channels-samples :
      (garbage silent : A) (len : ℕ) (b : SampleBuffer A)
      → IsValid b
      → (b' : SampleBuffer A) × (number_of_channels garbage silent len b ≡ some b')
        × IsValid b'
        × (b'.channel_count ≡ len)
        × (b'.buffersize ≡ b.buffersize)
        × ((q t : ℕ)
            → q < len
            → t < b.buffersize
            → sample b' q t ≡ (if ltb q b.channel_count then sample b q t else some silent))
  number_of_channels-samples garbage silent len b v = (
    resized garbage silent len b,
    number_of_channels-resized garbage silent len b v,
    resized-IsValid garbage silent len b v,
    refl,
    refl,
    sample-resized garbage silent len b v,
  )

  -- What `number_of_channels` does on any valid buffer, whatever newly allocated memory holds: it
  -- stays inside the blocks, leaves a valid buffer with that many channels and the old length,
  -- keeps the samples of the channels that stay, and silences the channels that are added.
  pub number_of_channels_lem :
      (garbage silent : A) (len : ℕ) (b : SampleBuffer A)
      → IsValid b
      → (q t : ℕ)
      → (b' : SampleBuffer A) × (number_of_channels garbage silent len b ≡ some b')
        × IsValid b'
        × (b'.channel_count ≡ len)
        × (b'.buffersize ≡ b.buffersize)
        × (used_sample b' q t ≡ (
            if ltb q len && ltb t b.buffersize
            then if ltb q b.channel_count then sample b q t else some silent
            else none))
  number_of_channels_lem garbage silent len b v q t =
      let p = number_of_channels-samples garbage silent len b v in
      (p.0, p.1, p.2, p.3, p.4, used_sample_lem p.0 len b.buffersize q t p.3 p.4 (p.5 q t))
