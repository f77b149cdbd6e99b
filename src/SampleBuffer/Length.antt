-- ===== src/SampleBuffer/Length.antt =====
-- The length of a SAMPLE_BUFFER: what a change of it keeps, and what it adds.
use ecasound.Common.{
  ℕ, ◌-◌, ◌*◌, ◌≤◌, ◌<◌, ◌≡◌, refl, ◌∙◌, ◌&&◌, List, none, some, arith, ltb, length, get_elem?,
  get_elem?-some, replicate, length-replicate, if◌then◌else◌,
}
use ecasound.SampleBuffer.{
  SampleBuffer, fill, on_channels, priv_alloc_sample_buf, grow_block, grow, mute_added,
  length_in_samples,
}
use ecasound.SampleBuffer.Blocks.{
  filled, fill-filled, length-filled, get_elem?-filled, combined, combine-combined, length-combined,
  mapped, on_channels-mapped, length-mapped, mapped-AllLong, get_elem?-mapped, get_elem?-combined,
  mapped_all-AllLong,
}
use ecasound.SampleBuffer.Size.{IsValid, sample, used_sample, used_sample_lem, AllLong-get_elem?}

module _ {A : Type 0} where
  -- The block of `grow_block`, and the buffer of `grow` where it has to allocate.
  grown_block : A → ℕ → ℕ → List A → List A
  grown_block garbage used reserved old = combined (λ y x. x) used old (replicate reserved garbage)

  abbrev regrown : A → ℕ → SampleBuffer A → SampleBuffer A
  regrown garbage len b = record b {
    buffer = mapped (grown_block garbage b.buffersize (len * 2)) 0 (length b.buffer) b.buffer;
    reserved_samples = len * 2;
  }

  abbrev grown : A → ℕ → SampleBuffer A → SampleBuffer A
  grown garbage len b = if ltb b.reserved_samples len then regrown garbage len b else b

  grow_block-grown_block :
      (garbage silent : A) (used reserved : ℕ) (old : List A)
      → used ≤ length old
      → used ≤ reserved
      → grow_block garbage silent used reserved old ≡ some (grown_block garbage used reserved old)
  unfolding grow_block grown_block priv_alloc_sample_buf
  grow_block-grown_block garbage silent used reserved old h k =
      combine-combined _ used old (replicate reserved garbage) h
        (omega (arith, length-replicate reserved garbage))

  blocks_grown :
      (garbage silent : A) (len : ℕ) (b : SampleBuffer A)
      → IsValid b
      → b.reserved_samples < len
      → on_channels (grow_block garbage silent b.buffersize (len * 2)) 0 (length b.buffer) b.buffer
        ≡ some (regrown garbage len b).buffer
  blocks_grown garbage silent len b v h =
      on_channels-mapped _ (grown_block garbage b.buffersize (len * 2)) b.reserved_samples
        (λ c e.
          grow_block-grown_block garbage silent b.buffersize (len * 2) c (omega (arith, v.fits))
            (omega (arith, v.fits)))
        0 (length b.buffer) b.buffer v.long (omega arith)

  grow-grown :
      (garbage silent : A) (len : ℕ) (b : SampleBuffer A)
      → IsValid b
      → grow garbage silent len b ≡ some (grown garbage len b)
  unfolding grow
  grow-grown garbage silent len b v = ground (arith, blocks_grown garbage silent len b v)

  length-grown_block :
      (garbage : A) (used reserved : ℕ) (old : List A)
      → length (grown_block garbage used reserved old) ≡ reserved
  unfolding grown_block
  length-grown_block garbage used reserved old =
      length-combined (λ y x. x) used old (replicate reserved garbage)
      ∙ length-replicate reserved garbage

  regrown-IsValid :
      (garbage : A) (len : ℕ) (b : SampleBuffer A)
      → IsValid b
      → b.reserved_samples < len
      → IsValid (regrown garbage len b)
  regrown-IsValid garbage len b v h = record {
    enough = omega (
      arith,
      v.enough,
      length-mapped (grown_block garbage b.buffersize (len * 2)) 0 (length b.buffer) b.buffer,
    );
    fits = omega (arith, v.fits);
    long =
        mapped_all-AllLong _ b.reserved_samples (len * 2)
          (λ c e. length-grown_block garbage b.buffersize (len * 2) c) b.buffer v.long;
  }

  grown-IsValid :
      (garbage : A) (len : ℕ) (b : SampleBuffer A)
      → IsValid b
      → IsValid (grown garbage len b) × (len ≤ (grown garbage len b).reserved_samples)
  grown-IsValid garbage len b v = ground (arith, regrown-IsValid garbage len b v)

  get_elem?-grown_block :
      (garbage : A) (used reserved t : ℕ) (old : List A)
      → t < used
      → used ≤ length old
      → used ≤ reserved
      → get_elem? (grown_block garbage used reserved old) t ≡ get_elem? old t
  unfolding grown_block
  get_elem?-grown_block garbage used reserved t old h k l =
      let p = get_elem?-some old t (omega arith) in
      let r =
        get_elem?-some (replicate reserved garbage) t
          (omega (arith, length-replicate reserved garbage)) in
      ground (
        arith,
        p.1,
        r.1,
        get_elem?-combined (λ y x. x) used t old (replicate reserved garbage),
        length-replicate reserved garbage,
      )

  sample-regrown :
      (garbage : A) (len : ℕ) (b : SampleBuffer A)
      → IsValid b
      → b.reserved_samples < len
      → (q t : ℕ) → q < b.channel_count
      → t < b.buffersize
      → sample (regrown garbage len b) q t ≡ sample b q t
  sample-regrown garbage len b v l q t h k =
      let p = AllLong-get_elem? b.reserved_samples q b.buffer v.long (omega (arith, v.enough)) in
      ground (
        arith,
        v.fits,
        v.enough,
        p.1,
        p.2,
        get_elem?-grown_block garbage b.buffersize (len * 2) t p.0,
        get_elem?-mapped (grown_block garbage b.buffersize (len * 2)) 0 (length b.buffer) q
            b.buffer,
      )

  sample-grown :
      (garbage : A) (len : ℕ) (b : SampleBuffer A)
      → IsValid b
      → (q t : ℕ) → q < b.channel_count
      → t < b.buffersize
      → sample (grown garbage len b) q t ≡ sample b q t
  sample-grown garbage len b v q t h k =
      ground (arith, λ (l : b.reserved_samples < len). sample-regrown garbage len b v l q t h k)

  abbrev muted : A → ℕ → SampleBuffer A → SampleBuffer A
  muted silent len b =
      if ltb b.buffersize len
      then record b {
        buffer =
            mapped (filled silent b.buffersize (b.reserved_samples - b.buffersize)) 0
              (length b.buffer) b.buffer;
      }
      else b

  mute_added-muted :
      (garbage silent : A) (len : ℕ) (b : SampleBuffer A)
      → IsValid b
      → mute_added garbage silent len b ≡ some (muted silent len b)
  unfolding mute_added
  mute_added-muted garbage silent len b v =
      let n = b.reserved_samples - b.buffersize in
      ground (
        arith,
        on_channels-mapped (fill silent b.buffersize n) (filled silent b.buffersize n)
            b.reserved_samples
            (λ c e. fill-filled silent b.buffersize n c (λ l. omega (arith, v.fits))) 0
            (length b.buffer) b.buffer v.long (omega arith),
      )

  filled-IsValid :
      (silent : A) (len : ℕ) (b : SampleBuffer A)
      → IsValid b
      → len ≤ b.reserved_samples
      → IsValid (record b {
        buffersize = len;
        buffer =
            mapped
              (filled silent b.buffersize (b.reserved_samples - b.buffersize))
              0
              (length b.buffer)
              b.buffer;
      })
  filled-IsValid silent len b v h =
      let n = b.reserved_samples - b.buffersize in
      record {
        enough = omega (
          arith,
          v.enough,
          length-mapped (filled silent b.buffersize n) 0 (length b.buffer) b.buffer,
        );
        fits = h;
        long =
            mapped-AllLong _ b.reserved_samples 0 (length b.buffer)
              (λ c e. length-filled silent b.buffersize n c ∙ e) b.buffer v.long;
      }

  shortened-IsValid :
      (len : ℕ) (b : SampleBuffer A)
      → IsValid b
      → len ≤ b.reserved_samples
      → IsValid (record b { buffersize = len })
  shortened-IsValid len b v h = record { enough = v.enough; fits = h; long = v.long }

  muted-IsValid :
      (silent : A) (len : ℕ) (b : SampleBuffer A)
      → IsValid b
      → len ≤ b.reserved_samples
      → IsValid (record (muted silent len b) { buffersize = len })
  muted-IsValid silent len b v h =
      ground (arith, filled-IsValid silent len b v h, shortened-IsValid len b v h)

  sample-muted :
      (silent : A) (len : ℕ) (b : SampleBuffer A)
      → IsValid b
      → (q t : ℕ) → len ≤ b.reserved_samples
      → q < b.channel_count
      → t < len
      → sample (muted silent len b) q t ≡ (if ltb t b.buffersize then sample b q t else some silent)
  sample-muted silent len b v q t l h k =
      let p = AllLong-get_elem? b.reserved_samples q b.buffer v.long (omega (arith, v.enough)) in
      let n = b.reserved_samples - b.buffersize in
      ground (
        arith,
        v.fits,
        v.enough,
        p.1,
        p.2,
        get_elem?-filled silent b.buffersize n t p.0,
        get_elem?-mapped (filled silent b.buffersize n) 0 (length b.buffer) q b.buffer,
      )

  grown-counts :
      (garbage : A) (len : ℕ) (b : SampleBuffer A)
      → ((grown garbage len b).channel_count ≡ b.channel_count)
        × ((grown garbage len b).buffersize ≡ b.buffersize)
  grown-counts garbage len b = ground arith

  muted-count :
      (silent : A) (len : ℕ) (b : SampleBuffer A)
      → (muted silent len b).channel_count ≡ b.channel_count
  muted-count silent len b = ground arith

  -- What the change does to every sample, for use with other operations.
  pub length_in_samples-samples :
      (garbage silent : A) (len : ℕ) (b : SampleBuffer A)
      → IsValid b
      → (b' : SampleBuffer A) × (length_in_samples garbage silent len b ≡ some b')
        × IsValid b'
        × (b'.channel_count ≡ b.channel_count)
        × (b'.buffersize ≡ len)
        × ((q t : ℕ)
            → q < b.channel_count
            → t < len
            → sample b' q t ≡ (if ltb t b.buffersize then sample b q t else some silent))
  unfolding length_in_samples
  length_in_samples-samples garbage silent len b v =
      let g = grown garbage len b in
      let w = grown-IsValid garbage len b v in
      let n = grown-counts garbage len b in
      (
        record (muted silent len g) { buffersize = len },
        rw (grow-grown garbage silent len b v, mute_added-muted garbage silent len g w.0) refl,
        muted-IsValid silent len g w.0 w.1,
        muted-count silent len g ∙ n.0,
        refl,
        λ q t h k.
            sample-muted silent len g w.0 q t w.1 (rw n.0 h) k
            ∙ ground (arith, n.1, sample-grown garbage len b v q t h),
      )

  -- What `length_in_samples` does on any valid buffer, whatever newly allocated memory holds: it
  -- stays inside the blocks, leaves a valid buffer of that length with the same channels, keeps the
  -- samples below the old length, and silences those that are added.
  pub length_in_samples_lem :
      (garbage silent : A) (len : ℕ) (b : SampleBuffer A)
      → IsValid b
      → (q t : ℕ)
      → (b' : SampleBuffer A) × (length_in_samples garbage silent len b ≡ some b')
        × IsValid b'
        × (b'.channel_count ≡ b.channel_count)
        × (b'.buffersize ≡ len)
        × (used_sample b' q t ≡ (
            if ltb q b.channel_count && ltb t len
            then if ltb t b.buffersize then sample b q t else some silent
            else none))
  length_in_samples_lem garbage silent len b v q t =
      let p = length_in_samples-samples garbage silent len b v in
      (p.0, p.1, p.2, p.3, p.4, used_sample_lem p.0 b.channel_count len q t p.3 p.4 (p.5 q t))
