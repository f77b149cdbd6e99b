-- ===== src/SampleBuffer/Silence.antt =====
-- The operations of a SAMPLE_BUFFER that go over its channels: silencing, scaling and limiting.
use mathlib.Core.Option
use ecasound.Common.{
  ◌>>=◌, ℕ, zero, suc, ◌+◌, ◌-◌, ◌≤◌, ◌<◌, ◌≡◌, refl, sym, ◌∙◌, ap, ◌&&◌, List, [], ◌∷◌, Option,
  none, some, arith, ltb, leb, length, min, if◌then◌else◌,
}
use ecasound.SampleBuffer.{
  SampleBuffer, fill, each_sample, on_channels, with_channels, all_channels, one_channel,
  multiply_by_ref, multiply_channel_by_ref, multiply_from, multiply_by, make_silent_channel,
  silence_from, make_silent, make_silent_range, make_silent_range_ref,
}
use ecasound.SampleBuffer.Blocks.{
  filled, fill-filled, fill-outside, length-filled, get_elem?-filled, AllLong, mapped,
  on_channels-mapped, length-mapped, mapped-AllLong, get_elem?-mapped,
}
use ecasound.SampleBuffer.Size.{IsValid, sample, AllLong-get_elem?}

-- Sequencing depends on the results that occur.
bind_same :
    {B C : Type 0} (o : Option B) (f g : B → Option C)
    → ((x : B) → o ≡ some x → f x ≡ g x)
    → (o >>= f) ≡ (o >>= g)
bind_same none f g h = refl
bind_same (some x) f g h = h x refl

module _ {A : Type 0} where
  -- A loop over channels is the first of them, then the others.
  on_channels-one :
      (f : List A → Option (List A)) (s n : ℕ) (bs : List (List A))
      → on_channels f s (suc n) bs ≡ (on_channels f s 1 bs >>= on_channels f (suc s) n)
  unfolding on_channels
  on_channels-one f s n [] = refl
  on_channels-one f zero zero (b ∷ bs) = ground arith
  on_channels-one f zero (suc n) (b ∷ bs) = ground arith
  on_channels-one f (suc s) zero (b ∷ bs) = ground (arith, on_channels-one f s zero bs)
  on_channels-one f (suc s) (suc n) (b ∷ bs) = ground (arith, on_channels-one f s (suc n) bs)

  first_fails :
      (f : List A → Option (List A)) (r : ℕ)
      → ((b : List A) → length b ≡ r → f b ≡ none)
      → (n : ℕ) (bs : List (List A)) → AllLong r bs
      → 0 < n
      → n ≤ length bs
      → on_channels f 0 n bs ≡ none
  unfolding on_channels
  first_fails f r e zero bs a h k = absurd (omega arith)
  first_fails f r e (suc n) [] a h k = absurd (omega arith)
  first_fails f r e (suc n) (b ∷ bs) a h k = rw (e b a.0)

  map_after :
      (b : SampleBuffer A) (o : Option (List (List A))) (g : List (List A) → Option (List (List A)))
      → (Option.map (with_channels b) o >>= (λ b'. Option.map (with_channels b) (g b'.buffer)))
        ≡ Option.map (with_channels b) (o >>= g)
  map_after b none g = refl
  map_after b (some bs) g = refl

  one_channel-on_channels :
      (f : List A → Option (List A)) (n left : ℕ) (b : SampleBuffer A)
      → (one_channel f n b
          >>= (λ b'. Option.map (with_channels b) (on_channels f (suc n) left b'.buffer)))
        ≡ Option.map (with_channels b) (on_channels f n (suc left) b.buffer)
  unfolding one_channel
  one_channel-on_channels f n left b =
      map_after b (on_channels f n 1 b.buffer) (on_channels f (suc n) left)
      ∙ ap (Option.map (with_channels b)) (sym (on_channels-one f n left b.buffer))

  one_channel-sizes :
      (f : List A → Option (List A)) (n : ℕ) (b b' : SampleBuffer A)
      → one_channel f n b ≡ some b'
      → b' ≡ with_channels b b'.buffer
  unfolding one_channel
  one_channel-sizes f n b b' h = grind arith

  multiply_from-on_channels :
      (times : A → A → A) (factor : A) (n left : ℕ) (b : SampleBuffer A)
      → multiply_from times factor n left b
        ≡ Option.map
            (with_channels b)
            (on_channels (each_sample (λ y. times y factor) b.buffersize) n left b.buffer)
  unfolding multiply_from multiply_channel_by_ref on_channels
  multiply_from-on_channels times factor n zero b = refl
  multiply_from-on_channels times factor n (suc left) b =
      bind_same _ _ _ (λ b' e.
        multiply_from-on_channels times factor (suc n) left b'
        ∙ ap
            (λ (c : SampleBuffer A).
              Option.map (with_channels c) (
                on_channels (each_sample (λ y. times y factor) c.buffersize) (suc n) left
                  b'.buffer))
            (one_channel-sizes _ n b b' e))
      ∙ one_channel-on_channels (each_sample (λ y. times y factor) b.buffersize) n left b

  -- `multiply_by`, which scales channel by channel, and the plain version of it, which scales all
  -- channels in one pass, give the same on every buffer, also where they leave its memory.
  pub multiply_by-multiply_by_ref :
      (times : A → A → A) (factor : A) (b : SampleBuffer A)
      → multiply_by times factor b ≡ multiply_by_ref times factor b
  unfolding multiply_by multiply_by_ref all_channels
  multiply_by-multiply_by_ref times factor b =
      multiply_from-on_channels times factor 0 b.channel_count b

  silence_from-on_channels :
      (silent : A) (n left : ℕ) (b : SampleBuffer A)
      → silence_from silent n left b
        ≡ Option.map (with_channels b) (on_channels (fill silent 0 b.buffersize) n left b.buffer)
  unfolding silence_from make_silent_channel on_channels
  silence_from-on_channels silent n zero b = refl
  silence_from-on_channels silent n (suc left) b =
      bind_same _ _ _ (λ b' e.
        silence_from-on_channels silent (suc n) left b'
        ∙ ap
            (λ (c : SampleBuffer A).
              Option.map (with_channels c)
                (on_channels (fill silent 0 c.buffersize) (suc n) left b'.buffer))
            (one_channel-sizes _ n b b' e))
      ∙ one_channel-on_channels (fill silent 0 b.buffersize) n left b

  -- The buffer after the samples from `start` on, `n` of them, are silenced in all channels.
  abbrev hushed : A → ℕ → ℕ → SampleBuffer A → SampleBuffer A
  hushed silent start n b =
      with_channels b (mapped (filled silent start n) 0 b.channel_count b.buffer)

  fill-hushed :
      (silent : A) (start n : ℕ) (b : SampleBuffer A)
      → IsValid b
      → (0 < n → start + n ≤ b.reserved_samples)
      → Option.map (with_channels b) (on_channels (fill silent start n) 0 b.channel_count b.buffer)
        ≡ some (hushed silent start n b)
  fill-hushed silent start n b v h = rw (
      on_channels-mapped (fill silent start n) (filled silent start n) b.reserved_samples
        (λ c e. fill-filled silent start n c (λ l. rw e (h l))) 0 b.channel_count b.buffer v.long
        (omega (arith, v.enough)))

  hushed-IsValid :
      (silent : A) (start n : ℕ) (b : SampleBuffer A)
      → IsValid b
      → IsValid (hushed silent start n b)
  hushed-IsValid silent start n b v = record {
    enough =
        omega (arith, v.enough, length-mapped (filled silent start n) 0 b.channel_count b.buffer);
    fits = v.fits;
    long =
        mapped-AllLong _ b.reserved_samples 0 b.channel_count
          (λ c e. length-filled silent start n c ∙ e) b.buffer v.long;
  }

  sample-hushed :
      (silent : A) (start n : ℕ) (b : SampleBuffer A)
      → IsValid b
      → (q t : ℕ) → q < b.channel_count
      → t < b.reserved_samples
      → sample (hushed silent start n b) q t
        ≡ (if leb start t && ltb t (start + n) then some silent else sample b q t)
  sample-hushed silent start n b v q t h k =
      let p = AllLong-get_elem? b.reserved_samples q b.buffer v.long (omega (arith, v.enough)) in
      ground (
        arith,
        p.1,
        p.2,
        get_elem?-filled silent start n t p.0,
        get_elem?-mapped (filled silent start n) 0 b.channel_count q b.buffer,
      )

  -- `make_silent` stays inside a valid buffer, leaves it valid with the same channels and length,
  -- and makes every sample in use silent.
  pub make_silent_lem :
      (silent : A) (b : SampleBuffer A)
      → IsValid b
      → (q t : ℕ) → q < b.channel_count
      → t < b.buffersize
      → (b' : SampleBuffer A) × (make_silent silent b ≡ some b')
        × IsValid b'
        × (b'.channel_count ≡ b.channel_count)
        × (b'.buffersize ≡ b.buffersize)
        × (sample b' q t ≡ some silent)
  unfolding make_silent
  make_silent_lem silent b v q t h k =
      let s = b.buffersize in
      (
        hushed silent 0 s b,
        silence_from-on_channels silent 0 b.channel_count b
            ∙ fill-hushed silent 0 s b v (λ l. omega (arith, v.fits)),
        hushed-IsValid silent 0 s b v,
        refl,
        refl,
        ground (arith, v.fits, sample-hushed silent 0 s b v q t),
      )

  -- The plain version of the ranged silencing stays inside a valid buffer, leaves it valid, and
  -- silences the samples of the range that are in use and no others, reserved ones included.
  pub make_silent_range_ref_lem :
      (silent : A) (start_pos end_pos : ℕ) (b : SampleBuffer A)
      → IsValid b
      → (q t : ℕ) → q < b.channel_count
      → t < b.reserved_samples
      → (b' : SampleBuffer A) × (make_silent_range_ref silent start_pos end_pos b ≡ some b')
        × IsValid b'
        × (sample b' q t ≡ (
            if leb start_pos t && ltb t (min end_pos b.buffersize)
            then some silent
            else sample b q t))
  unfolding make_silent_range_ref all_channels
  make_silent_range_ref_lem silent start_pos end_pos b v q t h k =
      let n = min end_pos b.buffersize - start_pos in
      (
        hushed silent start_pos n b,
        fill-hushed silent start_pos n b v (λ l. omega (arith, v.fits)),
        hushed-IsValid silent start_pos n b v,
        sample-hushed silent start_pos n b v q t h k ∙ ground arith,
      )

  -- The optimised version of the ranged silencing silences as many samples from the start of the
  -- range on as there are from the start of the buffer to the end of the range: where the reserved
  -- memory has room for them, this is what it leaves.
  make_silent_range-inside :
      (silent : A) (start_pos end_pos : ℕ) (b : SampleBuffer A)
      → IsValid b
      → start_pos + min end_pos b.buffersize ≤ b.reserved_samples
      → (q t : ℕ) → q < b.channel_count
      → t < b.reserved_samples
      → (b' : SampleBuffer A) × (make_silent_range silent start_pos end_pos b ≡ some b')
        × (sample b' q t ≡ (
            if leb start_pos t && ltb t (start_pos + min end_pos b.buffersize)
            then some silent
            else sample b q t))
  unfolding make_silent_range all_channels
  make_silent_range-inside silent start_pos end_pos b v r q t h k =
      let n = min end_pos b.buffersize in
      (
        hushed silent start_pos n b,
        fill-hushed silent start_pos n b v (λ l. r),
        sample-hushed silent start_pos n b v q t h k,
      )

  -- The optimised version of the ranged silencing writes outside the memory of a valid buffer with a
  -- channel where the start of the range and the number of samples in use before its end, if not 0,
  -- are together more than the reserved samples, even if the range lies inside the buffer.
  pub make_silent_range-outside :
      (silent : A) (start_pos end_pos : ℕ) (b : SampleBuffer A)
      → IsValid b
      → 0 < b.channel_count
      → 0 < min end_pos b.buffersize
      → b.reserved_samples < start_pos + min end_pos b.buffersize
      → make_silent_range silent start_pos end_pos b ≡ none
  unfolding make_silent_range all_channels
  make_silent_range-outside silent start_pos end_pos b v c p o = rw (
      first_fails (fill silent start_pos (min end_pos b.buffersize)) b.reserved_samples
        (λ d e. fill-outside silent start_pos (min end_pos b.buffersize) d p (rw e o))
        b.channel_count b.buffer v.long c v.enough)
