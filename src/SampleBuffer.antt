-- ===== src/SampleBuffer.antt =====
-- libecasound/samplebuffer.cpp: SAMPLE_BUFFER, its channels, its length and the operations on whole
-- buffers, without liboil. A channel is a block of allocated memory; a read or a write outside a
-- block, or of a channel that is not there, is `none`. Samples are of any type `A`, with the
-- arithmetic that an operation uses as an argument: they are floats in the program.
pub mod Blocks
pub mod Size
pub mod Length
pub mod Silence
pub mod Content
mod Tests
use mathlib.Core.Option
use ecasound.Common.{
  ◌>>=◌, ℕ, zero, suc, ◌+◌, ◌-◌, ◌*◌, Bool, List, [], ◌∷◌, ◌++◌, Option, none, some, min, ltb,
  length, get_elem?, replicate, if◌then◌else◌,
}

-- The data of SAMPLE_BUFFER, with the event tags and the reference count of SAMPLE_BUFFER_impl.
-- Channels from `channel_count` on are kept for later, and so are samples from `buffersize` on.
pub record SampleBuffer (A : Type 0) : Type 0 where
  pub channel_count : ℕ
  pub buffersize : ℕ
  pub reserved_samples : ℕ
  pub buffer : List (List A)
  pub event_tags : ℕ

module _ {A : Type 0} where
  -- The loop `for(m = start; m < start + n; m++) block[m] = v`, or `memset` for a zero `v`.
  pub fill : A → ℕ → ℕ → List A → Option (List A)
  fill v start zero block = some block
  fill v start (suc n) [] = none
  fill v zero (suc n) (x ∷ block) = do rest ← fill v zero n block; some (v ∷ rest)
  fill v (suc start) (suc n) (x ∷ block) = do rest ← fill v start (suc n) block; some (x ∷ rest)

  -- The loop `for(t = 0; t < n; t++) block[t] = f(block[t], source[t])`, or `memcpy`.
  pub combine : (A → A → A) → ℕ → List A → List A → Option (List A)
  combine f zero source block = some block
  combine f (suc n) [] block = none
  combine f (suc n) (x ∷ source) [] = none
  combine f (suc n) (x ∷ source) (y ∷ block) = do
    rest ← combine f n source block
    some (f y x ∷ rest)

  -- The loop `for(m = 0; m < n; m++) block[m] = f(block[m])`.
  pub each_sample : (A → A) → ℕ → List A → Option (List A)
  each_sample f zero block = some block
  each_sample f (suc n) [] = none
  each_sample f (suc n) (y ∷ block) = do rest ← each_sample f n block; some (f y ∷ rest)

  -- A loop over the `n` channels from `start` on.
  pub on_channels : (List A → Option (List A)) → ℕ → ℕ → List (List A) → Option (List (List A))
  on_channels f start zero channels = some channels
  on_channels f start (suc n) [] = none
  on_channels f zero (suc n) (b ∷ channels) = do
    b' ← f b
    rest ← on_channels f zero n channels
    some (b' ∷ rest)
  on_channels f (suc start) (suc n) (b ∷ channels) = do
    rest ← on_channels f start (suc n) channels
    some (b ∷ rest)

  -- A loop over the first `n` channels of two buffers.
  pub on_matching :
      (List A → List A → Option (List A))
      → ℕ
      → List (List A)
      → List (List A)
      → Option (List (List A))
  on_matching f zero xs ys = some ys
  on_matching f (suc n) [] ys = none
  on_matching f (suc n) (x ∷ xs) [] = none
  on_matching f (suc n) (x ∷ xs) (y ∷ ys) = do
    b ← f x y
    rest ← on_matching f n xs ys
    some (b ∷ rest)

  abbrev with_channels : SampleBuffer A → List (List A) → SampleBuffer A
  with_channels b channels = record b { buffer = channels }

  -- The channels in use, each through a loop over its samples.
  all_channels : (List A → Option (List A)) → SampleBuffer A → Option (SampleBuffer A)
  unfolding on_channels
  all_channels f b = Option.map (with_channels b) (on_channels f 0 b.channel_count b.buffer)

  one_channel : (List A → Option (List A)) → ℕ → SampleBuffer A → Option (SampleBuffer A)
  unfolding on_channels
  one_channel f channel b = Option.map (with_channels b) (on_channels f channel 1 b.buffer)

  -- The loops of the operations below over the channels that both buffers have.
  matching : (A → A → A) → ℕ → SampleBuffer A → SampleBuffer A → Option (SampleBuffer A)
  unfolding on_matching combine
  matching f n x b =
      Option.map (with_channels b)
        (on_matching (combine f n) (min b.channel_count x.channel_count) x.buffer b.buffer)

  pub multiply_by_ref : (A → A → A) → A → SampleBuffer A → Option (SampleBuffer A)
  unfolding all_channels each_sample
  multiply_by_ref times factor b = all_channels (each_sample (λ y. times y factor) b.buffersize) b

  pub multiply_channel_by_ref : (A → A → A) → A → ℕ → SampleBuffer A → Option (SampleBuffer A)
  unfolding one_channel each_sample
  multiply_channel_by_ref times factor channel b =
      one_channel (each_sample (λ y. times y factor) b.buffersize) channel b

  -- The loop of `multiply_by` from channel `n` on, with `left` channels to go.
  multiply_from : (A → A → A) → A → ℕ → ℕ → SampleBuffer A → Option (SampleBuffer A)
  unfolding multiply_channel_by_ref
  multiply_from times factor n zero b = some b
  multiply_from times factor n (suc left) b = do
    b' ← multiply_channel_by_ref times factor n b
    multiply_from times factor (suc n) left b'

  pub multiply_by : (A → A → A) → A → SampleBuffer A → Option (SampleBuffer A)
  unfolding multiply_from
  multiply_by times factor b = multiply_from times factor 0 b.channel_count b

  clip : (A → A → Bool) → A → A → A → A
  clip less lowest highest y =
      if less highest y then highest else if less y lowest then lowest else y

  pub limit_values : (A → A → Bool) → A → A → SampleBuffer A → Option (SampleBuffer A)
  unfolding all_channels each_sample clip
  limit_values less lowest highest b =
      all_channels (each_sample (clip less lowest highest) b.buffersize) b

module _ {A : Type 0} where
  -- The loop of `copy_range` over one channel, `n` samples long: `src_i` and `dst_i` are the
  -- positions in the source and in the block that is written.
  copy_run : ℕ → ℕ → ℕ → List A → List A → Option (List A)
  unfolding fill
  copy_run src_i dst_i zero source block = some block
  copy_run src_i dst_i (suc n) source block = do
    x ← get_elem? source src_i
    block' ← fill x dst_i 1 block
    copy_run (suc src_i) (suc dst_i) n source block'

  -- The samples are copied while below the end of the range, that of the source and that of the
  -- buffer.
  pub copy_range :
      SampleBuffer A
      → (src_start_pos src_end_pos dst_to_pos : ℕ) → SampleBuffer A
      → Option (SampleBuffer A)
  unfolding on_matching copy_run
  copy_range src src_start_pos src_end_pos dst_to_pos b =
      let stop = if ltb src.buffersize src_end_pos then src.buffersize else src_end_pos in
      let n = min (stop - src_start_pos) (b.buffersize - dst_to_pos) in
      Option.map (with_channels b)
        (on_matching (copy_run src_start_pos dst_to_pos n) b.channel_count src.buffer b.buffer)

-- `silent` is SAMPLE_SPECS::silent_value.
module _ {A : Type 0} (silent : A) where
  pub make_silent_channel : ℕ → SampleBuffer A → Option (SampleBuffer A)
  unfolding one_channel fill
  make_silent_channel channel b = one_channel (fill silent 0 b.buffersize) channel b

  -- The loop of `make_silent` from channel `n` on, with `left` channels to go.
  silence_from : ℕ → ℕ → SampleBuffer A → Option (SampleBuffer A)
  unfolding make_silent_channel
  silence_from n zero b = some b
  silence_from n (suc left) b = do b' ← make_silent_channel n b; silence_from (suc n) left b'

  pub make_silent : SampleBuffer A → Option (SampleBuffer A)
  unfolding silence_from
  make_silent b = silence_from 0 b.channel_count b

  -- `memset(buffer[n] + start_pos, 0, min(end_pos, buffersize) samples)`.
  pub make_silent_range : ℕ → ℕ → SampleBuffer A → Option (SampleBuffer A)
  unfolding all_channels fill
  make_silent_range start_pos end_pos b =
      all_channels (fill silent start_pos (min end_pos b.buffersize)) b

  -- The loop runs from `start_pos` while below both ends.
  pub make_silent_range_ref : ℕ → ℕ → SampleBuffer A → Option (SampleBuffer A)
  unfolding all_channels fill
  make_silent_range_ref start_pos end_pos b =
      all_channels (fill silent start_pos (min end_pos b.buffersize - start_pos)) b

-- `garbage` stands for what newly allocated memory holds.
module _ {A : Type 0} (garbage silent : A) where
  priv_alloc_sample_buf : ℕ → List A
  priv_alloc_sample_buf n = replicate n garbage

  -- The channels, made to be at least `len`.
  resize_channels : ℕ → SampleBuffer A → List (List A)
  unfolding priv_alloc_sample_buf
  resize_channels len b =
      b.buffer ++ replicate (len - length b.buffer) (priv_alloc_sample_buf b.reserved_samples)

  pub number_of_channels : ℕ → SampleBuffer A → Option (SampleBuffer A)
  unfolding resize_channels on_channels fill
  number_of_channels len b =
      Option.map (λ channels. record b { buffer = channels; channel_count = len })
        (on_channels (fill silent 0 b.reserved_samples) b.channel_count (len - b.channel_count)
          (resize_channels len b))

  -- A block of the new size, with the samples in use copied from the old one.
  grow_block : ℕ → ℕ → List A → Option (List A)
  unfolding priv_alloc_sample_buf combine
  grow_block used reserved old = combine (λ y x. x) used old (priv_alloc_sample_buf reserved)

  grow : ℕ → SampleBuffer A → Option (SampleBuffer A)
  unfolding grow_block on_channels
  grow len b =
      if ltb b.reserved_samples len
      then Option.map (λ channels. record b { buffer = channels; reserved_samples = len * 2 })
          (on_channels (grow_block b.buffersize (len * 2)) 0 (length b.buffer) b.buffer)
      else some b

  mute_added : ℕ → SampleBuffer A → Option (SampleBuffer A)
  unfolding on_channels fill
  mute_added len b =
      if ltb b.buffersize len
      then Option.map (with_channels b) (
          on_channels (fill silent b.buffersize (b.reserved_samples - b.buffersize)) 0
            (length b.buffer) b.buffer)
      else some b

  pub length_in_samples : ℕ → SampleBuffer A → Option (SampleBuffer A)
  unfolding grow mute_added
  length_in_samples len b = do
    b' ← grow len b
    b'' ← mute_added len b'
    some (record b'' { buffersize = len })

  -- The constructor: blocks are allocated, and the samples in use muted.
  pub create : ℕ → ℕ → Option (SampleBuffer A)
  unfolding make_silent priv_alloc_sample_buf
  create buffersize channels = make_silent silent (record {
    channel_count = channels;
    buffersize = buffersize;
    reserved_samples = buffersize;
    buffer = replicate channels (priv_alloc_sample_buf buffersize);
    event_tags = 0;
  })

  pub make_empty : SampleBuffer A → Option (SampleBuffer A)
  unfolding length_in_samples
  make_empty = length_in_samples 0

  pub reserve_channels : ℕ → SampleBuffer A → Option (SampleBuffer A)
  unfolding number_of_channels
  reserve_channels num b = do b' ← number_of_channels num b; number_of_channels b.channel_count b'

  pub reserve_length_in_samples : ℕ → SampleBuffer A → Option (SampleBuffer A)
  unfolding length_in_samples
  reserve_length_in_samples len b = do
    b' ← length_in_samples len b
    length_in_samples b.buffersize b'

  -- The length grows to that of `x` if it is shorter.
  extend_to : SampleBuffer A → SampleBuffer A → Option (SampleBuffer A)
  unfolding length_in_samples
  extend_to x b = if ltb b.buffersize x.buffersize then length_in_samples x.buffersize b else some b

  pub add_matching_channels :
      (A → A → A) → SampleBuffer A → SampleBuffer A → Option (SampleBuffer A)
  unfolding extend_to matching
  add_matching_channels plus x b = do b' ← extend_to x b; matching plus x.buffersize x b'

  -- `shrink` is the division by the weight.
  pub add_with_weight :
      (A → A → A) → (A → A) → SampleBuffer A → SampleBuffer A → Option (SampleBuffer A)
  unfolding extend_to matching
  add_with_weight plus shrink x b = do
    b' ← extend_to x b
    matching (λ y s. plus y (shrink s)) x.buffersize x b'

  pub copy_matching_channels : SampleBuffer A → SampleBuffer A → Option (SampleBuffer A)
  unfolding length_in_samples matching
  copy_matching_channels x b = do
    b' ← length_in_samples x.buffersize b
    matching (λ y s. s) b'.buffersize x b'

  pub copy_all_content : SampleBuffer A → SampleBuffer A → Option (SampleBuffer A)
  unfolding length_in_samples number_of_channels matching
  copy_all_content x b = do
    b' ← length_in_samples x.buffersize b
    b'' ← number_of_channels x.channel_count b'
    c ← matching (λ y s. s) b''.buffersize x b''
    some (record c { event_tags = x.event_tags })
