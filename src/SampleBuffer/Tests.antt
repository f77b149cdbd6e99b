-- ===== src/SampleBuffer/Tests.antt =====
-- Buffers of numbers, and the theorems about SAMPLE_BUFFER at concrete buffers. Newly allocated
-- memory holds 7 and silence is 0.
use ecasound.Common.{ℕ, ◌+◌, ◌≡◌, refl, [], ◌∷◌, some, arith}
use ecasound.SampleBuffer.{
  SampleBuffer, number_of_channels, length_in_samples, add_matching_channels, copy_all_content,
  copy_range,
}
use ecasound.SampleBuffer.Size.{IsValid, used_sample, number_of_channels_lem}
use ecasound.SampleBuffer.Length.{length_in_samples_lem}
use ecasound.SampleBuffer.Content.{add_matching_channels_lem, copy_all_content_lem}

-- Two channels of two samples each, with room for a third.
abbrev stereo : SampleBuffer ℕ
stereo = record {
  channel_count = 2;
  buffersize = 2;
  reserved_samples = 3;
  buffer = (1 ∷ 2 ∷ 9 ∷ []) ∷ (3 ∷ 4 ∷ 9 ∷ []) ∷ [];
  event_tags = 1;
}

-- One channel of three samples.
abbrev mono : SampleBuffer ℕ
mono = record {
  channel_count = 1;
  buffersize = 3;
  reserved_samples = 3;
  buffer = (10 ∷ 20 ∷ 30 ∷ []) ∷ [];
  event_tags = 0;
}

stereo-IsValid : IsValid stereo
stereo-IsValid = record { enough = omega arith; fits = omega arith; long = (refl, (refl, tt)) }

mono-IsValid : IsValid mono
mono-IsValid = record { enough = omega arith; fits = omega arith; long = (refl, tt) }

adds_mono :
    add_matching_channels 7 0 (λ y x. y + x) mono stereo
    ≡ some (record stereo { buffersize = 3; buffer = (11 ∷ 22 ∷ 30 ∷ []) ∷ (3 ∷ 4 ∷ 0 ∷ []) ∷ [] })
unfolding add_matching_channels
adds_mono = refl

grows_with_room :
    length_in_samples 7 0 4 mono
    ≡ some (record mono {
      buffersize = 4;
      reserved_samples = 8;
      buffer = (10 ∷ 20 ∷ 30 ∷ 0 ∷ 0 ∷ 0 ∷ 0 ∷ 0 ∷ []) ∷ [];
    })
unfolding length_in_samples
grows_with_room = refl

copies_the_end :
    copy_range mono 1 9 0 (record mono { buffer = (1 ∷ 2 ∷ 3 ∷ []) ∷ [] })
    ≡ some (record mono { buffer = (20 ∷ 30 ∷ 3 ∷ []) ∷ [] })
unfolding copy_range
copies_the_end = refl

number_of_channels_lem_example :
    (b' : SampleBuffer ℕ) × (number_of_channels 7 0 3 stereo ≡ some b')
    × IsValid b'
    × (b'.channel_count ≡ 3)
    × (b'.buffersize ≡ 2)
    × (used_sample b' 2 1 ≡ some 0)
number_of_channels_lem_example = number_of_channels_lem 7 0 3 stereo stereo-IsValid 2 1

length_in_samples_lem_example :
    (b' : SampleBuffer ℕ) × (length_in_samples 7 0 4 stereo ≡ some b')
    × IsValid b'
    × (b'.channel_count ≡ 2)
    × (b'.buffersize ≡ 4)
    × (used_sample b' 1 1 ≡ some 4)
length_in_samples_lem_example = length_in_samples_lem 7 0 4 stereo stereo-IsValid 1 1

add_matching_channels_lem_example :
    (b' : SampleBuffer ℕ) × (add_matching_channels 7 0 (λ y x. y + x) mono stereo ≡ some b')
    × IsValid b'
    × (b'.channel_count ≡ 2)
    × (b'.buffersize ≡ 3)
    × (used_sample b' 0 1 ≡ some 22)
add_matching_channels_lem_example =
    add_matching_channels_lem 7 0 (λ y x. y + x) mono stereo mono-IsValid stereo-IsValid 0 1

copy_all_content_lem_example :
    (b' : SampleBuffer ℕ) × (copy_all_content 7 0 stereo mono ≡ some b')
    × IsValid b'
    × (b'.channel_count ≡ 2)
    × (b'.buffersize ≡ 2)
    × (b'.event_tags ≡ 1)
    × (used_sample b' 1 1 ≡ some 4)
copy_all_content_lem_example = copy_all_content_lem 7 0 stereo mono stereo-IsValid mono-IsValid 1 1
