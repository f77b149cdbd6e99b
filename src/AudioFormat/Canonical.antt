-- ===== src/AudioFormat/Canonical.antt =====
-- The formats that survive the way through their strings: all but signed 8-bit, which
-- `format_string` writes as "s8" and `string_to_sample_format` does not know.
use ecasound.Common.{◌≡◌, refl, Bool, true, false, if◌then◌else◌}
use ecasound.AudioFormat.{
  SampleFormat, sfmt_none, sfmt_s8, sfmt_s16, sfmt_s16_le, sfmt_s16_be, sfmt_s24, sfmt_s24_le,
  sfmt_s24_be, sfmt_s32, sfmt_s32_le, sfmt_s32_be, sfmt_f32, sfmt_f32_le, sfmt_f32_be, sfmt_f64,
  sfmt_f64_le, sfmt_f64_be, AudioFormat, sample_format, set_sample_format, audio_format,
}

-- The explicit name of a format: native byte order is written out, and signed 8-bit is lost.
unfoldable pub canonical : Bool → SampleFormat → SampleFormat
canonical big sfmt_s8 = sfmt_none
canonical big sfmt_s16 = if big then sfmt_s16_be else sfmt_s16_le
canonical big sfmt_s24 = if big then sfmt_s24_be else sfmt_s24_le
canonical big sfmt_s32 = if big then sfmt_s32_be else sfmt_s32_le
canonical big sfmt_f32 = if big then sfmt_f32_be else sfmt_f32_le
canonical big sfmt_f64 = if big then sfmt_f64_be else sfmt_f64_le
canonical big f = f

-- After `set_sample_format f`, `sample_format` answers the explicit name of `f`, on machines of
-- either byte order; after signed 8-bit it answers that there is no format.
pub sample_format-set_sample_format :
    (big : Bool) (f : SampleFormat) (a : AudioFormat)
    → sample_format (set_sample_format big f a) ≡ canonical big f
unfolding sample_format set_sample_format canonical
sample_format-set_sample_format true sfmt_none a = refl
sample_format-set_sample_format true _ a = refl
sample_format-set_sample_format false sfmt_none a = refl
sample_format-set_sample_format false _ a = refl

-- A copy by `audio_format`, whatever memory `fresh` it is built in, has every field of the original,
-- unless the format is signed 8-bit: then the copy has no format.
pub audio_format-set_sample_format :
    (big : Bool) (f : SampleFormat) (fresh a : AudioFormat)
    → audio_format big fresh (set_sample_format big f a) ≡ set_sample_format big (canonical big f) a
unfolding audio_format sample_format set_sample_format canonical
audio_format-set_sample_format true sfmt_none fresh a = refl
audio_format-set_sample_format true _ fresh a = refl
audio_format-set_sample_format false sfmt_none fresh a = refl
audio_format-set_sample_format false _ fresh a = refl
