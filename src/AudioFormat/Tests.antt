-- ===== src/AudioFormat/Tests.antt =====
-- Runs of ECA_AUDIO_FORMAT, and the theorems at concrete formats.
use ecasound.Common.{◌≡◌, refl, true, false, some}
use ecasound.Common.Int.{pos}
use ecasound.AudioFormat.{
  sfmt_s8, sfmt_s16, sfmt_s24, sfmt_s24_be, sfmt_f64, sc_signed, sc_float, se_big, se_little,
  AudioFormat, eca_error, kvu_numtostr, string_to_sample_format, format_string, sample_format,
  set_sample_format, set_sample_format_string, set_sample_endianess, set_sample_coding, create,
  create_default,
}
use ecasound.AudioFormat.Canonical.{canonical, sample_format-set_sample_format}
use ecasound.AudioFormat.Setters.{
  Reordered, set_sample_endianess-Reordered, Recoded, set_sample_coding-Recoded,
}

abbrev blank : AudioFormat
blank = record {
  ileaved = true;
  channels = pos 2;
  align = 0;
  sc = sc_signed;
  se = se_little;
  srate = pos 44100;
}

digits : kvu_numtostr 4096 ≡ "4096"
unfolding kvu_numtostr
digits = refl

unknown : string_to_sample_format "u16" ≡ eca_error "Unknown sample format \"u16\"."
unfolding string_to_sample_format
unknown = refl

default_format : format_string (create_default false blank) ≡ "none"
unfolding create_default format_string
default_format = refl

big_float : format_string (create true (pos 2) (pos 48000) sfmt_f64 true blank) ≡ "f64_be"
unfolding create format_string
big_float = refl

-- The supported signed 8-bit format is lost on the way through its string.
signed_byte :
    set_sample_format_string false (format_string (set_sample_format false sfmt_s8 blank)) blank
    ≡ (blank, some "Unknown sample format \"s8\".")
unfolding set_sample_format_string format_string set_sample_format string_to_sample_format
signed_byte = refl

sample_format-set_sample_format_example :
    sample_format (set_sample_format true sfmt_s24 blank) ≡ sfmt_s24_be
unfolding canonical
sample_format-set_sample_format_example = sample_format-set_sample_format true sfmt_s24 blank

set_sample_endianess-Reordered_example :
    Reordered false se_big
      (set_sample_format false sfmt_s16 blank)
      (set_sample_endianess false se_big (set_sample_format false sfmt_s16 blank))
set_sample_endianess-Reordered_example =
    set_sample_endianess-Reordered false se_big sfmt_s16 blank (λ e. cc)

set_sample_coding-Recoded_example :
    Recoded sc_float
      (set_sample_format false sfmt_s16 blank)
      (set_sample_coding false sc_float (set_sample_format false sfmt_s16 blank))
set_sample_coding-Recoded_example = set_sample_coding-Recoded false sc_float sfmt_s16 blank
