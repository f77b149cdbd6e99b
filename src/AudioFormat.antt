-- ===== src/AudioFormat.antt =====
-- libecasound/eca-audio-format.cpp and .h: ECA_AUDIO_FORMAT, the coding, size and byte order of
-- samples, and the strings that name them. A method that can throw returns the object as the throw
-- leaves it, beside the error. `words_bigendian` is the build's WORDS_BIGENDIAN.
pub mod Canonical
pub mod Setters
mod Tests
use Prim.Native.String.{String, ◌++◌, slice}
use text.Mathlib.Text.{◌==◌ as str_eq}
use ecasound.Common.{
  ℕ, zero, suc, ◌+◌, ◌*◌, ◌/◌, ◌%◌, Bool, true, false, Option, none, some, ltb, if◌then◌else◌,
}
use ecasound.Common.Int.{ℤ, pos, negsuc}

pub data SampleFormat : Type 0 where
  sfmt_none sfmt_u8 sfmt_s8 : SampleFormat
  sfmt_s16 sfmt_s16_le sfmt_s16_be : SampleFormat
  sfmt_s24 sfmt_s24_le sfmt_s24_be : SampleFormat
  sfmt_s32 sfmt_s32_le sfmt_s32_be : SampleFormat
  sfmt_f32 sfmt_f32_le sfmt_f32_be : SampleFormat
  sfmt_f64 sfmt_f64_le sfmt_f64_be : SampleFormat

pub data SampleEndianess : Type 0 where
  se_native se_big se_little : SampleEndianess

pub data SampleCoding : Type 0 where
  sc_signed sc_unsigned sc_float : SampleCoding

-- With the sampling rate of the base class ECA_SAMPLERATE_AWARE.
pub record AudioFormat : Type 0 where
  pub ileaved : Bool
  pub channels : ℤ
  pub align : ℕ
  pub sc : SampleCoding
  pub se : SampleEndianess
  pub srate : ℤ

pub data Parsed : Type 0 where
  ok : SampleFormat → Parsed
  eca_error : String → Parsed

digit : ℕ → String
digit d = slice "0123456789" d (d + 1)

decimal : ℕ → ℕ → String
decimal zero n = ""
decimal (suc fuel) n =
    let higher = decimal fuel (n / 10) in (if ltb n 10 then "" else higher) ++ digit (n % 10)

-- `kvu_numtostr` of an `int` that is not negative; a number has no more digits than it counts.
pub kvu_numtostr : ℕ → String
unfolding digit decimal
kvu_numtostr n = decimal (suc n) n

pub string_to_sample_format : String → Parsed
string_to_sample_format str =
    if str_eq str "u8"
    then ok sfmt_u8
    else if str_eq str "s16"
    then ok sfmt_s16
    else if str_eq str "s16_le"
    then ok sfmt_s16_le
    else if str_eq str "s16_be"
    then ok sfmt_s16_be
    else if str_eq str "s24"
    then ok sfmt_s24
    else if str_eq str "s24_le"
    then ok sfmt_s24_le
    else if str_eq str "s24_be"
    then ok sfmt_s24_be
    else if str_eq str "s32"
    then ok sfmt_s32
    else if str_eq str "s32_le"
    then ok sfmt_s32_le
    else if str_eq str "s32_be"
    then ok sfmt_s32_be
    else if str_eq str "f32"
    then ok sfmt_f32
    else if str_eq str "f32_le"
    then ok sfmt_f32_le
    else if str_eq str "f32_be"
    then ok sfmt_f32_be
    else if str_eq str "f64"
    then ok sfmt_f64
    else if str_eq str "f64_le"
    then ok sfmt_f64_le
    else if str_eq str "f64_be"
    then ok sfmt_f64_be
    else if str_eq str "8"
    then ok sfmt_u8
    else if str_eq str "16"
    then ok sfmt_s16
    else if str_eq str "24"
    then ok sfmt_s24
    else if str_eq str "32"
    then ok sfmt_s32
    else if str_eq str "none"
    then ok sfmt_none
    else eca_error ("Unknown sample format \"" ++ str ++ "\".")

coding_letter : SampleCoding → String
coding_letter sc_unsigned = "u"
coding_letter sc_signed = "s"
coding_letter sc_float = "f"

endianess_suffix : SampleEndianess → String
endianess_suffix se_little = "_le"
endianess_suffix _ = "_be"

pub bits : AudioFormat → ℕ
bits a = a.align * 8

pub format_string : AudioFormat → String
unfolding coding_letter endianess_suffix bits kvu_numtostr
format_string a =
    if ltb 0 a.align
    then (coding_letter a.sc ++ kvu_numtostr (bits a))
      ++ (if ltb 1 a.align then endianess_suffix a.se else "")
    else "none"

caught : Parsed → SampleFormat
caught (ok format) = format
caught (eca_error m) = sfmt_none

-- `sample_format`: an error of the parser is caught, and reads as no format.
pub sample_format : AudioFormat → SampleFormat
unfolding caught string_to_sample_format format_string
sample_format a = caught (string_to_sample_format (format_string a))

pub set_channels : ℤ → AudioFormat → AudioFormat
set_channels v a = record a { channels = v }

pub toggle_interleaved_channels : Bool → AudioFormat → AudioFormat
toggle_interleaved_channels v a = record a { ileaved = v }

pub set_samples_per_second : ℤ → AudioFormat → AudioFormat
set_samples_per_second v a = record a { srate = v }

module _ (words_bigendian : Bool) where
  native_endianess : SampleEndianess
  native_endianess = if words_bigendian then se_big else se_little

  expand_endianess : SampleEndianess → SampleEndianess
  unfolding native_endianess
  expand_endianess se_native = native_endianess
  expand_endianess se_big = se_big
  expand_endianess se_little = se_little

  pub update_sample_endianess : SampleEndianess → AudioFormat → AudioFormat
  unfolding expand_endianess
  update_sample_endianess v a = record a { se = expand_endianess v }

  -- The three assignments of each case of `set_sample_format`.
  set_sample_layout : SampleCoding → SampleEndianess → ℕ → AudioFormat → AudioFormat
  unfolding update_sample_endianess
  set_sample_layout coding endianess size a = record (update_sample_endianess endianess a) {
    sc = coding;
    align = size;
  }

  pub set_sample_format : SampleFormat → AudioFormat → AudioFormat
  unfolding set_sample_layout
  set_sample_format sfmt_none = set_sample_layout sc_unsigned se_native 0
  set_sample_format sfmt_u8 = set_sample_layout sc_unsigned se_native 1
  set_sample_format sfmt_s8 = set_sample_layout sc_signed se_native 1
  set_sample_format sfmt_s16 = set_sample_layout sc_signed se_native 2
  set_sample_format sfmt_s16_le = set_sample_layout sc_signed se_little 2
  set_sample_format sfmt_s16_be = set_sample_layout sc_signed se_big 2
  set_sample_format sfmt_s24 = set_sample_layout sc_signed se_native 3
  set_sample_format sfmt_s24_le = set_sample_layout sc_signed se_little 3
  set_sample_format sfmt_s24_be = set_sample_layout sc_signed se_big 3
  set_sample_format sfmt_s32 = set_sample_layout sc_signed se_native 4
  set_sample_format sfmt_s32_le = set_sample_layout sc_signed se_little 4
  set_sample_format sfmt_s32_be = set_sample_layout sc_signed se_big 4
  set_sample_format sfmt_f32 = set_sample_layout sc_float se_native 4
  set_sample_format sfmt_f32_le = set_sample_layout sc_float se_little 4
  set_sample_format sfmt_f32_be = set_sample_layout sc_float se_big 4
  set_sample_format sfmt_f64 = set_sample_layout sc_float se_native 8
  set_sample_format sfmt_f64_le = set_sample_layout sc_float se_little 8
  set_sample_format sfmt_f64_be = set_sample_layout sc_float se_big 8

  set_parsed : Parsed → AudioFormat → AudioFormat × Option String
  set_parsed (ok format) a = (set_sample_format format a, none)
  set_parsed (eca_error m) a = (a, some m)

  pub set_sample_format_string : String → AudioFormat → AudioFormat × Option String
  unfolding set_parsed
  set_sample_format_string f_str a = set_parsed (string_to_sample_format f_str) a

  pub set_sample_endianess : SampleEndianess → AudioFormat → AudioFormat × Option String
  unfolding set_sample_format_string
  set_sample_endianess v a =
      let b = update_sample_endianess v a in set_sample_format_string (format_string b) b

  pub set_sample_coding : SampleCoding → AudioFormat → AudioFormat × Option String
  unfolding set_sample_format_string
  set_sample_coding v a =
      let b : AudioFormat = record a { sc = v } in set_sample_format_string (format_string b) b

  -- The fields start out indeterminate, as those of `a`; the constructor sets them all.
  pub create : ℤ → ℤ → SampleFormat → Bool → AudioFormat → AudioFormat
  unfolding toggle_interleaved_channels set_sample_format set_samples_per_second set_channels
  create ch rate format ileaved a =
      toggle_interleaved_channels ileaved
        (set_sample_format format (set_samples_per_second rate (set_channels ch a)))

  pub create_default : AudioFormat → AudioFormat
  unfolding create
  create_default = create (pos 0) (negsuc 0) sfmt_none true

  pub audio_format : AudioFormat → AudioFormat → AudioFormat
  unfolding create
  audio_format fresh a = create a.channels a.srate (sample_format a) a.ileaved fresh

  pub set_audio_format : AudioFormat → AudioFormat → AudioFormat
  unfolding toggle_interleaved_channels set_sample_format set_samples_per_second set_channels
  set_audio_format f a = toggle_interleaved_channels f.ileaved (
      set_samples_per_second f.srate
        (set_sample_format (sample_format f) (set_channels f.channels a)))
