-- ===== src/AudioFormat/Setters.antt =====
-- The setters that go through the format string, on every format and both byte orders.
use Prim.Native.String.{String}
use ecasound.Common.{
  ℕ, zero, ◌≡◌, ◌==◌, ◌&&◌, ◌||◌, refl, ◌≢◌, ◌↔◌, Bool, true, false, Option, none, arith, ltb, not,
  suc, sym, inl, inr, Bool-cases, if◌then◌else◌,
}
use ecasound.AudioFormat.{
  SampleFormat, sfmt_none, sfmt_u8, sfmt_s8, sfmt_s16, sfmt_s24, sfmt_s32, sfmt_f32, sfmt_f64,
  SampleCoding, sc_signed, sc_unsigned, sc_float, SampleEndianess, se_native, AudioFormat,
  format_string, sample_format, set_sample_format, set_sample_format_string, set_audio_format,
  set_sample_endianess, set_sample_coding, update_sample_endianess, string_to_sample_format,
}

-- Setting the format named by the object's own format string changes nothing, unless the format is
-- signed 8-bit.
set_sample_format_string-format_string :
    (big : Bool) (f : SampleFormat) (a : AudioFormat)
    → f ≢ sfmt_s8
    → set_sample_format_string big
        (format_string (set_sample_format big f a))
        (set_sample_format big f a)
      ≡ (set_sample_format big f a, none)
unfolding set_sample_format_string format_string set_sample_format string_to_sample_format
set_sample_format_string-format_string true sfmt_s8 a h = absurd (h refl)
set_sample_format_string-format_string true _ a h = refl
set_sample_format_string-format_string false sfmt_s8 a h = absurd (h refl)
set_sample_format_string-format_string false _ a h = refl

-- `set_audio_format` makes an object equal to its argument, unless that one's format is signed
-- 8-bit.
set_audio_format-set_sample_format :
    (big : Bool) (f : SampleFormat) (a b : AudioFormat)
    → f ≢ sfmt_s8
    → set_audio_format big (set_sample_format big f a) b ≡ set_sample_format big f a
unfolding set_audio_format sample_format set_sample_format
set_audio_format-set_sample_format true sfmt_s8 a b h = absurd (h refl)
set_audio_format-set_sample_format true _ a b h = refl
set_audio_format-set_sample_format false sfmt_s8 a b h = absurd (h refl)
set_audio_format-set_sample_format false _ a b h = refl

-- What `set_sample_endianess v` makes of `a`.
pub record Reordered (big : Bool) (v : SampleEndianess) (a : AudioFormat)
    (r : AudioFormat × Option String) : Type 0 where
  pub succeeds : r.1 ≡ none
  pub keeps_coding : r.0.sc ≡ a.sc
  pub keeps_align : r.0.align ≡ a.align
  pub sets_endianess :
      r.0.se ≡ (if ltb 1 a.align then (update_sample_endianess big v a).se else r.0.se)

-- On any format but signed 8-bit, `set_sample_endianess` succeeds, keeps the coding and the size,
-- and gives samples of more than a byte the byte order that was asked for.
pub set_sample_endianess-Reordered :
    (big : Bool) (v : SampleEndianess) (f : SampleFormat) (a : AudioFormat)
    → f ≢ sfmt_s8
    → Reordered big v
        (set_sample_format big f a)
        (set_sample_endianess big v (set_sample_format big f a))
unfolding set_sample_endianess set_sample_format format_string string_to_sample_format
set_sample_endianess-Reordered true se_native sfmt_s8 a h = absurd (h refl)
set_sample_endianess-Reordered false se_native sfmt_s8 a h = absurd (h refl)
set_sample_endianess-Reordered _ _ sfmt_s8 a h = absurd (h refl)
set_sample_endianess-Reordered _ _ _ a h = ground arith

-- The codings that exist at a size in bytes; a size of 0 stands for no format.
pub is_coded : SampleCoding → ℕ → Bool
is_coded v zero = true
is_coded sc_unsigned n = n == 1
is_coded sc_signed n = ltb n 5
is_coded sc_float n = (n == 4) || (n == 8)

is_coded-set_sample_format :
    (big : Bool) (f : SampleFormat) (a : AudioFormat)
    → let b = set_sample_format big f a in is_coded b.sc b.align ≡ true
unfolding is_coded set_sample_format
is_coded-set_sample_format big f a = ground arith

-- Each coding that exists at a size is that of a format.
is_coded-has_format :
    (big : Bool) (v : SampleCoding) (n : ℕ) (a : AudioFormat)
    → is_coded v (suc n) ≡ true
    → (f : SampleFormat) × ((set_sample_format big f a).sc ≡ v)
      × ((set_sample_format big f a).align ≡ suc n)
unfolding is_coded set_sample_format
is_coded-has_format big sc_unsigned zero a h = (sfmt_u8, refl, refl)
is_coded-has_format big sc_unsigned (suc n) a h = absurd (ground arith)
is_coded-has_format big sc_signed zero a h = (sfmt_s8, refl, refl)
is_coded-has_format big sc_signed (suc zero) a h = (sfmt_s16, refl, refl)
is_coded-has_format big sc_signed (suc (suc zero)) a h = (sfmt_s24, refl, refl)
is_coded-has_format big sc_signed (suc (suc (suc zero))) a h = (sfmt_s32, refl, refl)
is_coded-has_format big sc_signed (suc (suc (suc (suc n)))) a h = absurd (ground arith)
is_coded-has_format big sc_float n a h = elim (Bool-cases (suc n == 4)) [
  | inl four ↦ (sfmt_f32, refl, sym (ground arith))
  | inr other ↦ (sfmt_f64, refl, sym (ground arith))
]

is_signed : SampleCoding → Bool
is_signed sc_signed = true
is_signed _ = false

-- The codings at a size that `string_to_sample_format` knows: all that exist but signed 8-bit.
pub is_known : SampleCoding → ℕ → Bool
unfolding is_signed
is_known v n = is_coded v n && not (is_signed v && (n == 1))

-- What `set_sample_coding v` makes of `a`: it succeeds just where the format is known, and where it
-- throws the object keeps the new coding, and no longer reads back as a format.
pub record Recoded (v : SampleCoding) (a : AudioFormat) (r : AudioFormat × Option String)
    : Type 0 where
  pub succeeds : (r.1 ≡ none) ↔ (is_known v a.align ≡ true)
  pub keeps_align : r.0.align ≡ a.align
  pub sets_coding : r.0.sc ≡ (if ltb 0 a.align then v else sc_unsigned)
  pub lost : sample_format r.0 ≡ (if is_known v a.align then sample_format r.0 else sfmt_none)

-- On every format and on machines of either byte order, `set_sample_coding` succeeds just where the
-- coding exists at the size of the samples and is not signed 8-bit, a format that exists but that it
-- cannot set. It keeps the size, and sets the coding where there is a format, also where it throws:
-- there the object's format reads back as none.
pub set_sample_coding-Recoded :
    (big : Bool) (v : SampleCoding) (f : SampleFormat) (a : AudioFormat)
    → Recoded v (set_sample_format big f a) (set_sample_coding big v (set_sample_format big f a))
unfolding set_sample_coding set_sample_format format_string string_to_sample_format is_coded
    is_signed is_known sample_format
set_sample_coding-Recoded true sc_signed sfmt_s8 a = ground arith
set_sample_coding-Recoded true sc_unsigned sfmt_s8 a = ground arith
set_sample_coding-Recoded true sc_float sfmt_s8 a = ground arith
set_sample_coding-Recoded false sc_signed sfmt_s8 a = ground arith
set_sample_coding-Recoded false sc_unsigned sfmt_s8 a = ground arith
set_sample_coding-Recoded false sc_float sfmt_s8 a = ground arith
set_sample_coding-Recoded _ _ _ a = ground arith
