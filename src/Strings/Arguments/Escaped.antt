-- ===== src/Strings/Arguments/Escaped.antt =====
-- A backslash before the last character of a formatted string.
use mathlib.Core.List.{append_assoc}
use ecasound.Common.{
  ℕ, suc, ◌-◌, ◌≡◌, refl, sym, ◌∙◌, true, [], ◌∷◌, ◌++◌, some, arith, length, length-append,
  get_elem?,
}
use ecasound.Strings.{String, quote, comma, backslash}
use ecasound.Strings.Arguments.{index_of, find_from, candidate, is_escaped, find_next_instance}
use ecasound.Strings.Arguments.Ends.{next_instance-stop, next_instance-escaped}
use ecasound.Strings.Arguments.Plain.{IsFree, index_of-free, index_of-missing}
use ecasound.Strings.Arguments.RoundTrip.{get_elem?-comma}

append-IsFree : (v : ℕ) (s t : String) → IsFree v s → IsFree v t → IsFree v (s ++ t)
append-IsFree v [] t a b = b
append-IsFree v (c ∷ s) t a b = (a.0, append-IsFree v s t a.1 b)

module _ (w : String) (q : IsFree quote w) (f : IsFree comma w) where
  abbrev text : String
  text = (w ++ backslash ∷ []) ++ comma ∷ []

  length-text : length text ≡ suc (suc (length w))
  length-text =
      omega
        (arith, length-append (w ++ backslash ∷ []) (comma ∷ []), length-append w (backslash ∷ []))

  first_comma : index_of comma text ≡ suc (length w)
  first_comma =
      index_of-free comma (w ++ backslash ∷ []) []
        (append-IsFree comma w (backslash ∷ []) f (refl, tt))
      ∙ omega (arith, length-append w (backslash ∷ []))

  no_quotes : index_of quote text ≡ suc (suc (length w))
  no_quotes =
      index_of-missing quote text (
        append-IsFree quote (w ++ backslash ∷ []) (comma ∷ [])
          (append-IsFree quote w (backslash ∷ []) q (refl, tt)) (refl, tt))
      ∙ length-text

  candidate-text : candidate text 0 comma ≡ suc (length w)
  unfolding candidate find_from
  candidate-text = ground (arith, first_comma, no_quotes)

  backslash_before : get_elem? text (length w) ≡ some backslash
  backslash_before =
      rw (append_assoc w (backslash ∷ []) (comma ∷ []))
        (get_elem?-comma [] w (comma ∷ []) backslash (length w) (omega arith))

  is_escaped-text : is_escaped text (suc (length w)) ≡ true
  unfolding is_escaped
  is_escaped-text =
      let e : suc (length w) - 1 ≡ length w = omega arith in
      ground (arith, length-text, e, backslash_before)

  found : find_next_instance text 0 comma ≡ some (suc (length w))
  unfolding find_next_instance
  found =
      next_instance-escaped (length text) text 0 (length text) comma
        (λ e. absurd (omega (arith, length-text))) (rw candidate-text is_escaped-text)
      ∙ rw (candidate-text, length-text)
          (next_instance-stop (suc (length w)) text (suc (suc (length w))) (suc (length w)) comma
            (sym length-text))

-- In a text without quotes and commas, followed by a backslash and a comma that ends the string,
-- that comma is found, although the backslash escapes it.
pub find_next_instance-escaped_last :
    (w : String)
    → IsFree quote w
    → IsFree comma w
    → find_next_instance ((w ++ backslash ∷ []) ++ comma ∷ []) 0 comma ≡ some (suc (length w))
find_next_instance-escaped_last w q f = found w q f
