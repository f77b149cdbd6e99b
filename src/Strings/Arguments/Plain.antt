-- ===== src/Strings/Arguments/Plain.antt =====
-- Searches in strings without quotes and backslashes, and what they leave of one argument.
use ecasound.Common.{
  ℕ, zero, suc, ◌+◌, ◌-◌, ◌≤◌, ◌<◌, ◌≡◌, refl, ◌∙◌, ap, false, [], ◌∷◌, ◌++◌, none, some, ◌==◌,
  ==_eq, arith, take, drop, length, length-drop, get_elem?,
}
use ecasound.Strings.{String, quote, comma, colon, backslash}
use ecasound.Strings.Arguments.{
  index_of, find_from, candidate, is_char_at, is_escaped, find_next_instance, find_escape,
  strip_loop, strip_escapes, string_strip_outer_quotes, argument,
}
use ecasound.Strings.Arguments.Ends.{find_from-le, next_instance-found}

-- No quote and no backslash.
abbrev pub IsUnquoted : String → Type 0
IsUnquoted [] = Unit
IsUnquoted (c ∷ s) = ((c == quote) ≡ false) × ((c == backslash) ≡ false) × IsUnquoted s

abbrev pub IsFree : ℕ → String → Type 0
IsFree value [] = Unit
IsFree value (c ∷ s) = ((c == value) ≡ false) × IsFree value s

pub append-IsUnquoted : (s t : String) → IsUnquoted s → IsUnquoted t → IsUnquoted (s ++ t)
append-IsUnquoted [] t a b = b
append-IsUnquoted (c ∷ s) t a b = (a.0, a.1, append-IsUnquoted s t a.2 b)

drop-IsUnquoted : (n : ℕ) (s : String) → IsUnquoted s → IsUnquoted (drop n s)
drop-IsUnquoted zero s a = a
drop-IsUnquoted (suc n) [] a = a
drop-IsUnquoted (suc n) (c ∷ s) a = drop-IsUnquoted n s a.2

index_of-quote : (s : String) → IsUnquoted s → index_of quote s ≡ length s
index_of-quote [] a = refl
index_of-quote (c ∷ s) a = rw (a.0) (ap suc (index_of-quote s a.2))

no_backslash : (s : String) (n : ℕ) → IsUnquoted s → is_char_at (get_elem? s n) backslash ≡ false
no_backslash [] n a = refl
no_backslash (c ∷ s) zero a = a.1
no_backslash (c ∷ s) (suc n) a = no_backslash s n a.2

no_quote : (s : String) → IsUnquoted s → is_char_at (get_elem? s 0) quote ≡ false
no_quote [] a = refl
no_quote (c ∷ s) a = a.0

find_from-quote :
    (arg : String) (start : ℕ)
    → IsUnquoted arg
    → start ≤ length arg
    → find_from arg start quote ≡ length arg
unfolding find_from
find_from-quote arg start a h =
    omega
      (arith, index_of-quote (drop start arg) (drop-IsUnquoted start arg a), length-drop start arg)

candidate-plain :
    (arg : String) (start value : ℕ)
    → IsUnquoted arg
    → start ≤ length arg
    → candidate arg start value ≡ find_from arg start value
unfolding candidate
candidate-plain arg start value a h =
    ground (arith, find_from-quote arg start a h, find_from-le arg start value h)

is_escaped-plain : (arg : String) (ret : ℕ) → IsUnquoted arg → is_escaped arg ret ≡ false
unfolding is_escaped
is_escaped-plain arg ret a = ground (arith, no_backslash arg (ret - 1) a)

-- Where there are no quotes and no backslashes, the next instance is the first one.
pub find_next_instance-plain :
    (arg : String) (start value : ℕ)
    → IsUnquoted arg
    → start < length arg
    → find_next_instance arg start value ≡ some (find_from arg start value)
unfolding find_next_instance
find_next_instance-plain arg start value a h =
    let c = candidate-plain arg start value a (omega arith) in
    next_instance-found (length arg) arg start (length arg) value (λ e. absurd (omega arith))
      (is_escaped-plain arg (candidate arg start value) a)
    ∙ ap some c

strip_escapes-plain : (s : String) (c : ℕ) → IsUnquoted s → strip_escapes s c ≡ some s
unfolding strip_escapes strip_loop
strip_escapes-plain s c a = rw (escapeless s a, strip_loop) refl
  where
    escapeless : (t : String) → IsUnquoted t → find_escape c t ≡ none
    escapeless [] b = refl
    escapeless (d ∷ t) b = rw (b.1, escapeless t b.2) refl

string_strip_outer_quotes-plain :
    (s : String) → IsUnquoted s → string_strip_outer_quotes s quote ≡ s
unfolding string_strip_outer_quotes
string_strip_outer_quotes-plain s a = ground (arith, no_quote s a)

pub argument-plain : (s : String) → IsUnquoted s → argument s ≡ some s
unfolding argument
argument-plain s a =
    rw (strip_escapes-plain s comma a, strip_escapes-plain s colon a)
      (ap some (string_strip_outer_quotes-plain s a))

pub drop_first : (pre s : String) → drop (length pre) (pre ++ s) ≡ s
drop_first [] s = refl
drop_first (c ∷ pre) s = drop_first pre s

take_first : (w s : String) → take (length w) (w ++ s) ≡ w
take_first [] s = refl
take_first (c ∷ w) s = ap (◌∷◌ c) (take_first w s)

pub index_of-free :
    (value : ℕ) (w s : String) → IsFree value w → index_of value (w ++ value ∷ s) ≡ length w
index_of-free value [] s a = rw (==_eq value value refl) refl
index_of-free value (c ∷ w) s a = rw (a.0) (ap suc (index_of-free value w s a.1))

pub index_of-missing : (value : ℕ) (w : String) → IsFree value w → index_of value w ≡ length w
index_of-missing value [] a = refl
index_of-missing value (c ∷ w) a = rw (a.0) (ap suc (index_of-missing value w a.1))

-- The text of the argument that starts after `pre`.
pub text_after :
    (pre w s : String) (e : ℕ)
    → e ≡ length pre + length w
    → take (e - length pre) (drop (length pre) (pre ++ (w ++ s))) ≡ w
text_after pre w s e h =
    let n : e - length pre ≡ length w = omega arith in
    rw (drop_first pre (w ++ s), n) (take_first w s)
