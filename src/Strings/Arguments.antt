-- ===== src/Strings/Arguments.antt =====
-- The formatted strings "something:arg1,arg2,...,argn" of kvutils/kvu_utils.cpp. A position is the
-- number of characters before it, and the end is the length; loops are on fuel, and `none` is what
-- they give where it does not last.
pub mod Ends
pub mod Plain
pub mod RoundTrip
pub mod Escaped
use mathlib.Core.Option
use ecasound.Common.{
  ◌>>=◌, ℕ, zero, suc, ◌+◌, ◌-◌, Bool, true, false, not, ◌&&◌, List, [], ◌∷◌, ◌++◌, Option, none,
  some, ◌==◌, ltb, leb, take, drop, length, get_elem?, if◌then◌else◌,
}
use ecasound.Strings.{String, quote, comma, colon, backslash}

-- The number of characters before the first `value`, or of all.
abbrev pub index_of : ℕ → String → ℕ
index_of value [] = 0
index_of value (c ∷ s) = let rest = index_of value s in if c == value then 0 else suc rest

-- `find(arg + start, arg.end(), value)`.
pub find_from : String → ℕ → ℕ → ℕ
find_from arg start value = start + index_of value (drop start arg)

abbrev pub is_char_at : Option ℕ → ℕ → Bool
is_char_at none value = false
is_char_at (some c) value = c == value

-- The instance looked at in one round: the first one, or the first one after the quoted part that
-- starts before it.
pub candidate : String → ℕ → ℕ → ℕ
unfolding find_from
candidate arg curpos value =
    let first = find_from arg curpos value in
    let nextquote = find_from arg curpos quote in
    let closing = find_from arg (suc nextquote) quote in
    if ltb nextquote first
    then if closing == length arg then first else find_from arg (suc closing) value
    else first

pub is_escaped : String → ℕ → Bool
is_escaped arg ret =
    not (ret == length arg) && not (ret == 0) && is_char_at (get_elem? arg (ret - 1)) backslash

pub next_instance : ℕ → String → (curpos ret value : ℕ) → Option ℕ
unfolding candidate is_escaped
next_instance zero arg curpos ret value = none
next_instance (suc fuel) arg curpos ret value = elim (curpos == length arg) [
  | true ↦ some ret
  | false ↦
      let ret' = candidate arg curpos value in
      elim (is_escaped arg ret') [
        | true ↦ next_instance fuel arg (suc ret') ret' value
        | false ↦ some ret'
      ]
]

pub find_next_instance : String → ℕ → ℕ → Option ℕ
unfolding next_instance
find_next_instance arg start value = next_instance (suc (length arg)) arg start (length arg) value

-- The position of the first backslash before an `escaped_char`.
abbrev pub find_escape : ℕ → String → Option ℕ
find_escape escaped_char [] = none
find_escape escaped_char (c ∷ s) =
    let rest = find_escape escaped_char s in
    if (c == backslash) && is_char_at (get_elem? s 0) escaped_char
    then some 0
    else Option.map suc rest

pub strip_loop : ℕ → String → ℕ → Option String
strip_loop zero input escaped_char = none
strip_loop (suc fuel) input escaped_char = elim (find_escape escaped_char input) [
  | none ↦ some input
  | some pos ↦ strip_loop fuel (take pos input ++ escaped_char ∷ drop (pos + 2) input) escaped_char
]

pub strip_escapes : String → ℕ → Option String
unfolding strip_loop
strip_escapes input escaped_char = strip_loop (suc (length input)) input escaped_char

pub string_strip_outer_quotes : String → ℕ → String
string_strip_outer_quotes input quote_char =
    if leb 2 (length input)
      && is_char_at (get_elem? input 0) quote_char
      && is_char_at (get_elem? input (length input - 1)) quote_char
    then take (length input - 2) (drop 1 input)
    else input

-- One argument, from its text.
pub argument : String → Option String
unfolding strip_escapes string_strip_outer_quotes
argument text = do
  target ← strip_escapes text comma
  target' ← strip_escapes target colon
  some (string_strip_outer_quotes target' quote)

-- The loop over the arguments from position `b` on.
-- The empty argument after a comma that ends the string.
abbrev last_empty : String → ℕ → List String
last_empty argu e =
    if (suc e == length argu) && is_char_at (get_elem? argu e) comma then [] ∷ [] else []

pub arguments_from : ℕ → String → ℕ → Option (List String)
unfolding find_next_instance argument
arguments_from zero argu b = none
arguments_from (suc fuel) argu b = elim (b == length argu) [
  | true ↦ some []
  | false ↦ find_next_instance argu b comma >>= (λ e.
      argument (take (e - b) (drop b argu)) >>= (λ target. elim (e == length argu) [
        | true ↦ some (target ∷ [])
        | false ↦
            Option.map (λ rest. target ∷ last_empty argu e ++ rest)
              (arguments_from fuel argu (suc e))
      ]))
]

unfoldable pub get_arguments : String → Option (List String)
unfolding find_next_instance arguments_from
get_arguments argu = do
  b ← find_next_instance argu 0 colon
  if b == length argu
      then if ltb 0 (length argu) then arguments_from (suc (length argu)) argu 0 else some []
      else arguments_from (suc (length argu)) argu (suc b)

pub get_number_of_arguments : String → Option ℕ
unfolding get_arguments
get_number_of_arguments arg = Option.map length (get_arguments arg)

abbrev pub or_empty : Option String → String
or_empty none = []
or_empty (some s) = s

-- `number` is at least 1.
unfoldable pub get_argument_number : ℕ → String → Option String
unfolding get_arguments
get_argument_number number arg =
    Option.map
      (λ temp. if leb number (length temp) then or_empty (get_elem? temp (number - 1)) else [])
      (get_arguments arg)

-- `none` where the colon stands before the dash.
unfoldable pub get_argument_prefix : String → Option String
unfolding find_from
get_argument_prefix argu =
    let b = find_from argu 0 45 in
    let e = find_from argu 0 colon in
    if b == length argu
    then some []
    else if suc b == length argu
    then some []
    else if ltb e (suc b)
    then none
    else some (take (e - suc b) (drop (suc b) argu))
