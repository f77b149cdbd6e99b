-- ===== src/Strings.antt =====
-- kvutils/kvu_utils.cpp: the string functions that read the command line and the parameters of
-- objects. A string is the list of its character codes; `isspace`, `toupper` and `tolower` are
-- those of the "C" locale on codes below 128.
pub mod Tokens
pub mod Quoted
pub mod Spaces
pub mod Surrounding
pub mod Replace
pub mod Arguments
mod Tests
use ecasound.Common.{
  ℕ, zero, suc, ◌+◌, ◌-◌, Bool, true, false, not, ◌&&◌, ◌||◌, List, [], ◌∷◌, ◌++◌, Option, none,
  some, map, ltb, leb, ◌==◌, length, get_elem?, take, drop, if◌then◌else◌,
}

abbrev pub String : Type 0
String = List ℕ

abbrev pub quote : ℕ
quote = 34

abbrev pub comma : ℕ
comma = 44

abbrev pub colon : ℕ
colon = 58

abbrev pub backslash : ℕ
backslash = 92

abbrev pub space : ℕ
space = 32

abbrev pub is_space : ℕ → Bool
is_space c = (c == 32) || (leb 9 c && leb c 13)

abbrev pub toupper : ℕ → ℕ
toupper c = if leb 97 c && leb c 122 then c - 32 else c

abbrev pub tolower : ℕ → ℕ
tolower c = if leb 65 c && leb c 90 then c + 32 else c

abbrev pub str_eq : String → String → Bool
str_eq [] [] = true
str_eq [] (d ∷ t) = false
str_eq (c ∷ s) [] = false
str_eq (c ∷ s) (d ∷ t) = (c == d) && str_eq s t

-- A word that is complete is added to the vector unless it is empty.
abbrev pub push_word : String → List String → List String
push_word [] words = words
push_word (c ∷ stmp) words = (c ∷ stmp) ∷ words

-- The loop that `string_to_tokens` and `string_to_vector` share: `stmp` is the word read so far.
pub split_from : (ℕ → Bool) → String → String → List String
split_from sep stmp [] = push_word stmp []
split_from sep stmp (c ∷ s) = elim (sep c) [
  | false ↦ split_from sep (stmp ++ c ∷ []) s
  | true ↦ push_word stmp (split_from sep [] s)
]

pub string_to_tokens : String → List String
unfolding split_from
string_to_tokens s = split_from is_space [] s

pub string_to_words : String → List String
unfolding string_to_tokens
string_to_words s = string_to_tokens s

pub string_to_vector : String → ℕ → List String
unfolding split_from
string_to_vector str separator = split_from (λ c. c == separator) [] str

pub vector_to_string : List String → String → String
vector_to_string [] separator = []
vector_to_string (w ∷ []) separator = w
vector_to_string (w ∷ v ∷ words) separator =
    w ++ separator ++ vector_to_string (v ∷ words) separator

-- The loop of `string_to_tokens_quoted` with its `quoteflag`; a backslash takes the next character
-- with it, and ends the loop where there is none.
pub quoted_from : Bool → String → String → List String
quoted_from quoteflag stmp [] = push_word stmp []
quoted_from quoteflag stmp (c ∷ []) =
    if c == quote
    then push_word (stmp ++ c ∷ []) []
    else if c == backslash
    then push_word stmp []
    else if not (is_space c) || quoteflag
    then push_word (stmp ++ c ∷ []) []
    else push_word stmp []
quoted_from quoteflag stmp (c ∷ d ∷ s) = elim (c == quote) [
  | true ↦ quoted_from (not quoteflag) (stmp ++ c ∷ []) (d ∷ s)
  | false ↦ elim (c == backslash) [
    | true ↦ quoted_from quoteflag (stmp ++ d ∷ []) s
    | false ↦ elim (not (is_space c) || quoteflag) [
      | true ↦ quoted_from quoteflag (stmp ++ c ∷ []) (d ∷ s)
      | false ↦ push_word stmp (quoted_from quoteflag [] (d ∷ s))
    ]
  ]
]

pub string_to_tokens_quoted : String → List String
unfolding quoted_from
string_to_tokens_quoted s = quoted_from false [] s

-- Each character of a set is quoted using a backslash.
pub escape : (ℕ → Bool) → String → String
escape meta [] = []
escape meta (c ∷ s) = let rest = escape meta s in if meta c then backslash ∷ c ∷ rest else c ∷ rest

-- ^ . [ ] $ ( ) | * + ? { } \
abbrev pub is_regex_meta : ℕ → Bool
is_regex_meta c =
    (c == 94)
    || (c == 46)
    || (c == 91)
    || (c == 93)
    || (c == 36)
    || (c == 40)
    || (c == 41)
    || (c == 124)
    || (c == 42)
    || (c == 43)
    || (c == 63)
    || (c == 123)
    || (c == 125)
    || (c == 92)

pub string_regex_meta_escape : String → String
unfolding escape
string_regex_meta_escape arg = escape is_regex_meta arg

-- " ' blank | & ; ( ) < >
abbrev pub is_shell_meta : ℕ → Bool
is_shell_meta c =
    (c == 34)
    || (c == 39)
    || (c == 32)
    || (c == 124)
    || (c == 38)
    || (c == 59)
    || (c == 40)
    || (c == 41)
    || (c == 60)
    || (c == 62)

pub string_shell_meta_escape : String → String
unfolding escape
string_shell_meta_escape arg = escape is_shell_meta arg

pub convert_to_uppercase : String → String
convert_to_uppercase a = map toupper a

pub convert_to_lowercase : String → String
convert_to_lowercase a = map tolower a

-- The loop `for(; p != a.rend(); p++) r = *p + r`.
abbrev pub prepend_all : String → String → String
prepend_all [] r = r
prepend_all (c ∷ p) r = prepend_all p (c ∷ r)

-- The loop that stops at the first character that is not a blank.
abbrev pub skip_spaces : String → String
skip_spaces [] = []
skip_spaces (c ∷ s) = elim (c == space) [ true ↦ skip_spaces s | false ↦ c ∷ s ]

pub remove_trailing_spaces : String → String
remove_trailing_spaces a = prepend_all (skip_spaces (prepend_all a [])) []

pub remove_preceding_spaces : String → String
remove_preceding_spaces a = skip_spaces a

pub string_icmp : String → String → Bool
unfolding remove_trailing_spaces remove_preceding_spaces convert_to_uppercase
string_icmp first second =
    str_eq (convert_to_uppercase (remove_preceding_spaces (remove_trailing_spaces first)))
      (convert_to_uppercase (remove_preceding_spaces (remove_trailing_spaces second)))

abbrev pub count_spaces : String → ℕ
count_spaces [] = 0
count_spaces (c ∷ s) = if c == space then suc (count_spaces s) else 0

abbrev pub is_blank_at : Option ℕ → Bool
is_blank_at none = false
is_blank_at (some c) = c == space

-- The loop that steps `q` back over blanks, to the beginning at most.
abbrev pub step_back : String → ℕ → ℕ
step_back a zero = 0
step_back a (suc q) =
    let rest = step_back a q in if is_blank_at (get_elem? a (suc q)) then rest else suc q

-- `none` where the source forms an iterator before the beginning or a range that ends before it
-- starts.
pub remove_surrounding_spaces : String → Option String
remove_surrounding_spaces [] = none
remove_surrounding_spaces (c ∷ s) =
    let p = count_spaces (c ∷ s) in
    let q = step_back (c ∷ s) (length s) in
    if leb p (suc q) then some (take (suc q - p) (drop p (c ∷ s))) else none
