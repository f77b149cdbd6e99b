-- ===== src/Strings/Tests.antt =====
-- The string functions at short strings, and the theorems about them at concrete strings.
use ecasound.Common.{◌≡◌, refl, List, [], ◌∷◌, ◌++◌, none, some, map, arith}
use ecasound.Strings.{
  String, comma, colon, backslash, space, quote, vector_to_string, string_to_tokens_quoted,
  string_shell_meta_escape,
}
use ecasound.Strings.Quoted.{string_to_tokens_quoted-string_shell_meta_escape}
use ecasound.Strings.Replace.{
  string_search_and_replace, string_search_and_replace-ends, string_search_and_replace-empty,
}
use ecasound.Strings.Arguments.{get_arguments, get_argument_prefix, get_argument_number}
use ecasound.Strings.Arguments.Ends.{get_arguments-ends}
use ecasound.Strings.Arguments.RoundTrip.{get_arguments-vector_to_string}

-- "ea", "b" and "a|b".
abbrev ea : String
ea = 101 ∷ 97 ∷ []

abbrev b : String
b = 98 ∷ []

abbrev a_or_b : String
a_or_b = 97 ∷ 124 ∷ 98 ∷ []

-- "-ea:b,,ea,"
abbrev option : String
option = 45 ∷ ea ++ colon ∷ b ++ comma ∷ comma ∷ ea ++ comma ∷ []

reads_arguments : get_arguments option ≡ some (b ∷ [] ∷ ea ∷ [] ∷ [])
unfolding get_arguments
reads_arguments = refl

reads_third : get_argument_number 3 option ≡ some ea
unfolding get_argument_number
reads_third = refl

reads_prefix : get_argument_prefix option ≡ some ea
unfolding get_argument_prefix
reads_prefix = refl

-- The text "b\,ea": the comma belongs to the one argument.
keeps_comma : get_arguments (b ++ backslash ∷ comma ∷ ea) ≡ some ((b ++ comma ∷ ea) ∷ [])
unfolding get_arguments
keeps_comma = refl

-- The text `ea "b ea" b`.
groups_words :
    string_to_tokens_quoted (ea ++ space ∷ quote ∷ b ++ space ∷ ea ++ quote ∷ space ∷ b)
    ≡ ea ∷ (quote ∷ b ++ space ∷ ea ++ quote ∷ []) ∷ b ∷ []
unfolding string_to_tokens_quoted
groups_words = refl

replaces_longer : string_search_and_replace 9 (b ++ 97 ∷ b) b ea ≡ some (ea ++ 97 ∷ ea)
unfolding string_search_and_replace
replaces_longer = refl

string_to_tokens_quoted-string_shell_meta_escape_example :
    string_to_tokens_quoted (
      vector_to_string
        (map string_shell_meta_escape (a_or_b ∷ (b ++ space ∷ ea) ∷ []))
        (space ∷ []))
    ≡ a_or_b ∷ (b ++ space ∷ ea) ∷ []
string_to_tokens_quoted-string_shell_meta_escape_example =
    string_to_tokens_quoted-string_shell_meta_escape (a_or_b ∷ (b ++ space ∷ ea) ∷ []) (
      (λ e. ground arith),
      (refl, refl, (refl, refl, (refl, refl, tt))),
      ((λ e. ground arith), (refl, refl, (refl, refl, (refl, refl, (refl, refl, tt)))), tt),
    )

string_search_and_replace-ends_example :
    (r : String) × (string_search_and_replace 3 ea b ea ≡ some r)
string_search_and_replace-ends_example = string_search_and_replace-ends ea b ea (omega arith)

string_search_and_replace-empty_example : string_search_and_replace 100 ea [] b ≡ none
string_search_and_replace-empty_example = string_search_and_replace-empty 100 ea b

get_arguments-ends_example : (r : List String) × (get_arguments option ≡ some r)
get_arguments-ends_example = get_arguments-ends option

get_arguments-vector_to_string_example :
    get_arguments (ea ++ colon ∷ vector_to_string (b ∷ [] ∷ []) (comma ∷ [])) ≡ some (b ∷ [] ∷ [])
unfolding vector_to_string
get_arguments-vector_to_string_example =
    get_arguments-vector_to_string ea (b ∷ [] ∷ []) (refl, refl, (refl, refl, tt))
      (refl, (refl, tt)) ((refl, tt), (refl, refl, tt), (tt, tt, tt)) (omega arith)
