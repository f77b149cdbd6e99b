-- ===== src/Strings/Arguments/RoundTrip.antt =====
-- A formatted string that is put together from a name and plain arguments gives the arguments back.
use mathlib.Core.Option
use mathlib.Core.List.{append_assoc}
use ecasound.Common.{
  ℕ, zero, suc, ◌+◌, ◌-◌, ◌<◌, ◌≡◌, refl, sym, ◌∙◌, ap, List, [], ◌∷◌, ◌++◌, some, ◌==◌, ==_eq,
  ==_ne, arith, take, drop, length, length-append, get_elem?, if◌then◌else◌, ℕ_discrete,
}
use ecasound.Strings.{String, comma, colon, vector_to_string}
use ecasound.Strings.Tokens.{append-nil}
use ecasound.Strings.Arguments.{
  find_from, find_next_instance, argument, last_empty, arguments_from, get_arguments,
}
use ecasound.Strings.Arguments.Ends.{
  arguments_from-end, arguments_from-last, arguments_from-next, get_arguments-run,
}
use ecasound.Strings.Arguments.Plain.{
  IsUnquoted, IsFree, append-IsUnquoted, find_next_instance-plain, argument-plain, drop_first,
  index_of-free, index_of-missing, text_after,
}

-- Arguments without commas, quotes and backslashes, at least one of which the loop sees.
abbrev pub ArePlain : List String → Type 0
ArePlain [] = Unit
ArePlain (w ∷ words) = IsFree comma w × IsUnquoted w × ArePlain words

joined : List String → String
unfolding vector_to_string
joined words = vector_to_string words (comma ∷ [])

joined-IsUnquoted : (words : List String) → ArePlain words → IsUnquoted (joined words)
unfolding joined
joined-IsUnquoted [] a = tt
joined-IsUnquoted (w ∷ []) a = a.1
joined-IsUnquoted (w ∷ v ∷ words) a =
    append-IsUnquoted (w ++ comma ∷ []) (joined (v ∷ words))
      (append-IsUnquoted w (comma ∷ []) a.1 (refl, refl, tt)) (joined-IsUnquoted (v ∷ words) a.2)

-- The search for the comma after `w`, and the one that finds none.
find_comma :
    (pre w rest : String) (value : ℕ)
    → IsUnquoted (pre ++ (w ++ value ∷ rest))
    → IsFree value w
    → find_next_instance (pre ++ (w ++ value ∷ rest)) (length pre) value
      ≡ some (length pre + length w)
unfolding find_from
find_comma pre w rest value a f =
    find_next_instance-plain _ (length pre) value a
      (omega (arith, length-append pre (w ++ value ∷ rest), length-append w (value ∷ rest)))
    ∙ rw (drop_first pre (w ++ value ∷ rest), index_of-free value w rest f) refl

find_no_comma :
    (pre w : String)
    → IsUnquoted (pre ++ w)
    → IsFree comma w
    → 0 < length w
    → find_next_instance (pre ++ w) (length pre) comma ≡ some (length pre + length w)
unfolding find_from
find_no_comma pre w a f h =
    find_next_instance-plain _ (length pre) comma a (omega (arith, length-append pre w))
    ∙ rw (drop_first pre w, index_of-missing comma w f) refl

pub get_elem?-comma :
    (pre w rest : String) (c k : ℕ)
    → k ≡ length pre + length w
    → get_elem? (pre ++ (w ++ c ∷ rest)) k ≡ some c
get_elem?-comma [] [] rest c zero h = refl
get_elem?-comma [] [] rest c (suc k) h = absurd (omega arith)
get_elem?-comma [] (d ∷ w) rest c zero h = absurd (omega arith)
get_elem?-comma [] (d ∷ w) rest c (suc k) h = get_elem?-comma [] w rest c k (omega arith)
get_elem?-comma (d ∷ pre) w rest c zero h = absurd (omega arith)
get_elem?-comma (d ∷ pre) w rest c (suc k) h = get_elem?-comma pre w rest c k (omega arith)

last_empty-comma :
    (pre w rest : String)
    → last_empty (pre ++ (w ++ comma ∷ rest)) (length pre + length w)
      ≡ (if length rest == 0 then [] ∷ [] else [])
last_empty-comma pre w rest =
    let n : length (pre ++ (w ++ comma ∷ rest)) ≡ suc (length pre + length w) + length rest =
      omega (arith, length-append pre (w ++ comma ∷ rest), length-append w (comma ∷ rest)) in
    ground (arith, n, get_elem?-comma pre w rest comma (length pre + length w) refl)

-- One round of the loop, at an argument with a comma after it.
arguments_from-comma :
    (fuel : ℕ) (pre w rest : String)
    → IsUnquoted pre
    → IsFree comma w
    → IsUnquoted w
    → IsUnquoted rest
    → arguments_from (suc fuel) (pre ++ (w ++ comma ∷ rest)) (length pre)
      ≡ Option.map
          (λ r. w ∷ (if length rest == 0 then [] ∷ [] else []) ++ r)
          (arguments_from fuel (pre ++ (w ++ comma ∷ rest)) (suc (length pre + length w)))
arguments_from-comma fuel pre w rest p f u r =
    let argu = pre ++ (w ++ comma ∷ rest) in
    let n : length argu ≡ suc (length pre + length w) + length rest =
      omega (arith, length-append pre (w ++ comma ∷ rest), length-append w (comma ∷ rest)) in
    let a =
      append-IsUnquoted pre (w ++ comma ∷ rest) p
        (append-IsUnquoted w (comma ∷ rest) u (refl, refl, r)) in
    arguments_from-next fuel argu (length pre) (length pre + length w) w (λ e. absurd (omega arith))
      (find_comma pre w rest comma a f)
      (rw (text_after pre w (comma ∷ rest) (length pre + length w) refl) (argument-plain w u))
      (λ e. absurd (omega arith))
    ∙ rw (last_empty-comma pre w rest) refl

joined-empty :
    (v : String) (words : List String) → length (joined (v ∷ words)) ≡ 0 → v ∷ words ≡ [] ∷ []
unfolding joined
joined-empty [] [] h = refl
joined-empty (c ∷ v) [] h = absurd (omega arith)
joined-empty v (x ∷ words) h = absurd (
    omega
      (arith, length-append (v ++ comma ∷ []) (joined (x ∷ words)), length-append v (comma ∷ [])))

no_more :
    (fuel : ℕ) (argu : String) (b : ℕ)
    → 0 < fuel
    → b ≡ length argu
    → arguments_from fuel argu b ≡ some []
no_more zero argu b h e = absurd (omega arith)
no_more (suc fuel) argu b h e = arguments_from-end fuel argu b e

arguments_from-joined :
    (fuel : ℕ) (pre : String) (words : List String)
    → IsUnquoted pre
    → ArePlain words
    → 0 < length (joined words)
    → length (joined words) < fuel
    → arguments_from fuel (pre ++ joined words) (length pre) ≡ some words
unfolding joined
arguments_from-joined zero pre words p a h l = absurd (omega arith)
arguments_from-joined (suc fuel) pre [] p a h l = absurd (omega arith)
arguments_from-joined (suc fuel) pre (w ∷ []) p a h l =
    arguments_from-last fuel (pre ++ w) (length pre) (length pre + length w) w
      (λ e. absurd (omega (arith, length-append pre w)))
      (find_no_comma pre w (append-IsUnquoted pre w p a.1) a.0 h)
      (ap (λ t. argument (take (length pre + length w - length pre) (drop (length pre) (pre ++ t))))
          (sym (append-nil w))
        ∙ rw (text_after pre w [] (length pre + length w) refl) (argument-plain w a.1))
      (sym (length-append pre w))
arguments_from-joined (suc fuel) pre (w ∷ v ∷ words) p a h l =
    let rest = joined (v ∷ words) in
    let pre' = pre ++ (w ++ comma ∷ []) in
    let n : length (joined (w ∷ v ∷ words)) ≡ suc (length w) + length rest =
      omega (arith, length-append (w ++ comma ∷ []) rest, length-append w (comma ∷ [])) in
    let same : pre ++ (w ++ comma ∷ rest) ≡ pre' ++ rest =
      ap (λ t. pre ++ t) (sym (append_assoc w (comma ∷ []) rest))
      ∙ sym (append_assoc pre (w ++ comma ∷ []) rest) in
    let m : suc (length pre + length w) ≡ length pre' =
      omega (arith, length-append pre (w ++ comma ∷ []), length-append w (comma ∷ [])) in
    ap (λ t. arguments_from (suc fuel) (pre ++ t) (length pre)) (append_assoc w (comma ∷ []) rest)
    ∙ arguments_from-comma fuel pre w rest p a.0 a.1 (joined-IsUnquoted (v ∷ words) a.2)
    ∙ rw (same, m)
        (elim (ℕ_discrete (length rest) 0) [
          | yes z ↦
              rw
                (
                  no_more fuel (pre' ++ rest) (length pre') (omega (arith, n, l))
                      (omega (arith, z, length-append pre' rest)),
                  ==_eq (length rest) 0 z,
                )
                (ap (λ ws. some (w ∷ ws)) (sym (joined-empty v words z)))
          | no z ↦
              rw
                (
                  ==_ne (length rest) 0 z,
                  arguments_from-joined fuel pre' (v ∷ words)
                      (append-IsUnquoted pre (w ++ comma ∷ []) p
                        (append-IsUnquoted w (comma ∷ []) a.1 (refl, refl, tt)))
                      a.2 (omega arith) (omega (arith, n, l)),
                )
                refl
        ])

-- A string "name:arg1,...,argn" gives its arguments back where neither the name nor an argument
-- holds a quote or a backslash, no argument a comma and the name no colon, and the arguments are
-- more than one empty one.
pub get_arguments-vector_to_string :
    (name : String) (words : List String)
    → IsUnquoted name
    → IsFree colon name
    → ArePlain words
    → 0 < length (vector_to_string words (comma ∷ []))
    → get_arguments (name ++ colon ∷ vector_to_string words (comma ∷ [])) ≡ some words
unfolding joined
get_arguments-vector_to_string name words u f a h =
    let j = joined words in
    let argu = name ++ colon ∷ j in
    let pre = name ++ colon ∷ [] in
    let n : length argu ≡ suc (length name) + length j =
      omega (arith, length-append name (colon ∷ j)) in
    let m : suc (length name) ≡ length pre = omega (arith, length-append name (colon ∷ [])) in
    let z : 0 + length name ≡ length name = omega arith in
    get_arguments-run argu (length name) (
      find_comma [] name j colon
        (append-IsUnquoted name (colon ∷ j) u (refl, refl, joined-IsUnquoted words a)) f
      ∙ ap some z)
    ∙ rw
        (
          ==_ne (length name) (length argu) (λ e. absurd (omega arith)),
          m,
          sym (append_assoc name (colon ∷ []) j),
        )
        (arguments_from-joined (suc (length (pre ++ j))) pre words
          (append-IsUnquoted name (colon ∷ []) u (refl, refl, tt)) a h
          (omega (arith, length-append pre j)))
