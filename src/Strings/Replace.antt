-- ===== src/Strings/Replace.antt =====
-- `string_search_and_replace` and `vector_search_and_replace`: the loop, when it ends, and what it
-- misses.
use mathlib.Core.Option
use ecasound.Common.{
  ℕ, zero, suc, ◌+◌, ◌-◌, ◌≤◌, ◌<◌, ◌≡◌, refl, ◌∙◌, ap, inl, inr, Bool, true, false, ◌&&◌, List, [],
  ◌∷◌, ◌++◌, Option, none, some, map, ◌==◌, ltb, leb, arith, take, drop, length, length-append,
  length-take, length-drop, Option-cases, if◌then◌else◌,
}
use ecasound.Strings.{String}

pub search_and_replace_chars : String → ℕ → ℕ → String
search_and_replace_chars str from to = map (λ c. if c == from then to else c) str

abbrev starts_with : String → String → Bool
starts_with [] s = true
starts_with (c ∷ from) [] = false
starts_with (c ∷ from) (d ∷ s) = (c == d) && starts_with from s

-- The offset of the first instance of `from`.
abbrev find_in : String → String → Option ℕ
find_in from [] = if starts_with from [] then some 0 else none
find_in from (c ∷ s) =
    let rest = find_in from s in if starts_with from (c ∷ s) then some 0 else Option.map suc rest

-- `tmp.find(from, pos)`.
find : String → String → ℕ → Option ℕ
find tmp from pos =
    if leb pos (length tmp) then Option.map (λ n. pos + n) (find_in from (drop pos tmp)) else none

-- `tmp.replace(pos, n, to)`.
replace : String → ℕ → ℕ → String → String
replace tmp pos n to = take pos tmp ++ to ++ drop (pos + n) tmp

-- The loop, on fuel: `none` where the fuel does not last.
replace_loop : ℕ → String → ℕ → String → String → Option String
unfolding find replace
replace_loop zero tmp pos from to = none
replace_loop (suc fuel) tmp pos from to = elim (find tmp from pos) [
  | none ↦ some tmp
  | some p ↦
      replace_loop fuel (replace tmp p (length from) to)
        (p + (if ltb (length from) (length to) then length to else length from)) from to
]

unfoldable pub string_search_and_replace : ℕ → String → String → String → Option String
unfolding replace_loop
string_search_and_replace fuel str from to = replace_loop fuel str 0 from to

pub vector_search_and_replace : ℕ → List String → String → String → Option (List String)
unfolding string_search_and_replace
vector_search_and_replace fuel [] from to = some []
vector_search_and_replace fuel (s ∷ str_vector) from to =
    elim (string_search_and_replace fuel s from to) [
      | none ↦ none
      | some r ↦ Option.map (λ vstmp. r ∷ vstmp) (vector_search_and_replace fuel str_vector from to)
    ]

starts_with-length : (from s : String) → starts_with from s ≡ true → length from ≤ length s
starts_with-length [] s h = omega arith
starts_with-length (c ∷ from) [] h = ground arith
starts_with-length (c ∷ from) (d ∷ s) h = ground (arith, starts_with-length from s)

-- An instance that is found fits the string.
find_in-fits : (from s : String) (p : ℕ) → find_in from s ≡ some p → p + length from ≤ length s
find_in-fits from [] p h = ground (arith, starts_with-length from [])
find_in-fits from (c ∷ s) zero h = ground (arith, starts_with-length from (c ∷ s))
find_in-fits from (c ∷ s) (suc p) h = ground (arith, find_in-fits from s p)

find-fits :
    (tmp from : String) (pos p : ℕ)
    → find tmp from pos ≡ some p
    → (pos ≤ p) × (p + length from ≤ length tmp)
unfolding find
find-fits tmp from pos p h = elim (Option-cases (find_in from (drop pos tmp))) [
  | inl e ↦ ground (arith, e)
  | inr (n, e) ↦ ground (arith, e, find_in-fits from (drop pos tmp) n e, length-drop pos tmp)
]

length-replace :
    (tmp to : String) (p n : ℕ)
    → p + n ≤ length tmp
    → length (replace tmp p n to) + n ≡ length tmp + length to
unfolding replace
length-replace tmp to p n h = omega (
  arith,
  length-append (take p tmp ++ to) (drop (p + n) tmp),
  length-append (take p tmp) to,
  length-take p tmp,
  length-drop (p + n) tmp,
)

replace_loop-none :
    (fuel : ℕ) (tmp : String) (pos : ℕ) (from to : String)
    → find tmp from pos ≡ none
    → replace_loop (suc fuel) tmp pos from to ≡ some tmp
unfolding replace_loop
replace_loop-none fuel tmp pos from to e = rw (e, replace_loop) refl

-- How far the loop moves on.
abbrev stride : String → String → ℕ
stride from to = if ltb (length from) (length to) then length to else length from

replace_loop-some :
    (fuel : ℕ) (tmp : String) (pos p : ℕ) (from to : String)
    → find tmp from pos ≡ some p
    → replace_loop (suc fuel) tmp pos from to
      ≡ replace_loop fuel (replace tmp p (length from) to) (p + stride from to) from to
unfolding replace_loop
replace_loop-some fuel tmp pos p from to e = rw (e, replace_loop) refl

replace_loop-ends :
    (fuel : ℕ) (tmp : String) (pos : ℕ) (from to : String)
    → 0 < length from
    → length tmp - pos < fuel
    → (r : String) × (replace_loop fuel tmp pos from to ≡ some r)
replace_loop-ends zero tmp pos from to h l = absurd (omega arith)
replace_loop-ends (suc fuel) tmp pos from to h l = elim (Option-cases (find tmp from pos)) [
  | inl e ↦ (tmp, replace_loop-none fuel tmp pos from to e)
  | inr (p, e) ↦
      let f = find-fits tmp from pos p e in
      let r =
        replace_loop-ends fuel (replace tmp p (length from) to) (p + stride from to) from to h
          (ground (arith, f.0, f.1, length-replace tmp to p (length from))) in
      (r.0, replace_loop-some fuel tmp pos p from to e ∙ r.1)
]

-- Where the string to replace is not empty, the loop of `string_search_and_replace` ends: one round
-- more than the other string has characters is enough.
pub string_search_and_replace-ends :
    (str from to : String)
    → 0 < length from
    → (r : String) × (string_search_and_replace (suc (length str)) str from to ≡ some r)
unfolding string_search_and_replace
string_search_and_replace-ends str from to h =
    replace_loop-ends (suc (length str)) str 0 from to h (omega arith)

find_in-empty : (s : String) → find_in [] s ≡ some 0
find_in-empty [] = refl
find_in-empty (c ∷ s) = refl

find-empty : (tmp : String) (pos : ℕ) → pos ≤ length tmp → find tmp [] pos ≡ some pos
unfolding find
find-empty tmp pos h = ground (arith, find_in-empty (drop pos tmp))

replace_loop-empty :
    (fuel : ℕ) (tmp : String) (pos : ℕ) (to : String)
    → pos ≤ length tmp
    → replace_loop fuel tmp pos [] to ≡ none
unfolding replace_loop
replace_loop-empty zero tmp pos to h = refl
replace_loop-empty (suc fuel) tmp pos to h =
    replace_loop-some fuel tmp pos pos [] to (find-empty tmp pos h)
    ∙ replace_loop-empty fuel (replace tmp pos 0 to) (pos + stride [] to) to
        (ground (arith, length-replace tmp to pos 0))

-- Where the string to replace is empty, the loop of `string_search_and_replace` does not end, on any
-- string: no number of rounds is enough.
pub string_search_and_replace-empty :
    (fuel : ℕ) (str to : String) → string_search_and_replace fuel str [] to ≡ none
unfolding string_search_and_replace
string_search_and_replace-empty fuel str to = replace_loop-empty fuel str 0 to (omega arith)

starts_with_self : (from s : String) → starts_with from (from ++ s) ≡ true
starts_with_self [] s = refl
starts_with_self (c ∷ from) s = ground (arith, starts_with_self from s)

find_in_self : (from s : String) → find_in from (from ++ s) ≡ some 0
find_in_self [] s = find_in-empty s
find_in_self (c ∷ from) s = ground (arith, starts_with_self from s)

drop_all : (s : String) → drop (length s) s ≡ []
drop_all [] = refl
drop_all (c ∷ s) = drop_all s

drop_first : (xs ys : String) → drop (length xs) (xs ++ ys) ≡ ys
drop_first [] ys = refl
drop_first (x ∷ xs) ys = drop_first xs ys

find-first : (from s : String) → find (from ++ s) from 0 ≡ some 0
unfolding find
find-first from s = ground (arith, find_in_self from s)

find-past : (from : String) → 0 < length from → find from from (length from) ≡ none
unfolding find
find-past [] h = absurd (omega arith)
find-past (c ∷ from) h = ground (arith, drop_all from)

replace-first : (from s : String) → replace (from ++ s) 0 (length from) [] ≡ s
unfolding replace
replace-first from s = ap (λ n. drop n (from ++ s)) (omega arith) ∙ drop_first from s

-- In a string that is twice the same string, which is not empty, replacing that string by nothing
-- takes away one instance and misses the other.
pub string_search_and_replace-adjacent :
    (from : String)
    → 0 < length from
    → string_search_and_replace (suc (length (from ++ from))) (from ++ from) from [] ≡ some from
unfolding string_search_and_replace
string_search_and_replace-adjacent from h =
    let e : 0 + stride from [] ≡ length from = ground arith in
    let f : length (from ++ from) ≡ suc (length (from ++ from) - 1) =
      omega (arith, length-append from from) in
    replace_loop-some (length (from ++ from)) (from ++ from) 0 0 from [] (find-first from from)
    ∙ ap (λ t. replace_loop (length (from ++ from)) t (0 + stride from []) from [])
        (replace-first from from)
    ∙ ap (λ n. replace_loop (length (from ++ from)) from n from []) e
    ∙ ap (λ n. replace_loop n from (length from) from []) f
    ∙ replace_loop-none (length (from ++ from) - 1) from (length from) from [] (find-past from h)
