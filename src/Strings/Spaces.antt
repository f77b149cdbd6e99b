-- ===== src/Strings/Spaces.antt =====
-- Blanks around a string: how they are removed from either end, and the comparison that ignores
-- them.
use mathlib.Core.List.{append_assoc}
use ecasound.Common.{
  ℕ, zero, suc, ◌≡◌, refl, sym, ◌∙◌, true, false, ◌↔◌, [], ◌∷◌, ◌++◌, ◌==◌, arith, get_elem?,
  replicate,
}
use ecasound.Strings.{
  String, space, str_eq, prepend_all, skip_spaces, remove_trailing_spaces, remove_preceding_spaces,
  string_icmp, is_blank_at, convert_to_uppercase,
}
use ecasound.Strings.Tokens.{append-nil}

-- `i` blanks before and `j` after.
abbrev pub padded : ℕ → String → ℕ → String
padded i m j = replicate i space ++ m ++ replicate j space

-- Not empty, with no blank at either end; `y` is the last character.
pub record IsTrimmed (front : String) (y : ℕ) : Type 0 where
  pub first : is_blank_at (get_elem? (front ++ y ∷ []) 0) ≡ false
  pub last : (y == space) ≡ false

prepend_all-append :
    (xs ys r : String) → prepend_all (xs ++ ys) r ≡ prepend_all ys (prepend_all xs r)
prepend_all-append [] ys r = refl
prepend_all-append (c ∷ xs) ys r = prepend_all-append xs ys (c ∷ r)

prepend_all-into : (xs r t : String) → prepend_all xs (r ++ t) ≡ prepend_all xs r ++ t
prepend_all-into [] r t = refl
prepend_all-into (c ∷ xs) r t = prepend_all-into xs (c ∷ r) t

prepend_all-twice : (xs r t : String) → prepend_all (prepend_all xs r) t ≡ prepend_all r (xs ++ t)
prepend_all-twice [] r t = refl
prepend_all-twice (c ∷ xs) r t = prepend_all-twice xs (c ∷ r) t

prepend_all-blanks :
    (j : ℕ) (r : String)
    → prepend_all (replicate j space) (space ∷ r) ≡ space ∷ prepend_all (replicate j space) r
prepend_all-blanks zero r = refl
prepend_all-blanks (suc j) r = prepend_all-blanks j (space ∷ r)

skip_spaces-blanks :
    (j : ℕ) (r : String) → skip_spaces (prepend_all (replicate j space) r) ≡ skip_spaces r
skip_spaces-blanks zero r = refl
skip_spaces-blanks (suc j) r = rw (prepend_all-blanks j r) (skip_spaces-blanks j r)

skip_spaces-replicate : (i : ℕ) (r : String) → skip_spaces (replicate i space ++ r) ≡ skip_spaces r
skip_spaces-replicate zero r = refl
skip_spaces-replicate (suc i) r = skip_spaces-replicate i r

skip_spaces-stays : (m : String) → is_blank_at (get_elem? m 0) ≡ false → skip_spaces m ≡ m
skip_spaces-stays [] h = refl
skip_spaces-stays (c ∷ m) h = ground arith

-- What ends in a character that is not a blank, reversed, begins with one.
skip_spaces-reversed :
    (pre : String) (y : ℕ)
    → (y == space) ≡ false
    → skip_spaces (prepend_all (pre ++ y ∷ []) []) ≡ prepend_all (pre ++ y ∷ []) []
skip_spaces-reversed pre y h = rw (prepend_all-append pre (y ∷ []) []) (skip_spaces-stays _ h)

pub remove_trailing_spaces-padded :
    (i j : ℕ) (front : String) (y : ℕ)
    → IsTrimmed front y
    → remove_trailing_spaces (padded i (front ++ y ∷ []) j) ≡ replicate i space ++ (front ++ y ∷ [])
unfolding remove_trailing_spaces
remove_trailing_spaces-padded i j front y t =
    let x = replicate i space ++ (front ++ y ∷ []) in
    let reversed : skip_spaces (prepend_all x []) ≡ prepend_all x [] =
      rw (sym (append_assoc (replicate i space) front (y ∷ [])))
        (skip_spaces-reversed (replicate i space ++ front) y t.last) in
    rw
      (
        prepend_all-append x (replicate j space) [],
        skip_spaces-blanks j (prepend_all x []),
        reversed,
      )
      (prepend_all-twice x [] [] ∙ append-nil x)

pub remove_preceding_spaces-padded :
    (i : ℕ) (front : String) (y : ℕ)
    → IsTrimmed front y
    → remove_preceding_spaces (replicate i space ++ (front ++ y ∷ [])) ≡ front ++ y ∷ []
unfolding remove_preceding_spaces
remove_preceding_spaces-padded i front y t =
    skip_spaces-replicate i _ ∙ skip_spaces-stays (front ++ y ∷ []) t.first

str_eq_iff : (a b : String) → (str_eq a b ≡ true) ↔ (a ≡ b)
str_eq_iff [] [] = ground arith
str_eq_iff [] (d ∷ t) = ground arith
str_eq_iff (c ∷ s) [] = ground arith
str_eq_iff (c ∷ s) (d ∷ t) = ground (arith, str_eq_iff s t)

-- Blanks around two strings that are neither empty nor have blanks at their ends do not change how
-- `string_icmp` compares them: it tells whether the strings are the same in upper case.
pub string_icmp-padded :
    (i j k l : ℕ) (front front' : String) (y y' : ℕ)
    → IsTrimmed front y
    → IsTrimmed front' y'
    → (string_icmp (padded i (front ++ y ∷ []) j) (padded k (front' ++ y' ∷ []) l) ≡ true)
      ↔ (convert_to_uppercase (front ++ y ∷ []) ≡ convert_to_uppercase (front' ++ y' ∷ []))
unfolding string_icmp
string_icmp-padded i j k l front front' y y' t t' =
    rw
      (
        remove_trailing_spaces-padded i j front y t,
        remove_preceding_spaces-padded i front y t,
        remove_trailing_spaces-padded k l front' y' t',
        remove_preceding_spaces-padded k front' y' t',
      )
      (str_eq_iff (convert_to_uppercase (front ++ y ∷ []))
        (convert_to_uppercase (front' ++ y' ∷ [])))
