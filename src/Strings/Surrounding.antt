-- ===== src/Strings/Surrounding.antt =====
-- `remove_surrounding_spaces`, against the two functions that remove the blanks at one end.
use mathlib.Core.List.{append_assoc}
use ecasound.Common.{
  ℕ, zero, suc, ◌+◌, ◌-◌, ◌≤◌, ◌<◌, ◌≡◌, refl, sym, ◌∙◌, ap, true, false, [], ◌∷◌, ◌++◌, none, some,
  ◌==◌, leb, arith, take, drop, length, length-append, length-replicate, get_elem?, replicate,
  ℕ_discrete,
}
use ecasound.Strings.{
  String, space, remove_trailing_spaces, remove_preceding_spaces, count_spaces, is_blank_at,
  step_back, remove_surrounding_spaces,
}
use ecasound.Strings.Spaces.{
  padded, IsTrimmed, remove_trailing_spaces-padded, remove_preceding_spaces-padded,
}

count_spaces-padded :
    (i : ℕ) (m : String)
    → is_blank_at (get_elem? m 0) ≡ false
    → count_spaces (replicate i space ++ m) ≡ i
count_spaces-padded zero [] h = refl
count_spaces-padded zero (c ∷ m) h = ground arith
count_spaces-padded (suc i) m h = ap suc (count_spaces-padded i m h)

-- The step back ends at the last character before the blanks.
step_back-blanks :
    (a : String) (k q : ℕ)
    → k ≤ q
    → is_blank_at (get_elem? a k) ≡ false
    → ((d : ℕ) → k < d → d ≤ q → is_blank_at (get_elem? a d) ≡ true)
    → step_back a q ≡ k
step_back-blanks a k zero l h b = omega arith
step_back-blanks a k (suc q) l h b = elim (ℕ_discrete k (suc q)) [
  | yes e ↦ rw (sym e, h) refl
  | no n ↦
      rw (b (suc q) (omega arith) (omega arith))
        (step_back-blanks a k q (omega arith) h (λ d x y. b d x (omega arith)))
]

get_elem?-append_ge :
    (xs ys : String) (q : ℕ) → length xs ≤ q → get_elem? (xs ++ ys) q ≡ get_elem? ys (q - length xs)
get_elem?-append_ge [] ys q h = ap (get_elem? ys) (omega arith)
get_elem?-append_ge (x ∷ xs) ys zero h = absurd (omega arith)
get_elem?-append_ge (x ∷ xs) ys (suc q) h =
    get_elem?-append_ge xs ys q (omega arith) ∙ ap (get_elem? ys) (omega arith)

get_elem?-replicate : (n q : ℕ) (c : ℕ) → q < n → get_elem? (replicate n c) q ≡ some c
get_elem?-replicate zero q c h = absurd (omega arith)
get_elem?-replicate (suc n) zero c h = refl
get_elem?-replicate (suc n) (suc q) c h = get_elem?-replicate n q c (omega arith)

drop-append : (xs ys : String) → drop (length xs) (xs ++ ys) ≡ ys
drop-append [] ys = refl
drop-append (x ∷ xs) ys = drop-append xs ys

take-append : (xs ys : String) → take (length xs) (xs ++ ys) ≡ xs
take-append [] ys = refl
take-append (x ∷ xs) ys = ap (◌∷◌ x) (take-append xs ys)

le→leb : (a b : ℕ) → a ≤ b → leb a b ≡ true
le→leb a b h = ground arith

-- The end of a padded string, seen from its last character that is not a blank.
get_elem?-end :
    (pre : String) (y j : ℕ) → get_elem? (pre ++ y ∷ replicate j space) (length pre) ≡ some y
get_elem?-end [] y j = refl
get_elem?-end (x ∷ pre) y j = get_elem?-end pre y j

get_elem?-blanks :
    (pre : String) (y j d : ℕ)
    → length pre < d
    → d ≤ length pre + j
    → get_elem? (pre ++ y ∷ replicate j space) d ≡ some space
get_elem?-blanks pre y j zero h k = absurd (omega arith)
get_elem?-blanks [] y j (suc d) h k = get_elem?-replicate j d space (omega arith)
get_elem?-blanks (x ∷ pre) y j (suc d) h k = get_elem?-blanks pre y j d (omega arith) (omega arith)

step_back-padded :
    (pre : String) (y j : ℕ)
    → (y == space) ≡ false
    → step_back (pre ++ y ∷ replicate j space) (length pre + j) ≡ length pre
step_back-padded pre y j h =
    step_back-blanks _ (length pre) (length pre + j) (omega arith) (rw (get_elem?-end pre y j) h)
      (λ d k l. rw (get_elem?-blanks pre y j d k l) refl)

-- `remove_surrounding_spaces` on a string that is not empty.
remove_surrounding_spaces-run :
    (a : String) (q : ℕ)
    → length a ≡ suc q
    → count_spaces a ≤ suc (step_back a q)
    → remove_surrounding_spaces a
      ≡ some (take (suc (step_back a q) - count_spaces a) (drop (count_spaces a) a))
unfolding remove_surrounding_spaces
remove_surrounding_spaces-run [] q h l = absurd (omega arith)
remove_surrounding_spaces-run (c ∷ s) q h l =
    let e : length s ≡ q = omega arith in
    rw (e, le→leb (count_spaces (c ∷ s)) (suc (step_back (c ∷ s) q)) l) refl

first_of :
    (front r : String) (y : ℕ) → get_elem? (front ++ y ∷ [] ++ r) 0 ≡ get_elem? (front ++ y ∷ []) 0
first_of [] r y = refl
first_of (c ∷ front) r y = refl

count_spaces-all :
    (i j : ℕ) (front : String) (y : ℕ)
    → IsTrimmed front y
    → count_spaces (padded i (front ++ y ∷ []) j) ≡ i
count_spaces-all i j front y t =
    rw (append_assoc (replicate i space) (front ++ y ∷ []) (replicate j space))
      (count_spaces-padded i _ (rw (first_of front (replicate j space) y) t.first))

step_back-all :
    (i j : ℕ) (front : String) (y : ℕ)
    → IsTrimmed front y
    → step_back (padded i (front ++ y ∷ []) j) (i + length front + j) ≡ i + length front
step_back-all i j front y t =
    let pre = replicate i space ++ front in
    let n : i + length front ≡ length pre =
      omega (arith, length-append (replicate i space) front, length-replicate i space) in
    let last : padded i (front ++ y ∷ []) j ≡ pre ++ y ∷ replicate j space =
      rw (sym (append_assoc (replicate i space) front (y ∷ [])))
        (append_assoc pre (y ∷ []) (replicate j space)) in
    rw (last, n) (step_back-padded pre y j t.last)

length-padded :
    (i j : ℕ) (front : String) (y : ℕ)
    → length (padded i (front ++ y ∷ []) j) ≡ suc (i + length front + j)
length-padded i j front y = omega (
  arith,
  length-append (replicate i space ++ (front ++ y ∷ [])) (replicate j space),
  length-append (replicate i space) (front ++ y ∷ []),
  length-append front (y ∷ []),
  length-replicate i space,
  length-replicate j space,
)

middle : (i j n : ℕ) (m : String) → n ≡ length m → take n (drop i (padded i m j)) ≡ m
middle i j n m h =
    let e : drop i (padded i m j) ≡ m ++ replicate j space =
      rw (append_assoc (replicate i space) m (replicate j space)) (
        ap (λ k. drop k (replicate i space ++ (m ++ replicate j space)))
          (sym (length-replicate i space))
        ∙ drop-append (replicate i space) (m ++ replicate j space)) in
    rw (e, h) (take-append m (replicate j space))

-- On a string that is not only blanks, `remove_surrounding_spaces` leaves what is left by
-- `remove_trailing_spaces` and then `remove_preceding_spaces`: what stands between the blanks.
pub remove_surrounding_spaces-padded :
    (i j : ℕ) (front : String) (y : ℕ)
    → IsTrimmed front y
    → let a = padded i (front ++ y ∷ []) j in
      (remove_surrounding_spaces a ≡ some (front ++ y ∷ []))
      × (remove_preceding_spaces (remove_trailing_spaces a) ≡ front ++ y ∷ [])
remove_surrounding_spaces-padded i j front y t =
    let m = front ++ y ∷ [] in
    let a = padded i m j in
    let q = i + length front + j in
    let b = step_back-all i j front y t in
    let c = count_spaces-all i j front y t in
    (
      remove_surrounding_spaces-run a q (length-padded i j front y) (omega (arith, b, c))
          ∙ ap some (
              rw c (
                middle i j (suc (step_back a q) - i) m
                  (omega (arith, b, length-append front (y ∷ []))))),
      rw (remove_trailing_spaces-padded i j front y t) (remove_preceding_spaces-padded i front y t),
    )

step_back-to_start :
    (a : String) (q : ℕ)
    → ((d : ℕ) → 0 < d → d ≤ q → is_blank_at (get_elem? a d) ≡ true)
    → step_back a q ≡ 0
step_back-to_start a zero b = refl
step_back-to_start a (suc q) b =
    rw (b (suc q) (omega arith) (omega arith))
      (step_back-to_start a q (λ d x y. b d x (omega arith)))

count_spaces-replicate : (n : ℕ) → count_spaces (replicate n space) ≡ n
count_spaces-replicate zero = refl
count_spaces-replicate (suc n) = ap suc (count_spaces-replicate n)

lt→leb : (a b : ℕ) → b < a → leb a b ≡ false
lt→leb a b h = ground arith

remove_surrounding_spaces-reversed :
    (a : String) (q : ℕ)
    → length a ≡ suc q
    → suc (step_back a q) < count_spaces a
    → remove_surrounding_spaces a ≡ none
unfolding remove_surrounding_spaces
remove_surrounding_spaces-reversed [] q h l = refl
remove_surrounding_spaces-reversed (c ∷ s) q h l =
    let e : length s ≡ q = omega arith in
    rw (e, lt→leb (count_spaces (c ∷ s)) (suc (step_back (c ∷ s) q)) l) refl

-- On two blanks or more and nothing else, `remove_surrounding_spaces` forms a range that ends before
-- it starts.
remove_surrounding_spaces-blanks :
    (n : ℕ) → 1 < n → remove_surrounding_spaces (replicate n space) ≡ none
remove_surrounding_spaces-blanks zero h = absurd (omega arith)
remove_surrounding_spaces-blanks (suc q) h =
    let a = replicate (suc q) space in
    let z =
      step_back-to_start a q
        (λ d l k. rw (get_elem?-replicate (suc q) d space (omega arith)) refl) in
    remove_surrounding_spaces-reversed a q (length-replicate (suc q) space)
      (omega (arith, z, count_spaces-replicate (suc q)))
