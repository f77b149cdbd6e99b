-- ===== src/Strings/Arguments/Ends.antt =====
-- The loops over a formatted string end: `get_arguments` gives a vector for every string.
use mathlib.Core.Option
use ecasound.Common.{
  ℕ, zero, suc, ◌+◌, ◌-◌, ◌≤◌, ◌<◌, ◌≡◌, ◌≢◌, refl, ◌∙◌, inl, inr, true, false, List, [], ◌∷◌, ◌++◌,
  some, ◌==◌, ==_eq, ==_ne, ltb, arith, take, drop, length, length-append, length-take, length-drop,
  Bool-cases, Option-cases, if◌then◌else◌, ℕ_discrete,
}
use ecasound.Strings.{String, quote, comma, colon}
use ecasound.Strings.Arguments.{
  index_of, find_from, candidate, is_escaped, next_instance, find_next_instance, find_escape,
  strip_loop, strip_escapes, string_strip_outer_quotes, argument, last_empty, arguments_from,
  get_arguments,
}

index_of-le : (value : ℕ) (s : String) → index_of value s ≤ length s
index_of-le value [] = omega arith
index_of-le value (c ∷ s) = ground (arith, index_of-le value s)

-- A search that starts inside the string, or at its end, stays there.
pub find_from-le :
    (arg : String) (start value : ℕ)
    → start ≤ length arg
    → (start ≤ find_from arg start value) × (find_from arg start value ≤ length arg)
unfolding find_from
find_from-le arg start value h =
    ground (arith, index_of-le value (drop start arg), length-drop start arg)

candidate-le :
    (arg : String) (curpos value : ℕ)
    → curpos ≤ length arg
    → (curpos ≤ candidate arg curpos value) × (candidate arg curpos value ≤ length arg)
unfolding candidate
candidate-le arg curpos value h =
    let nextquote = find_from arg curpos quote in
    let closing = find_from arg (suc nextquote) quote in
    ground (
      arith,
      find_from-le arg curpos value h,
      find_from-le arg curpos quote h,
      find_from-le arg (suc nextquote) quote,
      find_from-le arg (suc closing) value,
    )

is_escaped-inside :
    (arg : String) (ret : ℕ) → is_escaped arg ret ≡ true → ret ≤ length arg → suc ret ≤ length arg
unfolding is_escaped
is_escaped-inside arg ret h l = ground arith

pub next_instance-stop :
    (fuel : ℕ) (arg : String) (curpos ret value : ℕ)
    → curpos ≡ length arg
    → next_instance (suc fuel) arg curpos ret value ≡ some ret
unfolding next_instance
next_instance-stop fuel arg curpos ret value h =
    rw (==_eq curpos (length arg) h, next_instance) refl

pub next_instance-found :
    (fuel : ℕ) (arg : String) (curpos ret value : ℕ)
    → curpos ≢ length arg
    → is_escaped arg (candidate arg curpos value) ≡ false
    → next_instance (suc fuel) arg curpos ret value ≡ some (candidate arg curpos value)
unfolding next_instance
next_instance-found fuel arg curpos ret value h e =
    rw (==_ne curpos (length arg) h, e, next_instance) refl

pub next_instance-escaped :
    (fuel : ℕ) (arg : String) (curpos ret value : ℕ)
    → curpos ≢ length arg
    → is_escaped arg (candidate arg curpos value) ≡ true
    → next_instance (suc fuel) arg curpos ret value
      ≡ next_instance fuel arg (suc (candidate arg curpos value)) (candidate arg curpos value) value
unfolding next_instance
next_instance-escaped fuel arg curpos ret value h e =
    rw (==_ne curpos (length arg) h, e, next_instance) refl

next_instance-ends :
    (fuel : ℕ) (arg : String) (curpos ret value : ℕ)
    → curpos ≤ length arg
    → (start : ℕ) → start ≤ curpos
    → start ≤ ret
    → ret ≤ length arg
    → length arg - curpos < fuel
    → (e : ℕ) × (next_instance fuel arg curpos ret value ≡ some e) × (start ≤ e) × (e ≤ length arg)
next_instance-ends zero arg curpos ret value h start a b k l = absurd (omega arith)
next_instance-ends (suc fuel) arg curpos ret value h start a b k l =
    let c = candidate-le arg curpos value h in
    elim (ℕ_discrete curpos (length arg)) [
      | yes e ↦ (ret, next_instance-stop fuel arg curpos ret value e, b, k)
      | no n ↦ elim (Bool-cases (is_escaped arg (candidate arg curpos value))) [
        | inr e ↦ (
          candidate arg curpos value,
          next_instance-found fuel arg curpos ret value n e,
          omega (arith, c.0),
          c.1,
        )
        | inl e ↦
            let i = is_escaped-inside arg (candidate arg curpos value) e c.1 in
            let r =
              next_instance-ends fuel arg (suc (candidate arg curpos value))
                (candidate arg curpos value) value i start (omega (arith, c.0)) (omega (arith, c.0))
                c.1 (omega (arith, c.0)) in
            (r.0, next_instance-escaped fuel arg curpos ret value n e ∙ r.1, r.2, r.3)
      ]
    ]

find_escape-fits : (c : ℕ) (s : String) (p : ℕ) → find_escape c s ≡ some p → suc (suc p) ≤ length s
find_escape-fits c [] p h = ground arith
find_escape-fits c (d ∷ []) p h = ground arith
find_escape-fits c (d ∷ x ∷ s) zero h = omega arith
find_escape-fits c (d ∷ x ∷ s) (suc p) h = ground (arith, find_escape-fits c (x ∷ s) p)

strip_loop-ends :
    (fuel : ℕ) (s : String) (c : ℕ)
    → length s < fuel
    → (r : String) × (strip_loop fuel s c ≡ some r)
unfolding strip_loop
strip_loop-ends zero s c l = absurd (omega arith)
strip_loop-ends (suc fuel) s c l = elim (Option-cases (find_escape c s)) [
  | inl e ↦ (s, rw (e, strip_loop) refl)
  | inr (p, e) ↦
      let f = find_escape-fits c s p e in
      let r = strip_loop-ends fuel (take p s ++ c ∷ drop (p + 2) s) c (
        omega (
          arith,
          length-append (take p s) (c ∷ drop (p + 2) s),
          length-take p s,
          length-drop (p + 2) s,
        )) in
      (r.0, rw (e, strip_loop) r.1)
]

argument-ends : (s : String) → (r : String) × (argument s ≡ some r)
unfolding argument strip_escapes
argument-ends s =
    let a = strip_loop-ends (suc (length s)) s comma (omega arith) in
    let b = strip_loop-ends (suc (length a.0)) a.0 colon (omega arith) in
    (string_strip_outer_quotes b.0 quote, rw (a.1, b.1) refl)

find_next_instance-ends :
    (arg : String) (start value : ℕ)
    → start ≤ length arg
    → (e : ℕ) × (find_next_instance arg start value ≡ some e) × (start ≤ e) × (e ≤ length arg)
unfolding find_next_instance
find_next_instance-ends arg start value h =
    next_instance-ends (suc (length arg)) arg start (length arg) value h start (omega arith) h
      (omega arith) (omega arith)

pub arguments_from-end :
    (fuel : ℕ) (argu : String) (b : ℕ)
    → b ≡ length argu
    → arguments_from (suc fuel) argu b ≡ some []
unfolding arguments_from
arguments_from-end fuel argu b h = rw (==_eq b (length argu) h, arguments_from) refl

pub arguments_from-last :
    (fuel : ℕ) (argu : String) (b e : ℕ) (target : String)
    → b ≢ length argu
    → find_next_instance argu b comma ≡ some e
    → argument (take (e - b) (drop b argu)) ≡ some target
    → e ≡ length argu
    → arguments_from (suc fuel) argu b ≡ some (target ∷ [])
unfolding arguments_from
arguments_from-last fuel argu b e target h f t l =
    rw (==_ne b (length argu) h, arguments_from, f, t, ==_eq e (length argu) l) refl

pub arguments_from-next :
    (fuel : ℕ) (argu : String) (b e : ℕ) (target : String)
    → b ≢ length argu
    → find_next_instance argu b comma ≡ some e
    → argument (take (e - b) (drop b argu)) ≡ some target
    → e ≢ length argu
    → arguments_from (suc fuel) argu b
      ≡ Option.map (λ rest. target ∷ last_empty argu e ++ rest) (arguments_from fuel argu (suc e))
unfolding arguments_from
arguments_from-next fuel argu b e target h f t l =
    rw (==_ne b (length argu) h, arguments_from, f, t, ==_ne e (length argu) l) refl

arguments_from-ends :
    (fuel : ℕ) (argu : String) (b : ℕ)
    → b ≤ length argu
    → length argu - b < fuel
    → (r : List String) × (arguments_from fuel argu b ≡ some r)
arguments_from-ends zero argu b h l = absurd (omega arith)
arguments_from-ends (suc fuel) argu b h l =
    let e = find_next_instance-ends argu b comma h in
    let t = argument-ends (take (e.0 - b) (drop b argu)) in
    elim (ℕ_discrete b (length argu)) [
      | yes p ↦ ([], arguments_from-end fuel argu b p)
      | no p ↦ elim (ℕ_discrete e.0 (length argu)) [
        | yes q ↦ (t.0 ∷ [], arguments_from-last fuel argu b e.0 t.0 p e.1 t.1 q)
        | no q ↦
            let r =
              arguments_from-ends fuel argu (suc e.0) (omega (arith, e.3)) (omega (arith, e.2)) in
            (
              t.0 ∷ last_empty argu e.0 ++ r.0,
              arguments_from-next fuel argu b e.0 t.0 p e.1 t.1 q ∙ rw r.1 refl,
            )
      ]
    ]

pub get_arguments-run :
    (argu : String) (b : ℕ)
    → find_next_instance argu 0 colon ≡ some b
    → get_arguments argu ≡ (
        if b == length argu
        then if ltb 0 (length argu) then arguments_from (suc (length argu)) argu 0 else some []
        else arguments_from (suc (length argu)) argu (suc b))
unfolding get_arguments
get_arguments-run argu b h = rw h refl

-- Every string has its arguments: the searches for a colon and for commas, the removal of
-- backslashes and the loop over the arguments all end.
pub get_arguments-ends : (argu : String) → (r : List String) × (get_arguments argu ≡ some r)
get_arguments-ends argu =
    let b = find_next_instance-ends argu 0 colon (omega arith) in
    elim (ℕ_discrete b.0 (length argu)) [
      | yes p ↦
          let r = arguments_from-ends (suc (length argu)) argu 0 (omega arith) (omega arith) in
          elim (Bool-cases (ltb 0 (length argu))) [
            | inl t ↦ (r.0, get_arguments-run argu b.0 b.1 ∙ rw (==_eq b.0 (length argu) p, t) r.1)
            | inr t ↦ ([], get_arguments-run argu b.0 b.1 ∙ rw (==_eq b.0 (length argu) p, t) refl)
          ]
      | no p ↦
          let r =
            arguments_from-ends (suc (length argu)) argu (suc b.0) (omega (arith, b.3))
              (omega arith) in
          (r.0, get_arguments-run argu b.0 b.1 ∙ rw (==_ne b.0 (length argu) p) r.1)
    ]
