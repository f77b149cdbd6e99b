-- ===== src/Strings/Tokens.antt =====
-- What `string_to_tokens` and `string_to_vector` leave of a string, and the round trip through
-- `vector_to_string`.
use mathlib.Core.List.{append_assoc}
use ecasound.Common.{
  ℕ, ◌≡◌, ◌≢◌, refl, sym, ◌∙◌, ap, inl, inr, Bool, true, false, List, [], ◌∷◌, ◌++◌, ◌==◌, ==_eq,
  arith, Bool-cases, if◌then◌else◌,
}
use ecasound.Strings.{
  String, is_space, push_word, split_from, string_to_tokens, string_to_vector, vector_to_string,
}

-- No character of the string is a separator.
abbrev pub IsWhole : (ℕ → Bool) → String → Type 0
IsWhole sep [] = Unit
IsWhole sep (c ∷ s) = (sep c ≡ false) × IsWhole sep s

-- Every word is non-empty and holds no separator.
abbrev pub AreTokens : (ℕ → Bool) → List String → Type 0
AreTokens sep [] = Unit
AreTokens sep (w ∷ words) = (w ≢ []) × IsWhole sep w × AreTokens sep words

abbrev pub concat : List String → String
concat [] = []
concat (w ∷ words) = w ++ concat words

-- The characters that are no separators, in order.
abbrev pub without : (ℕ → Bool) → String → String
without sep [] = []
without sep (c ∷ s) = let rest = without sep s in if sep c then rest else c ∷ rest

pub append-nil : (s : String) → s ++ [] ≡ s
append-nil [] = refl
append-nil (c ∷ s) = rw (append-nil s)

append-ne : (s : String) (c : ℕ) → s ++ c ∷ [] ≢ []
append-ne [] c h = ground arith
append-ne (d ∷ s) c h = ground arith

append-IsWhole :
    (sep : ℕ → Bool) (s t : String) → IsWhole sep s → IsWhole sep t → IsWhole sep (s ++ t)
append-IsWhole sep [] t a b = b
append-IsWhole sep (c ∷ s) t a b = (a.0, append-IsWhole sep s t a.1 b)

push_word-AreTokens :
    (sep : ℕ → Bool) (stmp : String) (words : List String)
    → IsWhole sep stmp
    → AreTokens sep words
    → AreTokens sep (push_word stmp words)
push_word-AreTokens sep [] words a b = b
push_word-AreTokens sep (c ∷ stmp) words a b = (λ e. ground arith, a, b)

concat-push_word :
    (stmp : String) (words : List String) → concat (push_word stmp words) ≡ stmp ++ concat words
concat-push_word [] words = refl
concat-push_word (c ∷ stmp) words = refl

split_from-separator :
    (sep : ℕ → Bool) (stmp : String) (c : ℕ) (s : String)
    → sep c ≡ true
    → split_from sep stmp (c ∷ s) ≡ push_word stmp (split_from sep [] s)
unfolding split_from
split_from-separator sep stmp c s e = rw (e, split_from) refl

split_from-plain :
    (sep : ℕ → Bool) (stmp : String) (c : ℕ) (s : String)
    → sep c ≡ false
    → split_from sep stmp (c ∷ s) ≡ split_from sep (stmp ++ c ∷ []) s
unfolding split_from
split_from-plain sep stmp c s e = rw (e, split_from) refl

split_from-AreTokens :
    (sep : ℕ → Bool) (stmp s : String) → IsWhole sep stmp → AreTokens sep (split_from sep stmp s)
unfolding split_from
split_from-AreTokens sep stmp [] a = push_word-AreTokens sep stmp [] a tt
split_from-AreTokens sep stmp (c ∷ s) a = elim (Bool-cases (sep c)) [
  | inl e ↦
      rw (split_from-separator sep stmp c s e)
        (push_word-AreTokens sep stmp _ a (split_from-AreTokens sep [] s tt))
  | inr e ↦
      rw (split_from-plain sep stmp c s e)
        (split_from-AreTokens sep (stmp ++ c ∷ []) s (append-IsWhole sep stmp _ a (e, tt)))
]

concat-split_from :
    (sep : ℕ → Bool) (stmp s : String) → concat (split_from sep stmp s) ≡ stmp ++ without sep s
unfolding split_from
concat-split_from sep stmp [] = concat-push_word stmp []
concat-split_from sep stmp (c ∷ s) = elim (Bool-cases (sep c)) [
  | inl e ↦
      rw
        (
          split_from-separator sep stmp c s e,
          concat-push_word stmp (split_from sep [] s),
          concat-split_from sep [] s,
          e,
        )
        refl
  | inr e ↦
      rw (split_from-plain sep stmp c s e, concat-split_from sep (stmp ++ c ∷ []) s, e)
        (append_assoc stmp (c ∷ []) (without sep s))
]

-- The words that `string_to_tokens` finds are not empty and hold no white space, and together they
-- hold all characters of the string that are not white space, in order.
pub string_to_tokens-AreTokens :
    (s : String)
    → AreTokens is_space (string_to_tokens s) × (concat (string_to_tokens s) ≡ without is_space s)
unfolding string_to_tokens
string_to_tokens-AreTokens s =
    (split_from-AreTokens is_space [] s tt, concat-split_from is_space [] s)

-- A word is read to its end.
split_from-word :
    (sep : ℕ → Bool) (stmp w s : String)
    → IsWhole sep w
    → split_from sep stmp (w ++ s) ≡ split_from sep (stmp ++ w) s
unfolding split_from
split_from-word sep stmp [] s a = rw (append-nil stmp) refl
split_from-word sep stmp (c ∷ w) s a =
    split_from-plain sep stmp c (w ++ s) a.0
    ∙ split_from-word sep (stmp ++ c ∷ []) w s a.1
    ∙ rw append_assoc refl

push_word-ne : (w : String) (words : List String) → w ≢ [] → push_word w words ≡ w ∷ words
push_word-ne [] words h = absurd (h refl)
push_word-ne (c ∷ w) words h = refl

-- A word alone, and a word before a separator.
split_from-last :
    (sep : ℕ → Bool) (w : String) → w ≢ [] → IsWhole sep w → split_from sep [] w ≡ w ∷ []
unfolding split_from
split_from-last sep w h a =
    ap (split_from sep []) (sym (append-nil w))
    ∙ split_from-word sep [] w [] a
    ∙ push_word-ne w [] h

split_from-first :
    (sep : ℕ → Bool) (w : String) (c : ℕ) (s : String)
    → w ≢ []
    → IsWhole sep w
    → sep c ≡ true
    → split_from sep [] (w ++ c ∷ s) ≡ w ∷ split_from sep [] s
split_from-first sep w c s h a e =
    split_from-word sep [] w (c ∷ s) a ∙ split_from-separator sep w c s e ∙ push_word-ne w _ h

split_from-vector_to_string :
    (sep : ℕ → Bool) (c : ℕ)
    → sep c ≡ true
    → (words : List String) → AreTokens sep words
    → split_from sep [] (vector_to_string words (c ∷ [])) ≡ words
unfolding split_from vector_to_string
split_from-vector_to_string sep c h [] a = refl
split_from-vector_to_string sep c h (w ∷ []) a = split_from-last sep w a.0 a.1
split_from-vector_to_string sep c h (w ∷ v ∷ words) a =
    let rest = vector_to_string (v ∷ words) (c ∷ []) in
    ap (split_from sep []) (append_assoc w (c ∷ []) rest)
    ∙ split_from-first sep w c rest a.0 a.1 h
    ∙ ap (◌∷◌ w) (split_from-vector_to_string sep c h (v ∷ words) a.2)

-- Words that are not empty and hold no separator come back from the string that joins them by one.
pub string_to_vector-vector_to_string :
    (words : List String) (separator : ℕ)
    → AreTokens (λ c. c == separator) words
    → string_to_vector (vector_to_string words (separator ∷ [])) separator ≡ words
unfolding string_to_vector
string_to_vector-vector_to_string words separator a =
    split_from-vector_to_string (λ c. c == separator) separator (==_eq separator separator refl)
      words a
