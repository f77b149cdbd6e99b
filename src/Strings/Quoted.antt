-- ===== src/Strings/Quoted.antt =====
-- Escaped words: what `string_regex_meta_escape` writes can be undone, and what
-- `string_shell_meta_escape` writes is read back by `string_to_tokens_quoted`.
use mathlib.Core.List.{append_assoc}
use ecasound.Common.{
  ℕ, ◌≡◌, ◌≢◌, refl, sym, ◌∙◌, ap, inl, inr, Bool, true, false, not, ◌&&◌, List, [], ◌∷◌, ◌++◌, map,
  ◌==◌, arith, Bool-cases,
}
use ecasound.Strings.{
  String, backslash, space, quote, is_space, push_word, quoted_from, string_to_tokens_quoted,
  vector_to_string, escape, is_regex_meta, string_regex_meta_escape, is_shell_meta,
  string_shell_meta_escape,
}
use ecasound.Strings.Tokens.{append-nil}

-- A backslash taken away from before each character that it quotes.
pub unescape : String → String
unescape [] = []
unescape (c ∷ []) = c ∷ []
unescape (c ∷ d ∷ s) = elim (c == backslash) [
  | true ↦ d ∷ unescape s
  | false ↦ c ∷ unescape (d ∷ s)
]

unescape-plain : (c : ℕ) (s : String) → (c == backslash) ≡ false → unescape (c ∷ s) ≡ c ∷ unescape s
unfolding unescape
unescape-plain c [] h = refl
unescape-plain c (d ∷ s) h = rw (h, unescape) refl

not_regex_meta : (c : ℕ) → is_regex_meta c ≡ false → (c == backslash) ≡ false
not_regex_meta c h = ground arith

unescape-escape : (s : String) → unescape (escape is_regex_meta s) ≡ s
unfolding escape unescape
unescape-escape [] = refl
unescape-escape (c ∷ s) = elim (Bool-cases (is_regex_meta c)) [
  | inl e ↦ rw e (ap (◌∷◌ c) (unescape-escape s))
  | inr e ↦ rw e (unescape-plain c _ (not_regex_meta c e) ∙ ap (◌∷◌ c) (unescape-escape s))
]

-- Taking the backslashes away undoes `string_regex_meta_escape`, on every string.
pub unescape-string_regex_meta_escape :
    (arg : String) → unescape (string_regex_meta_escape arg) ≡ arg
unfolding string_regex_meta_escape
unescape-string_regex_meta_escape arg = unescape-escape arg

-- No backslash, and no white space but blanks.
abbrev pub IsOrdinary : String → Type 0
IsOrdinary [] = Unit
IsOrdinary (c ∷ s) =
    ((c == backslash) ≡ false) × ((is_space c && not (c == space)) ≡ false) × IsOrdinary s

abbrev pub AreOrdinary : List String → Type 0
AreOrdinary [] = Unit
AreOrdinary (w ∷ words) = (w ≢ []) × IsOrdinary w × AreOrdinary words

quoted_from-escaped :
    (q : Bool) (stmp : String) (d : ℕ) (s : String)
    → quoted_from q stmp (backslash ∷ d ∷ s) ≡ quoted_from q (stmp ++ d ∷ []) s
unfolding quoted_from
quoted_from-escaped q stmp d s = refl

quoted_from-plain :
    (q : Bool) (stmp : String) (c : ℕ) (s : String)
    → (c == quote) ≡ false
    → (c == backslash) ≡ false
    → is_space c ≡ false
    → quoted_from q stmp (c ∷ s) ≡ quoted_from q (stmp ++ c ∷ []) s
unfolding quoted_from
quoted_from-plain q stmp c [] h k l = rw (h, k, l) refl
quoted_from-plain q stmp c (d ∷ s) h k l = rw (h, k, l, quoted_from) refl

quoted_from-blank :
    (stmp s : String) → quoted_from false stmp (space ∷ s) ≡ push_word stmp (quoted_from false [] s)
unfolding quoted_from
quoted_from-blank stmp [] = refl
quoted_from-blank stmp (d ∷ s) = refl

not_meta :
    (c : ℕ)
    → is_shell_meta c ≡ false
    → (is_space c && not (c == space)) ≡ false
    → ((c == quote) ≡ false) × (is_space c ≡ false)
not_meta c h k = ground arith

quoted_from-word :
    (stmp w s : String)
    → IsOrdinary w
    → quoted_from false stmp (escape is_shell_meta w ++ s) ≡ quoted_from false (stmp ++ w) s
unfolding escape
quoted_from-word stmp [] s a = rw (append-nil stmp) refl
quoted_from-word stmp (c ∷ w) s a =
    let step = quoted_from-word (stmp ++ c ∷ []) w s a.2 ∙ rw append_assoc refl in
    elim (Bool-cases (is_shell_meta c)) [
      | inl e ↦ rw e (quoted_from-escaped false stmp c _ ∙ step)
      | inr e ↦
          rw e
            (quoted_from-plain false stmp c _ (not_meta c e a.1).0 a.0 (not_meta c e a.1).1 ∙ step)
    ]

push_word-word : (w : String) (words : List String) → w ≢ [] → push_word w words ≡ w ∷ words
push_word-word [] words h = absurd (h refl)
push_word-word (c ∷ w) words h = refl

quoted_from-end : (w : String) → w ≢ [] → quoted_from false w [] ≡ w ∷ []
unfolding quoted_from
quoted_from-end w h = push_word-word w [] h

quoted_from-words :
    (words : List String)
    → AreOrdinary words
    → quoted_from false [] (vector_to_string (map (escape is_shell_meta) words) (space ∷ []))
      ≡ words
unfolding vector_to_string quoted_from
quoted_from-words [] a = refl
quoted_from-words (w ∷ []) a =
    ap (quoted_from false []) (sym (append-nil (escape is_shell_meta w)))
    ∙ quoted_from-word [] w [] a.1
    ∙ quoted_from-end w a.0
quoted_from-words (w ∷ v ∷ words) a =
    let rest = vector_to_string (map (escape is_shell_meta) (v ∷ words)) (space ∷ []) in
    ap (quoted_from false []) (append_assoc (escape is_shell_meta w) (space ∷ []) rest)
    ∙ quoted_from-word [] w (space ∷ rest) a.1
    ∙ quoted_from-blank w rest
    ∙ push_word-word w (quoted_from false [] rest) a.0
    ∙ ap (◌∷◌ w) (quoted_from-words (v ∷ words) a.2)

-- Words that are not empty and hold no backslash and no white space but blanks, each quoted by
-- `string_shell_meta_escape` and then joined by blanks, are read back by `string_to_tokens_quoted`.
pub string_to_tokens_quoted-string_shell_meta_escape :
    (words : List String)
    → AreOrdinary words
    → string_to_tokens_quoted (vector_to_string (map string_shell_meta_escape words) (space ∷ []))
      ≡ words
unfolding string_to_tokens_quoted string_shell_meta_escape
string_to_tokens_quoted-string_shell_meta_escape words a = quoted_from-words words a
