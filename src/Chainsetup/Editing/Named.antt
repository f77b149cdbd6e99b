-- ===== src/Chainsetup/Editing/Named.antt =====
-- Finding the first chain of a name, by a search over the chains and by its number.
use Prim.Native.String.{String}
use text.Mathlib.Text.{◌==◌ as str_eq}
use ecasound.Common.{
  ℕ, suc, ◌+◌, ◌<◌, ◌≡◌, refl, ap, ◌⊎◌, inl, inr, true, false, List, [], ◌∷◌, length, get_elem?,
  none, some, if◌then◌else◌, arith, Bool-cases,
}
use ecasound.Chain.{Chain}
use ecasound.Chainsetup.{Member, on_chain}
use ecasound.Chainsetup.Members.{exists, position_of}
use ecasound.Chainsetup.Members.Names.{str_eq_sym}
use ecasound.Chainsetup.Editing.{change_chain}

-- The chains with the first one of that name changed.
abbrev pub first_named : String → (Chain → Chain) → List Member → List Member
first_named p f [] = []
first_named p f (m ∷ ms) = if str_eq m.name p then on_chain f m ∷ ms else m ∷ first_named p f ms

-- What the first chain of that name gives.
abbrev pub of_first_named : {A : Type 0} → String → (Chain → List A) → List Member → List A
of_first_named p g [] = []
of_first_named p g (m ∷ ms) = if str_eq m.name p then g m.chain else of_first_named p g ms

pub record Found (p : String) (ms : List Member) (i : ℕ) : Type 1 where
  pub known : exists p ms ≡ true
  pub inside : i < length ms
  pub changed : (f : Chain → Chain) → change_chain f i ms ≡ first_named p f ms
  pub read :
      {A : Type 0} (g : Chain → List A)
      → (m : Member) × (get_elem? ms i ≡ some m) × (of_first_named p g ms ≡ g m.chain)

pub record Missing (p : String) (ms : List Member) : Type 1 where
  pub unknown : exists p ms ≡ false
  pub kept : (f : Chain → Chain) → first_named p f ms ≡ ms
  pub silent : {A : Type 0} (g : Chain → List A) → of_first_named p g ms ≡ []

str_eq_sym_true : (a b : String) → str_eq a b ≡ true → str_eq b a ≡ true
str_eq_sym_true a b h = elim (Bool-cases (str_eq b a)) [
  | inl t ↦ t
  | inr f ↦ absurd (ground (arith, str_eq_sym b a f))
]

pub position_of-cases :
    (p : String) (n : ℕ) (ms : List Member)
    → ((position_of p n ms ≡ none) × Missing p ms)
      ⊎ ((i : ℕ) × (position_of p n ms ≡ some (n + i)) × Found p ms i)
unfolding position_of exists change_chain
position_of-cases p n [] =
    inl (refl, record { unknown = refl; kept = λ f. refl; silent = λ g. refl })
position_of-cases p n (m ∷ ms) = elim (Bool-cases (str_eq m.name p)) [
  | inl same ↦
      let swapped = str_eq_sym_true m.name p same in
      inr (
        0,
        rw same (ap some (omega arith)),
        record {
          known = rw swapped refl;
          inside = omega arith;
          changed = λ f. rw same refl;
          read = λ g. (m, refl, rw same refl);
        },
      )
  | inr other ↦
      let swapped = str_eq_sym m.name p other in
      elim (position_of-cases p (suc n) ms) [
        | inl (nowhere, h) ↦ inl (
          rw other nowhere,
          record {
            unknown = rw (swapped, h.unknown) refl;
            kept = λ f. rw (other, h.kept f) refl;
            silent = λ g. rw other (h.silent g);
          },
        )
        | inr (i, at, h) ↦ inr (
          suc i,
          rw (other, at) (ap some (omega arith)),
          record {
            known = rw (swapped, h.known) refl;
            inside = let inside = h.inside in omega (arith, inside);
            changed = λ f. rw (other, h.changed f) refl;
            read = λ g. let (x, found, same) = h.read g in (x, found, rw other same);
          },
        )
      ]
]
