-- ===== src/Chainsetup/Members/Names.antt =====
-- Chains have different names, and removing the selected ones removes those and no others.
use Prim.Native.String.{String}
use text.Mathlib.Text.{◌==◌ as str_eq}
use text.Mathlib.TextEquality.{eq_iff}
use text.Mathlib.TextPositions.{eq_refl}
use mathlib.Core.List.{append-nil, append_assoc}
use ecasound.Common.{
  ◌≡◌, refl, sym, ap, ◌∙◌, inl, inr, true, false, List, [], ◌∷◌, ◌++◌, arith, if◌then◌else◌,
  Bool-cases,
}
use ecasound.Common.Int.{ℤ}
use ecasound.Chain.{Chain}
use ecasound.Chainsetup.{Member, Chainsetup}
use ecasound.Chainsetup.Attaching.{is_selected}
use ecasound.Chainsetup.Members.{
  add_chain_helper, exists, add_names, add_new_chains, remove_named, remove_each, remove_chains,
}

-- No chain has that name.
abbrev pub Unused : String → List Member → Type 0
Unused p [] = Unit
Unused p (m ∷ ms) = (str_eq p m.name ≡ false) × Unused p ms

abbrev pub AllNamed : List Member → Type 0
AllNamed [] = Unit
AllNamed (m ∷ ms) = Unused m.name ms × AllNamed ms

-- The chains without a selected name, in order.
abbrev pub unselected : List String → List Member → List Member
unselected ids [] = []
unselected ids (m ∷ ms) =
    if is_selected m.name ids then unselected ids ms else m ∷ unselected ids ms

abbrev others : String → List Member → List Member
others p [] = []
others p (m ∷ ms) = if str_eq p m.name then others p ms else m ∷ others p ms

Unused-others : (p q : String) (ms : List Member) → Unused q ms → Unused q (others p ms)
Unused-others p q [] h = tt
Unused-others p q (m ∷ ms) h = ground (arith, Unused-others p q ms h.1)

AllNamed-others : (p : String) (ms : List Member) → AllNamed ms → AllNamed (others p ms)
AllNamed-others p [] h = tt
AllNamed-others p (m ∷ ms) h =
    ground (arith, AllNamed-others p ms h.1, Unused-others p m.name ms h.0)

others_same : (p : String) (ms : List Member) → Unused p ms → others p ms ≡ ms
others_same p [] h = refl
others_same p (m ∷ ms) h = rw h.0 (ap (λ l. m ∷ l) (others_same p ms h.1))

remove_named_lem : (p : String) (ms : List Member) → AllNamed ms → remove_named p ms ≡ others p ms
unfolding remove_named
remove_named_lem p [] h = refl
remove_named_lem p (m ∷ ms) h = elim (Bool-cases (str_eq p m.name)) [
  | inl same ↦
      let e : p ≡ m.name = (eq_iff p m.name).0 same in
      let u : Unused p ms = rw e h.0 in rw same (sym (others_same p ms u))
  | inr other ↦ rw other (ap (λ l. m ∷ l) (remove_named_lem p ms h.1))
]

unselected-others :
    (p : String) (ps : List String) (ms : List Member)
    → unselected ps (others p ms) ≡ unselected (p ∷ ps) ms
unselected-others p ps [] = refl
unselected-others p ps (m ∷ ms) = elim (Bool-cases (str_eq p m.name)) [
  | inl same ↦ rw same (unselected-others p ps ms)
  | inr other ↦ rw other (
      ap (λ (l : List Member). if is_selected m.name ps then l else m ∷ l)
        (unselected-others p ps ms))
]

unselected-nil : (ms : List Member) → unselected [] ms ≡ ms
unselected-nil [] = refl
unselected-nil (m ∷ ms) = ap (λ l. m ∷ l) (unselected-nil ms)

remove_each_lem :
    (ids : List String) (ms : List Member) → AllNamed ms → remove_each ids ms ≡ unselected ids ms
unfolding remove_each
remove_each_lem [] ms h = sym (unselected-nil ms)
remove_each_lem (p ∷ ps) ms h =
    ap (remove_each ps) (remove_named_lem p ms h)
    ∙ remove_each_lem ps (others p ms) (AllNamed-others p ms h)
    ∙ unselected-others p ps ms

Unused-unselected :
    (q : String) (ids : List String) (ms : List Member) → Unused q ms → Unused q (unselected ids ms)
Unused-unselected q ids [] h = tt
Unused-unselected q ids (m ∷ ms) h = ground (arith, Unused-unselected q ids ms h.1)

AllNamed-unselected :
    (ids : List String) (ms : List Member) → AllNamed ms → AllNamed (unselected ids ms)
AllNamed-unselected ids [] h = tt
AllNamed-unselected ids (m ∷ ms) h =
    ground (arith, AllNamed-unselected ids ms h.1, Unused-unselected m.name ids ms h.0)

-- Where the chains have different names, `remove_chains` leaves the chains whose name is not
-- selected, in order, with different names and nothing selected.
pub remove_chains_lem :
    (s : Chainsetup)
    → AllNamed s.chains
    → ((remove_chains s).chains ≡ unselected s.selected_chainids s.chains)
      × AllNamed (remove_chains s).chains
      × ((remove_chains s).selected_chainids ≡ [])
unfolding remove_chains
remove_chains_lem s h =
    let left = remove_each_lem s.selected_chainids s.chains h in
    (left, rw left (AllNamed-unselected s.selected_chainids s.chains h), refl)

pub str_eq_sym : (a b : String) → str_eq a b ≡ false → str_eq b a ≡ false
str_eq_sym a b h = elim (Bool-cases (str_eq b a)) [
  | inr no_match ↦ no_match
  | inl match_ ↦
      let e : b ≡ a = (eq_iff b a).0 match_ in
      let t : str_eq a b ≡ true = (eq_iff a b).1 (sym e) in absurd (cc)
]

exists-Unused : (p : String) (ms : List Member) → exists p ms ≡ false → Unused p ms
unfolding exists
exists-Unused p [] h = tt
exists-Unused p (m ∷ ms) h = ground (arith, exists-Unused p ms)

exists-append :
    (p : String) (ms rest : List Member) → exists p ms ≡ true → exists p (ms ++ rest) ≡ true
unfolding exists
exists-append p [] rest h = cc
exists-append p (m ∷ ms) rest h = ground (arith, exists-append p ms rest)

exists-last : (ms : List Member) (m : Member) → exists m.name (ms ++ m ∷ []) ≡ true
unfolding exists
exists-last [] m = ground (arith, eq_refl m.name)
exists-last (x ∷ ms) m = ground (arith, exists-last ms m)

Unused-append :
    (q : String) (ms : List Member) (m : Member)
    → Unused q ms
    → str_eq q m.name ≡ false
    → Unused q (ms ++ m ∷ [])
Unused-append q [] m h n = (n, tt)
Unused-append q (x ∷ ms) m h n = (h.0, Unused-append q ms m h.1 n)

AllNamed-append :
    (ms : List Member) (m : Member) → AllNamed ms → Unused m.name ms → AllNamed (ms ++ m ∷ [])
AllNamed-append [] m h u = (tt, tt)
AllNamed-append (x ∷ ms) m h u =
    (Unused-append x.name ms m h.0 (str_eq_sym m.name x.name u.0), AllNamed-append ms m h.1 u.1)

-- All of the names are in use.
abbrev pub AllExist : List String → List Member → Type 0
AllExist [] ms = Unit
AllExist (p ∷ ps) ms = (exists p ms ≡ true) × AllExist ps ms

module _ (fresh : Chain) (srate : ℤ) where
  abbrev added : String → List Member → List Member
  added p ms = if exists p ms then ms else add_chain_helper fresh srate p ms

  added_lem :
      (p : String) (ms : List Member)
      → AllNamed ms
      → AllNamed (added p ms)
        × (exists p (added p ms) ≡ true)
        × ((rest : List Member) × (added p ms ≡ ms ++ rest))
  unfolding add_chain_helper
  added_lem p ms h =
      let m : Member = record { name = p; chain = record fresh { srate = srate } } in
      elim (Bool-cases (exists p ms)) [
        | inl there ↦ rw there (h, there, ([], sym (append-nil ms)))
        | inr absent ↦
            rw absent
              (AllNamed-append ms m h (exists-Unused p ms absent), exists-last ms m, (m ∷ [], refl))
      ]

  add_names_lem :
      (ps : List String) (ms : List Member)
      → AllNamed ms
      → AllNamed (add_names fresh srate ps ms)
        × AllExist ps (add_names fresh srate ps ms)
        × ((rest : List Member) × (add_names fresh srate ps ms ≡ ms ++ rest))
  unfolding add_names
  add_names_lem [] ms h = (h, tt, ([], sym (append-nil ms)))
  add_names_lem (p ∷ ps) ms h =
      let (h', e, (rest, eq)) = added_lem p ms h in
      let (named, all, (more, eq')) = add_names_lem ps (added p ms) h' in
      (
        named,
        (rw eq' (exists-append p (added p ms) more e), all),
        (rest ++ more, eq' ∙ ap (λ (l : List Member). l ++ more) eq ∙ append_assoc ms rest more),
      )

-- `add_new_chains` keeps the chains that there are, in place and with different names, and puts
-- behind them what it takes for all the names given to be in use, with no name twice.
pub add_new_chains_lem :
    (fresh : Chain) (srate : ℤ) (newchains : List String) (s : Chainsetup)
    → AllNamed s.chains
    → let s' = add_new_chains fresh srate newchains s in
      AllNamed s'.chains
      × AllExist newchains s'.chains
      × ((rest : List Member) × (s'.chains ≡ s.chains ++ rest))
unfolding add_new_chains
add_new_chains_lem fresh srate newchains s h = add_names_lem fresh srate newchains s.chains h
