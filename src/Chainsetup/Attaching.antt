-- ===== src/Chainsetup/Attaching.antt =====
-- What attaching an object to the selected chains changes.
use Prim.Native.String.{String}
use text.Mathlib.Text.{◌==◌ as str_eq}
use ecasound.Common.{
  ℕ, zero, suc, ◌+◌, ◌≡◌, refl, sym, ap, ◌∙◌, inl, inr, Bool, true, false, ◌||◌, List, [], ◌∷◌,
  ◌++◌, map, none, some, arith, ◌==◌, length, get_elem?, if◌then◌else◌, Bool-cases,
}
use ecasound.Common.Int.{ℤ, pos, negsuc, eq_ℤ}
use ecasound.Chain.{Chain}
use ecasound.Chain.Connections.{object_at}
use ecasound.Chainsetup.{
  Direction, input, output, opposite, Member, Chainsetup, objects, connection, connect, on_chain,
  on_named, disconnect_from, on_selected, attach_from, attach_to_selected_chains,
}

abbrev pub is_selected : String → List String → Bool
is_selected name [] = false
is_selected name (p ∷ ps) = str_eq p name || is_selected name ps

-- No element of the list is `obj`.
abbrev pub Absent : ℕ → List ℕ → Type 0
Absent obj [] = Unit
Absent obj (x ∷ xs) = ((x == obj) ≡ false) × Absent obj xs

map_same :
    {A : Type 0} (f g h : A → A) (xs : List A)
    → ((x : A) → f (g x) ≡ h x)
    → map f (map g xs) ≡ map h xs
map_same f g h [] e = refl
map_same f g h (x ∷ xs) e = λ i. e x i ∷ map_same f g h xs e i

map_id : {A : Type 0} (f : A → A) (xs : List A) → ((x : A) → f x ≡ x) → map f xs ≡ xs
map_id f [] e = refl
map_id f (x ∷ xs) e = λ i. e x i ∷ map_id f xs e i

pub get_elem?-map :
    {A : Type 0} (f : A → A) (xs : List A) (n : ℕ) {x : A}
    → get_elem? xs n ≡ some x
    → get_elem? (map f xs) n ≡ some (f x)
get_elem?-map f [] n h = cc
get_elem?-map f (x ∷ xs) zero h = cc
get_elem?-map f (x ∷ xs) (suc n) h = get_elem?-map f xs n h

abbrev applied : (Chain → Chain) → List String → Member → Member
applied f ids m = if is_selected m.name ids then on_chain f m else m

module _ (f : Chain → Chain) (idem : (c : Chain) → f (f c) ≡ f c) where
  twice :
      (m : Member) (again : Bool)
      → (if again then on_chain f (on_chain f m) else on_chain f m) ≡ on_chain f m
  twice m true = λ i. record m { chain = idem m.chain i }
  twice m false = refl

  applied_after :
      (ps : List String) (m : Member) (here : Bool)
      → applied f ps (if here then on_chain f m else m)
        ≡ (if here || is_selected m.name ps then on_chain f m else m)
  applied_after ps m true = twice m (is_selected m.name ps)
  applied_after ps m false = refl

  applied-cons :
      (p : String) (ps : List String) (m : Member)
      → applied f ps (if str_eq p m.name then on_chain f m else m) ≡ applied f (p ∷ ps) m
  applied-cons p ps m = applied_after ps m (str_eq p m.name)

  on_selected_lem :
      (ids : List String) (ms : List Member) → on_selected f ids ms ≡ map (applied f ids) ms
  unfolding on_selected
  on_selected_lem [] ms = sym (map_id (applied f []) ms (λ m. refl))
  on_selected_lem (p ∷ ps) ms =
      on_selected_lem ps (on_named p f ms)
      ∙ map_same (applied f ps) (λ m. if str_eq p m.name then on_chain f m else m)
          (applied f (p ∷ ps)) ms (applied-cons p ps)

connect_twice :
    (dir : Direction) (k : ℕ) (c : Chain) → connect dir k (connect dir k c) ≡ connect dir k c
unfolding connect
connect_twice input k c = refl
connect_twice output k c = refl

-- What attaching an object at position `k` makes of a chain.
pub reattached : Direction → ℕ → List String → Member → Member
reattached dir k ids m = applied (connect dir k) ids (disconnect_from dir k m)

module _ (dir : Direction) (obj : ℕ) (ids : List String) where
  attach_from-Absent :
      (c : ℕ) (xs : List ℕ) (ms : List Member)
      → Absent obj xs
      → attach_from dir obj ids c xs ms ≡ ms
  unfolding attach_from
  attach_from-Absent c [] ms h = refl
  attach_from-Absent c (x ∷ xs) ms h = rw h.0 (attach_from-Absent (suc c) xs ms h.1)

  attach_from_lem :
      (c : ℕ) (xs ys : List ℕ) (ms : List Member)
      → Absent obj xs
      → Absent obj ys
      → attach_from dir obj ids c (xs ++ obj ∷ ys) ms ≡ map (reattached dir (c + length xs) ids) ms
  unfolding attach_from reattached
  attach_from_lem c [] ys ms h k =
      let z : c + 0 ≡ c = omega arith in
      let same : (obj == obj) ≡ true = ground arith in
      let attached = on_selected (connect dir c) ids (map (disconnect_from dir c) ms) in
      let rest = λ (b : Bool). attach_from dir obj ids (suc c) ys (if b then attached else ms) in
      rw z (
        ap rest same
        ∙ attach_from-Absent (suc c) ys attached k
        ∙ on_selected_lem (connect dir c) (connect_twice dir c) ids (map (disconnect_from dir c) ms)
        ∙ map_same (applied (connect dir c) ids) (disconnect_from dir c) (reattached dir c ids) ms
            (λ m. refl))
  attach_from_lem c (x ∷ xs) ys ms h k =
      let at : c + length (x ∷ xs) ≡ suc c + length xs = omega arith in
      let attached = on_selected (connect dir c) ids (map (disconnect_from dir c) ms) in
      let rest = λ (b : Bool).
        attach_from dir obj ids (suc c) (xs ++ obj ∷ ys) (if b then attached else ms) in
      rw at (ap rest h.0 ∙ attach_from_lem (suc c) xs ys ms h.1 k)

-- The connection of a chain after the attachment, and the connection in the other direction.
reattached-connection :
    (dir : Direction) (k : ℕ) (ids : List String) (m : Member)
    → ((reattached dir k ids m).name ≡ m.name)
      × (connection dir (reattached dir k ids m).chain ≡ (
          if is_selected m.name ids
          then pos k
          else if eq_ℤ (connection dir m.chain) (pos k)
          then negsuc 0
          else connection dir m.chain))
      × (connection (opposite dir) (reattached dir k ids m).chain
          ≡ connection (opposite dir) m.chain)
unfolding reattached connect disconnect_from
reattached-connection input k ids m = elim (Bool-cases (eq_ℤ m.chain.input_id (pos k))) [
  | inl was ↦ (ground arith, ground arith, ground arith)
  | inr was_not ↦ (ground arith, ground arith, ground arith)
]
reattached-connection output k ids m = elim (Bool-cases (eq_ℤ m.chain.output_id (pos k))) [
  | inl was ↦ (ground arith, ground arith, ground arith)
  | inr was_not ↦ (ground arith, ground arith, ground arith)
]

pub get_elem?-middle :
    {A : Type 0} (xs ys : List A) (y : A) → get_elem? (xs ++ y ∷ ys) (length xs) ≡ some y
get_elem?-middle [] ys y = refl
get_elem?-middle (x ∷ xs) ys y = get_elem?-middle xs ys y

object_at-chosen :
    (objs : List ℕ) (k : ℕ) (z : ℤ) {obj : ℕ}
    → get_elem? objs k ≡ some obj
    → (selected was : Bool)
    → object_at objs (if selected then pos k else if was then negsuc 0 else z)
      ≡ (if selected then some obj else if was then none else object_at objs z)
object_at-chosen objs k z h true was = h
object_at-chosen objs k z h false true = refl
object_at-chosen objs k z h false false = refl

-- An object that stands once among the objects of a direction, attached to the selected chains: each
-- selected chain is connected to it then, a chain that was and is not selected is connected to
-- none, and the others are connected to what they were. No connection in the other direction
-- changes, and no name.
pub attach_to_selected_chains_lem :
    (dir : Direction) (s : Chainsetup) (obj : ℕ) (xs ys : List ℕ) (n : ℕ) {m : Member}
    → (objects dir s).objs ≡ xs ++ obj ∷ ys
    → Absent obj xs
    → Absent obj ys
    → get_elem? s.chains n ≡ some m
    → (m' : Member) × (get_elem? (attach_to_selected_chains dir obj s).chains n ≡ some m')
      × (m'.name ≡ m.name)
      × (connection (opposite dir) m'.chain ≡ connection (opposite dir) m.chain)
      × (object_at (objects dir s).objs (connection dir m'.chain) ≡ (
          if is_selected m.name s.selected_chainids
          then some obj
          else if eq_ℤ (connection dir m.chain) (pos (length xs))
          then none
          else object_at (objects dir s).objs (connection dir m.chain)))
unfolding attach_to_selected_chains
attach_to_selected_chains_lem dir s obj xs ys n {m} e h k at =
    let ids = s.selected_chainids in
    let z : 0 + length xs ≡ length xs = omega arith in
    let all = rw z at (attach_from_lem dir obj ids 0 xs ys s.chains h k) in
    let there = get_elem?-map (reattached dir (length xs) ids) s.chains n at in
    let m' = reattached dir (length xs) ids m in
    let (named, here, opp) = reattached-connection dir (length xs) ids m in
    let objs = (objects dir s).objs in
    let stands : get_elem? objs (length xs) ≡ some obj = rw e (get_elem?-middle xs ys obj) in
    (
      m',
      ap (λ (l : List Member). get_elem? l n)
            (ap (λ (l : List ℕ). attach_from dir obj ids 0 l s.chains) e ∙ all)
          ∙ there,
      named,
      opp,
      ap (object_at objs) here
          ∙ object_at-chosen objs (length xs) (connection dir m.chain) stands
              (is_selected m.name ids) (eq_ℤ (connection dir m.chain) (pos (length xs))),
    )
