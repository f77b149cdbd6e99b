-- ===== src/Chainsetup/Counts.antt =====
-- The numbers of attached chains that ECA_ENGINE caches, and with which it routes.
use ecasound.Common.{
  ℕ, zero, suc, ◌+◌, ◌≡◌, refl, sym, ap, ◌∙◌, inl, inr, true, false, List, [], ◌∷◌, map, Option,
  none, some, arith, ◌==◌, length, get_elem?, if◌then◌else◌, Bool-cases,
}
use ecasound.Common.Int.{ℤ, pos, eq_ℤ}
use ecasound.Chain.{Chain}
use ecasound.Chainsetup.{
  Direction, input, output, Member, Chainsetup, objects, connection, object_of,
  number_of_attached_chains, cache_chain_connections, update_cache_chain_connections,
}
use ecasound.Chain.Connections.{object_at}
use ecasound.Routing.Inputs.{attached, counts_from}
use ecasound.Routing.Outputs.{connected, totals_from}

-- The chains without their names, as the engine goes through them.
abbrev pub chains_of : List Member → List Chain
chains_of = map (λ m. m.chain)

-- Objects at different positions are different.
abbrev pub AllDistinct : List ℕ → Type 0
AllDistinct objs = (i j x : ℕ) → get_elem? objs i ≡ some x → get_elem? objs j ≡ some x → i ≡ j

-- Each chain is connected to an object, in one direction.
abbrev pub AllConnected : Direction → Chainsetup → List Member → Type 0
AllConnected dir s [] = Unit
AllConnected dir s (m ∷ ms) =
    ((k : ℕ) × (x : ℕ) × (connection dir m.chain ≡ pos k)
      × (get_elem? (objects dir s).objs k ≡ some x))
    × AllConnected dir s ms

-- The number of chains with a connection to position `k`.
abbrev attached_at : Direction → ℕ → List Member → ℕ
attached_at dir k [] = 0
attached_at dir k (m ∷ ms) =
    (if eq_ℤ (connection dir m.chain) (pos k) then 1 else 0) + attached_at dir k ms

-- One chain of the loop, with what its object and the further chains give.
abbrev counted : ℕ → Option ℕ → Option ℕ → Option ℕ
counted obj o r = elim o [
  | none ↦ none
  | some x ↦ elim r [ none ↦ none | some n ↦ some (if obj == x then n + 1 else n) ]
]

abbrev cached : Option ℕ → Option (List ℕ) → Option (List ℕ)
cached o r = elim o [ none ↦ none | some n ↦ elim r [ none ↦ none | some ns ↦ some (n ∷ ns) ] ]

abbrev both : Option (List ℕ) → Option (List ℕ) → Option (List ℕ × List ℕ)
both i o = elim i [ none ↦ none | some is ↦ elim o [ none ↦ none | some os ↦ some (is, os) ] ]

object_of-pos :
    (dir : Direction) (s : Chainsetup) (c : Chain) (j : ℕ)
    → connection dir c ≡ pos j
    → object_of dir s c ≡ get_elem? (objects dir s).objs j
object_of-pos dir s c j p = ap (object_at (objects dir s).objs) p

apart :
    (objs : List ℕ) (k j : ℕ) {obj x : ℕ}
    → get_elem? objs k ≡ some obj
    → get_elem? objs j ≡ some x
    → (obj == x) ≡ false
    → (j == k) ≡ false
apart objs k j g q other = elim (Bool-cases (j == k)) [
  | inr no_hit ↦ no_hit
  | inl hit ↦ let same : j ≡ k = ground arith in let q' = rw same at q in ground arith
]

-- The numbers for `n` objects from position `k` on.
abbrev numbers_from : Direction → (k n : ℕ) → List Member → List ℕ
numbers_from dir k zero ms = []
numbers_from dir k (suc n) ms = attached_at dir k ms ∷ numbers_from dir (suc k) n ms

module _ (objs : List ℕ) where
  shift : (k i : ℕ) → get_elem? objs (k + suc i) ≡ get_elem? objs (suc k + i)
  shift k i = let at : k + suc i ≡ suc k + i = omega arith in ap (get_elem? objs) at

module _ (dir : Direction) (s : Chainsetup) (distinct : AllDistinct (objects dir s).objs) where
  number_of_attached_chains_lem :
      (k obj : ℕ) (ms : List Member)
      → get_elem? (objects dir s).objs k ≡ some obj
      → AllConnected dir s ms
      → number_of_attached_chains dir obj s ms ≡ some (attached_at dir k ms)
  unfolding number_of_attached_chains
  number_of_attached_chains_lem k obj [] g c = refl
  number_of_attached_chains_lem k obj (m ∷ ms) g ((j, x, p, q), c) =
      let found : object_of dir s m.chain ≡ some x = object_of-pos dir s m.chain j p ∙ q in
      let rest = number_of_attached_chains_lem k obj ms g c in
      ap (λ (o : Option ℕ). counted obj o (number_of_attached_chains dir obj s ms)) found
      ∙ ap (counted obj (some x)) rest
      ∙ ap some (elim (Bool-cases (obj == x)) [
        | inl same ↦
            let at : k ≡ j = distinct k j obj g (ground arith) in
            let hit : eq_ℤ (connection dir m.chain) (pos k) ≡ true =
              ap (λ (z : ℤ). eq_ℤ z (pos k)) p ∙ ground arith in
            rw (same, hit) (omega arith)
        | inr other ↦
            let miss : eq_ℤ (connection dir m.chain) (pos k) ≡ false =
              ap (λ (z : ℤ). eq_ℤ z (pos k)) p
              ∙ ground (arith, apart (objects dir s).objs k j g q other) in
            rw (other, miss) (omega arith)
      ])

  cache_chain_connections_lem :
      (k : ℕ) (objs : List ℕ)
      → ((i : ℕ) → get_elem? objs i ≡ get_elem? (objects dir s).objs (k + i))
      → AllConnected dir s s.chains
      → cache_chain_connections dir s objs ≡ some (numbers_from dir k (length objs) s.chains)
  unfolding cache_chain_connections
  cache_chain_connections_lem k [] h c = refl
  cache_chain_connections_lem k (obj ∷ objs) h c =
      let z : k + 0 ≡ k = omega arith in
      let here : get_elem? (objects dir s).objs k ≡ some obj = rw z at (sym (h 0)) in
      let later = λ (i : ℕ). h (suc i) ∙ shift (objects dir s).objs k i in
      ap (λ (o : Option ℕ). cached o (cache_chain_connections dir s objs))
        (number_of_attached_chains_lem k obj s.chains here c)
      ∙ ap (cached (some (attached_at dir k s.chains)))
          (cache_chain_connections_lem (suc k) objs later c)

zero_plus : (i : ℕ) → i ≡ 0 + i
zero_plus i = omega arith

attached_at-input : (k : ℕ) (ms : List Member) → attached_at input k ms ≡ attached k (chains_of ms)
attached_at-input k [] = refl
attached_at-input k (m ∷ ms) = omega (arith, attached_at-input k ms)

attached_at-output :
    (k c : ℕ) (ms : List Member) → attached_at output k ms ≡ length (connected k c (chains_of ms))
attached_at-output k c [] = refl
attached_at-output k c (m ∷ ms) = ground (arith, attached_at-output k (suc c) ms)

numbers_from-input :
    (k n : ℕ) (ms : List Member) → numbers_from input k n ms ≡ counts_from k n (chains_of ms)
numbers_from-input k zero ms = refl
numbers_from-input k (suc n) ms = rw (attached_at-input k ms, numbers_from-input (suc k) n ms) refl

numbers_from-output :
    (k n : ℕ) (ms : List Member) → numbers_from output k n ms ≡ totals_from k n (chains_of ms)
numbers_from-output k zero ms = refl
numbers_from-output k (suc n) ms =
    rw (attached_at-output k 0 ms, numbers_from-output (suc k) n ms) refl

-- Where all chains are connected to objects of the setup, and the objects of each direction are
-- different, the engine caches the numbers of chains that the routing of inputs and outputs goes
-- by: for each input the number of chains that read it, and for each output the number of chains
-- that write to it.
pub update_cache_chain_connections_lem :
    (s : Chainsetup)
    → AllDistinct s.inputs.objs
    → AllDistinct s.outputs.objs
    → AllConnected input s s.chains
    → AllConnected output s s.chains
    → update_cache_chain_connections s
      ≡ some (
        counts_from 0 (length s.inputs.objs) (chains_of s.chains),
        totals_from 0 (length s.outputs.objs) (chains_of s.chains),
      )
unfolding update_cache_chain_connections
update_cache_chain_connections_lem s di do_ ci co =
    let zero_add = λ (objs : List ℕ) (i : ℕ). ap (get_elem? objs) (zero_plus i) in
    let ins = cache_chain_connections_lem input s di 0 s.inputs.objs (zero_add s.inputs.objs) ci in
    let outs =
      cache_chain_connections_lem output s do_ 0 s.outputs.objs (zero_add s.outputs.objs) co in
    ap (λ (o : Option (List ℕ)). both o (cache_chain_connections output s s.outputs.objs)) ins
    ∙ ap (both (some (numbers_from input 0 (length s.inputs.objs) s.chains))) outs
    ∙ rw
        (
          numbers_from-input 0 (length s.inputs.objs) s.chains,
          numbers_from-output 0 (length s.outputs.objs) s.chains,
        )
        refl
