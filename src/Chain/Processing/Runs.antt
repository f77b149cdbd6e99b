-- ===== src/Chain/Processing/Runs.antt =====
-- Which operators a CHAIN runs, in what order, and on how many channels.
use mathlib.Core.List.{append_assoc}
use ecasound.Common.{ℕ, ◌≤◌, ◌≡◌, refl, ◌∙◌, List, [], ◌∷◌, ◌++◌, arith, if◌then◌else◌, ltb, map}
use ecasound.Chain.{
  CopContainer, Controller, Chain, Call, run, init_object, update, widen, silence, refresh,
  init_controller,
}
use ecasound.Chain.Processing.{init_loop, init, process_loop, process}

-- The operators that are not bypassed, in order.
abbrev pub active : List CopContainer → List ℕ
active [] = []
active (k ∷ ks) = if k.bypassed then active ks else k.cop ∷ active ks

module _ {V : Type 0} where
  -- The objects that a list of calls runs, in order.
  abbrev pub runs : List (Call V) → List ℕ
  runs [] = []
  runs (run k ∷ calls) = k ∷ runs calls
  runs (_ ∷ calls) = runs calls

  abbrev pub silences : List (Call V) → List ℕ
  silences [] = []
  silences (silence ∷ calls) = 0 ∷ silences calls
  silences (_ ∷ calls) = silences calls

  -- Replaying the calls on a buffer of `ch` channels: its width never shrinks, and an operator that
  -- is run finds room for what it puts out for the `before` channels of the buffer that reached it.
  abbrev pub IsAdequate : (ℕ → ℕ → ℕ) → (before ch : ℕ) → List (Call V) → Type 0
  IsAdequate oc before ch [] = Unit
  IsAdequate oc before ch (widen n ∷ calls) = (ch ≤ n) × IsAdequate oc before n calls
  IsAdequate oc before ch (run k ∷ calls) = (oc k before ≤ ch) × IsAdequate oc ch ch calls
  IsAdequate oc before ch (_ ∷ calls) = IsAdequate oc before ch calls

  -- Replaying the calls of `init`: an operator that is initialised finds room for the `next`
  -- channels that reach it and for those that it puts out, which are what reaches the one after it.
  abbrev pub IsRoomy : (ℕ → ℕ → ℕ) → (next ch : ℕ) → List (Call V) → Type 0
  IsRoomy oc next ch [] = Unit
  IsRoomy oc next ch (widen n ∷ calls) = IsRoomy oc next n calls
  IsRoomy oc next ch (init_object k ∷ calls) =
      (next ≤ ch) × (oc k next ≤ ch) × IsRoomy oc (oc k next) ch calls
  IsRoomy oc next ch (_ ∷ calls) = IsRoomy oc next ch calls

  runs-updates :
      (gs : List Controller) (calls : List (Call V))
      → runs (map (λ (g : Controller). update g.self) gs ++ calls) ≡ runs calls
  runs-updates [] calls = refl
  runs-updates (g ∷ gs) calls = runs-updates gs calls

  IsAdequate-updates :
      (oc : ℕ → ℕ → ℕ) (before ch : ℕ) (gs : List Controller) (calls : List (Call V))
      → IsAdequate oc before ch calls
      → IsAdequate oc before ch (map (λ (g : Controller). update g.self) gs ++ calls)
  IsAdequate-updates oc before ch [] calls h = h
  IsAdequate-updates oc before ch (g ∷ gs) calls h = IsAdequate-updates oc before ch gs calls h

module _ (V : Type 0) where
  runs-process_loop :
      (oc : ℕ → ℕ → ℕ) (ks : List CopContainer) (ch : ℕ)
      → runs (process_loop {V = V} oc ks ch) ≡ active ks
  unfolding process_loop
  runs-process_loop oc [] ch = refl
  runs-process_loop oc (k ∷ ks) ch =
      ground (arith, runs-process_loop oc ks ch, runs-process_loop oc ks (oc k.cop ch))

  -- `process` runs the operators that are not bypassed, each once and in order; a chain that is
  -- muted or bypassed runs none.
  pub runs-process :
      (oc : ℕ → ℕ → ℕ) (ch len : ℕ) (c : Chain)
      → runs (process {V = V} oc ch len c).1
        ≡ (if c.muted then [] else if c.bypass then [] else active c.chainops)
  unfolding process
  runs-process oc ch len c =
      runs-updates c.gcontrollers _ ∙ ground (arith, runs-process_loop oc c.chainops ch)

  process_loop-IsAdequate :
      (oc : ℕ → ℕ → ℕ) (ks : List CopContainer) (ch : ℕ)
      → IsAdequate oc ch ch (process_loop {V = V} oc ks ch)
  unfolding process_loop
  process_loop-IsAdequate oc [] ch = tt
  process_loop-IsAdequate oc (k ∷ ks) ch =
      ground (arith, process_loop-IsAdequate oc ks ch, process_loop-IsAdequate oc ks (oc k.cop ch))

  -- On a buffer of any width, `process` gives each operator that it runs the room that the operator
  -- asks for, and never makes the buffer narrower.
  pub process-IsAdequate :
      (oc : ℕ → ℕ → ℕ) (ch len : ℕ) (c : Chain)
      → IsAdequate oc ch ch (process {V = V} oc ch len c).1
  unfolding process
  process-IsAdequate oc ch len c =
      IsAdequate-updates oc ch ch c.gcontrollers _
        (ground (arith, process_loop-IsAdequate oc c.chainops ch))

  IsRoomy-skips :
      (oc : ℕ → ℕ → ℕ) (next ch : ℕ) (gs : List Controller) (ks : List CopContainer)
      → IsRoomy {V = V} oc next ch (
          map (λ (g : Controller). init_controller g.self) gs
          ++ map (λ (k : CopContainer). refresh k.cop) ks)
  IsRoomy-skips oc next ch [] [] = tt
  IsRoomy-skips oc next ch [] (k ∷ ks) = IsRoomy-skips oc next ch [] ks
  IsRoomy-skips oc next ch (g ∷ gs) ks = IsRoomy-skips oc next ch gs ks

  init_loop-IsRoomy :
      (oc : ℕ → ℕ → ℕ) (ks : List CopContainer) (next ch : ℕ) (rest : List (Call V))
      → ((n m : ℕ) → IsRoomy oc n m rest)
      → IsRoomy oc next ch (init_loop oc ks next ++ rest)
  unfolding init_loop
  init_loop-IsRoomy oc [] next ch rest h = h next ch
  init_loop-IsRoomy oc (k ∷ ks) next ch rest h =
      let room = if ltb next (oc k.cop next) then oc k.cop next else next in
      ground (arith, init_loop-IsRoomy oc ks (oc k.cop next) room rest h)

  -- `init` gives each operator that it initialises room both for the channels that reach it, those
  -- of the chain's input at first, and for those that it puts out.
  pub init-IsRoomy :
      (oc : ℕ → ℕ → ℕ) (sbuf in_ch out_ch ch : ℕ) (c : Chain)
      → IsRoomy oc
          (init {V = V} oc sbuf in_ch out_ch c).0.in_channels
          ch
          (init {V = V} oc sbuf in_ch out_ch c).1
  unfolding init
  init-IsRoomy oc sbuf in_ch out_ch ch c = rw append_assoc (
      init_loop-IsRoomy oc c.chainops _ ch _
        (λ n m. IsRoomy-skips oc n m c.gcontrollers c.chainops))
