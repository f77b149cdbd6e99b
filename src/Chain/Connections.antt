-- ===== src/Chain/Connections.antt =====
-- The input and output of a CHAIN as positions in the setup's vectors of audio objects.
use ecasound.Common.{
  ℕ, zero, suc, ◌≡◌, ◌&&◌, not, List, Option, none, arith, ◌==◌, get_elem?, remove_at,
  get_elem?-remove_at_lt, get_elem?-remove_at_ge, if◌then◌else◌,
}
use ecasound.Common.Int.{ℤ, pos, negsuc, eq_ℤ, pred_ℤ, ltb_ℤ}
use ecasound.Chain.{Chain, is_valid, input_removed, output_removed}

-- Where a connection `z` points once position `k` is gone.
abbrev shifted : ℕ → ℤ → ℤ
shifted k z = if ltb_ℤ (pos k) z then pred_ℤ z else if eq_ℤ z (pos k) then negsuc 0 else z

module _ {A : Type 0} where
  -- The object that a connection stands for: none, if it is -1.
  abbrev pub object_at : List A → ℤ → Option A
  object_at xs (pos i) = get_elem? xs i
  object_at xs (negsuc n) = none

  object_at-shifted :
      (xs : List A) (k : ℕ) (z : ℤ)
      → object_at (remove_at xs k) (shifted k z) ≡ (if eq_ℤ z (pos k) then none else object_at xs z)
  object_at-shifted xs k (negsuc n) = ground arith
  object_at-shifted xs k (pos zero) = ground (arith, get_elem?-remove_at_lt xs k 0)
  object_at-shifted xs k (pos (suc n)) =
      ground (arith, get_elem?-remove_at_ge xs k n, get_elem?-remove_at_lt xs k (suc n))

  -- Whatever vector of inputs the chain is part of: after the removal of the one at `k` and
  -- `input_removed(k)`, the chain is connected to the object that it was connected to, or to none if
  -- that is the one removed.
  pub object_at-input_removed :
      (xs : List A) (k : ℕ) (c : Chain)
      → object_at (remove_at xs k) (input_removed (pos k) c).input_id
        ≡ (if eq_ℤ c.input_id (pos k) then none else object_at xs c.input_id)
  unfolding input_removed
  object_at-input_removed xs k c =
      let e : (input_removed (pos k) c).input_id ≡ shifted k c.input_id = ground arith in
      rw e (object_at-shifted xs k c.input_id)

  -- The same of outputs and `output_removed`.
  pub object_at-output_removed :
      (xs : List A) (k : ℕ) (c : Chain)
      → object_at (remove_at xs k) (output_removed (pos k) c).output_id
        ≡ (if eq_ℤ c.output_id (pos k) then none else object_at xs c.output_id)
  unfolding output_removed
  object_at-output_removed xs k c =
      let e : (output_removed (pos k) c).output_id ≡ shifted k c.output_id = ground arith in
      rw e (object_at-shifted xs k c.output_id)

-- A chain that is ready and valid, with its input and output at positions of the vectors, stays so
-- when another input goes; it is neither when its own input goes.
input_removed-is_valid :
    (k i j : ℕ) (c : Chain)
    → c.input_id ≡ pos i
    → c.output_id ≡ pos j
    → (is_valid (input_removed (pos k) c) ≡ not (i == k))
      × ((input_removed (pos k) c).initialized ≡ (c.initialized && not (i == k)))
unfolding is_valid input_removed
input_removed-is_valid k zero j c e f = ground arith
input_removed-is_valid k (suc i) j c e f = ground arith
