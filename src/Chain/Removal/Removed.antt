-- ===== src/Chain/Removal/Removed.antt =====
-- `remove_chain_operator` as a whole: what is removed, what happens to the selection, and when the
-- loop runs off the vector.
use ecasound.Common.{
  ℕ, suc, ◌+◌, ◌<◌, ◌≡◌, refl, ◌≢◌, ◌⊎◌, inl, inr, ◌∙◌, ap, sym, true, false, List, [], ◌∷◌, ◌++◌,
  some, arith, length, get_elem?, dec_lt, get_elem?-some, length-remove_at, get_elem?-remove_at_ge,
  remove_at, map, if◌then◌else◌, ==_ne, Bool-cases,
}
use ecasound.Common.Int.{pos, negsuc, leb_ℤ}
use ecasound.Chain.{CopContainer, Chain, Call, free, operator_at, get_selected_chain_operator}
use ecasound.Chain.Operators.{operator_at-found, operator_at-missing}
use ecasound.Chain.Removal.{
  start, chosen_index, remove_object, done, fault, erase_loop, remove_chain_operator, finish,
}
use ecasound.Chain.Removal.Loops.{
  without, controllers_of, unselect, delete_operator-purged, Distinct, erase_loop-break,
  erase_loop-continue, erase_loop-fault,
}

-- The chain without operator `k + 1`, which is `op`, and without its controllers.
abbrev pub removed : ℕ → CopContainer → Chain → Chain
removed k op c = record c {
  chainops = remove_at c.chainops k;
  gcontrollers = without op.cop c.gcontrollers;
  selected_controller_ptr =
      unselect (controllers_of op.cop c.gcontrollers) c.selected_controller_ptr;
  selected_chainop_number =
      if leb_ℤ c.selected_chainop_number (pos (k + 1)) then negsuc 0 else c.selected_chainop_number;
  initialized = false;
}

chosen_index-pos : (n : ℕ) (c : Chain) → chosen_index (pos n) c ≡ pos n
unfolding chosen_index
chosen_index-pos n c = ground arith

chosen_index-neg : (c : Chain) → chosen_index (negsuc 0) c ≡ c.selected_chainop_number
unfolding chosen_index
chosen_index-neg c = refl

module _ {V : Type 0} where
  abbrev pub deletions : CopContainer → Chain → List (Call V)
  deletions op c = map free (controllers_of op.cop c.gcontrollers ++ op.cop ∷ [])

  -- The call as a run of the outer loop.
  remove_chain_operator-loop :
      (k : ℕ) (op : CopContainer) (c : Chain)
      → get_elem? c.chainops k ≡ some op
      → op.cop ≢ 0
      → remove_chain_operator {V = V} (pos (k + 1)) c
        ≡ finish c (
            erase_loop op.cop
              (leb_ℤ c.selected_chainop_number (pos (k + 1)))
              false
              (start c)
              c.chainops)
  unfolding remove_chain_operator
  remove_chain_operator-loop k op c h ne =
      rw (chosen_index-pos (k + 1) c, operator_at-found k c op h, ==_ne op.cop 0 ne)

  -- Where operators are distinct objects, removing operator `k + 1` deletes it and its controllers
  -- and no other object, keeps the others in order, and leaves the chain uninitialised. The selected
  -- number is cleared if it is at most `k + 1`. This needs the selected number to be at most
  -- `k + 1`, or another operator to follow.
  pub remove_chain_operator-removed :
      (k : ℕ) (op : CopContainer) (c : Chain)
      → get_elem? c.chainops k ≡ some op
      → op.cop ≢ 0
      → Distinct c.chainops
      → (leb_ℤ c.selected_chainop_number (pos (k + 1)) ≡ true) ⊎ (k + 1 < length c.chainops)
      → remove_chain_operator (pos (k + 1)) c ≡ done (removed k op c, deletions op c)
  unfolding finish
  remove_chain_operator-removed k op c h ne d room =
      elim (Bool-cases (leb_ℤ c.selected_chainop_number (pos (k + 1)))) [
        | inl low ↦
            remove_chain_operator-loop k op c h ne
            ∙ rw (low, erase_loop-break k (start c) c.chainops op d h, delete_operator-purged) refl
        | inr high ↦
            remove_chain_operator-loop k op c h ne
            ∙ rw
                (
                  high,
                  erase_loop-continue k (start c) c.chainops op d h (ground arith),
                  delete_operator-purged,
                )
                refl
      ]

  -- Removing by -1 removes the selected operator, and never runs off the vector.
  remove_chain_operator-selected :
      (k : ℕ) (op : CopContainer) (c : Chain)
      → get_elem? c.chainops k ≡ some op
      → op.cop ≢ 0
      → Distinct c.chainops
      → c.selected_chainop_number ≡ pos (k + 1)
      → remove_chain_operator (negsuc 0) c ≡ done (removed k op c, deletions op c)
  unfolding remove_chain_operator
  remove_chain_operator-selected k op c h ne d e =
      let chosen : remove_chain_operator {V = V} (negsuc 0) c
          ≡ remove_chain_operator (pos (k + 1)) c =
        ap (λ z. remove_object (operator_at z c) (leb_ℤ c.selected_chainop_number z) c)
          (chosen_index-neg c ∙ e ∙ sym (chosen_index-pos (k + 1) c)) in
      chosen ∙ remove_chain_operator-removed k op c h ne d (inl (ground arith))

  -- An index that is no operator's removes nothing.
  remove_chain_operator-missing :
      (n : ℕ) (c : Chain)
      → (n ≡ 0) ⊎ (length c.chainops < n)
      → remove_chain_operator {V = V} (pos n) c ≡ done (c, [])
  unfolding remove_chain_operator
  remove_chain_operator-missing n c h =
      rw (chosen_index-pos n c, operator_at-missing (pos n) c (ground arith))

  -- Where operators are distinct objects, removing the last one while the selected number is larger
  -- moves the loop's iterator past the end of the vector.
  pub remove_chain_operator-fault :
      (k : ℕ) (op : CopContainer) (c : Chain)
      → get_elem? c.chainops k ≡ some op
      → op.cop ≢ 0
      → Distinct c.chainops
      → k + 1 ≡ length c.chainops
      → leb_ℤ c.selected_chainop_number (pos (k + 1)) ≡ false
      → remove_chain_operator {V = V} (pos (k + 1)) c ≡ fault
  unfolding finish
  remove_chain_operator-fault k op c h ne d last high =
      remove_chain_operator-loop k op c h ne
      ∙ rw (high, erase_loop-fault k (start c) c.chainops op d h last) refl

get_selected-operator_at :
    (c : Chain) → get_selected_chain_operator c ≡ operator_at c.selected_chainop_number c
unfolding get_selected_chain_operator
get_selected-operator_at c = refl

operator_at-remove_at :
    (k j : ℕ) (c d : Chain)
    → k < j
    → j < length c.chainops
    → d.chainops ≡ remove_at c.chainops k
    → operator_at (pos (j + 1)) d ≡ operator_at (pos (suc j + 1)) c
operator_at-remove_at k j c d lt len e = elim (dec_lt (suc j) (length c.chainops)) [
  | yes more ↦
      let (op, at) = get_elem?-some c.chainops (suc j) more in
      operator_at-found j d op (rw (e, get_elem?-remove_at_ge c.chainops k j (omega arith)) at)
      ∙ sym (operator_at-found (suc j) c op at)
  | no last ↦
      let shorter : length d.chainops + 1 ≡ length c.chainops =
        rw e (length-remove_at c.chainops k (omega arith)) in
      operator_at-missing (pos (j + 1)) d (inr (omega arith))
      ∙ sym (operator_at-missing (pos (suc j + 1)) c (inr (omega arith)))
]

get_selected-removed :
    (k j : ℕ) (op : CopContainer) (c : Chain)
    → k < j
    → j < length c.chainops
    → c.selected_chainop_number ≡ pos (j + 1)
    → get_selected_chain_operator (removed k op c) ≡ operator_at (pos (suc j + 1)) c
get_selected-removed k j op c lt len e =
    let number : (removed k op c).selected_chainop_number ≡ pos (j + 1) = ground arith in
    get_selected-operator_at (removed k op c)
    ∙ ap (λ z. operator_at z (removed k op c)) number
    ∙ operator_at-remove_at k j c (removed k op c) lt len refl

-- The selected number is not adjusted when an operator before the selected one is removed: where
-- operators are distinct objects, it then stands for the operator that followed the selected one,
-- or for none if the selected one was the last.
pub get_selected_chain_operator-removed :
    {V : Type 0} (k j : ℕ) (op : CopContainer) (c : Chain)
    → get_elem? c.chainops k ≡ some op
    → op.cop ≢ 0
    → Distinct c.chainops
    → k < j
    → j < length c.chainops
    → c.selected_chainop_number ≡ pos (j + 1)
    → (d : Chain) × (remove_chain_operator {V = V} (pos (k + 1)) c ≡ done (d, deletions op c))
      × (get_selected_chain_operator d ≡ operator_at (pos (suc j + 1)) c)
get_selected_chain_operator-removed k j op c h ne d lt len e = (
  removed k op c,
  remove_chain_operator-removed k op c h ne d (inr (omega arith)),
  get_selected-removed k j op c lt len e,
)
