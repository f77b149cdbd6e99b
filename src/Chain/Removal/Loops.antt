-- ===== src/Chain/Removal/Loops.antt =====
-- What the two loops of `remove_chain_operator` do: the inner one deletes the controllers of one
-- operator, the outer one the operator itself.
use ecasound.Common.{
  ℕ, zero, suc, ◌+◌, ◌≤◌, ◌<◌, ◌≡◌, refl, ◌≢◌, Bool, true, false, List, [], ◌∷◌, ◌++◌, Option, none,
  some, ◌==◌, length, get_elem?, remove_at, if◌then◌else◌, arith, ap, sym, ◌∙◌, ==_eq, ==_ne,
}
use mathlib.Core.List.{append-nil, append_assoc}
use ecasound.Chain.{CopContainer, Controller}
use ecasound.Chain.Removal.{
  Work, first_of_target, erase_controllers, delete_operator, done, fault, keep, erase_loop,
}

-- The controllers of other targets, in order.
abbrev pub without : ℕ → List Controller → List Controller
without cop [] = []
without cop (g ∷ gs) = if g.target == cop then without cop gs else g ∷ without cop gs

-- The controllers of a target, in order.
abbrev pub controllers_of : ℕ → List Controller → List ℕ
controllers_of cop [] = []
controllers_of cop (g ∷ gs) =
    if g.target == cop then g.self ∷ controllers_of cop gs else controllers_of cop gs

-- The selected controller, once the controllers `xs` are deleted.
abbrev pub unselect : List ℕ → ℕ → ℕ
unselect [] selected = selected
unselect (x ∷ xs) selected = unselect xs (if selected == x then 0 else selected)

abbrev WithoutFirst : ℕ → List Controller → Option (ℕ × List Controller) → Type 0
WithoutFirst cop gs none = (controllers_of cop gs ≡ []) × (without cop gs ≡ gs)
WithoutFirst cop gs (some (x, rest)) =
    (controllers_of cop gs ≡ x ∷ controllers_of cop rest)
    × (without cop gs ≡ without cop rest)
    × (length gs ≡ suc (length rest))

first_of_target-WithoutFirst :
    (cop : ℕ) (gs : List Controller) → WithoutFirst cop gs (first_of_target cop gs)
unfolding first_of_target
first_of_target-WithoutFirst cop [] = (refl, refl)
first_of_target-WithoutFirst cop (g ∷ gs) = ground (arith, first_of_target-WithoutFirst cop gs)

-- The work of deleting the controllers of `cop` and then, as `last`, the objects `xs`.
abbrev pub purged : ℕ → Work → List ℕ → Work
purged cop w xs = record {
  controllers = without cop w.controllers;
  selected = unselect (controllers_of cop w.controllers) w.selected;
  freed = w.freed ++ controllers_of cop w.controllers ++ xs;
}

erase_controllers-step :
    (cop fuel : ℕ) (w : Work)
    → ((w' : Work)
        → length w'.controllers ≤ fuel
        → erase_controllers cop fuel w' ≡ purged cop w' [])
    → length w.controllers ≤ suc fuel
    → (o : Option (ℕ × List Controller)) → first_of_target cop w.controllers ≡ o
    → WithoutFirst cop w.controllers o
    → erase_controllers cop (suc fuel) w ≡ purged cop w []
unfolding erase_controllers
erase_controllers-step cop fuel w ih h none e (p, q) =
    rw (e, erase_controllers) (simp (p, q, append-nil))
erase_controllers-step cop fuel w ih h (some (x, rest)) e (p, q, l) =
    rw (e, erase_controllers) (ih _ (omega arith) ∙ simp (p, q, append_assoc, append-nil))

-- The restarting loop deletes the operator's controllers in order, keeps the others in order, and
-- clears the selection if it was one of those deleted.
erase_controllers-purged :
    (cop fuel : ℕ) (w : Work)
    → length w.controllers ≤ fuel
    → erase_controllers cop fuel w ≡ purged cop w []
unfolding erase_controllers
erase_controllers-purged cop zero w h = empty w.controllers refl
  where
    empty : (gs : List Controller) → w.controllers ≡ gs → w ≡ purged cop w []
    empty [] e = ground (arith, append-nil w.freed)
    empty (g ∷ gs) e = absurd (omega (arith, ap length e))
erase_controllers-purged cop (suc fuel) w h =
    erase_controllers-step cop fuel w (erase_controllers-purged cop fuel) h
      (first_of_target cop w.controllers) refl (first_of_target-WithoutFirst cop w.controllers)

pub delete_operator-purged : (cop : ℕ) (w : Work) → delete_operator cop w ≡ purged cop w (cop ∷ [])
unfolding delete_operator
delete_operator-purged cop w =
    rw (erase_controllers-purged cop (length w.controllers) w (omega arith)) (simp append-nil)

-- No container of the list is of this operator.
abbrev pub Absent : ℕ → List CopContainer → Type 0
Absent cop [] = Unit
Absent cop (k ∷ ks) = (k.cop ≢ cop) × Absent cop ks

-- No operator stands twice in the list.
abbrev pub Distinct : List CopContainer → Type 0
Distinct [] = Unit
Distinct (k ∷ ks) = Absent k.cop ks × Distinct ks

get_elem?-ne :
    (cop i : ℕ) (ks : List CopContainer) (k : CopContainer)
    → Absent cop ks
    → get_elem? ks i ≡ some k
    → k.cop ≢ cop
get_elem?-ne cop i [] k a h = λ e. cc
get_elem?-ne cop zero (x ∷ ks) k a h = ground arith
get_elem?-ne cop (suc i) (x ∷ ks) k a h = get_elem?-ne cop i ks k a.1 h

erase_loop-Absent :
    (cop : ℕ) (stops : Bool) (w : Work) (ks : List CopContainer)
    → Absent cop ks
    → erase_loop cop stops false w ks ≡ done (record { operators = ks; work = w; stopped = false })
unfolding erase_loop
erase_loop-Absent cop stops w [] a = refl
erase_loop-Absent cop stops w (k ∷ ks) a = ground (arith, erase_loop-Absent cop stops w ks)

erase_loop-other :
    (cop : ℕ) (stops : Bool) (w : Work) (k : CopContainer) (ks : List CopContainer)
    → k.cop ≢ cop
    → erase_loop cop stops false w (k ∷ ks) ≡ keep k (erase_loop cop stops false w ks)
unfolding erase_loop
erase_loop-other cop stops w k ks h = rw (==_ne k.cop cop h, erase_loop)

erase_loop-hit :
    (cop : ℕ) (w : Work) (k : CopContainer) (ks : List CopContainer)
    → k.cop ≡ cop
    → erase_loop cop true false w (k ∷ ks)
      ≡ done (record { operators = ks; work = delete_operator cop w; stopped = true })
unfolding erase_loop
erase_loop-hit cop w k ks e = rw (==_eq k.cop cop e, erase_loop)

erase_loop-pass :
    (cop : ℕ) (w : Work) (k : CopContainer) (ks : List CopContainer)
    → k.cop ≡ cop
    → erase_loop cop false false w (k ∷ ks) ≡ erase_loop cop false true (delete_operator cop w) ks
unfolding erase_loop
erase_loop-pass cop w k ks e = rw (==_eq k.cop cop e, erase_loop)

erase_loop-skip :
    (cop : ℕ) (w : Work) (k : CopContainer) (ks : List CopContainer)
    → Absent cop ks
    → erase_loop cop false true w (k ∷ ks)
      ≡ done (record { operators = k ∷ ks; work = w; stopped = false })
unfolding erase_loop keep
erase_loop-skip cop w k ks a = ap (keep k) (erase_loop-Absent cop false w ks a)

cop_of_head : (x k : CopContainer) → some x ≡ some k → x.cop ≡ k.cop
cop_of_head x k h = cc

-- With the `break`, the loop erases the operator at `i` wherever it stands.
pub erase_loop-break :
    (i : ℕ) (w : Work) (ks : List CopContainer) (k : CopContainer)
    → Distinct ks
    → get_elem? ks i ≡ some k
    → erase_loop k.cop true false w ks
      ≡ done (record { operators = remove_at ks i; work = delete_operator k.cop w; stopped = true })
unfolding erase_loop keep
erase_loop-break i w [] k d h = cc
erase_loop-break zero w (x ∷ ks) k d h = erase_loop-hit k.cop w x ks (cop_of_head x k h)
erase_loop-break (suc i) w (x ∷ ks) k d h = rw (
  ==_ne x.cop k.cop (λ e. get_elem?-ne x.cop i ks k d.0 h (sym e)),
  erase_loop,
  erase_loop-break i w ks k d.1 h,
)

-- Without it, the loop erases the operator at `i` if another follows.
pub erase_loop-continue :
    (i : ℕ) (w : Work) (ks : List CopContainer) (k : CopContainer)
    → Distinct ks
    → get_elem? ks i ≡ some k
    → i + 1 < length ks
    → erase_loop k.cop false false w ks
      ≡ done
          (record { operators = remove_at ks i; work = delete_operator k.cop w; stopped = false })
unfolding erase_loop keep
erase_loop-continue i w [] k d h l = cc
erase_loop-continue zero w (x ∷ []) k d h l = absurd (omega arith)
erase_loop-continue zero w (x ∷ y ∷ ks) k d h l =
    let e : x.cop ≡ k.cop = cop_of_head x k h in
    erase_loop-pass k.cop w x (y ∷ ks) e
    ∙ erase_loop-skip k.cop (delete_operator k.cop w) y ks (rw (← e) d.0.1)
erase_loop-continue (suc i) w (x ∷ ks) k d h l = rw (
  ==_ne x.cop k.cop (λ e. get_elem?-ne x.cop i ks k d.0 h (sym e)),
  erase_loop,
  erase_loop-continue i w ks k d.1 h (omega arith),
)

-- If none follows, the loop moves the iterator past the end.
pub erase_loop-fault :
    (i : ℕ) (w : Work) (ks : List CopContainer) (k : CopContainer)
    → Distinct ks
    → get_elem? ks i ≡ some k
    → i + 1 ≡ length ks
    → erase_loop k.cop false false w ks ≡ fault
unfolding erase_loop keep
erase_loop-fault i w [] k d h l = cc
erase_loop-fault zero w (x ∷ []) k d h l = erase_loop-pass k.cop w x [] (cop_of_head x k h)
erase_loop-fault zero w (x ∷ y ∷ ks) k d h l = absurd (omega arith)
erase_loop-fault (suc i) w (x ∷ ks) k d h l = rw (
  ==_ne x.cop k.cop (λ e. get_elem?-ne x.cop i ks k d.0 h (sym e)),
  erase_loop,
  erase_loop-fault i w ks k d.1 h (omega arith),
)
