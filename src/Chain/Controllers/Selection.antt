-- ===== src/Chain/Controllers/Selection.antt =====
-- The controller selection of a CHAIN: a number from 1, and the pointer of the controller there.
use ecasound.Common.{
  ℕ, zero, suc, ◌+◌, ◌≤◌, ◌<◌, ◌≡◌, refl, List, [], ◌∷◌, some, arith, length, get_elem?, remove_at,
  ◌⊎◌,
}
use ecasound.Common.Int.{ℤ, pos, negsuc, ◌≤ℤ◌}
use ecasound.Chain.{Controller, Chain, free}
use ecasound.Chain.Controllers.{select_loop, select_controller, remove_loop, remove_controller}

abbrev pub unselected : Chain → Chain
unselected c = record c { selected_controller_ptr = 0; selected_controller_number = pos 0 }

abbrev pub selected : ℕ → Controller → Chain → Chain
selected k g c = record c {
  selected_controller_ptr = g.self;
  selected_controller_number = pos (k + 1);
}

select_loop-beyond :
    (z n : ℕ) (gs : List Controller) (c : Chain) → z ≤ n → select_loop (pos z) n gs c ≡ c
unfolding select_loop
select_loop-beyond z n [] c h = refl
select_loop-beyond z n (g ∷ gs) c h = ground (arith, select_loop-beyond z (n + 1) gs c)

select_loop-above :
    (z n : ℕ) (gs : List Controller) (c : Chain)
    → n + length gs < z
    → select_loop (pos z) n gs c ≡ c
unfolding select_loop
select_loop-above z n [] c h = refl
select_loop-above z n (g ∷ gs) c h = ground (arith, select_loop-above z (n + 1) gs c)

select_loop-negative :
    (z n : ℕ) (gs : List Controller) (c : Chain) → select_loop (negsuc z) n gs c ≡ c
unfolding select_loop
select_loop-negative z n [] c = refl
select_loop-negative z n (g ∷ gs) c = ground (arith, select_loop-negative z (n + 1) gs c)

select_loop-found :
    (z k n : ℕ) (gs : List Controller) (c : Chain) (g : Controller)
    → z ≡ n + k + 1
    → get_elem? gs k ≡ some g
    → select_loop (pos z) n gs c
      ≡ record c { selected_controller_ptr = g.self; selected_controller_number = pos z }
unfolding select_loop
select_loop-found z k n [] c g e h = cc
select_loop-found z zero n (x ∷ gs) c g e h = ground (
  arith,
  select_loop-beyond z (n + 1) gs
      (record c { selected_controller_ptr = x.self; selected_controller_number = pos z }),
)
select_loop-found z (suc k) n (x ∷ gs) c g e h =
    ground (arith, select_loop-found z k (n + 1) gs c g)

-- An index that is the number, from 1, of a controller selects that controller, and changes nothing
-- else.
select_controller-found :
    (k : ℕ) (c : Chain) (g : Controller)
    → get_elem? c.gcontrollers k ≡ some g
    → select_controller (pos (k + 1)) c ≡ selected k g c
unfolding select_controller
select_controller-found k c g h =
    select_loop-found (k + 1) k 0 c.gcontrollers (unselected c) g (omega arith) h

-- Any other index clears the selection, and changes nothing else.
select_controller-missing :
    (index : ℤ) (c : Chain)
    → (index ≤ℤ pos 0) ⊎ (pos (length c.gcontrollers + 1) ≤ℤ index)
    → select_controller index c ≡ unselected c
unfolding select_controller
select_controller-missing (negsuc z) c h = select_loop-negative z 0 c.gcontrollers (unselected c)
select_controller-missing (pos z) c h = ground (
  arith,
  select_loop-beyond z 0 c.gcontrollers (unselected c),
  select_loop-above z 0 c.gcontrollers (unselected c),
)

remove_loop-found :
    (z k n : ℕ) (gs : List Controller) (g : Controller)
    → z ≡ n + k + 1
    → get_elem? gs k ≡ some g
    → remove_loop (pos z) n gs ≡ (some g.self, remove_at gs k)
unfolding remove_loop
remove_loop-found z k n [] g e h = cc
remove_loop-found z zero n (x ∷ gs) g e h = ground arith
remove_loop-found z (suc k) n (x ∷ gs) g e h = ground (arith, remove_loop-found z k (n + 1) gs g)

-- Where the selection names controller `k + 1`, `remove_controller` deletes that one and no other,
-- keeps the rest in order, and clears the selection.
pub remove_controller_lem :
    {V : Type 0} (k : ℕ) (c : Chain) (g : Controller)
    → get_elem? c.gcontrollers k ≡ some g
    → c.selected_controller_number ≡ pos (k + 1)
    → remove_controller {V = V} c
      ≡ (unselected (record c { gcontrollers = remove_at c.gcontrollers k }), free g.self ∷ [])
unfolding remove_controller
remove_controller_lem k c g h e = ground (
  arith,
  remove_loop-found (k + 1) k 0 c.gcontrollers g (omega arith) h,
  select_controller-missing (negsuc 0) (record c { gcontrollers = remove_at c.gcontrollers k }),
)
