-- ===== src/DbBuffer/Pending.antt =====
-- The sample buffers that wait in a ring, oldest first, and what a write at the write pointer leaves
-- of them.
use native.Mathlib.Nat.{add-zero, mod-eq_of_lt, mod-add-mod, mod-eq-sub-mod}
use mathlib.Core.List.{append_assoc}
use ecasound.Common.{
  ℕ, zero, suc, ◌+◌, ◌-◌, ◌%◌, ◌≤◌, ◌<◌, ◌≡◌, refl, ap, ◌≢◌, List, [], ◌∷◌, ◌++◌, arith, ◌==◌, ltb,
  if◌then◌else◌, dec_lt,
}
use ecasound.DbBuffer.{DbBuffer, read_space}
use ecasound.DbBuffer.Spaces.{IsValid, read_space-distance, read_space-add-write_space}

-- One subtraction brings a number below twice the size into the ring.
mod_once : (a n : ℕ) → a < n + n → a % n ≡ (if ltb a n then a else a - n)
mod_once a n h = elim (dec_lt a n) [
  | yes p ↦ ground (arith, mod-eq_of_lt p)
  | no p ↦ ground (
    arith,
    mod-eq-sub-mod {n = a} {m = n} (omega arith),
    mod-eq_of_lt {n = a - n} {m = n} (omega arith),
  )
]

-- Distinct offsets below the ring's size lead to distinct slots.
add-mod-ne : (r k d n : ℕ) → r < n → k < d → d < n → (r + k) % n ≢ (r + d) % n
add-mod-ne r k d n hr hk hd =
    ground (arith, mod_once (r + k) n (omega arith), mod_once (r + d) n (omega arith))

module _ {A : Type 0} where
  abbrev pub store : (ℕ → A) → ℕ → A → ℕ → A
  store slots i v j = if j == i then v else slots j

  -- The `k` sample buffers from ring position `r` on.
  abbrev pub pending : (ℕ → A) → ℕ → ℕ → ℕ → List A
  pending slots n r zero = []
  pending slots n r (suc k) = pending slots n r k ++ (slots ((r + k) % n) ∷ [])

  pending-cons :
      (slots : ℕ → A) (n r k : ℕ)
      → r < n
      → pending slots n r (suc k) ≡ slots r ∷ pending slots n ((r + 1) % n) k
  pending-cons slots n r zero h = rw (add-zero, mod-eq_of_lt h)
  pending-cons slots n r (suc k) h =
      let shift : (r + suc k) % n ≡ ((r + 1) % n + k) % n =
        rw mod-add-mod (ap (λ t. t % n) (omega arith)) in
      rw (pending-cons slots n r k h)
        (ap (λ t. slots r ∷ (pending slots n ((r + 1) % n) k ++ (slots t ∷ []))) shift)

  pub pending-snoc :
      (slots : ℕ → A) (n r k k' : ℕ)
      → k' ≡ k + 1
      → pending slots n r k' ≡ pending slots n r k ++ (slots ((r + k) % n) ∷ [])
  pending-snoc slots n r k k' e = let e' : k' ≡ suc k = omega arith in rw e'

  pub pending-uncons :
      (slots : ℕ → A) (n r k k' : ℕ)
      → r < n
      → k ≡ k' + 1
      → pending slots n r k ≡ slots r ∷ pending slots n ((r + 1) % n) k'
  pending-uncons slots n r k k' h e =
      let e' : k ≡ suc k' = omega arith in rw e' (pending-cons slots n r k' h)

  pub stream-fill :
      (written delivered p p' : List A) (x v : A)
      → written ≡ delivered ++ p
      → p' ≡ p ++ (x ∷ [])
      → x ≡ v
      → written ++ (v ∷ []) ≡ delivered ++ p'
  stream-fill written delivered p p' x v h k e = rw (h, k, e) (append_assoc delivered p (v ∷ []))

  pub stream-drain :
      (written delivered p p' : List A) (x v : A)
      → written ≡ delivered ++ p
      → p ≡ x ∷ p'
      → x ≡ v
      → written ≡ (delivered ++ (v ∷ [])) ++ p'
  stream-drain written delivered p p' x v h k e = rw (h, k, e, append_assoc delivered (v ∷ []) p')

  -- A write at distance `d` from `r` is not seen by the first `d` buffers.
  pub pending-store :
      (slots : ℕ → A) (n r d k i : ℕ) (v : A)
      → r < n
      → d < n
      → k ≤ d
      → i ≡ (r + d) % n
      → pending (store slots i v) n r k ≡ pending slots n r k
  pending-store slots n r d zero i v hr hd hk e = refl
  pending-store slots n r d (suc k) i v hr hd hk e =
      rw (pending-store slots n r d k i v hr hd (omega arith) e)
        (ground (arith, add-mod-ne r k d n hr hk hd))

pub writeptr-read_space :
    (b : DbBuffer) → IsValid b → b.writeptr ≡ (b.readptr + read_space b) % b.size
writeptr-read_space b v = ground (
  arith,
  read_space-distance b v,
  mod_once (b.readptr + read_space b) b.size (omega (arith, read_space-add-write_space b v)),
)

-- While the filler has been granted a slot, it is not the drainer's.
pub readptr-ne-writeptr : (b : DbBuffer) → IsValid b → 0 < read_space b → b.readptr ≢ b.writeptr
readptr-ne-writeptr b v h = ground (arith, read_space-distance b v)
