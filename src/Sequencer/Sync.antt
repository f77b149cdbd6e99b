-- ===== src/Sequencer/Sync.antt =====
-- The position of the child after the calls of AUDIO_SEQUENCER_BASE, against the position that the
-- sequencer maps its own to.
use native.Mathlib.Nat.{
  mod-eq_of_lt, mod-lt, mod-eq-sub-mod, mod-add-mod, mod-add-div, mul-mod_right, zero-mod, mod-le,
}
use ecasound.Common.{
  ℕ, ◌+◌, ◌-◌, ◌*◌, ◌/◌, ◌%◌, ◌≤◌, ◌<◌, ◌≡◌, refl, sym, ◌∙◌, ◌↔◌, true, false, ◌||◌, List, [], ◌∷◌,
  ◌++◌, ◌==◌, ==_eq, ==_ne, ℕ_discrete, ltb, leb, arith, if◌then◌else◌, dec_lt,
}
use ecasound.Sequencer.{
  Child, Sequencer, Call, seek, read_sbuf, read_tmp, looped_pos, priv_public_to_child_pos,
  seek_position, seek_position_in_samples, finished,
}

-- The position of the child after the calls: a seek sets it and a read moves it on.
abbrev pub replay : ℕ → List Call → ℕ
replay p [] = p
replay p (seek n ∷ calls) = replay n calls
replay p (read_sbuf n ∷ calls) = replay (p + n) calls
replay p (read_tmp n ∷ calls) = replay (p + n) calls
replay p (_ ∷ calls) = replay p calls

-- The child stands where the position of the sequencer is mapped to.
abbrev pub IsSynced : ℕ → Sequencer → Type 0
IsSynced p s = p ≡ priv_public_to_child_pos s s.position_in_samples

-- A seek leaves the child where the new position is mapped to, where the object is open and is read
-- or has been written to.
seek_position_in_samples-IsSynced :
    (pos p : ℕ) (s : Sequencer)
    → s.is_open ≡ true
    → (s.io_read || s.child_write_started) ≡ true
    → IsSynced (replay p (seek_position_in_samples pos s).0) (seek_position_in_samples pos s).1
unfolding seek_position_in_samples seek_position priv_public_to_child_pos
seek_position_in_samples-IsSynced pos p s o w = rw (o, w) refl

-- The end of a section that is played once from a child of finite length: past the offset, the
-- object in read mode is finished as soon as the whole section has been played, unless the child
-- has finished already.
pub finished_iff :
    (child : Child) (s : Sequencer)
    → child.finished ≡ false
    → s.io_read ≡ true
    → s.child_looping ≡ false
    → child.finite_length_stream ≡ true
    → s.child_offset < s.position_in_samples
    → (finished child s ≡ true) ↔ (s.child_offset + s.child_length ≤ s.position_in_samples)
unfolding finished priv_public_to_child_pos
finished_iff child s f r l e h = ground arith

mod_step : (n x b : ℕ) → x < n → b < n → (x + b) % n ≡ (if ltb (x + b) n then x + b else x + b - n)
mod_step n x b h k = elim (dec_lt (x + b) n) [
  | yes l ↦ mod-eq_of_lt l ∙ ground arith
  | no l ↦ mod-eq-sub-mod (omega arith) ∙ mod-eq_of_lt (omega arith) ∙ ground arith
]

pub looped_pos-mod : (n r : ℕ) → 0 < n → looped_pos n r ≡ r % n
looped_pos-mod n r h = ground arith

-- How the position in a loop moves on by less than the length of the loop.
pub looped_pos-add :
    (n r b : ℕ)
    → b < n
    → looped_pos n (r + b)
      ≡ (if ltb (looped_pos n r + b) n then looped_pos n r + b else looped_pos n r + b - n)
looped_pos-add n r b h =
    rw (looped_pos-mod n (r + b) (omega arith), looped_pos-mod n r (omega arith))
      (sym (mod-add-mod r n b) ∙ mod_step n (r % n) b (mod-lt r (omega arith)) h)

pub looped_pos-lt : (n r : ℕ) → 0 < n → looped_pos n r < n
looped_pos-lt n r h = rw (looped_pos-mod n r h) (mod-lt r h)

-- The last position not above one at which the loop starts.
pub looped_pos-start : (n r : ℕ) → 0 < n → looped_pos n (r - looped_pos n r) ≡ 0
looped_pos-start n r h =
    let e : r - r % n ≡ n * (r / n) = omega (arith, mod-add-div r n) in
    rw (looped_pos-mod n r h, looped_pos-mod n (r - r % n) h, e) (mul-mod_right n (r / n))

pub mapped_before :
    (s : Sequencer) (q : ℕ) → q ≤ s.child_offset → priv_public_to_child_pos s q ≡ s.child_start_pos
unfolding priv_public_to_child_pos
mapped_before s q h = ground arith

pub mapped_after :
    (s : Sequencer) (q : ℕ)
    → s.child_looping ≡ true
    → s.child_offset ≤ q
    → s.child_start_pos < s.child_length
    → priv_public_to_child_pos s q
      ≡ looped_pos (s.child_length - s.child_start_pos) (q - s.child_offset) + s.child_start_pos
unfolding priv_public_to_child_pos
mapped_after s q l h k = elim (dec_lt s.child_offset q) [
  | yes m ↦ ground arith
  | no m ↦
      let z : q - s.child_offset ≡ 0 = omega arith in
      let n : 0 % (s.child_length - s.child_start_pos) ≡ 0 =
        zero-mod (s.child_length - s.child_start_pos) in
      rw z (ground (arith, n))
]

pub replay-sought :
    (c p : ℕ) (calls : List Call)
    → replay p ((if c == p then [] else seek c ∷ []) ++ calls) ≡ replay c calls
replay-sought c p calls = elim (ℕ_discrete c p) [
  | yes e ↦ rw (==_eq c p e, sym e) refl
  | no n ↦ rw (==_ne c p n) refl
]

pub looped_pos-le : (n r : ℕ) → looped_pos n r ≤ r
looped_pos-le n r = ground (arith, mod-le r n)

pub le→leb : (a b : ℕ) → a ≤ b → leb a b ≡ true
le→leb a b h = ground arith

pub gt→leb : (a b : ℕ) → b < a → leb a b ≡ false
gt→leb a b h = ground arith

pub ge→ltb : (a b : ℕ) → b ≤ a → ltb a b ≡ false
ge→ltb a b h = ground arith

pub looped_pos-small : (n r : ℕ) → r < n → looped_pos n r ≡ r
looped_pos-small n r h = looped_pos-mod n r (omega arith) ∙ mod-eq_of_lt h
