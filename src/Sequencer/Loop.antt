-- ===== src/Sequencer/Loop.antt =====
-- A read of AUDIO_SEQUENCER_BASE that plays its section in a loop keeps the child where the position
-- is mapped to.
use ecasound.Common.{
  ℕ, ◌+◌, ◌-◌, ◌≤◌, ◌<◌, ◌≡◌, refl, sym, ◌∙◌, ap, min, Bool, true, false, ◌&&◌, List, some, ltb,
  arith, dec_lt, lt→ltb, Bool-cases, inl, inr,
}
use ecasound.Sequencer.{
  change_position_in_samples, Child, Sequencer, Call, looped_pos, priv_public_to_child_pos,
  read_before, read_across, read_around, read_inside, read_cases, extends, extend_position,
  read_buffer,
}
use ecasound.Sequencer.Sync.{
  replay, IsSynced, looped_pos-add, looped_pos-lt, looped_pos-start, mapped_before, mapped_after,
  replay-sought, looped_pos-le, le→leb, gt→leb, ge→ltb, looped_pos-small,
}

and_false : (a b : Bool) → (a && false && b) ≡ false
and_false true b = refl
and_false false b = refl

-- Which of the cases applies.
cases-before :
    (child : Child) (s : Sequencer)
    → s.position_in_samples + s.buffersize ≤ s.child_offset
    → read_cases child s ≡ some (read_before child s)
unfolding read_cases
cases-before child s h = rw (le→leb _ _ h) refl

cases-across :
    (child : Child) (s : Sequencer)
    → s.child_offset < s.position_in_samples + s.buffersize
    → s.position_in_samples < s.child_offset
    → read_cases child s ≡ some (read_across child s)
unfolding read_cases
cases-across child s h k = rw (gt→leb _ _ h, lt→ltb _ _ k) refl

cases-around :
    (child : Child) (s : Sequencer)
    → s.child_looping ≡ true
    → s.child_offset < s.position_in_samples + s.buffersize
    → s.child_offset ≤ s.position_in_samples
    → ltb
        (priv_public_to_child_pos s (s.position_in_samples + s.buffersize))
        (priv_public_to_child_pos s s.position_in_samples)
      ≡ true
    → read_cases child s ≡ some (read_around child s)
unfolding read_cases
cases-around child s l h k w = rw (w, gt→leb _ _ h, ge→ltb _ _ k, l, and_false) refl

pub cases-inside :
    (child : Child) (s : Sequencer)
    → s.child_looping ≡ true
    → s.child_offset < s.position_in_samples + s.buffersize
    → s.child_offset ≤ s.position_in_samples
    → ltb
        (priv_public_to_child_pos s (s.position_in_samples + s.buffersize))
        (priv_public_to_child_pos s s.position_in_samples)
      ≡ false
    → read_cases child s ≡ some (read_inside child s)
unfolding read_cases
cases-inside child s l h k w = rw (w, gt→leb _ _ h, ge→ltb _ _ k, l, and_false) refl

-- A read in a loop that starts where the loop does or later, with the child where the position is
-- mapped to.
module _ (child : Child) (s : Sequencer) (looping : s.child_looping ≡ true)
    (section : s.child_start_pos < s.child_length)
    (short : s.buffersize < s.child_length - s.child_start_pos)
    (synced : IsSynced child.position_in_samples s)
    (full : (p n : ℕ) → p + n ≤ s.child_length → child.frames_read p n ≡ n) where
  abbrev next : ℕ
  next = s.position_in_samples + s.buffersize

  before-synced :
      next ≤ s.child_offset
      → replay child.position_in_samples (read_before child s).0 ≡ priv_public_to_child_pos s next
  unfolding read_before
  before-synced h =
      synced ∙ mapped_before s s.position_in_samples (omega arith) ∙ sym (mapped_before s next h)

  across-synced :
      s.position_in_samples < s.child_offset
      → s.child_offset < next
      → replay child.position_in_samples (read_across child s).0 ≡ priv_public_to_child_pos s next
  unfolding read_across
  across-synced h k =
      let seg = min (next - s.child_offset) s.buffersize in
      let e : seg ≡ next - s.child_offset = omega arith in
      let c = mapped_before s s.position_in_samples (omega arith) in
      let m =
        looped_pos-small (s.child_length - s.child_start_pos) (next - s.child_offset)
          (omega arith) in
      replay-sought (priv_public_to_child_pos s s.position_in_samples) child.position_in_samples _
      ∙ rw (c, full s.child_start_pos seg (omega arith))
          (omega (arith, e, m, mapped_after s next looping (omega arith) section))

  abbrev here : ℕ
  here = looped_pos (s.child_length - s.child_start_pos) (s.position_in_samples - s.child_offset)

  around-synced :
      s.child_offset ≤ s.position_in_samples
      → replay child.position_in_samples (read_around child s).0 ≡ priv_public_to_child_pos s next
  unfolding read_around
  around-synced h =
      let n = s.child_length - s.child_start_pos in
      let r = next - s.child_offset in
      let m = mapped_after s next looping (omega arith) section in
      let l = looped_pos-lt n r (omega arith) in
      let o = priv_public_to_child_pos s next - s.child_start_pos in
      let oe : o ≡ looped_pos n r = omega (arith, m) in
      let z = looped_pos-le n r in
      let b = mapped_after s (next - o) looping (omega (arith, oe, z)) section in
      let q : next - o - s.child_offset ≡ r - looped_pos n r = omega (arith, oe, z) in
      let zero_pos = looped_pos-start n r (omega arith) in
      let start : priv_public_to_child_pos s (next - o) ≡ s.child_start_pos =
        b ∙ rw q (omega (arith, zero_pos)) in
      elim (dec_lt 0 o) [
        | yes y ↦
            rw (lt→ltb 0 o y, start, full s.child_start_pos o (omega (arith, oe, l)))
              (omega (arith, m, oe))
        | no y ↦ rw (ge→ltb 0 o (omega arith), start) (omega (arith, m, oe))
      ]

  inside-synced :
      s.child_offset ≤ s.position_in_samples
      → ltb (priv_public_to_child_pos s next) (priv_public_to_child_pos s s.position_in_samples)
        ≡ false
      → (replay child.position_in_samples (read_inside child s).0 ≡ priv_public_to_child_pos s next)
        × (child.frames_read child.position_in_samples s.buffersize ≡ s.buffersize)
  unfolding read_inside
  inside-synced h w =
      let n = s.child_length - s.child_start_pos in
      let d : next - s.child_offset ≡ (s.position_in_samples - s.child_offset) + s.buffersize =
        omega arith in
      let a = looped_pos-add n (s.position_in_samples - s.child_offset) s.buffersize short in
      let m = mapped_after s next looping (omega arith) section in
      let m' = mapped_after s s.position_in_samples looping h section in
      let l = looped_pos-lt n (s.position_in_samples - s.child_offset) (omega arith) in
      let fits : child.position_in_samples + s.buffersize ≤ s.child_length =
        ground (arith, a, d, m, m', l, synced) in
      let got = full child.position_in_samples s.buffersize fits in
      (rw got (ground (arith, a, d, m, m', l, synced)), got)

  -- The five cases, and the length that grows along.
  cases-synced :
      (calls : List Call) × (s' : Sequencer) × (read_cases child s ≡ some (calls, s'))
      × (s' ≡ change_position_in_samples s.buffersize s)
      × (replay child.position_in_samples calls ≡ priv_public_to_child_pos s next)
  unfolding read_cases
  cases-synced = elim (dec_lt s.child_offset next) [
    | no n ↦ (
      (read_before child s).0,
      change_position_in_samples s.buffersize s,
      cases-before child s (omega arith),
      refl,
      before-synced (omega arith),
    )
    | yes y ↦ elim (dec_lt s.position_in_samples s.child_offset) [
      | yes h ↦ (
        (read_across child s).0,
        change_position_in_samples s.buffersize s,
        cases-across child s y h,
        refl,
        across-synced h y,
      )
      | no h ↦
          elim (Bool-cases (
            ltb (priv_public_to_child_pos s next)
              (priv_public_to_child_pos s s.position_in_samples))) [
                | inl w ↦ (
                  (read_around child s).0,
                  change_position_in_samples s.buffersize s,
                  cases-around child s looping y (omega arith) w,
                  refl,
                  around-synced (omega arith),
                )
                | inr w ↦
                    let r = inside-synced (omega arith) w in
                    (
                      (read_inside child s).0,
                      change_position_in_samples s.buffersize s,
                      cases-inside child s looping y (omega arith) w
                          ∙ ap (λ n. some ((read_inside child s).0, change_position_in_samples n s))
                              r.1,
                      refl,
                      r.0,
                    )
              ]
    ]
  ]

pub read_buffer-looped :
    (child : Child) (s s' : Sequencer) (calls : List Call)
    → s.child_looping ≡ true
    → read_cases child s ≡ some (calls, s')
    → read_buffer child s ≡ some (calls, extend_position s')
unfolding read_buffer extends
read_buffer-looped child s s' calls l e = rw (e, read_buffer, l) refl

-- In a loop that is longer than the buffer, with the child where the position is mapped to and a
-- child that has all samples up to the end of the loop, a read succeeds in each case that occurs,
-- moves the position on by the length of the buffer, and leaves the child where the new position
-- is mapped to.
pub read_buffer-IsSynced :
    (child : Child) (s : Sequencer)
    → s.child_looping ≡ true
    → s.child_start_pos < s.child_length
    → s.buffersize < s.child_length - s.child_start_pos
    → IsSynced child.position_in_samples s
    → ((p n : ℕ) → p + n ≤ s.child_length → child.frames_read p n ≡ n)
    → (calls : List Call) × (s' : Sequencer) × (read_buffer child s ≡ some (calls, s'))
      × IsSynced (replay child.position_in_samples calls) s'
      × (s'.position_in_samples ≡ s.position_in_samples + s.buffersize)
unfolding priv_public_to_child_pos
read_buffer-IsSynced child s looping section short synced full =
    let c = cases-synced child s looping section short synced full in
    (
      c.0,
      extend_position c.1,
      read_buffer-looped child s c.1 c.0 looping c.2,
      c.4
          ∙ sym (
              ap
                (λ (r : Sequencer).
                  priv_public_to_child_pos (extend_position r) r.position_in_samples)
                c.3),
      ap (λ (r : Sequencer). r.position_in_samples) c.3,
    )
