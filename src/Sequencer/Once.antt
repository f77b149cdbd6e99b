-- ===== src/Sequencer/Once.antt =====
-- Reads of AUDIO_SEQUENCER_BASE past the offset: a section that is played once, and a loop that is
-- as long as the buffer.
use native.Mathlib.Nat.{add-mod_right}
use ecasound.Common.{
  ℕ, ◌+◌, ◌-◌, ◌≤◌, ◌<◌, ◌≡◌, refl, sym, ◌∙◌, ap, min, Bool, true, false, ◌&&◌, List, [], ◌∷◌, some,
  ltb, arith, if◌then◌else◌, dec_lt, lt→ltb,
}
use ecasound.Sequencer.{
  sbuf_length, change_position_in_samples, Child, Sequencer, Call, set_buffersize, read_sbuf,
  looped_pos, priv_public_to_child_pos, section_end, read_last, read_inside, read_cases, extends,
  extend_position, read_buffer,
}
use ecasound.Sequencer.Sync.{mapped_after, le→leb, gt→leb, ge→ltb, looped_pos-mod}
use ecasound.Sequencer.Loop.{cases-inside, read_buffer-looped}

mapped_once :
    (s : Sequencer) (q : ℕ)
    → s.child_looping ≡ false
    → s.child_offset ≤ q
    → priv_public_to_child_pos s q ≡ q - s.child_offset + s.child_start_pos
unfolding priv_public_to_child_pos
mapped_once s q l h = ground arith

last_false : (b : Bool) → (b && false) ≡ false
last_false true = refl
last_false false = refl

read_last-moves :
    (child : Child) (s : Sequencer)
    → s.child_looping ≡ false
    → s.child_offset ≤ s.position_in_samples
    → s.position_in_samples ≤ s.child_offset + s.child_length
    → (calls : List Call) × (read_last child s
        ≡ some (
          calls,
          change_position_in_samples
              (min
                (child.frames_read child.position_in_samples s.buffersize)
                (s.child_offset + s.child_length - s.position_in_samples))
              s,
        ))
unfolding read_last
read_last-moves child s l h k =
    let got = child.frames_read child.position_in_samples s.buffersize in
    let chipos = priv_public_to_child_pos s s.position_in_samples in
    let m = mapped_once s s.position_in_samples l h in
    let rest = s.child_offset + s.child_length - s.position_in_samples in
    let e : section_end s - chipos ≡ rest = omega (arith, m) in
    let i : ltb (section_end s) chipos ≡ false = ge→ltb (section_end s) chipos (omega (arith, m)) in
    elim (dec_lt rest got) [
      | yes c ↦ (
        set_buffersize s.buffersize ∷ read_sbuf got ∷ sbuf_length rest ∷ [],
        rw (i, e, lt→ltb rest got c)
            (ap
              (λ n. some (
                set_buffersize s.buffersize ∷ read_sbuf got ∷ sbuf_length rest ∷ [],
                change_position_in_samples n s,
              ))
              (omega arith)),
      )
      | no c ↦ (
        set_buffersize s.buffersize ∷ read_sbuf got ∷ [],
        rw (i, e, ge→ltb rest got (omega arith))
            (ap
              (λ n.
                some (
                  set_buffersize s.buffersize ∷ read_sbuf got ∷ [],
                  change_position_in_samples n s,
                ))
              (omega arith)),
      )
    ]

-- Which of the last three cases applies to a section that is played once.
cases-last :
    (child : Child) (s : Sequencer)
    → s.child_looping ≡ false
    → child.finite_length_stream ≡ true
    → s.child_offset < s.position_in_samples + s.buffersize
    → s.child_offset ≤ s.position_in_samples
    → section_end s ≤ priv_public_to_child_pos s (s.position_in_samples + s.buffersize)
    → read_cases child s ≡ read_last child s
unfolding read_cases
cases-last child s l f h k w = rw (le→leb _ _ w, gt→leb _ _ h, ge→ltb _ _ k, l, f) refl

cases-middle :
    (child : Child) (s : Sequencer)
    → s.child_looping ≡ false
    → s.child_offset < s.position_in_samples + s.buffersize
    → s.child_offset ≤ s.position_in_samples
    → priv_public_to_child_pos s (s.position_in_samples + s.buffersize) < section_end s
    → read_cases child s ≡ some (read_inside child s)
unfolding read_cases
cases-middle child s l h k w = rw (gt→leb _ _ w, gt→leb _ _ h, ge→ltb _ _ k, l, last_false) refl

read_buffer-run :
    (child : Child) (s s' : Sequencer) (calls : List Call)
    → read_cases child s ≡ some (calls, s')
    → (s'' : Sequencer) × (read_buffer child s ≡ some (calls, s''))
      × (s''.position_in_samples ≡ s'.position_in_samples)
unfolding read_buffer
read_buffer-run child s s' calls e = (
  if extends child s then extend_position s' else s',
  rw (e, read_buffer) refl,
  position_after (extends child s) s',
)
  where
    position_after :
        (b : Bool) (r : Sequencer)
        → (if b then extend_position r else r).position_in_samples ≡ r.position_in_samples
    position_after true r = refl
    position_after false r = refl

inside-position :
    (child : Child) (s : Sequencer) {rest : ℕ}
    → child.frames_read child.position_in_samples s.buffersize ≤ rest
    → (read_inside child s).1.position_in_samples
      ≡ s.position_in_samples + min (child.frames_read child.position_in_samples s.buffersize) rest
unfolding read_inside
inside-position child s h = omega arith

-- A section of a child of finite length that is played once: at the offset or past it and not past
-- the end of the section, with a buffer that is not empty and a child that gives no more than is
-- asked for, a read succeeds and moves the position on by what the child gives, or by what is left
-- of the section if that is less, so that the position never passes the end of the section.
pub read_buffer-once :
    (child : Child) (s : Sequencer)
    → s.child_looping ≡ false
    → child.finite_length_stream ≡ true
    → s.child_offset ≤ s.position_in_samples
    → 0 < s.buffersize
    → s.position_in_samples ≤ s.child_offset + s.child_length
    → child.frames_read child.position_in_samples s.buffersize ≤ s.buffersize
    → (calls : List Call) × (s' : Sequencer) × (read_buffer child s ≡ some (calls, s'))
      × (s'.position_in_samples
          ≡ s.position_in_samples
            + min
                (child.frames_read child.position_in_samples s.buffersize)
                (s.child_offset + s.child_length - s.position_in_samples))
read_buffer-once child s l f h b k g =
    let got = child.frames_read child.position_in_samples s.buffersize in
    let next = s.position_in_samples + s.buffersize in
    let m = mapped_once s next l (omega arith) in
    elim (dec_lt next (s.child_offset + s.child_length)) [
      | no c ↦
          let r = read_last-moves child s l h k in
          let e =
            read_buffer-run child s _ r.0
              (cases-last child s l f (omega arith) h (omega (arith, m)) ∙ r.1) in
          (r.0, e.0, e.1, e.2)
      | yes c ↦
          let e =
            read_buffer-run child s (read_inside child s).1 (read_inside child s).0
              (cases-middle child s l (omega arith) h (omega (arith, m))) in
          ((read_inside child s).0, e.0, e.1, e.2 ∙ inside-position child s (omega arith))
    ]

inside-got :
    (child : Child) (s : Sequencer) {got : ℕ}
    → child.frames_read child.position_in_samples s.buffersize ≡ got
    → some (read_inside child s)
      ≡ some (set_buffersize s.buffersize ∷ read_sbuf got ∷ [], change_position_in_samples got s)
unfolding read_inside
inside-got child s h =
    ap (λ n. some (set_buffersize s.buffersize ∷ read_sbuf n ∷ [], change_position_in_samples n s))
      h

-- A loop as long as the buffer is not wrapped around: at the offset or past it, where the child
-- gives just the samples from its position to the end of the loop, the read is over with these, and
-- neither seeks nor reads again.
pub read_buffer-whole_loop :
    (child : Child) (s : Sequencer)
    → s.child_looping ≡ true
    → s.child_start_pos < s.child_length
    → s.buffersize ≡ s.child_length - s.child_start_pos
    → s.child_offset ≤ s.position_in_samples
    → child.frames_read child.position_in_samples s.buffersize
      ≡ s.child_length - child.position_in_samples
    → let got = s.child_length - child.position_in_samples in
      read_buffer child s
      ≡ some (
        set_buffersize s.buffersize ∷ read_sbuf got ∷ [],
        extend_position (change_position_in_samples got s),
      )
read_buffer-whole_loop child s l h e k g =
    let n = s.child_length - s.child_start_pos in
    let r = s.position_in_samples - s.child_offset in
    let d : s.position_in_samples + s.buffersize - s.child_offset ≡ r + n = omega arith in
    let z : looped_pos n (r + n) ≡ looped_pos n r =
      rw (looped_pos-mod n (r + n) (omega arith), looped_pos-mod n r (omega arith))
        (add-mod_right r n) in
    let m = mapped_after s (s.position_in_samples + s.buffersize) l (omega arith) h in
    let m' = mapped_after s s.position_in_samples l k h in
    let same : priv_public_to_child_pos s (s.position_in_samples + s.buffersize)
        ≡ priv_public_to_child_pos s s.position_in_samples =
      m ∙ rw (d, z) (sym m') in
    read_buffer-looped child s
      (change_position_in_samples (s.child_length - child.position_in_samples) s) _ l
      (cases-inside child s l (omega arith) k (ge→ltb _ _ (omega (arith, same)))
        ∙ inside-got child s g)
