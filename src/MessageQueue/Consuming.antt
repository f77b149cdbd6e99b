-- ===== src/MessageQueue/Consuming.antt =====
-- The loop of ECA_ENGINE::check_command_queue over MESSAGE_QUEUE_RT_C.
use mathlib.Core.List.{append-nil, append_assoc}
use ecasound.Common.{
  ℕ, ◌+◌, ◌<◌, ◌≡◌, refl, ap, sym, ◌∙◌, inl, inr, ◌⊎◌, true, false, List, [], ◌∷◌, ◌++◌, some,
  length, arith, Bool-cases, length-append,
}
use ecasound.MessageQueue.Rounds.{
  queue, is_empty-nil, consume_stop, consume_busy, consume_nothing, consume_next,
}
use ecasound.MessageQueue.{MessageQueue, Round, is_empty, consume}

module _ {A : Type 0} where
  -- The lock is never busy.
  abbrev pub AllFree : List (Round A) → Type 0
  AllFree [] = Unit
  AllFree (r ∷ rounds) = (r.busy_empty ≡ false) × (r.busy_pop ≡ false) × AllFree rounds

  -- All that the other thread pushes, in order.
  abbrev pub pushed : List (Round A) → List A
  pushed [] = []
  pushed (r ∷ rounds) = r.between ++ (r.after ++ pushed rounds)

  -- The loop has ended, after the other thread has pushed `came`. It has got the first of all these
  -- messages and left the others, and it has left none if the lock was never busy.
  pub record Consumed (rounds : List (Round A)) (q : MessageQueue A) : Type 0 where
    pub got : List A
    pub left : MessageQueue A
    pub came : List A
    pub later : List A
    pub ends : consume rounds q ≡ some (got, left)
    pub arrived : pushed rounds ≡ came ++ later
    pub ordered : q.msgs ++ came ≡ got ++ left.msgs
    pub all_got : AllFree rounds → left.msgs ≡ []

  list_cases : (xs : List A) → (xs ≡ []) ⊎ ((y : A) × (ys : List A) × (xs ≡ y ∷ ys))
  list_cases [] = inl refl
  list_cases (x ∷ xs) = inr (x, xs, refl)

  append_assoc_both : (ws xs ys zs : List A) → (ws ++ (xs ++ ys)) ++ zs ≡ ws ++ (xs ++ (ys ++ zs))
  append_assoc_both ws xs ys zs =
      append_assoc ws (xs ++ ys) zs ∙ ap (λ vs. ws ++ vs) (append_assoc xs ys zs)

  fewer :
      (r : Round A) (rounds : List (Round A)) (ms : List A) (x : A) (xs : List A)
      → ms ++ r.between ≡ x ∷ xs
      → length ms + length (pushed (r ∷ rounds)) < length (r ∷ rounds)
      → length (xs ++ r.after) + length (pushed rounds) < length rounds
  fewer r rounds ms x xs e h =
      let here = length-append ms r.between in
      let same = ap length e in
      let next = length-append xs r.after in
      let all = length-append r.between (r.after ++ pushed rounds) in
      let others = length-append r.after (pushed rounds) in
      omega (arith, here, same, next, all, others, h)

  module _ (r : Round A) (rounds : List (Round A)) (m : ℕ) (ms : List A) where
    ends_empty : is_empty r.busy_empty (queue m ms) ≡ true → Consumed (r ∷ rounds) (queue m ms)
    ends_empty h = record {
      got = [];
      left = queue m ms;
      came = [];
      later = pushed (r ∷ rounds);
      ends = consume_stop r rounds m ms h;
      arrived = refl;
      ordered = append-nil ms;
      all_got = λ free. is_empty-nil r.busy_empty m ms h;
    }

    ends_busy :
        is_empty r.busy_empty (queue m ms) ≡ false
        → r.busy_pop ≡ true
        → Consumed (r ∷ rounds) (queue m ms)
    ends_busy h b = record {
      got = [];
      left = queue m (ms ++ r.between);
      came = r.between;
      later = r.after ++ pushed rounds;
      ends = consume_busy r rounds m ms h b;
      arrived = refl;
      ordered = refl;
      all_got = λ free. let (_, f, _) = free in absurd (ground (arith, b, f));
    }

    ends_none :
        is_empty r.busy_empty (queue m ms) ≡ false
        → r.busy_pop ≡ false
        → ms ++ r.between ≡ []
        → Consumed (r ∷ rounds) (queue m ms)
    ends_none h b e = record {
      got = [];
      left = queue m [];
      came = r.between;
      later = r.after ++ pushed rounds;
      ends = consume_nothing r rounds m ms h b e;
      arrived = refl;
      ordered = e;
      all_got = λ free. refl;
    }

    goes_on :
        (x : A) (xs : List A)
        → is_empty r.busy_empty (queue m ms) ≡ false
        → r.busy_pop ≡ false
        → ms ++ r.between ≡ x ∷ xs
        → Consumed rounds (queue m (xs ++ r.after))
        → Consumed (r ∷ rounds) (queue m ms)
    goes_on x xs h b e rest = record {
      got = x ∷ rest.got;
      left = rest.left;
      came = r.between ++ (r.after ++ rest.came);
      later = rest.later;
      ends = consume_next r rounds m ms x xs rest.got rest.left h b e rest.ends;
      arrived =
          ap (λ ys. r.between ++ (r.after ++ ys)) rest.arrived
          ∙ sym (append_assoc_both r.between r.after rest.came rest.later);
      ordered =
          sym (append_assoc ms r.between (r.after ++ rest.came))
          ∙ ap (λ ys. ys ++ (r.after ++ rest.came)) e
          ∙ ap (λ ys. x ∷ ys) (sym (append_assoc xs r.after rest.came) ∙ rest.ordered);
      all_got = λ free. let (_, _, others) = free in rest.all_got others;
    }

  consume_msgs :
      (rounds : List (Round A)) (m : ℕ) (ms : List A)
      → length ms + length (pushed rounds) < length rounds
      → Consumed rounds (queue m ms)
  consume_msgs [] m ms h = absurd (omega arith)
  consume_msgs (r ∷ rounds) m ms h = elim (Bool-cases (is_empty r.busy_empty (queue m ms))) [
    | inl empty ↦ ends_empty r rounds m ms empty
    | inr more ↦ elim (Bool-cases r.busy_pop) [
      | inl busy ↦ ends_busy r rounds m ms more busy
      | inr free ↦ elim (list_cases (ms ++ r.between)) [
        | inl none_there ↦ ends_none r rounds m ms more free none_there
        | inr (x, xs, e) ↦
            goes_on r rounds m ms x xs more free e
              (consume_msgs rounds m (xs ++ r.after) (fewer r rounds ms x xs e h))
      ]
    ]
  ]

  -- The loop of check_command_queue ends if it has more rounds than there are messages, those that
  -- the other thread pushes meanwhile included, whenever the lock is free or busy. It has got the
  -- first messages in order, the others that have come stay in the queue, and none stays if the lock
  -- was never busy.
  pub consume-Consumed :
      (rounds : List (Round A)) (q : MessageQueue A)
      → length q.msgs + length (pushed rounds) < length rounds
      → Consumed rounds q
  consume-Consumed rounds q h = consume_msgs rounds q.max_rt_size q.msgs h
