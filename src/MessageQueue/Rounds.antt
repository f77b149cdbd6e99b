-- ===== src/MessageQueue/Rounds.antt =====
-- One round of the loop of ECA_ENGINE::check_command_queue, by what its attempts at the lock find.
use mathlib.Core.List.{append-nil, append_assoc}
use ecasound.Common.{
  ℕ, ◌≡◌, refl, ap, sym, ◌∙◌, Bool, true, false, List, [], ◌∷◌, ◌++◌, some, none, Option, arith,
}
use ecasound.Common.Int.{ℤ}
use ecasound.MessageQueue.{MessageQueue, Round, is_empty, pop_front, push_all, consume}

module _ {A : Type 0} where
  abbrev pub queue : ℕ → List A → MessageQueue A
  queue m ms = record { max_rt_size = m; msgs = ms }

  pub push_all_lem : (xs ms : List A) (m : ℕ) → push_all xs (queue m ms) ≡ queue m (ms ++ xs)
  unfolding push_all
  push_all_lem [] ms m = ap (queue m) (sym (append-nil ms))
  push_all_lem (x ∷ xs) ms m =
      push_all_lem xs (ms ++ x ∷ []) m ∙ ap (queue m) (append_assoc ms (x ∷ []) xs)

  pub is_empty-nil :
      (busy : Bool) (m : ℕ) (ms : List A) → is_empty busy (queue m ms) ≡ true → ms ≡ []
  unfolding is_empty
  is_empty-nil busy m [] h = refl
  is_empty-nil busy m (x ∷ xs) h = absurd (ground arith)

  module _ (r : Round A) (rounds : List (Round A)) (m : ℕ) (ms : List A) where
    abbrev got_first : A → Option (List A × MessageQueue A) → Option (List A × MessageQueue A)
    got_first x rest = elim rest [ none ↦ none | some y ↦ some (x ∷ y.0, y.1) ]

    -- The loop goes by what its attempt at `pop_front` gives.
    consume_from : ℤ × Option A × MessageQueue A → Option (List A × MessageQueue A)
    consume_from p = elim p.1 [
      | none ↦ some ([], p.2)
      | some x ↦ got_first x (consume rounds (push_all r.after p.2))
    ]

    pop_pushed :
        (msgs : List A)
        → ms ++ r.between ≡ msgs
        → pop_front r.busy_pop (push_all r.between (queue m ms))
          ≡ pop_front r.busy_pop (queue m msgs)
    pop_pushed msgs e =
        ap (λ q. pop_front r.busy_pop q) (push_all_lem r.between ms m ∙ ap (queue m) e)

    pub consume_stop :
        is_empty r.busy_empty (queue m ms) ≡ true
        → consume (r ∷ rounds) (queue m ms) ≡ some ([], queue m ms)
    unfolding consume
    consume_stop h = rw h refl

    consume_more :
        (msgs : List A)
        → is_empty r.busy_empty (queue m ms) ≡ false
        → ms ++ r.between ≡ msgs
        → consume (r ∷ rounds) (queue m ms) ≡ consume_from (pop_front r.busy_pop (queue m msgs))
    unfolding consume consume_from
    consume_more msgs h e = rw h (ap consume_from (pop_pushed msgs e))

    pub consume_busy :
        is_empty r.busy_empty (queue m ms) ≡ false
        → r.busy_pop ≡ true
        → consume (r ∷ rounds) (queue m ms) ≡ some ([], queue m (ms ++ r.between))
    unfolding consume_from pop_front
    consume_busy h b = consume_more (ms ++ r.between) h refl ∙ rw b refl

    pub consume_nothing :
        is_empty r.busy_empty (queue m ms) ≡ false
        → r.busy_pop ≡ false
        → ms ++ r.between ≡ []
        → consume (r ∷ rounds) (queue m ms) ≡ some ([], queue m [])
    unfolding consume_from pop_front
    consume_nothing h b e = consume_more [] h e ∙ rw b refl

    pub consume_next :
        (x : A) (xs got : List A) (left : MessageQueue A)
        → is_empty r.busy_empty (queue m ms) ≡ false
        → r.busy_pop ≡ false
        → ms ++ r.between ≡ x ∷ xs
        → consume rounds (queue m (xs ++ r.after)) ≡ some (got, left)
        → consume (r ∷ rounds) (queue m ms) ≡ some (x ∷ got, left)
    unfolding consume_from pop_front
    consume_next x xs got left h b e more =
        consume_more (x ∷ xs) h e
        ∙ rw b (ap (got_first x) (ap (consume rounds) (push_all_lem r.after xs m) ∙ more))
