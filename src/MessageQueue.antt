-- ===== src/MessageQueue.antt =====
-- kvutils/kvu_message_queue.h: MESSAGE_QUEUE_RT_C, the queue between the control thread and the
-- engine. `busy` says that another thread holds the lock at a `pthread_mutex_trylock`.
pub mod Consuming
pub mod Rounds
mod Tests
use ecasound.Common.{
  ℕ, Bool, true, false, not, ◌&&◌, List, [], ◌∷◌, ◌++◌, Option, none, some, ◌==◌, ltb, length,
  if◌then◌else◌,
}
use ecasound.Common.Int.{ℤ, pos, negsuc, pos_part, eq_ℤ}

pub record MessageQueue (A : Type 0) : Type 0 where
  pub max_rt_size : ℕ
  pub msgs : List A

-- What happens in a round of the loop over the queue: whether the lock is busy when `is_empty` and
-- when `pop_front` try it, and what the other thread pushes between the two, and before the next
-- round.
pub record Round (A : Type 0) : Type 0 where
  pub busy_empty : Bool
  pub between : List A
  pub busy_pop : Bool
  pub after : List A

module _ {A : Type 0} where
  -- A size of -1 stands for msg_queue_rt_max_size_const.
  pub create : ℤ → MessageQueue A
  create max_rt_size = record {
    max_rt_size = if eq_ℤ max_rt_size (negsuc 0) then 1024 else pos_part max_rt_size;
    msgs = [];
  }

  unfoldable pub push_back : A → MessageQueue A → MessageQueue A
  push_back x q = record q { msgs = q.msgs ++ x ∷ [] }

  pub front : List A → Option A
  front [] = none
  front (x ∷ xs) = some x

  pub behind : List A → List A
  behind [] = []
  behind (x ∷ xs) = xs

  -- The result: 1 on success, -1 if busy, 0 if empty.
  pub popped : (busy : Bool) → MessageQueue A → ℤ
  popped busy q = if busy then negsuc 0 else if ltb 0 (length q.msgs) then pos 1 else pos 0

  -- The result, the item where there is one, and the queue.
  unfoldable pub pop_front : (busy : Bool) → MessageQueue A → ℤ × Option A × MessageQueue A
  unfolding popped front behind
  pop_front busy q =
      if busy
      then (popped busy q, none, q)
      else (popped busy q, front q.msgs, record q { msgs = behind q.msgs })

  unfoldable pub peek_front : (busy : Bool) → MessageQueue A → ℤ × Option A
  unfolding popped front
  peek_front busy q = (popped busy q, if busy then none else front q.msgs)

  unfoldable pub clear : MessageQueue A → MessageQueue A
  clear q = record q { msgs = [] }

  -- A queue that has outgrown `max_rt_size` waits for the lock; otherwise a busy one is taken not to
  -- be empty.
  unfoldable pub is_empty : (busy : Bool) → MessageQueue A → Bool
  is_empty busy q = if busy && ltb (length q.msgs) q.max_rt_size then false else length q.msgs == 0

  -- Calls of `push_back` by the other thread.
  unfoldable pub push_all : List A → MessageQueue A → MessageQueue A
  unfolding push_back
  push_all [] q = q
  push_all (x ∷ xs) q = push_all xs (push_back x q)

  -- The loop of ECA_ENGINE::check_command_queue over the queue, without what it does with an item:
  -- the items that it gets, and the queue that is left when it ends.
  unfoldable pub consume : List (Round A) → MessageQueue A → Option (List A × MessageQueue A)
  unfolding is_empty pop_front push_all
  consume [] q = none
  consume (r ∷ rounds) q =
      let (res, item, q') = pop_front r.busy_pop (push_all r.between q) in
      let more = consume rounds (push_all r.after q') in
      if is_empty r.busy_empty q then some ([], q) else elim item [
        | none ↦ some ([], q')
        | some x ↦ elim more [ none ↦ none | some (got, left) ↦ some (x ∷ got, left) ]
      ]
