-- ===== src/MessageQueue/Tests.antt =====
-- A queue of three messages, to which two more are pushed.
use ecasound.Common.{ℕ, ◌≡◌, refl, true, false, List, [], ◌∷◌, some, arith}
use ecasound.MessageQueue.{MessageQueue, Round, consume}
use ecasound.MessageQueue.Consuming.{Consumed, consume-Consumed}

abbrev three : MessageQueue ℕ
three = record { max_rt_size = 1024; msgs = 1 ∷ 2 ∷ 3 ∷ [] }

abbrev free : Round ℕ
free = record { busy_empty = false; between = []; busy_pop = false; after = [] }

-- The other thread holds the lock when the third message is to be fetched.
abbrev rounds : List (Round ℕ)
rounds =
    record { busy_empty = true; between = 4 ∷ []; busy_pop = false; after = [] }
    ∷ free
    ∷ record { busy_empty = false; between = []; busy_pop = true; after = 5 ∷ [] }
    ∷ free
    ∷ free
    ∷ free
    ∷ []

consumed_test :
    consume rounds three ≡ some (1 ∷ 2 ∷ [], record { max_rt_size = 1024; msgs = 3 ∷ 4 ∷ [] })
unfolding consume
consumed_test = refl

consume-Consumed_example : Consumed rounds three
consume-Consumed_example = consume-Consumed rounds three (omega arith)
