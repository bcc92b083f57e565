-- ===== src/Queue/Tests.antt =====
-- The theorems on the message queue at a few numbers.
use rpi_tcp_listener.Base.{ℕ, ◌≡◌, refl, some, List, [], ◌∷◌, ◌++◌}
use rpi_tcp_listener.Queue.{MessageQueue, new_queue, push, poke}
use rpi_tcp_listener.Queue.Fifo.{Op, pushes, pops, pokes, run, pushed, run_fifo}

-- `poke` sees the newest message, not the one that `pop` would give.
poke_newest : (poke {A = ℕ} (push (push new_queue 1) 2)).msg ≡ some 2
unfolding poke push new_queue
poke_newest = refl

abbrev ops : List (Op ℕ)
ops = pushes 4 ∷ pops ∷ pushes 5 ∷ pokes ∷ pops ∷ []

abbrev three : MessageQueue ℕ
three = record { msg_queue = 3 ∷ [] }

run_fifo_example : (run three ops).0 ++ (run three ops).1.msg_queue ≡ (3 ∷ []) ++ pushed ops
run_fifo_example = run_fifo three ops
