-- ===== src/Queue/Fifo.antt =====
-- The order of messages.
use rpi_tcp_listener.Base.{
  ◌≡◌, sym, ap, ◌∙◌, Option, none, some, List, [], ◌∷◌, ◌++◌, arith, append_assoc, append-nil,
}
use rpi_tcp_listener.Queue.{MessageQueue, push, pop, poke}

-- What the users of a queue do, in the order in which they get the lock.
pub data Op {ℓ} (A : Type ℓ) : Type ℓ where
  pushes : A → Op A
  pops pokes : Op A

abbrev pub received {ℓ} : {A : Type ℓ} → Option A → List A
received none = []
received (some m) = m ∷ []

module _ {ℓ} {A : Type ℓ} where
  -- The queue behind the operations, and the messages that the pops handed out, in order.
  pub run : MessageQueue A → List (Op A) → List A × MessageQueue A
  run q [] = ([], q)
  run q (pushes m ∷ ops) = run (push q m) ops
  run q (pops ∷ ops) = let (out, r) = run (pop q).queue ops in (received (pop q).msg ++ out, r)
  run q (pokes ∷ ops) = run (poke q).queue ops

  abbrev pub pushed : List (Op A) → List A
  pushed [] = []
  pushed (pushes m ∷ ops) = m ∷ pushed ops
  pushed (pops ∷ ops) = pushed ops
  pushed (pokes ∷ ops) = pushed ops

  pop-split : (q : MessageQueue A) → received (pop q).msg ++ (pop q).queue.msg_queue ≡ q.msg_queue
  unfolding pop
  pop-split q = ground arith

  poke-queue : (q : MessageQueue A) → (poke q).queue ≡ q
  unfolding poke
  poke-queue q = ground arith

  push-pushed :
      (q : MessageQueue A) (m : A) (ms : List A)
      → (push q m).msg_queue ++ ms ≡ q.msg_queue ++ (m ∷ ms)
  unfolding push
  push-pushed q m ms = append_assoc q.msg_queue (m ∷ []) ms

  -- First in, first out, with nothing lost, doubled or made up: for any interleaving of pushes,
  -- pops and pokes, what was handed out, followed by what is still queued, is what was queued at
  -- first, followed by what was pushed.
  pub run_fifo :
      (q : MessageQueue A) (ops : List (Op A))
      → (run q ops).0 ++ (run q ops).1.msg_queue ≡ q.msg_queue ++ pushed ops
  unfolding run
  run_fifo q [] = rw append-nil
  run_fifo q (pushes m ∷ ops) = run_fifo (push q m) ops ∙ push-pushed q m (pushed ops)
  run_fifo q (pops ∷ ops) =
      append_assoc (received (pop q).msg) (run (pop q).queue ops).0 _
      ∙ ap (◌++◌ (received (pop q).msg)) (run_fifo (pop q).queue ops)
      ∙ sym (append_assoc (received (pop q).msg) (pop q).queue.msg_queue (pushed ops))
      ∙ ap (λ t. t ++ pushed ops) (pop-split q)
  run_fifo q (pokes ∷ ops) =
      run_fifo (poke q).queue ops ∙ ap (λ r. r.msg_queue ++ pushed ops) (poke-queue q)
