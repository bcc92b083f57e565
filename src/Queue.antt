-- ===== src/Queue.antt =====
-- src/utilities/utilities/message_queue.h: a queue of messages between threads.
--
-- Each method holds `queue_mutex` throughout, so it is one step; a message handed back through a
-- reference is an `Option`, `none` where the reference is left alone. What the other threads push
-- while `wait` sleeps is an argument.
pub mod Fifo
pub mod Wait
mod Tests
use rpi_tcp_listener.Base.{
  ℕ, zero, suc, Bool, true, false, Option, none, some, List, [], ◌∷◌, ◌++◌, length, if◌then◌else◌,
}
use rpi_tcp_listener.Base.Int.{ℤ, pos, negsuc}

pub data MqStatus : Type 0 where
  mq_no_message mq_msg_pending mq_msg_pop mq_msg_tmo : MqStatus

-- `msg_queue_m`, its front first.
pub record MessageQueue {ℓ} (A : Type ℓ) : Type ℓ where
  pub msg_queue : List A

-- A status, the message, and the queue behind the call.
pub record Reply {ℓ} (A : Type ℓ) : Type ℓ where
  pub status : MqStatus
  pub msg : Option A
  pub queue : MessageQueue A

-- `--tmo_ms` under its test, in `wait`.
abbrev pub count_down : ℤ → ℤ
count_down (pos zero) = pos zero
count_down (pos (suc n)) = pos n
count_down (negsuc n) = negsuc n

module _ {ℓ} {A : Type ℓ} where
  unfoldable pub new_queue : MessageQueue A
  new_queue = record { msg_queue = [] }

  -- `push`, and `enqueue`, which has the same body.
  unfoldable pub push : MessageQueue A → A → MessageQueue A
  push q m = record { msg_queue = q.msg_queue ++ (m ∷ []) }

  abbrev pop_list : List A → Reply A
  pop_list [] = record { status = mq_no_message; msg = none; queue = record { msg_queue = [] } }
  pop_list (m ∷ ms) = record {
    status = mq_msg_pop;
    msg = some m;
    queue = record { msg_queue = ms };
  }

  unfoldable pub pop : MessageQueue A → Reply A
  pop q = pop_list q.msg_queue

  abbrev pub back : A → List A → A
  back m [] = m
  back m (n ∷ ms) = back n ms

  abbrev poke_list : List A → Reply A
  poke_list [] = record { status = mq_no_message; msg = none; queue = record { msg_queue = [] } }
  poke_list (m ∷ ms) = record {
    status = mq_msg_pending;
    msg = some (back m ms);
    queue = record { msg_queue = m ∷ ms };
  }

  -- `poke` looks at the message that came last.
  unfoldable pub poke : MessageQueue A → Reply A
  poke q = poke_list q.msg_queue

  unfoldable pub size : MessageQueue A → ℕ
  size q = length q.msg_queue

  -- `empty` throws the messages away.
  unfoldable pub empty : MessageQueue A → MessageQueue A
  empty q = record { msg_queue = [] }

  abbrev pub push_all : MessageQueue A → List A → MessageQueue A
  push_all q [] = q
  push_all q (m ∷ ms) = push_all (push q m) ms

  -- `dequeue` sleeps until a push leaves a message; `none` is a call that still sleeps behind the
  -- given bursts of pushes.
  unfoldable pub dequeue_from : List A → List (List A) → Option (A × MessageQueue A)
  dequeue_from (m ∷ ms) bursts = some (m, record { msg_queue = ms })
  dequeue_from [] [] = none
  dequeue_from [] (b ∷ bs) = dequeue_from b bs

  unfoldable pub dequeue : MessageQueue A → List (List A) → Option (A × MessageQueue A)
  unfolding dequeue_from
  dequeue q bursts = dequeue_from q.msg_queue bursts

  abbrev timed_out : MessageQueue A → Reply A
  timed_out q = record { status = mq_msg_tmo; msg = none; queue = q }

  abbrev popped : Reply A → Option (Reply A)
  popped r = elim r.msg [ none ↦ none | some m ↦ some r ]

  -- A round of the loop of `wait` up to `usleep`: the reply with which it leaves the loop, if it
  -- does.
  abbrev pub attempt : ℤ → MessageQueue A → Option (Reply A)
  attempt (pos zero) q = some (timed_out q)
  attempt (pos (suc n)) q = popped (pop_list q.msg_queue)
  attempt (negsuc n) q = popped (pop_list q.msg_queue)

  -- The loop, with what the other threads push during each sleep; `none` is a call that still
  -- waits behind them.
  unfoldable pub wait_loop : List (List A) → ℤ → MessageQueue A → Option (Reply A)
  wait_loop [] tmo q = attempt tmo q
  wait_loop (b ∷ bs) tmo q = elim (attempt tmo q) [
    | some r ↦ some r
    | none ↦ wait_loop bs (count_down tmo) (push_all q b)
  ]

  -- `wait`; a time-out of 0 is a plain `pop`.
  unfoldable pub wait : MessageQueue A → ℤ → List (List A) → Option (Reply A)
  unfolding wait_loop pop
  wait q (pos zero) bursts = some (pop q)
  wait q (pos (suc n)) bursts = wait_loop bursts (pos (suc n)) q
  wait q (negsuc n) bursts = wait_loop bursts (negsuc n) q
