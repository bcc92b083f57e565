-- ===== src/Queue/Wait.antt =====
-- The time-out of `wait`.
use native.Mathlib.Nat.{suc-add, zero-add}
use rpi_tcp_listener.Base.{
  ℕ, zero, suc, ◌+◌, ◌≡◌, refl, none, some, List, [], ◌∷◌, ◌++◌, arith, replicate, append-nil,
  append_assoc, ap, ◌∙◌,
}
use rpi_tcp_listener.Base.Int.{pos}
use rpi_tcp_listener.Queue.{
  MessageQueue, mq_msg_pop, mq_msg_tmo, new_queue, push, push_all, wait, wait_loop,
}

module _ {ℓ} {A : Type ℓ} where
  -- The loop over quiet sleeps on an empty queue, up to the point where the time-out is reached.
  wait_loop-quiet :
      (k n : ℕ) (bursts : List (List A))
      → wait_loop (replicate k [] ++ bursts) (pos (k + n)) new_queue
        ≡ wait_loop bursts (pos n) new_queue
  unfolding wait_loop new_queue
  wait_loop-quiet zero n bursts = rw zero-add
  wait_loop-quiet (suc k) n bursts = rw suc-add (wait_loop-quiet k n bursts)

  quiet_until :
      (k n t : ℕ) (bursts : List (List A))
      → t ≡ k + n
      → wait_loop (replicate k [] ++ bursts) (pos t) new_queue ≡ wait_loop bursts (pos n) new_queue
  quiet_until k n t bursts e = rw e (wait_loop-quiet k n bursts)

  wait_loop-over :
      (bursts : List (List A)) (q : MessageQueue A)
      → wait_loop bursts (pos 0) q ≡ some (record { status = mq_msg_tmo; msg = none; queue = q })
  unfolding wait_loop
  wait_loop-over [] q = refl
  wait_loop-over (b ∷ bs) q = refl

  wait_loop-full :
      (bursts : List (List A)) (n : ℕ) (m : A) (ms : List A)
      → wait_loop bursts (pos (suc n)) (record { msg_queue = m ∷ ms })
        ≡ some (record { status = mq_msg_pop; msg = some m; queue = record { msg_queue = ms } })
  unfolding wait_loop
  wait_loop-full [] n m ms = refl
  wait_loop-full (b ∷ bs) n m ms = refl

  push_all_lem :
      (pre ms : List A)
      → push_all (record { msg_queue = pre }) ms ≡ record { msg_queue = pre ++ ms }
  unfolding push
  push_all_lem pre [] = rw append-nil
  push_all_lem pre (m ∷ ms) = rw (push_all_lem (pre ++ (m ∷ [])) ms, append_assoc)

  wait_loop-burst :
      (n : ℕ) (m : A) (ms : List A) (later : List (List A))
      → wait_loop ((m ∷ ms) ∷ later) (pos (suc n)) new_queue
        ≡ wait_loop later (pos n) (record { msg_queue = m ∷ ms })
  unfolding wait_loop new_queue
  wait_loop-burst n m ms later = ap (wait_loop later (pos n)) (push_all_lem [] (m ∷ ms))

  -- A push in the N-th sleep comes too late: `wait` reports a time-out, and the messages stay
  -- queued.
  pub wait_misses :
      (n : ℕ) (m : A) (ms : List A) (later : List (List A))
      → wait new_queue (pos (suc n)) (replicate n [] ++ ((m ∷ ms) ∷ later))
        ≡ some (record { status = mq_msg_tmo; msg = none; queue = record { msg_queue = m ∷ ms } })
  unfolding wait
  wait_misses n m ms later =
      quiet_until n 1 (suc n) ((m ∷ ms) ∷ later) (omega arith)
      ∙ wait_loop-burst 0 m ms later
      ∙ wait_loop-over later (record { msg_queue = m ∷ ms })

  -- `wait` on an empty queue with a time-out of N > 0 and no push in its first N sleeps gives up
  -- with MQ_MSG_TMO, the queue still empty.
  pub wait_times_out :
      (n : ℕ) (later : List (List A))
      → wait new_queue (pos (suc n)) (replicate (suc n) [] ++ later)
        ≡ some (record { status = mq_msg_tmo; msg = none; queue = new_queue })
  unfolding wait
  wait_times_out n later =
      quiet_until (suc n) 0 (suc n) later (omega arith) ∙ wait_loop-over later new_queue

  -- With a push in one of the first N - 1 sleeps, after `k` quiet ones, it returns the first
  -- message of that push and leaves the others.
  pub wait_delivers :
      (k d : ℕ) (m : A) (ms : List A) (later : List (List A))
      → wait new_queue (pos (suc (k + suc d))) (replicate k [] ++ ((m ∷ ms) ∷ later))
        ≡ some (record { status = mq_msg_pop; msg = some m; queue = record { msg_queue = ms } })
  unfolding wait new_queue
  wait_delivers k d m ms later =
      quiet_until k (suc (suc d)) (suc (k + suc d)) ((m ∷ ms) ∷ later) (omega arith)
      ∙ wait_loop-burst (suc d) m ms later
      ∙ wait_loop-full later d m ms
