-- ===== src/Mp3/Locks/Reuse.antt =====
-- What can happen when a new play thread is given the id of one that was joined.
use rpi_tcp_listener.Base.{◌≡◌, refl, Bool, true, some, arith}
use rpi_tcp_listener.Mp3.Locks.{
  play_call, stop_call, auto_stopper, wants_state, stop_joining, wants_cv, Threads, at_rest,
  LockStep, calls, enters, stops_nothing, opens, raises_flag, joins_to_stop, joins_to_play,
  fails_to_open, runs, runs_on_same_id, sees_flag, loses_file, ends, locks_cv, notifies, wakes,
  locks_state, ignores, stops, joins, Run, begin, then_step,
}

-- The auto-stop thread holds all three mutexes and waits for the play thread, which waits for
-- `cv_mutex_m`; a caller waits for `state_mutex_m`.
pub record IsCaught (s : Threads) : Type 0 where
  pub at_call : s.call ≡ wants_state stop_call
  pub at_cv : s.playing ≡ wants_cv
  pub at_join : s.auto_stop ≡ stop_joining
  pub holds_state : s.state_mutex ≡ some auto_stopper
  pub holds_cv : s.cv_mutex ≡ some auto_stopper

joining_forever : {reuses : Bool} {s t : Threads} → LockStep reuses s t → IsCaught s → ⊥
joining_forever (calls s c e) k = ground (arith, k.at_call)
joining_forever (enters s c e m) k = ground (arith, k.holds_state)
joining_forever (stops_nothing s e r) k = ground (arith, k.at_call)
joining_forever (opens s e r) k = ground (arith, k.at_call)
joining_forever (raises_flag s c e r m) k = ground (arith, k.at_call)
joining_forever (joins_to_stop s e p) k = ground (arith, k.at_cv)
joining_forever (joins_to_play s e p) k = ground (arith, k.at_cv)
joining_forever (fails_to_open s e) k = ground (arith, k.at_call)
joining_forever (runs s e m) k = ground (arith, k.at_call)
joining_forever (runs_on_same_id s u e m n) k = ground (arith, k.at_call)
joining_forever (sees_flag s e f) k = ground (arith, k.at_cv)
joining_forever (loses_file s e) k = ground (arith, k.at_cv)
joining_forever (ends s e) k = ground (arith, k.at_cv)
joining_forever (locks_cv s e m) k = ground (arith, k.holds_cv)
joining_forever (notifies s e) k = ground (arith, k.at_cv)
joining_forever (wakes s e r m) k = ground (arith, k.at_join)
joining_forever (locks_state s e m) k = ground (arith, k.at_join)
joining_forever (ignores s e m c) k = ground (arith, k.at_join)
joining_forever (stops s e m c) k = ground (arith, k.at_join)
joining_forever (joins s e p) k = ground (arith, k.at_cv)

-- A first file is played to its end, its thread notifies, and a second file is started on a thread
-- with the same id.
same_id_run : (s : Threads) × Run true s × (s.current_to_stop ≡ true)
same_id_run = (
  _,
  then_step
      (then_step
        (then_step
          (then_step
            (then_step
              (then_step
                (then_step
                  (then_step
                    (then_step
                      (then_step
                        (then_step (then_step begin (calls at_rest play_call refl))
                          (enters _ play_call refl refl))
                        (opens _ refl refl))
                      (runs _ refl refl))
                    (ends _ refl))
                  (locks_cv _ refl refl))
                (notifies _ refl))
              (calls _ play_call refl))
            (enters _ play_call refl refl))
          (raises_flag _ play_call refl refl refl))
        (joins_to_play _ refl refl))
      (runs_on_same_id _ refl refl refl refl),
  refl,
)

-- The auto-stop thread wakes, and the second file ends.
reuse_run : (s : Threads) × Run true s × IsCaught s
unfolding same_id_run
reuse_run = (
  _,
  then_step
      (then_step
        (then_step
          (then_step (then_step same_id_run.1 (wakes _ refl refl refl)) (locks_state _ refl refl))
          (ends _ refl))
        (stops _ refl refl refl))
      (calls _ stop_call refl),
  record { at_call = refl; at_cv = refl; at_join = refl; holds_state = refl; holds_cv = refl },
)

-- If `std::thread` gives the id of a joined thread to a new one, the threads can come to wait for
-- each other in another way: a file ends by itself and its thread notifies; before the auto-stop
-- thread wakes, a call of `Play` starts a second file on a thread with the same id; the auto-stop
-- thread takes it for the one to stop and waits at `join`, holding `cv_mutex_m` and
-- `state_mutex_m`, while the second file ends and its thread waits for `cv_mutex_m`. A call of
-- `Stop` then waits as well, and no step leads out of this state.
pub reuse_deadlock :
    (s : Threads) × Run true s
    × IsCaught s
    × ((reuses : Bool) (t : Threads) → LockStep reuses s t → ⊥)
reuse_deadlock =
    (reuse_run.0, reuse_run.1, reuse_run.2, λ reuses t st. joining_forever st reuse_run.2)
