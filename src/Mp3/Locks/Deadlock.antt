-- ===== src/Mp3/Locks/Deadlock.antt =====
-- The one way in which the three threads can stop each other.
use rpi_tcp_listener.Base.{◌≡◌, refl, ◌≢◌, ◌⊎◌, inl, inr, Bool, false, Bool-cases, some, arith}
use rpi_tcp_listener.Mp3.Locks.{
  Call, stop_call, play_call, Caller, idle, wants_state, in_state, joining, opened, AutoStop,
  waiting, awake, in_stop, stop_joining, Playing, no_thread, in_loop_of_play, wants_cv, notifying,
  returned, caller, auto_stopper, Threads, at_rest, LockStep, calls, enters, stops_nothing, opens,
  raises_flag, joins_to_stop, joins_to_play, fails_to_open, runs, runs_on_same_id, sees_flag,
  loses_file, ends, locks_cv, notifies, wakes, locks_state, ignores, stops, joins, Run, begin,
  then_step,
}
use rpi_tcp_listener.Mp3.Locks.Order.{IsOrdered, at_rest-IsOrdered, LockStep-IsOrdered}

-- When no thread is given the id of one that was joined: no two threads are ever inside the same
-- mutex, and who is inside is its holder; a notification that names the present play thread comes
-- from a thread that has returned, so that `DoStop` never waits at its `join`.
pub Run-IsOrdered : {s : Threads} → Run false s → IsOrdered s
Run-IsOrdered begin = at_rest-IsOrdered
Run-IsOrdered (then_step r st) = LockStep-IsOrdered st (Run-IsOrdered r)

-- The caller holds `state_mutex_m` and waits for the play thread, which waits for `cv_mutex_m`; the
-- auto-stop thread holds that, and waits for `state_mutex_m`.
pub record IsStuck (s : Threads) : Type 0 where
  pub at_join : (c : Call) × (s.call ≡ joining c)
  pub at_cv : s.playing ≡ wants_cv
  pub at_state : s.auto_stop ≡ awake
  pub holds_state : s.state_mutex ≡ some caller
  pub holds_cv : s.cv_mutex ≡ some auto_stopper

abbrev pub Moves : Threads → Type 0
Moves s = IsStuck s ⊎ ((t : Threads) × LockStep false s t)

-- A caller in a method that it may hold up: some thread moves.
wants-Moves :
    (s : Threads) (c : Call) (a : AutoStop)
    → s.call ≡ wants_state c
    → s.auto_stop ≡ a
    → IsOrdered s
    → Moves s
wants-Moves s c waiting e f o = inr (_, enters s c e (ground (arith, o.state)))
wants-Moves s c awake e f o = inr (_, enters s c e (ground (arith, o.state)))
wants-Moves s c in_stop e f o = elim (Bool-cases s.current_to_stop) [
  | inl k ↦ inr (_, stops s f (ground (arith, o.thread)) k)
  | inr k ↦ inr (_, ignores s f (ground (arith, o.thread)) k)
]
wants-Moves s c stop_joining e f o = inr (_, joins s f (ground (arith, o.stopping, o.notified)))

in_state-Moves : (s : Threads) (c : Call) → s.call ≡ in_state c → IsOrdered s → Moves s
in_state-Moves s stop_call e o = elim (Bool-cases s.thread_is_running) [
  | inl k ↦ inr (_, raises_flag s stop_call e k (ground (arith, o.state, o.thread)))
  | inr k ↦ inr (_, stops_nothing s e k)
]
in_state-Moves s play_call e o = elim (Bool-cases s.thread_is_running) [
  | inl k ↦ inr (_, raises_flag s play_call e k (ground (arith, o.state, o.thread)))
  | inr k ↦ inr (_, opens s e k)
]

wants_cv-Moves :
    (s : Threads) (c : Call) (a : AutoStop)
    → s.call ≡ joining c
    → s.playing ≡ wants_cv
    → s.auto_stop ≡ a
    → IsOrdered s
    → Moves s
wants_cv-Moves s c waiting e p f o = inr (_, locks_cv s p (ground (arith, o.cv)))
wants_cv-Moves s c awake e p f o = inl (record {
  at_join = (c, e);
  at_cv = p;
  at_state = f;
  holds_state = ground (arith, o.state);
  holds_cv = ground (arith, o.cv);
})
wants_cv-Moves s c in_stop e p f o = absurd (ground (arith, o.state))
wants_cv-Moves s c stop_joining e p f o = absurd (ground (arith, o.state))

joining-Moves :
    (s : Threads) (c : Call) (p : Playing)
    → s.call ≡ joining c
    → s.playing ≡ p
    → IsOrdered s
    → Moves s
joining-Moves s c no_thread e p o = absurd (ground (arith, o.open_call))
joining-Moves s c in_loop_of_play e p o = inr (_, ends s p)
joining-Moves s c wants_cv e p o = wants_cv-Moves s c s.auto_stop e p refl o
joining-Moves s c notifying e p o = inr (_, notifies s p)
joining-Moves s stop_call returned e p o = inr (_, joins_to_stop s e p)
joining-Moves s play_call returned e p o = inr (_, joins_to_play s e p)

call-Moves : (s : Threads) (c : Caller) → s.call ≡ c → c ≢ idle → IsOrdered s → Moves s
call-Moves s idle e n o = absurd (n refl)
call-Moves s (wants_state c) e n o = wants-Moves s c s.auto_stop e refl o
call-Moves s (in_state c) e n o = in_state-Moves s c e o
call-Moves s (joining c) e n o = joining-Moves s c s.playing e refl o
call-Moves s opened e n o = inr (_, fails_to_open s e)

-- When no thread is given the id of one that was joined: while a call of `Play` or `Stop` has not
-- returned, some thread can move, but in one situation: the caller holds `state_mutex_m` and waits at `join` for the play thread, the play thread waits
-- for `cv_mutex_m`, and the auto-stop thread holds this and waits for `state_mutex_m`.
pub Run-Moves : {s : Threads} → Run false s → s.call ≢ idle → Moves s
Run-Moves {s} r n = call-Moves s s.call refl n (Run-IsOrdered r)

stuck_forever : {reuses : Bool} {s t : Threads} → LockStep reuses s t → IsStuck s → ⊥
stuck_forever (calls s c e) k = ground (arith, k.at_join.1)
stuck_forever (enters s c e m) k = ground (arith, k.at_join.1)
stuck_forever (stops_nothing s e r) k = ground (arith, k.at_join.1)
stuck_forever (opens s e r) k = ground (arith, k.at_join.1)
stuck_forever (raises_flag s c e r m) k = ground (arith, k.at_join.1)
stuck_forever (joins_to_stop s e p) k = ground (arith, k.at_cv)
stuck_forever (joins_to_play s e p) k = ground (arith, k.at_cv)
stuck_forever (fails_to_open s e) k = ground (arith, k.at_join.1)
stuck_forever (runs s e m) k = ground (arith, k.at_join.1)
stuck_forever (runs_on_same_id s u e m n) k = ground (arith, k.at_join.1)
stuck_forever (sees_flag s e f) k = ground (arith, k.at_cv)
stuck_forever (loses_file s e) k = ground (arith, k.at_cv)
stuck_forever (ends s e) k = ground (arith, k.at_cv)
stuck_forever (locks_cv s e m) k = ground (arith, k.holds_cv)
stuck_forever (notifies s e) k = ground (arith, k.at_cv)
stuck_forever (wakes s e r m) k = ground (arith, k.at_state)
stuck_forever (locks_state s e m) k = ground (arith, k.holds_state)
stuck_forever (ignores s e m c) k = ground (arith, k.at_state)
stuck_forever (stops s e m c) k = ground (arith, k.at_state)
stuck_forever (joins s e p) k = ground (arith, k.at_state)

-- A first file is played to its end, and its thread notifies.
notified_run : (s : Threads) × Run false s × (s.call ≡ idle) × (s.auto_stop ≡ awake)
notified_run = (
  _,
  then_step
      (then_step
        (then_step
          (then_step
            (then_step
              (then_step
                (then_step (then_step begin (calls at_rest play_call refl))
                  (enters _ play_call refl refl))
                (opens _ refl refl))
              (runs _ refl refl))
            (ends _ refl))
          (locks_cv _ refl refl))
        (notifies _ refl))
      (wakes _ refl refl refl),
  refl,
  refl,
)

-- A second file is played to its end, and `Stop` is called.
circle_run : (s : Threads) × Run false s × IsStuck s
unfolding notified_run
circle_run = (
  _,
  then_step
      (then_step
        (then_step
          (then_step
            (then_step
              (then_step
                (then_step
                  (then_step (then_step notified_run.1 (calls _ play_call refl))
                    (enters _ play_call refl refl))
                  (raises_flag _ play_call refl refl refl))
                (joins_to_play _ refl refl))
              (runs _ refl refl))
            (ends _ refl))
          (calls _ stop_call refl))
        (enters _ stop_call refl refl))
      (raises_flag _ stop_call refl refl refl),
  record {
    at_join = (stop_call, refl);
    at_cv = refl;
    at_state = refl;
    holds_state = refl;
    holds_cv = refl;
  },
)

-- The threads can come to wait for each other for ever: a file ends by itself and its thread
-- notifies; before the auto-stop thread, awake, has `state_mutex_m`, a call of `Play` starts a
-- second file, that file ends as well, and a call of `Stop` is made. No step leads out of the state
-- that follows. No thread has the id of another one in this run.
pub deadlock :
    (s : Threads) × Run false s
    × IsStuck s
    × ((reuses : Bool) (t : Threads) → LockStep reuses s t → ⊥)
deadlock = (circle_run.0, circle_run.1, circle_run.2, λ reuses t st. stuck_forever st circle_run.2)
