-- ===== src/Mp3/Locks.antt =====
-- src/mp3/mp3/mp3_player.cpp: the mutexes of the player, taken step by step by its three threads:
-- the one that calls `Play` or `Stop`, the play thread (`DoPlay`) and the auto-stop thread
-- (`DoStop`).
--
-- A step takes or gives back a mutex, joins a thread, or passes a test. `stop_thread_mutex_m`
-- guards one flag and is never held while another is taken, so its sections are parts of a step.
pub mod Order
pub mod Deadlock
pub mod Reuse
mod Tests
use rpi_tcp_listener.Base.{◌≡◌, Bool, ◌||◌, true, false, Option, none, some}

-- A method that joins the play thread and leaves it there, or starts another one behind it.
pub data Call : Type 0 where
  stop_call play_call : Call

-- Outside a method, before `state_mutex_m`, in a state's method, at `join` in `StopPlayThread`, and
-- before `RunPlayThread`.
pub data Caller : Type 0 where
  idle : Caller
  wants_state in_state joining : (call : Call) → Caller
  opened : Caller

-- In `cv_m.wait`, behind it and before `state_mutex_m`, behind that, and at `join`.
pub data AutoStop : Type 0 where
  waiting awake in_stop stop_joining : AutoStop

-- No thread, in the loops of `DoPlay`, at the lock of `cv_mutex_m`, behind it, and returned.
pub data Playing : Type 0 where
  no_thread in_loop_of_play wants_cv notifying returned : Playing

pub data Who : Type 0 where
  caller auto_stopper player : Who

pub record Threads : Type 0 where
  pub call : Caller
  pub auto_stop : AutoStop
  pub playing : Playing
  pub state_mutex : Option Who
  pub cv_mutex : Option Who
  pub thread_mutex : Option Who
  pub stop_thread : Bool
  pub thread_is_running : Bool
  pub cv_ready : Bool
  -- `thread_id_to_stop_m` is the id of the thread that `play_thread_m` holds.
  pub current_to_stop : Bool
  -- It is the id of the last thread that was joined.
  pub names_joined : Bool

abbrev pub at_rest : Threads
at_rest = record {
  call = idle;
  auto_stop = waiting;
  playing = no_thread;
  state_mutex = none;
  cv_mutex = none;
  thread_mutex = none;
  stop_thread = false;
  thread_is_running = false;
  cv_ready = false;
  current_to_stop = false;
  names_joined = false;
}

-- `reuses` says whether `std::thread` may give the id of a thread that was joined to a new one.
pub data LockStep (reuses : Bool) : Threads → Threads → Type 0 where
  -- `Play` and `Stop`.
  calls :
      (s : Threads) (c : Call)
      → s.call ≡ idle
      → LockStep reuses s (record s { call = wants_state c })
  enters :
      (s : Threads) (c : Call)
      → s.call ≡ wants_state c
      → s.state_mutex ≡ none
      → LockStep reuses s (record s { call = in_state c; state_mutex = some caller })
  stops_nothing :
      (s : Threads)
      → s.call ≡ in_state stop_call
      → s.thread_is_running ≡ false
      → LockStep reuses s (record s { call = idle; state_mutex = none })
  opens :
      (s : Threads)
      → s.call ≡ in_state play_call
      → s.thread_is_running ≡ false
      → LockStep reuses s (record s { call = opened })
  raises_flag :
      (s : Threads) (c : Call)
      → s.call ≡ in_state c
      → s.thread_is_running ≡ true
      → s.thread_mutex ≡ none
      → LockStep reuses s
          (record s { call = joining c; thread_mutex = some caller; stop_thread = true })
  joins_to_stop :
      (s : Threads)
      → s.call ≡ joining stop_call
      → s.playing ≡ returned
      → LockStep reuses s (record s {
        call = idle;
        playing = no_thread;
        thread_is_running = false;
        thread_mutex = none;
        state_mutex = none;
        current_to_stop = false;
        names_joined = s.current_to_stop || s.names_joined;
      })
  joins_to_play :
      (s : Threads)
      → s.call ≡ joining play_call
      → s.playing ≡ returned
      → LockStep reuses s (record s {
        call = opened;
        playing = no_thread;
        thread_is_running = false;
        thread_mutex = none;
        current_to_stop = false;
        names_joined = s.current_to_stop || s.names_joined;
      })
  fails_to_open :
      (s : Threads)
      → s.call ≡ opened
      → LockStep reuses s (record s { call = idle; state_mutex = none })
  runs :
      (s : Threads)
      → s.call ≡ opened
      → s.thread_mutex ≡ none
      → LockStep reuses s (record s {
        call = idle;
        playing = in_loop_of_play;
        thread_is_running = true;
        stop_thread = false;
        state_mutex = none;
      })
  runs_on_same_id :
      (s : Threads)
      → reuses ≡ true
      → s.call ≡ opened
      → s.thread_mutex ≡ none
      → s.names_joined ≡ true
      → LockStep reuses s (record s {
        call = idle;
        playing = in_loop_of_play;
        thread_is_running = true;
        stop_thread = false;
        state_mutex = none;
        current_to_stop = true;
        names_joined = false;
      })
  -- `DoPlay`.
  sees_flag :
      (s : Threads)
      → s.playing ≡ in_loop_of_play
      → s.stop_thread ≡ true
      → LockStep reuses s (record s { playing = returned })
  loses_file :
      (s : Threads)
      → s.playing ≡ in_loop_of_play
      → LockStep reuses s (record s { playing = returned })
  ends :
      (s : Threads)
      → s.playing ≡ in_loop_of_play
      → LockStep reuses s (record s { playing = wants_cv })
  locks_cv :
      (s : Threads)
      → s.playing ≡ wants_cv
      → s.cv_mutex ≡ none
      → LockStep reuses s (record s { playing = notifying; cv_mutex = some player })
  notifies :
      (s : Threads)
      → s.playing ≡ notifying
      → LockStep reuses s (record s {
        playing = returned;
        cv_mutex = none;
        cv_ready = true;
        current_to_stop = true;
        names_joined = false;
      })
  -- `DoStop`.
  wakes :
      (s : Threads)
      → s.auto_stop ≡ waiting
      → s.cv_ready ≡ true
      → s.cv_mutex ≡ none
      → LockStep reuses s
          (record s { auto_stop = awake; cv_mutex = some auto_stopper; cv_ready = false })
  locks_state :
      (s : Threads)
      → s.auto_stop ≡ awake
      → s.state_mutex ≡ none
      → LockStep reuses s (record s { auto_stop = in_stop; state_mutex = some auto_stopper })
  ignores :
      (s : Threads)
      → s.auto_stop ≡ in_stop
      → s.thread_mutex ≡ none
      → s.current_to_stop ≡ false
      → LockStep reuses s (record s { auto_stop = waiting; state_mutex = none; cv_mutex = none })
  stops :
      (s : Threads)
      → s.auto_stop ≡ in_stop
      → s.thread_mutex ≡ none
      → s.current_to_stop ≡ true
      → LockStep reuses s (record s {
        auto_stop = stop_joining;
        thread_mutex = some auto_stopper;
        stop_thread = true;
      })
  joins :
      (s : Threads)
      → s.auto_stop ≡ stop_joining
      → s.playing ≡ returned
      → LockStep reuses s (record s {
        auto_stop = waiting;
        playing = no_thread;
        thread_is_running = false;
        thread_mutex = none;
        state_mutex = none;
        cv_mutex = none;
        current_to_stop = false;
        names_joined = false;
      })

pub data Run (reuses : Bool) : Threads → Type 0 where
  begin : Run reuses at_rest
  then_step : {s t : Threads} → Run reuses s → LockStep reuses s t → Run reuses t
