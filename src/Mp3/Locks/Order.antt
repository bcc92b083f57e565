-- ===== src/Mp3/Locks/Order.antt =====
-- Who holds which mutex where, in every state that the threads can reach.
use rpi_tcp_listener.Base.{◌≡◌, refl, Bool, true, false, Option, none, some, arith}
use rpi_tcp_listener.Mp3.Locks.{
  Caller, idle, wants_state, in_state, joining, opened, AutoStop, waiting, awake, in_stop,
  stop_joining, Playing, no_thread, in_loop_of_play, wants_cv, notifying, returned, Who, caller,
  auto_stopper, player, Threads, at_rest, LockStep, calls, enters, stops_nothing, opens,
  raises_flag, joins_to_stop, joins_to_play, fails_to_open, runs, runs_on_same_id, sees_flag,
  loses_file, ends, locks_cv, notifies, wakes, locks_state, ignores, stops, joins,
}

-- Whether a thread is between its lock and its unlock of each mutex.
abbrev pub call_in_state : Caller → Bool
call_in_state idle = false
call_in_state (wants_state c) = false
call_in_state (in_state c) = true
call_in_state (joining c) = true
call_in_state opened = true

abbrev pub call_in_thread : Caller → Bool
call_in_thread (joining c) = true
call_in_thread idle = false
call_in_thread (wants_state c) = false
call_in_thread (in_state c) = false
call_in_thread opened = false

abbrev pub auto_in_state : AutoStop → Bool
auto_in_state waiting = false
auto_in_state awake = false
auto_in_state in_stop = true
auto_in_state stop_joining = true

abbrev pub auto_in_cv : AutoStop → Bool
auto_in_cv waiting = false
auto_in_cv awake = true
auto_in_cv in_stop = true
auto_in_cv stop_joining = true

abbrev pub auto_in_thread : AutoStop → Bool
auto_in_thread stop_joining = true
auto_in_thread waiting = false
auto_in_thread awake = false
auto_in_thread in_stop = false

abbrev pub play_in_cv : Playing → Bool
play_in_cv notifying = true
play_in_cv no_thread = false
play_in_cv in_loop_of_play = false
play_in_cv wants_cv = false
play_in_cv returned = false

abbrev pub is_alive : Playing → Bool
is_alive no_thread = false
is_alive in_loop_of_play = true
is_alive wants_cv = true
is_alive notifying = true
is_alive returned = true

-- A mutex with two users: at most one is inside, and it is the holder.
abbrev pub Held : Option Who → Who → Bool → Who → Bool → Type 0
Held m a true b true = ⊥
Held m a true b false = m ≡ some a
Held m a false b true = m ≡ some b
Held m a false b false = m ≡ none

abbrev pub Opened : Caller → Playing → Type 0
Opened opened p = p ≡ no_thread
Opened (joining c) p = is_alive p ≡ true
Opened idle p = Unit {0}
Opened (wants_state c) p = Unit {0}
Opened (in_state c) p = Unit {0}

abbrev pub Notified : Bool → Playing → Type 0
Notified true p = p ≡ returned
Notified false p = Unit {0}

abbrev pub Stopping : AutoStop → Bool → Type 0
Stopping stop_joining b = b ≡ true
Stopping waiting b = Unit {0}
Stopping awake b = Unit {0}
Stopping in_stop b = Unit {0}

pub record IsOrdered (s : Threads) : Type 0 where
  pub state :
      Held s.state_mutex caller (call_in_state s.call) auto_stopper (auto_in_state s.auto_stop)
  pub cv : Held s.cv_mutex player (play_in_cv s.playing) auto_stopper (auto_in_cv s.auto_stop)
  pub thread :
      Held s.thread_mutex caller (call_in_thread s.call) auto_stopper (auto_in_thread s.auto_stop)
  pub running : s.thread_is_running ≡ is_alive s.playing
  pub open_call : Opened s.call s.playing
  pub notified : Notified s.current_to_stop s.playing
  pub stopping : Stopping s.auto_stop s.current_to_stop

pub at_rest-IsOrdered : IsOrdered at_rest
at_rest-IsOrdered = record {
  state = refl;
  cv = refl;
  thread = refl;
  running = refl;
  open_call = tt;
  notified = tt;
  stopping = tt;
}

pub LockStep-IsOrdered : {s t : Threads} → LockStep false s t → IsOrdered s → IsOrdered t
LockStep-IsOrdered (calls s c e) o = ground arith
LockStep-IsOrdered (enters s c e m) o = ground arith
LockStep-IsOrdered (stops_nothing s e r) o = ground arith
LockStep-IsOrdered (opens s e r) o = ground arith
LockStep-IsOrdered (raises_flag s c e r m) o = ground arith
LockStep-IsOrdered (joins_to_stop s e p) o = ground arith
LockStep-IsOrdered (joins_to_play s e p) o = ground arith
LockStep-IsOrdered (fails_to_open s e) o = ground arith
LockStep-IsOrdered (runs s e m) o = ground arith
LockStep-IsOrdered (runs_on_same_id s k e m n) o = absurd cc
LockStep-IsOrdered (sees_flag s e f) o = ground arith
LockStep-IsOrdered (loses_file s e) o = ground arith
LockStep-IsOrdered (ends s e) o = ground arith
LockStep-IsOrdered (locks_cv s e m) o = ground arith
LockStep-IsOrdered (notifies s e) o = ground arith
LockStep-IsOrdered (wakes s e r m) o = ground arith
LockStep-IsOrdered (locks_state s e m) o = ground arith
LockStep-IsOrdered (ignores s e m c) o = ground arith
LockStep-IsOrdered (stops s e m c) o = ground arith
LockStep-IsOrdered (joins s e p) o = ground arith
