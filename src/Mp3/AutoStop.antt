-- ===== src/Mp3/AutoStop.antt =====
-- The hand-over between a play thread that ends and the auto-stop thread.
use rpi_tcp_listener.Base.{◌≡◌, ◌≢◌, true, false, none, some, arith}
use rpi_tcp_listener.Base.Text.{Bytes}
use rpi_tcp_listener.Mp3.Types.{PlayMode, success, Io, Player, PlayThread, stop_state, play_state}
use rpi_tcp_listener.Mp3.Calls.{play, stop}
use rpi_tcp_listener.Mp3.Thread.{finish_play, auto_stop}
use rpi_tcp_listener.Mp3.Wellformed.{IsWellformed}

-- A file that plays to its end stops the player, when no call comes between: the thread is joined,
-- the handle is closed, and the notification is used up.
pub auto_stop-finish_play :
    (io : Io) (p : Player) (t : PlayThread)
    → IsWellformed p
    → p.play_thread ≡ some t
    → let q = auto_stop io (finish_play p t.id) in
      (q.state ≡ stop_state)
      × (q.mh ≡ none)
      × (q.play_thread ≡ none)
      × (q.thread_is_running ≡ false)
      × (q.thread_id_to_stop ≡ none)
      × (q.cv_ready ≡ false)
unfolding auto_stop finish_play stop
auto_stop-finish_play io p t w e = ground arith

-- A notification that arrives late stops nothing: when the file has ended and `Play` has started
-- another one first, on a thread with another id than the one that has ended, the player goes on
-- with the new file, thread and handle.
pub auto_stop_stale :
    (io : Io) (p : Player) (t : PlayThread) (file : Bytes) (mode : PlayMode)
    → IsWellformed p
    → p.play_thread ≡ some t
    → io.thread_id ≢ t.id
    → (play io (finish_play p t.id) file mode).1 ≡ success
    → let q = (play io (finish_play p t.id) file mode).0 in
      let r = auto_stop io q in
      (r.state ≡ play_state file mode)
      × (r.play_thread ≡ q.play_thread)
      × (r.mh ≡ q.mh)
      × (r.thread_is_running ≡ true)
unfolding auto_stop finish_play play
auto_stop_stale io p t file mode w e n h = ground arith

-- If the thread of the new file is given the id of the one that has ended, the late notification
-- stops the new file, which nobody has asked to stop: it is closed and its thread is joined.
pub auto_stop_reused :
    (io : Io) (p : Player) (t : PlayThread) (file : Bytes) (mode : PlayMode)
    → IsWellformed p
    → p.play_thread ≡ some t
    → io.thread_id ≡ t.id
    → (play io (finish_play p t.id) file mode).1 ≡ success
    → let r = auto_stop io (play io (finish_play p t.id) file mode).0 in
      (r.state ≡ stop_state) × (r.play_thread ≡ none) × (r.mh ≡ none)
unfolding auto_stop finish_play play stop
auto_stop_reused io p t file mode w e n h = ground arith
