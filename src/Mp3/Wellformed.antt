-- ===== src/Mp3/Wellformed.antt =====
-- The invariant of the player, kept by every call and every step of its threads.
use rpi_tcp_listener.Base.{ℕ, ◌≤◌, ◌≡◌, ◌≢◌, Bool, true, false, Option, none, some, arith}
use rpi_tcp_listener.Base.Text.{Bytes}
use rpi_tcp_listener.Mp3.Types.{
  PlayMode, play_mode_max, Io, Player, PlayThread, Handle, PlayerState, stop_state, play_state,
  pause_state,
}
use rpi_tcp_listener.Mp3.Calls.{play, pause, resume, stop, set_volume, new_player}
use rpi_tcp_listener.Mp3.Thread.{
  Step, plays, pauses, resumes, stops, sets_volume, reopens, finishes, wakes, Reach, start, next,
  finish_play, reopen, auto_stop,
}

-- A thread runs, and can be joined, exactly in the play state, on the file and mode of the state.
abbrev pub ThreadFits : PlayerState → Bool → Option PlayThread → Type 0
ThreadFits stop_state running t = (running ≡ false) × (t ≡ none)
ThreadFits (pause_state file mode) running t =
    (mode ≢ play_mode_max) × (running ≡ false) × (t ≡ none)
ThreadFits (play_state file mode) running none = ⊥
ThreadFits (play_state file mode) running (some t) =
    (mode ≢ play_mode_max) × (running ≡ true) × (t.file_name ≡ file) × (t.play_mode ≡ mode)

abbrev FileFits : PlayerState → Option Bytes → ℕ → ℕ → Type 0
FileFits s none gain volume = Unit {0}
FileFits stop_state (some f) gain volume = ⊥
FileFits (play_state file mode) (some f) gain volume = (f ≡ file) × (gain ≡ volume)
FileFits (pause_state file mode) (some f) gain volume = (f ≡ file) × (gain ≡ volume)

-- A file that is open is the state's file, at the player's volume.
abbrev pub HandleFits : PlayerState → Option Handle → ℕ → Type 0
HandleFits s none volume = Unit {0}
HandleFits s (some h) volume = FileFits s h.file h.gain volume

pub record IsWellformed (p : Player) : Type 0 where
  pub loud : p.volume ≤ 100
  pub thread : ThreadFits p.state p.thread_is_running p.play_thread
  pub handle : HandleFits p.state p.mh p.volume

new_player-IsWellformed : IsWellformed new_player
unfolding new_player
new_player-IsWellformed = ground arith

set_volume-IsWellformed :
    (io : Io) (p : Player) (v : ℕ) → IsWellformed p → IsWellformed (set_volume io p v).0
unfolding set_volume
set_volume-IsWellformed io p v w = ground arith

stop-IsWellformed : (io : Io) (p : Player) → IsWellformed p → IsWellformed (stop io p).0
unfolding stop
stop-IsWellformed io p w = ground arith

pause-IsWellformed : (io : Io) (p : Player) → IsWellformed p → IsWellformed (pause io p).0
unfolding pause
pause-IsWellformed io p w = ground arith

resume-IsWellformed : (io : Io) (p : Player) → IsWellformed p → IsWellformed (resume io p).0
unfolding resume
resume-IsWellformed io p w = ground arith

play-IsWellformed :
    (io : Io) (p : Player) (file : Bytes) (mode : PlayMode)
    → IsWellformed p
    → IsWellformed (play io p file mode).0
unfolding play
play-IsWellformed io p file mode w = ground arith

reopen-IsWellformed :
    (io : Io) (p : Player) (t : PlayThread)
    → p.play_thread ≡ some t
    → IsWellformed p
    → IsWellformed (reopen io p t.file_name).0
unfolding reopen
reopen-IsWellformed io p t e w = ground arith

finish_play-IsWellformed :
    (p : Player) (t : PlayThread)
    → p.play_thread ≡ some t
    → IsWellformed p
    → IsWellformed (finish_play p t.id)
unfolding finish_play
finish_play-IsWellformed p t e w = ground arith

auto_stop-IsWellformed : (io : Io) (p : Player) → IsWellformed p → IsWellformed (auto_stop io p)
unfolding auto_stop stop
auto_stop-IsWellformed io p w = ground arith

pub Step-IsWellformed : {p q : Player} → Step p q → IsWellformed p → IsWellformed q
Step-IsWellformed (plays io p file mode) w = play-IsWellformed io p file mode w
Step-IsWellformed (pauses io p) w = pause-IsWellformed io p w
Step-IsWellformed (resumes io p) w = resume-IsWellformed io p w
Step-IsWellformed (stops io p) w = stop-IsWellformed io p w
Step-IsWellformed (sets_volume io p v) w = set_volume-IsWellformed io p v w
Step-IsWellformed (reopens io p t e) w = reopen-IsWellformed io p t e w
Step-IsWellformed (finishes p t e) w = finish_play-IsWellformed p t e w
Step-IsWellformed (wakes io p e) w = auto_stop-IsWellformed io p w

-- In every state that calls and threads can reach: the volume is at most 100; a play thread waits
-- to be joined exactly in the play state, on that state's file and mode, which is a valid mode; and
-- a file that is open is the state's file at the player's volume.
pub Reach-IsWellformed : {p : Player} → Reach p → IsWellformed p
Reach-IsWellformed start = new_player-IsWellformed
Reach-IsWellformed (next r s) = Step-IsWellformed s (Reach-IsWellformed r)
