-- ===== src/Mp3/Refine.antt =====
-- The player as its clients see it: four states and a table, and the calls that follow it.
use rpi_tcp_listener.Base.{
  ℕ, ◌≤◌, ◌<◌, ◌≡◌, ◌≢◌, ◌⊎◌, inl, inr, Bool, true, Option, some, none, arith, leb, Bool-cases,
  if◌then◌else◌,
}
use rpi_tcp_listener.Base.Text.{Bytes}
use rpi_tcp_listener.Mp3.Types.{
  PlayMode, once, in_loop, play_mode_max, State, stoped, play_once, play_in_loop, paused, Status,
  success, file_not_found, wrong_play_mode, failed, Io, Player, Handle, stop_state, play_state,
}
use rpi_tcp_listener.Mp3.Device.{openable}
use rpi_tcp_listener.Mp3.Calls.{play, pause, resume, stop, set_volume, get_state}
use rpi_tcp_listener.Mp3.Wellformed.{IsWellformed}

-- What a call answers and where it leads, from the client's state, the mode asked for, and whether
-- the file can be opened.
abbrev pub play_table : State → PlayMode → Bool → State × Status
play_table paused mode ready = (stoped, file_not_found)
play_table _ play_mode_max ready = (stoped, wrong_play_mode)
play_table _ once ready = if ready then (play_once, success) else (stoped, file_not_found)
play_table _ in_loop ready = if ready then (play_in_loop, success) else (stoped, file_not_found)

abbrev pub pause_table : State → State × Status
pause_table stoped = (stoped, success)
pause_table _ = (paused, success)

abbrev pub stop_table : State → State × Status
stop_table _ = (stoped, success)

-- `Play` follows the table, in every state of the player, for every mode and every file.
pub play-refines :
    (io : Io) (p : Player) (file : Bytes) (mode : PlayMode)
    → let r = play io p file mode in
      (get_state r.0, r.1) ≡ play_table (get_state p) mode (openable io file)
unfolding play get_state
play-refines io p file mode = ground arith

-- `Pause` follows its table in every state of the player.
pub pause-refines :
    (io : Io) (p : Player) → let r = pause io p in (get_state r.0, r.1) ≡ pause_table (get_state p)
unfolding pause get_state
pause-refines io p = ground arith

-- `Stop` follows its table in every state of the player.
pub stop-refines :
    (io : Io) (p : Player) → let r = stop io p in (get_state r.0, r.1) ≡ stop_table (get_state p)
unfolding stop get_state
stop-refines io p = ground arith

-- `Play` that answers SUCCESS has a new thread at work on the file and the mode asked for, the
-- handle has that file open at the player's volume, and the state remembers both.
pub play-success :
    (io : Io) (p : Player) (file : Bytes) (mode : PlayMode)
    → IsWellformed p
    → (play io p file mode).1 ≡ success
    → let q = (play io p file mode).0 in
      (q.state ≡ play_state file mode)
      × (mode ≢ play_mode_max)
      × (q.thread_is_running ≡ true)
      × (q.play_thread ≡ some (record { id = io.thread_id; file_name = file; play_mode = mode }))
      × (q.mh ≡ some (record { file = some file; gain = p.volume }))
unfolding play
play-success io p file mode w h = ground arith

-- From the play state a pause and a resume, the file still there, come back to the same state, on a
-- new thread for the same file and mode.
pub resume-pause :
    (io : Io) (p : Player) (file : Bytes) (mode : PlayMode)
    → IsWellformed p
    → p.state ≡ play_state file mode
    → io.exists file ≡ true
    → let q = (pause io p).0 in
      let r = resume io q in
      (get_state q ≡ paused)
      × (q.play_thread ≡ none)
      × (q.mh ≡ p.mh)
      × (r.1 ≡ success)
      × (r.0.state ≡ p.state)
      × (r.0.play_thread ≡ some (record { id = io.thread_id; file_name = file; play_mode = mode }))
unfolding pause resume get_state
resume-pause io p file mode w s e = ground arith

-- `Play` in the pause state never plays: it answers FILE_NOT_FOUND and stops the player, also for a
-- file that can be opened and a valid mode.
pub play_paused :
    (io : Io) (p : Player) (file : Bytes) (mode : PlayMode)
    → get_state p ≡ paused
    → let r = play io p file mode in
      (r.1 ≡ file_not_found) × (r.0.state ≡ stop_state) × (r.0.mh ≡ none)
unfolding play get_state
play_paused io p file mode h = ground arith

-- A handle behind a change of the volume: a stopped player leaves it alone.
abbrev pub gained : State → Option Handle → ℕ → Option Handle
gained stoped mh v = mh
gained _ none v = none
gained _ (some h) v = some (record h { gain = v })

-- `SetVolume` accepts exactly the volumes up to 100: it stores the volume and leaves the state, the
-- thread and the file alone, and passes it on to the open handle unless the player is stopped. Any
-- other volume changes nothing.
pub set_volume_lem :
    (io : Io) (p : Player) (v : ℕ)
    → let r = set_volume io p v in
      ((v ≤ 100)
        × (r.1 ≡ success)
        × (r.0.volume ≡ v)
        × (r.0.state ≡ p.state)
        × (r.0.play_thread ≡ p.play_thread)
        × (r.0.mh ≡ gained (get_state p) p.mh v))
      ⊎ ((100 < v) × (r.1 ≡ failed) × (r.0 ≡ p))
unfolding set_volume get_state
set_volume_lem io p v = elim (Bool-cases (leb v 100)) [
  | inl small ↦
      inl (ground arith, ground arith, ground arith, ground arith, ground arith, ground arith)
  | inr large ↦ inr (ground arith, ground arith, ground arith)
]
