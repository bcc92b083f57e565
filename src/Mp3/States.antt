-- ===== src/Mp3/States.antt =====
-- src/mp3/mp3/player_{stop,play,pause}_state.cpp: the methods of the three states.
use rpi_tcp_listener.Base.{ℕ, Bool, true, false, none, some, leb, if◌then◌else◌}
use rpi_tcp_listener.Base.Text.{Bytes}
use rpi_tcp_listener.Mp3.Types.{
  PlayMode, in_loop, play_mode_max, State, stoped, play_once, play_in_loop, paused, Status, success,
  file_not_found, wrong_play_mode, failed, Io, PlayerState, stop_state, play_state, pause_state,
  Player,
}
use rpi_tcp_listener.Mp3.Device.{
  close_player, stop_play_thread, run_play_thread, set_state, open_player,
}

abbrev is_max : PlayMode → Bool
is_max play_mode_max = true
is_max _ = false

-- `SetState(new PlayerStopState(…))`, and so on: the constructor runs first.
unfoldable pub enter_stop : Player → Player
unfolding close_player stop_play_thread set_state
enter_stop p = set_state (close_player (stop_play_thread p)) stop_state

unfoldable pub enter_play : Io → Player → Bytes → PlayMode → Player
unfolding run_play_thread set_state
enter_play io p file mode = set_state (run_play_thread io p file mode) (play_state file mode)

unfoldable pub enter_pause : Player → Bytes → PlayMode → Player
unfolding stop_play_thread set_state
enter_pause p file mode = set_state (stop_play_thread p) (pause_state file mode)

module _ (io : Io) where
  -- `PlayerStopState::Play`.
  abbrev stop_state_play : Player → Bytes → PlayMode → Player × Status
  stop_state_play p file mode =
      if is_max mode
      then (p, wrong_play_mode)
      else let (q, ready) = open_player io p file in
        if ready then (enter_play io q file mode, success) else (q, file_not_found)

  -- `PlayerPlayState::Play`, in the state with the file `old`.
  abbrev play_state_play : Bytes → Player → Bytes → PlayMode → Player × Status
  play_state_play old p file mode =
      if is_max mode
      then (enter_stop (set_state p (play_state old mode)), wrong_play_mode)
      else let q = close_player (stop_play_thread (set_state p (play_state file mode))) in
        let (r, ready) = open_player io q file in
        if ready then (run_play_thread io r file mode, success) else (enter_stop r, file_not_found)

  -- `PlayerPauseState::Play`: the block behind the call of `OpenPlayer` has no condition, and
  -- returns.
  abbrev pause_state_play : Player → Bytes → Player × Status
  pause_state_play p file = (enter_stop (open_player io (close_player p) file).0, file_not_found)

  -- `Play` of each state.
  unfoldable pub play_in : PlayerState → Player → Bytes → PlayMode → Player × Status
  unfolding open_player enter_play enter_stop close_player stop_play_thread run_play_thread
      set_state
  play_in stop_state p file mode = stop_state_play p file mode
  play_in (play_state old _) p file mode = play_state_play old p file mode
  play_in (pause_state _ _) p file mode = pause_state_play p file

  -- `Pause` of each state.
  unfoldable pub pause_in : PlayerState → Player → Player × Status
  unfolding enter_pause
  pause_in stop_state p = (p, success)
  pause_in (play_state file mode) p = (enter_pause p file mode, success)
  pause_in (pause_state file mode) p = (p, success)

  -- `PlayerPauseState::Resume`.
  abbrev pause_state_resume : Player → Bytes → PlayMode → Player × Status
  pause_state_resume p file mode =
      if io.exists file
      then (enter_play io p file mode, success)
      else (enter_stop p, file_not_found)

  -- `Resume` of each state.
  unfoldable pub resume_in : PlayerState → Player → Player × Status
  unfolding enter_stop enter_play
  resume_in stop_state p = (p, success)
  resume_in (play_state file mode) p = (p, success)
  resume_in (pause_state file mode) p = pause_state_resume p file mode

  -- `Stop` of each state.
  unfoldable pub stop_in : PlayerState → Player → Player × Status
  unfolding enter_stop
  stop_in stop_state p = (p, success)
  stop_in (play_state file mode) p = (enter_stop p, success)
  stop_in (pause_state file mode) p = (enter_stop p, success)

  abbrev with_gain : Player → ℕ → Player
  with_gain p v = elim p.mh [ none ↦ p | some h ↦ record p { mh = some (record h { gain = v }) } ]

  -- `SetVolume` of the stop state.
  abbrev stop_state_set_volume : Player → ℕ → Player × Status
  stop_state_set_volume p v = if leb v 100 then (record p { volume = v }, success) else (p, failed)

  -- `SetVolume` of the two other states. `mpg123_volume` at a null handle is an error that changes
  -- nothing.
  abbrev open_state_set_volume : Player → ℕ → Player × Status
  open_state_set_volume p v =
      if leb v 100 then (with_gain (record p { volume = v }) v, success) else (p, failed)

  -- `SetVolume` of each state.
  unfoldable pub set_volume_in : PlayerState → Player → ℕ → Player × Status
  set_volume_in stop_state p v = stop_state_set_volume p v
  set_volume_in (play_state _ _) p v = open_state_set_volume p v
  set_volume_in (pause_state _ _) p v = open_state_set_volume p v

-- `PlayModeToState`.
abbrev pub play_mode_to_state : PlayMode → State
play_mode_to_state in_loop = play_in_loop
play_mode_to_state _ = play_once

-- `GetState` of each state.
abbrev pub state_of : PlayerState → State
state_of stop_state = stoped
state_of (play_state _ mode) = play_mode_to_state mode
state_of (pause_state _ _) = paused
