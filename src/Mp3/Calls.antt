-- ===== src/Mp3/Calls.antt =====
-- src/mp3/mp3/mp3_player.cpp: the public methods of `Mp3Player`, and its constructor.
use rpi_tcp_listener.Base.{ℕ, false, none}
use rpi_tcp_listener.Base.Text.{Bytes}
use rpi_tcp_listener.Mp3.Types.{PlayMode, State, Status, state_str, Io, stop_state, Player}
use rpi_tcp_listener.Mp3.States.{
  enter_stop, play_in, pause_in, resume_in, stop_in, set_volume_in, state_of,
}

module _ (io : Io) where
  -- `Mp3Player::Play` to `Mp3Player::SetVolume`: the current state's method.
  unfoldable pub play : Player → Bytes → PlayMode → Player × Status
  unfolding play_in
  play p = play_in io p.state p

  unfoldable pub pause : Player → Player × Status
  unfolding pause_in
  pause p = pause_in io p.state p

  unfoldable pub resume : Player → Player × Status
  unfolding resume_in
  resume p = resume_in io p.state p

  unfoldable pub stop : Player → Player × Status
  unfolding stop_in
  stop p = stop_in io p.state p

  unfoldable pub set_volume : Player → ℕ → Player × Status
  unfolding set_volume_in
  set_volume p = set_volume_in io p.state p

unfoldable pub get_state : Player → State
get_state p = state_of p.state

unfoldable pub get_state_str : Player → Bytes
get_state_str p = state_str (state_of p.state)

-- The constructor of `Mp3Player`, and of the `PlayerStopState` that it makes.
unfoldable pub new_player : Player
unfolding enter_stop
new_player = enter_stop (record {
  mh = none;
  buffer_mpg = none;
  buffer_mpg_size = 0;
  ao_driver_id = 0;
  ao_dev = none;
  volume = 100;
  state = stop_state;
  stop_thread = false;
  play_thread = none;
  thread_is_running = false;
  cv_ready = false;
  stop_auto_stop_thread = false;
  thread_id_to_stop = none;
  ao_count = 0;
  handles = 0;
  buffers = 0;
  devices = 0;
})
