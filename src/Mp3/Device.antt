-- ===== src/Mp3/Device.antt =====
-- src/mp3/mp3/mp3_player.cpp: the private methods of the player, which open and close the file, and
-- start and join the play thread.
use rpi_tcp_listener.Base.{
  ℕ, suc, ◌-◌, ◌*◌, Bool, true, false, ◌&&◌, Option, none, some, if◌then◌else◌,
}
use rpi_tcp_listener.Base.Text.{Bytes}
use rpi_tcp_listener.Mp3.Types.{PlayMode, Io, PlayerState, Device, Player}

abbrev pub mp3_sample_size : ℕ
mp3_sample_size = 16384

abbrev pub owned {ℓ} : {A : Type ℓ} → Option A → ℕ
owned none = 0
owned (some a) = 1

-- `ClosePlayer`.
unfoldable pub close_player : Player → Player
close_player p = record p {
  mh = none;
  buffer_mpg = none;
  buffer_mpg_size = 0;
  ao_driver_id = 0;
  ao_dev = none;
  handles = p.handles - owned p.mh;
  buffers = p.buffers - owned p.buffer_mpg;
  devices = p.devices - owned p.ao_dev;
}

-- `StopPlayThread`: `join` waits for the thread, which then is no longer joinable.
unfoldable pub stop_play_thread : Player → Player
stop_play_thread p =
    if p.thread_is_running
    then elim p.play_thread [
      | none ↦ record p { stop_thread = true }
      | some t ↦ record p { stop_thread = true; play_thread = none; thread_is_running = false }
    ]
    else p

-- `RunPlayThread`.
unfoldable pub run_play_thread : Io → Player → Bytes → PlayMode → Player
run_play_thread io p file mode = if p.thread_is_running then p else record p {
  stop_thread = false;
  play_thread = some (record { id = io.thread_id; file_name = file; play_mode = mode });
  thread_is_running = true;
}

-- `SetState`; `OnEnter` and `OnLeave` of every state do nothing.
unfoldable pub set_state : Player → PlayerState → Player
set_state p new_state = record p { state = new_state }

module _ (io : Io) where
  -- The head of `OpenPlayer`: a new handle and a new buffer, whatever the pointers held before.
  abbrev allocated : Player → Player
  allocated p = record p {
    mh = if io.has_handle then some (record { file = none; gain = 100 }) else none;
    buffer_mpg = some mp3_sample_size;
    buffer_mpg_size = mp3_sample_size;
    handles = if io.has_handle then suc p.handles else p.handles;
    buffers = suc p.buffers;
  }

  abbrev device : Bytes → Device
  device file = record {
    bits = (io.format_of file).encsize * 8;
    dev_rate = (io.format_of file).rate;
    dev_channels = (io.format_of file).channels;
  }

  -- Its tail, once mpg123 has the file open.
  abbrev opened : Player → Bytes → Player
  opened p file = record p {
    mh = some (record { file = some file; gain = p.volume });
    ao_driver_id = io.driver;
    ao_dev = if io.has_device then some (device file) else none;
    ao_count = suc p.ao_count;
    devices = if io.has_device then suc p.devices else p.devices;
  }

  -- `mpg123_open` fails at a null handle.
  abbrev pub openable : Bytes → Bool
  openable file = io.exists file && (io.has_handle && io.decodes file)

  -- `OpenPlayer`.
  unfoldable pub open_player : Player → Bytes → Player × Bool
  open_player p file =
      if io.exists file
      then (if io.has_handle && io.decodes file
          then (opened (allocated p) file, true)
          else (allocated p, false))
      else (allocated p, false)
