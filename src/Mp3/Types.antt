-- ===== src/Mp3/Types.antt =====
-- src/mp3/mp3/mp3_player_interface.h: the enumerations of the player and the names of its states.
use rpi_tcp_listener.Base.{ℕ, Bool, Option}
use rpi_tcp_listener.Base.Text.{Bytes, codes}

pub data PlayMode : Type 0 where
  once in_loop play_mode_max : PlayMode

pub data State : Type 0 where
  stoped play_once play_in_loop paused : State

pub data Status : Type 0 where
  success file_not_found wrong_play_mode failed : Status

-- `STATE_STR`. No comma stands behind the fourth text, so C joins it to the fifth.
abbrev pub state_str : State → Bytes
state_str stoped = codes "AUDIO_IDLE"
state_str play_once = codes "AUDIO_PLAY_ONCE"
state_str play_in_loop = codes "AUDIO_PLAY_IN_LOOP"
state_str paused = codes "AUDIO_PLAY_PAUSEDAUDIO_FAILED"

-- What `ao_sample_format` holds of the stream.
pub record Format : Type 0 where
  pub encsize : ℕ
  pub rate : ℕ
  pub channels : ℕ

-- `mpg123_new` and `ao_open_live` return no null pointer, `fopen` succeeds on a file, `mpg123_open`
-- at a handle returns 0 on it, what `mpg123_getformat` and `mpg123_encsize` say of it, and
-- `ao_default_driver_id`.
pub record Io : Type 0 where
  pub has_handle : Bool
  pub has_device : Bool
  pub exists : Bytes → Bool
  pub decodes : Bytes → Bool
  pub format_of : Bytes → Format
  pub driver : ℕ
  -- The id that `std::thread` gives to a thread started now.
  pub thread_id : ℕ

-- An mpg123 handle: the file that it has open and its volume.
pub record Handle : Type 0 where
  pub file : Option Bytes
  pub gain : ℕ

-- A `std::thread` that is joinable: its id and the arguments of `DoPlay`.
pub record PlayThread : Type 0 where
  pub id : ℕ
  pub file_name : Bytes
  pub play_mode : PlayMode

-- `PlayerState` and its three subclasses, with the fields of each.
pub data PlayerState : Type 0 where
  stop_state : PlayerState
  play_state pause_state : (play_file_name : Bytes) (play_mode : PlayMode) → PlayerState

pub record Device : Type 0 where
  pub bits : ℕ
  pub dev_rate : ℕ
  pub dev_channels : ℕ

pub record Player : Type 0 where
  pub mh : Option Handle
  pub buffer_mpg : Option ℕ
  pub buffer_mpg_size : ℕ
  pub ao_driver_id : ℕ
  pub ao_dev : Option Device
  pub volume : ℕ
  pub state : PlayerState
  pub stop_thread : Bool
  pub play_thread : Option PlayThread
  pub thread_is_running : Bool
  pub cv_ready : Bool
  pub stop_auto_stop_thread : Bool
  pub thread_id_to_stop : Option ℕ
  pub ao_count : ℕ
  pub handles : ℕ
  pub buffers : ℕ
  pub devices : ℕ
