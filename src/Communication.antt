-- ===== src/Communication.antt =====
-- src/communication/communication/communication.{h,cpp}: one handler per command, and the
-- reply.
--
-- A reply is the text that `sprintf` writes. The clock stands still during a handler, but for what
-- `SetTime` does to it. The log is left out.
pub mod Dispatch
pub mod Play
pub mod Replies
pub mod ReplySize
pub mod Protocol
pub mod Answering
mod Tests
use rpi_tcp_listener.Base.{
  ℕ, zero, suc, ◌-◌, Bool, true, false, ◌&&◌, Option, none, some, List, [], ◌∷◌, ◌++◌, length, drop,
  replicate, get_elem?, ltb, ◌==◌, if◌then◌else◌,
}
use rpi_tcp_listener.Base.Int.{ℤ, pos, dec, ltb_ℕ, to_size, to_u16}
use rpi_tcp_listener.Base.Text.{Bytes, codes, str_eq, atoi}
use rpi_tcp_listener.Base.Decimal.{print_nat, print_int}
use rpi_tcp_listener.Base.Outcome.{Outcome, done, fault, out_of_range, ◌>>=◌}
use rpi_tcp_listener.Files.{Files, write}
use rpi_tcp_listener.Config.{config_file, get_config_from_file}
use rpi_tcp_listener.Time.{Clock, TimeStatus, time_set_ok, get_time, set_time}
use rpi_tcp_listener.Parser.{
  MsgParser, MsgCmd, tcp_set_time, tcp_play, tcp_stop, tcp_set_cfg, tcp_get_cfg, tcp_set_volume,
  tcp_reset, tcp_status, tcp_cmd_num, parse_msg_in, get_msg_str_at,
}
use rpi_tcp_listener.Mp3.Types.{
  Io, Player, PlayMode, once, in_loop, play_mode_max, Status, success, file_not_found,
  wrong_play_mode, failed,
}
use rpi_tcp_listener.Mp3.Calls.{play, stop, set_volume, get_state_str}

-- The enumerators of `ErrorCode` that a reply can hold.
pub data ErrorCode : Type 0 where
  error_code_ok error_code_play_mode_error error_code_no_file error_code_wrong_volume
        error_code_get_cfg_error error_code_set_time_error :
      ErrorCode

abbrev pub error_number : ErrorCode → ℕ
error_number error_code_ok = 0
error_number error_code_play_mode_error = 2
error_number error_code_no_file = 3
error_number error_code_wrong_volume = 4
error_number error_code_get_cfg_error = 5
error_number error_code_set_time_error = 8

abbrev pub command_number : MsgCmd → ℕ
command_number tcp_set_time = 0
command_number tcp_play = 1
command_number tcp_stop = 2
command_number tcp_set_cfg = 3
command_number tcp_get_cfg = 4
command_number tcp_set_volume = 5
command_number tcp_reset = 6
command_number tcp_status = 7
command_number tcp_cmd_num = 8

-- `Mp3PlayerStatusToError`; the default case has no enumerator left.
abbrev pub mp3_player_status_to_error : Status → ErrorCode
mp3_player_status_to_error success = error_code_ok
mp3_player_status_to_error file_not_found = error_code_no_file
mp3_player_status_to_error wrong_play_mode = error_code_play_mode_error
mp3_player_status_to_error failed = error_code_wrong_volume

-- What the handlers use and do not change: the libraries of the player, those of the clock, the
-- sound files of the configuration, and whether a reboot callback is set.
pub record Env : Type 0 where
  pub io : Io
  pub clock : Clock
  pub sound_files : List Bytes
  pub reboot_callback : Bool

-- `Communication`, with the files, the time and the reboots around it.
pub record Communication : Type 0 where
  pub msg_parser : MsgParser
  pub mp3_player : Player
  pub command : MsgCmd
  pub time_str : Bytes
  pub files : Files
  pub now : ℤ
  pub reboots : ℕ

-- The formats of the replies.
unfoldable pub reply_with : MsgCmd → List Bytes → ErrorCode → Bytes
reply_with command [] error =
    codes "ERROR_CODE:" ++ (print_nat (error_number error) ++ codes "\nEND\n")
reply_with command (line ∷ lines) error = line ++ (b'\n' ∷ reply_with command lines error)

abbrev received : MsgCmd → Bytes
received command = codes "COMMAND_" ++ (print_nat (command_number command) ++ codes "_RECEIVED")

-- "COMMAND_%d_RECEIVED\n%s\nERROR_CODE:%d\nEND\n", and with the lines between these two.
unfoldable pub reply : Communication → List Bytes → ErrorCode → Bytes
unfolding reply_with
reply c lines error = reply_with c.command (received c.command ∷ c.time_str ∷ lines) error

abbrev pub state_reply : Communication → ErrorCode → Bytes
state_reply c error = reply c (get_state_str c.mp3_player ∷ []) error

-- "UNKNOWN_COMMAND\n%s\nEND\n".
unfoldable pub unknown_reply : Communication → Bytes
unknown_reply c = codes "UNKNOWN_COMMAND\n" ++ (c.time_str ++ codes "\nEND\n")

abbrev pub play_mode_of : Bytes → PlayMode
play_mode_of text =
    if str_eq text (codes "ONCE")
    then once
    else if str_eq text (codes "IN_LOOP")
    then in_loop
    else play_mode_max

abbrev pub set_time_error : TimeStatus → ErrorCode
set_time_error time_set_ok = error_code_ok
set_time_error _ = error_code_set_time_error

module _ (env : Env) where
  -- A call of the player, and the reply to its status.
  abbrev pub answer : Communication → Player × Status → Communication × Bytes
  answer c r =
      let c' : Communication = record c { mp3_player = r.0 } in
      (c', state_reply c' (mp3_player_status_to_error r.1))

  unfoldable pub handle_set_time : Communication → Outcome (Communication × Bytes)
  unfolding set_time get_time reply
  handle_set_time c =
      let (status, now) = set_time env.clock c.now (get_msg_str_at c.msg_parser 1) in
      let error = set_time_error status in
      get_time env.clock now c.time_str >>= λ t.
      let c' : Communication = record c { now = now; time_str = t.1 } in
      done (c', reply c' [] error)

  -- `sound_files.at(file_num)` and the call of the player.
  abbrev pub play_found : Communication → Option Bytes → Outcome (Communication × Bytes)
  play_found c none = fault out_of_range
  play_found c (some file) =
      done (answer c (play env.io c.mp3_player file (play_mode_of (get_msg_str_at c.msg_parser 2))))

  unfoldable pub handle_play : Communication → Outcome (Communication × Bytes)
  unfolding play reply
  handle_play c =
      let file_num = atoi (get_msg_str_at c.msg_parser 1) in
      if ltb_ℕ file_num 1 && ltb (length env.sound_files) (to_size file_num)
      then done (c, state_reply c error_code_no_file)
      else play_found c (get_elem? env.sound_files (to_size (dec file_num)))

  unfoldable pub handle_stop : Communication → Communication × Bytes
  unfolding stop reply
  handle_stop c = answer c (stop env.io c.mp3_player)

  unfoldable pub handle_set_cfg : Communication → Communication × Bytes
  unfolding reply
  handle_set_cfg c =
      if c.files.writable config_file
      then (let c' : Communication = record c {
        files = write c.files config_file (get_msg_str_at c.msg_parser 2);
      } in
          (c', reply c' [] error_code_ok))
      else (c, reply c [] error_code_no_file)

  -- Its reply; `stream` is empty when the file cannot be read.
  abbrev pub cfg_reply : Communication → Option Bytes → Communication × Bytes
  cfg_reply c none = (c, reply c (print_nat 0 ∷ [] ∷ []) error_code_get_cfg_error)
  cfg_reply c (some stream) = (c, reply c (print_nat (length stream) ∷ stream ∷ []) error_code_ok)

  unfoldable pub handle_get_cfg : Communication → Communication × Bytes
  unfolding get_config_from_file reply
  handle_get_cfg c = cfg_reply c (get_config_from_file c.files)

  -- `SetVolume` takes a `uint16_t`.
  unfoldable pub handle_volume : Communication → Communication × Bytes
  unfolding set_volume reply
  handle_volume c =
      answer c (set_volume env.io c.mp3_player (to_u16 (atoi (get_msg_str_at c.msg_parser 1))))

  unfoldable pub handle_reset : Communication → Communication × Bytes
  unfolding stop reply
  handle_reset c =
      let c' : Communication = record c { mp3_player = (stop env.io c.mp3_player).0 } in
      (
        if env.reboot_callback then record c' { reboots = suc c.reboots } else c',
        reply c' [] error_code_ok,
      )

  unfoldable pub handle_status : Communication → Communication × Bytes
  unfolding reply
  handle_status c = (c, state_reply c error_code_ok)

  -- The `switch`.
  unfoldable pub dispatch : MsgCmd → Communication → Outcome (Communication × Bytes)
  unfolding handle_set_time handle_play handle_stop handle_set_cfg handle_get_cfg handle_volume
      handle_reset handle_status unknown_reply
  dispatch tcp_set_time c = handle_set_time c
  dispatch tcp_play c = handle_play c
  dispatch tcp_stop c = done (handle_stop c)
  dispatch tcp_set_cfg c = done (handle_set_cfg c)
  dispatch tcp_get_cfg c = done (handle_get_cfg c)
  dispatch tcp_set_volume c = done (handle_volume c)
  dispatch tcp_reset c = done (handle_reset c)
  dispatch tcp_status c = done (handle_status c)
  dispatch tcp_cmd_num c = done (c, unknown_reply c)

  -- `handleCommand`; the status of `ParseMsg` is dropped. `behind` is what stands in memory behind
  -- the terminator of the message.
  unfoldable pub handle_command_in : Bytes → Communication → Bytes → Outcome (Communication × Bytes)
  unfolding dispatch
  handle_command_in behind c msg = parse_msg_in behind c.msg_parser msg >>= λ parsed.
      get_time env.clock c.now c.time_str >>= λ t.
      let c' : Communication = record c {
        msg_parser = parsed.1;
        time_str = t.1;
        command = parsed.1.command;
      } in
      dispatch c'.command c'

  -- The same, where the memory that the program may read ends with the terminator.
  abbrev pub handle_command : Communication → Bytes → Outcome (Communication × Bytes)
  handle_command = handle_command_in []
