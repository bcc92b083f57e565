-- ===== src/Communication/Tests.antt =====
-- Exchanges in the manner of communication/test/communication_test.cpp, and the theorems of the
-- handlers at them.
use rpi_tcp_listener.Base.{
  ◌≤◌, ◌<◌, ◌≡◌, refl, inr, true, some, List, [], ◌∷◌, ◌++◌, map, length, arith,
}
use rpi_tcp_listener.Base.Int.{pos, int_max, size_mod}
use rpi_tcp_listener.Base.Text.{Bytes, codes, atoi}
use rpi_tcp_listener.Base.Decimal.{print_nat}
use rpi_tcp_listener.Base.Outcome.{done, fault, out_of_range}
use rpi_tcp_listener.Files.{Files}
use rpi_tcp_listener.Time.{Tm, Clock, get_time, time_get_ok}
use rpi_tcp_listener.Parser.{tcp_play, tcp_stop, tcp_status, get_msg_str_at}
use rpi_tcp_listener.Parser.Framing.{write_nodes}
use rpi_tcp_listener.Parser.Commands.{lines_of}
use rpi_tcp_listener.Parser.Config.{write_config, line_ending}
use rpi_tcp_listener.Mp3.Types.{Io}
use rpi_tcp_listener.Mp3.Calls.{new_player, play, get_state_str}
use rpi_tcp_listener.Config.{config_file}
use rpi_tcp_listener.Communication.{
  Env, Communication, dispatch, handle_command, handle_play, handle_get_cfg, reply, state_reply,
  play_mode_of, mp3_player_status_to_error, error_code_ok,
}
use rpi_tcp_listener.Communication.Dispatch.{
  prepared, handle_command-lines_of, handle_command_overlong, handle_command-write_config,
}
use rpi_tcp_listener.Communication.Play.{handle_command-play, handle_play_throws}
use rpi_tcp_listener.Communication.ReplySize.{Fits, handle_command-Fits}
use rpi_tcp_listener.Base.Outcome.{Returns}
use rpi_tcp_listener.Communication.Replies.{handle_get_cfg_empty}

abbrev song : Bytes
song = codes "/tmp/1.mp3"

abbrev io : Io
io = record {
  has_handle = true;
  has_device = true;
  exists = λ f. true;
  decodes = λ f. true;
  format_of = λ f. record { encsize = 2; rate = 44100; channels = 2 };
  driver = 1;
  thread_id = 1;
}

abbrev noon : Tm
noon = record {
  tm_hour = pos 12;
  tm_min = pos 45;
  tm_sec = pos 50;
  tm_mday = pos 13;
  tm_mon = pos 5;
  tm_year = pos 111;
  tm_isdst = pos 0;
}

abbrev clock : Clock
clock = record { localtime = λ t. some noon; mktime = λ tm. tm.tm_sec; settable = λ t. true }

abbrev env : Env
env = record { io = io; clock = clock; sound_files = song ∷ []; reboot_callback = true }

abbrev disk : Files
disk = record { read = λ n. some (codes "old"); writable = λ n. true }

-- A client has just asked for the status.
abbrev c : Communication
c = record {
  msg_parser = record {
    parsed_masage = codes "TCP_STATUS" ∷ codes "END" ∷ [];
    command = tcp_status;
  };
  mp3_player = new_player;
  command = tcp_status;
  time_str = [];
  files = disk;
  now = pos 7;
  reboots = 0;
}

abbrev time : Bytes
time = codes "12:45:50_13.06.2011"

noon_text : get_time clock (pos 7) [] ≡ done (time_get_ok, time)
unfolding get_time
noon_text = refl

abbrev asks : Bytes → Communication
asks text = record c {
  msg_parser = record {
    parsed_masage = codes "TCP_PLAY" ∷ text ∷ codes "ONCE" ∷ codes "END" ∷ [];
    command = tcp_play;
  };
}

number_one : atoi (get_msg_str_at (asks (codes "1")).msg_parser 1) ≡ pos 1
unfolding atoi get_msg_str_at
number_one = refl

number_two : atoi (get_msg_str_at (asks (codes "2")).msg_parser 1) ≡ pos 2
unfolding atoi get_msg_str_at
number_two = refl

number_large : atoi (get_msg_str_at (asks (codes "65636")).msg_parser 1) ≡ pos 65636
unfolding atoi get_msg_str_at
number_large = refl

stop_dispatched :
    handle_command env c (write_nodes (lines_of tcp_stop []))
    ≡ dispatch env tcp_stop
        (prepared c (record { parsed_masage = lines_of tcp_stop []; command = tcp_stop }) time)
stop_dispatched =
    handle_command-lines_of env c tcp_stop [] time_get_ok time (λ e. cc) (λ e. cc) refl tt
      (omega arith) noon_text

abbrev too_long : List Bytes
too_long = codes "1" ∷ codes "2" ∷ codes "3" ∷ codes "4" ∷ []

handle_command_overlong_example :
    handle_command env c (write_nodes (codes "TCP_STOP" ∷ too_long) ++ codes "5")
    ≡ dispatch env tcp_status (
        prepared c
          (record { parsed_masage = codes "TCP_STOP" ∷ too_long; command = tcp_status })
          time)
handle_command_overlong_example =
    handle_command_overlong env c (codes "TCP_STOP") too_long b'5' [] time_get_ok time (omega arith)
      refl refl (omega arith) noon_text

fits : length (write_config (codes "<a>\r</a>\r")) ≤ int_max
unfolding print_nat
fits = omega arith

handle_command-write_config_example :
    (q : Communication) × (handle_command env c (write_config (codes "<a>\r</a>\r"))
      ≡ done (q, reply q [] error_code_ok))
    × (q.files.read config_file ≡ some (map line_ending (codes "<a>\r</a>\r")))
handle_command-write_config_example =
    handle_command-write_config env c (codes "<a>\r</a>\r") time_get_ok time fits noon_text refl

fits_play : length (write_nodes (lines_of tcp_play (print_nat 1 ∷ codes "ONCE" ∷ []))) < size_mod
unfolding print_nat
fits_play = omega arith

handle_command-play_example :
    let d =
      prepared c
        (record {
          parsed_masage = lines_of tcp_play (print_nat 1 ∷ codes "ONCE" ∷ []);
          command = tcp_play;
        })
        time in
    let r = play io new_player song (play_mode_of (codes "ONCE")) in
    let q : Communication = record d { mp3_player = r.0 } in
    handle_command env c (write_nodes (lines_of tcp_play (print_nat 1 ∷ codes "ONCE" ∷ [])))
    ≡ done (q, state_reply q (mp3_player_status_to_error r.1))
handle_command-play_example =
    handle_command-play env c 0 (codes "ONCE") song time_get_ok time refl (omega arith)
      (omega arith) fits_play noon_text

handle_play_throws_example : handle_play env (asks (codes "2")) ≡ fault out_of_range
handle_play_throws_example =
    handle_play_throws env (asks (codes "2")) 2 number_two (omega arith) (inr (omega arith))
      (omega arith)

handle_get_cfg_empty_example :
    handle_get_cfg env c ≡ (c, reply c (print_nat 0 ∷ [] ∷ []) error_code_ok)
handle_get_cfg_empty_example = handle_get_cfg_empty env c (codes "old") refl

abbrev stop_msg : Bytes
stop_msg = write_nodes (lines_of tcp_stop [])

abbrev stopped : Communication
stopped = prepared c (record { parsed_masage = lines_of tcp_stop []; command = tcp_stop }) time

stop_answered : handle_command env c stop_msg ≡ done (stopped, state_reply stopped error_code_ok)
unfolding dispatch new_player
stop_answered = stop_dispatched

stop_text :
    state_reply stopped error_code_ok
    ≡ codes "COMMAND_2_RECEIVED\n12:45:50_13.06.2011\nAUDIO_IDLE\nERROR_CODE:0\nEND\n"
unfolding reply print_nat get_state_str new_player
stop_text = refl

handle_command-Fits_example : Returns Fits (handle_command env c (codes "TCP_STATUS\nEND\n"))
handle_command-Fits_example = handle_command-Fits env [] c (codes "TCP_STATUS\nEND\n") (omega arith)
