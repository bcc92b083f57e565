-- ===== src/App/Tests.antt =====
-- A program with one sound file, whose first client asks for the status.
mod Service
use rpi_tcp_listener.Base.{
  ◌++◌, ℕ, false, List, Option, length, none, ◌≡◌, refl, true, some, [], ◌∷◌, arith,
}
use rpi_tcp_listener.Base.Int.{pos}
use rpi_tcp_listener.Base.Text.{Bytes, codes}
use rpi_tcp_listener.Base.Outcome.{Outcome, done, fault}
use rpi_tcp_listener.Files.{Files, write}
use rpi_tcp_listener.Time.{Tm, Clock, get_time, time_get_ok}
use rpi_tcp_listener.Parser.{parse_msg_in, tcp_status, parse_msg}
use rpi_tcp_listener.Mp3.Types.{Io, once}
use rpi_tcp_listener.Mp3.Calls.{new_player, play, stop}
use rpi_tcp_listener.Mp3.Thread.{play_ends, stop_wakes, ticks}
use rpi_tcp_listener.Communication.{handle_command_in, Env, Communication, handle_command}
use rpi_tcp_listener.Zip.Swap.{swap_pairs}
use rpi_tcp_listener.Config.{
  ConfigManager, Document, extract, config_ok, config_file, parse_config_file, new_config_manager,
}
use rpi_tcp_listener.App.Signals.{parse_args, Signal, sigterm, started}
use rpi_tcp_listener.App.{
  env_of, autoplay_file, Program, Turn, Machine, new_communication, network_changed, connected,
  cmd_msg, run, main, MainState, returned,
}
use rpi_tcp_listener.App.Ending.{run_reset}
use rpi_tcp_listener.App.Whole.{IsLeft, main-IsLeft}
use rpi_tcp_listener.Tcp.{tcp_no_error}
use rpi_tcp_listener.Tcp.Network.{siocsifaddr, siocsifnetmask, siocsifflags, siocaddrt}
use rpi_tcp_listener.App.Refine.{shown, behind_replies, serve_in_turn, run-refines}
use rpi_tcp_listener.Mp3.Abstract.{View, view}
use rpi_tcp_listener.Communication.Protocol.{
  ClientRequest, wants_play, wants_stop, wants_status, wants_volume, message, IsAnswerable,
}
use rpi_tcp_listener.App.Service.{Serves, main-Converses}
use rpi_tcp_listener.App.Network.{eth0, network_changed-parse_config_file}
use rpi_tcp_listener.App.Startup.{autoplay_file-parse_config_file}

abbrev song : Bytes
song = codes "/tmp/1.mp3"

abbrev io : Io
io = record {
  has_handle = true;
  has_device = true;
  exists = λ f. true;
  decodes = λ f. true;
  format_of = λ f. record { encsize = 2; rate = 44100; channels = 2 };
  driver = 1;
  thread_id = 1;
}

abbrev noon : Tm
noon = record {
  tm_hour = pos 12;
  tm_min = pos 45;
  tm_sec = pos 50;
  tm_mday = pos 13;
  tm_mon = pos 5;
  tm_year = pos 111;
  tm_isdst = pos 0;
}

abbrev clock : Clock
clock = record { localtime = λ t. some noon; mktime = λ tm. tm.tm_sec; settable = λ t. true }

abbrev env : Env
env = record { io = io; clock = clock; sound_files = song ∷ []; reboot_callback = true }

abbrev disk : Files
disk = record { read = λ n. some (codes "old"); writable = λ n. true }

-- A client has just asked for the status.
abbrev c : Communication
c = record {
  msg_parser = record {
    parsed_masage = codes "TCP_STATUS" ∷ codes "END" ∷ [];
    command = tcp_status;
  };
  mp3_player = new_player;
  command = tcp_status;
  time_str = [];
  files = disk;
  now = pos 7;
  reboots = 0;
}

abbrev time : Bytes
time = codes "12:45:50_13.06.2011"

noon_text : get_time clock (pos 7) [] ≡ done (time_get_ok, time)
unfolding get_time
noon_text = refl

-- A server on descriptor 3 and a client on descriptor 4.
abbrev serving : Program
serving = record {
  sockets = record {
    conn_socket_fd = some 3;
    client_socket_fd = none;
    sin_port = 8080;
    bound_port = some 8080;
    open_fds = 3 ∷ 1 ∷ [];
  };
  communication = c;
  process = started;
  replies = [];
}

abbrev asks_for : Bytes → List Signal → Turn
asks_for text signals = record {
  before = play_ends ∷ stop_wakes ∷ [];
  io = io;
  now = pos 7;
  round = record { accepted = some 4; reads = true; writes = true };
  received = text;
  behind = [];
  signals = signals;
}

abbrev status_turn : Turn
status_turn = asks_for (codes "TCP_STATUS\nEND\n") []

abbrev reset_turn : Turn
reset_turn = asks_for (codes "TCP_RESET\nEND\n") (sigterm ∷ [])

abbrev ended : Program → Outcome Program → Program
ended p (done q) = q
ended p (fault e) = p

abbrev two_served : Program
unfolding run handle_command_in parse_msg_in get_time
two_served = ended serving (run env serving (status_turn ∷ status_turn ∷ []))

two_run : run env serving (status_turn ∷ status_turn ∷ []) ≡ done two_served
unfolding run handle_command_in parse_msg_in get_time
two_run = refl

run_reset_example :
    (q : Program) × (text : Bytes) × (run env serving (reset_turn ∷ status_turn ∷ []) ≡ done q)
    × (q.process ≡ record { stop_process = true; reboot_system = true })
    × (q.communication.mp3_player ≡ (stop io (ticks io (play_ends ∷ stop_wakes ∷ []) new_player)).0)
    × (q.replies ≡ text ∷ [])
    × (q.sockets ≡ serving.sockets)
run_reset_example =
    run_reset env serving reset_turn (status_turn ∷ []) 4 time_get_ok time refl refl refl refl refl
      refl noon_text

-- A machine without sounds, whose first client asks for the status and whose second resets it.
abbrev machine : Machine
machine = record {
  options = b'v' ∷ [];
  files = disk;
  load_file = λ fs name. some (record {
    sounds = [];
    autoplay_text = [];
    ip = [];
    mask = [];
    gateway = [];
    port_text = [];
  });
  noise = λ i. ([], 0);
  io = io;
  clock = clock;
  now = pos 7;
  net = record { inet_pton = λ text. none; inet_addr = λ text. 0xffffffff; htons = λ p. p };
  ip_fd = some 3;
  ioctls = record { sets_ip = true; sets_mask = true; sets_flags = true; sets_route = true };
  conn_fd = some 3;
  listening = record { sets_option = true; binds = true; listens = true };
  early_signals = [];
  turns = status_turn ∷ reset_turn ∷ status_turn ∷ [];
}

abbrev left : Outcome MainState → Program
left (done (returned q)) = q
left _ = serving

abbrev two_of_three : Program
unfolding main handle_command_in parse_msg_in get_time new_config_manager new_communication
two_of_three = left (main machine (1 ∷ []))

main_run : main machine (1 ∷ []) ≡ done (returned two_of_three)
unfolding main handle_command_in parse_msg_in get_time new_config_manager new_communication
main_run = refl

two_replies : length two_of_three.replies ≡ 2
unfolding two_of_three
two_replies = refl

main-IsLeft_example : IsLeft (1 ∷ []) two_of_three
main-IsLeft_example = main-IsLeft machine (1 ∷ []) two_of_three main_run

-- The machine with a sound that is to be played at the start.
abbrev one_sound : Document
one_sound = record {
  sounds = codes "a.mp3" ∷ [];
  autoplay_text = codes " 1\n";
  ip = [];
  mask = [];
  gateway = [];
  port_text = [];
}

abbrev playing_machine : Machine
playing_machine = record machine { load_file = λ fs name. some one_sound }

abbrev bytes_of : Bytes → Bytes
bytes_of n = codes "old"

first_number : extract (codes " 1\n") (pos 0) ≡ pos 1
unfolding extract
first_number = refl

autoplay_file-parse_config_file_example :
    (n : ConfigManager) × (fs : Files) × (d : Communication) × (parse_config_file
        playing_machine.noise playing_machine.load_file new_config_manager config_file disk
      ≡ done (config_ok, n, fs))
    × (autoplay_file
          (env_of playing_machine n)
          n.configuration.autoplay
          (new_communication fs (pos 7))
        ≡ done d)
    × (d.mp3_player ≡ (play io new_player (codes "/tmp/a.mp3") once).0)
    × (fs.read (codes "/tmp/a.mp3") ≡ some (swap_pairs (codes "old")))
autoplay_file-parse_config_file_example =
    autoplay_file-parse_config_file playing_machine one_sound bytes_of 0 (codes "a.mp3") time_get_ok
      time refl ((refl, refl, omega arith, refl), tt) (omega arith) refl first_number noon_text
