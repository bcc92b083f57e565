-- ===== src/App/Tests/Service.antt =====
-- The program of the parent, with clients that ask for its sound, and with addresses.
use rpi_tcp_listener.Base.{
  ◌++◌, Bool, ltb, if◌then◌else◌, ℕ, false, List, length, ◌≡◌, refl, true, some, [], ◌∷◌, arith,
}
use rpi_tcp_listener.Base.Int.{ℤ, pos, negsuc}
use rpi_tcp_listener.Base.Text.{Bytes, codes}
use rpi_tcp_listener.Base.Outcome.{Outcome, done, fault}
use rpi_tcp_listener.Files.{Files, write}
use rpi_tcp_listener.Time.{Clock, get_time, time_get_ok}
use rpi_tcp_listener.Parser.{parse_msg_in}
use rpi_tcp_listener.Mp3.Calls.{new_player}
use rpi_tcp_listener.Communication.{handle_command_in, Env, Communication}
use rpi_tcp_listener.Zip.Swap.{swap_pairs}
use rpi_tcp_listener.Config.{
  ConfigManager, Document, extract, config_ok, config_file, parse_config_file, new_config_manager,
}
use rpi_tcp_listener.App.Signals.{parse_args, sigterm}
use rpi_tcp_listener.App.{
  env_of, Program, Turn, Machine, network_changed, connected, cmd_msg, run, main, returned,
}
use rpi_tcp_listener.App.Whole.{IsLeft}
use rpi_tcp_listener.Tcp.{tcp_no_error}
use rpi_tcp_listener.Tcp.Network.{siocsifaddr, siocsifnetmask, siocsifflags, siocaddrt}
use rpi_tcp_listener.App.Refine.{shown, behind_replies, serve_in_turn, run-refines}
use rpi_tcp_listener.Mp3.Abstract.{View, view}
use rpi_tcp_listener.Communication.Protocol.{
  ClientRequest, wants_play, wants_stop, wants_status, wants_volume, message, IsAnswerable,
}
use rpi_tcp_listener.App.Requests.{Asked, Brings, goes_on, ends_with, Converses}
use rpi_tcp_listener.App.Service.{Serves, main-Converses}
use rpi_tcp_listener.App.Network.{eth0, network_changed-parse_config_file}
use rpi_tcp_listener.App.Tests.{
  io, clock, noon, env, disk, c, time, serving, asks_for, status_turn, reset_turn, machine,
  one_sound, playing_machine,
}

abbrev three_turns : List Turn
three_turns = status_turn ∷ reset_turn ∷ status_turn ∷ []

run-refines_example :
    shown (run env serving three_turns) ≡ behind_replies [] (serve_in_turn env c three_turns)
run-refines_example = run-refines env serving three_turns refl refl

abbrev served_texts : Outcome (Communication × List Bytes) → ℕ
served_texts (done (d, texts)) = length texts
served_texts (fault e) = 0

-- The client behind the reset gets no reply.
two_in_turn : served_texts (serve_in_turn env c three_turns) ≡ 2
unfolding serve_in_turn handle_command_in parse_msg_in get_time cmd_msg
two_in_turn = refl

-- A file with addresses and a port, and a network that reads them; the process has descriptor 1.
abbrev network_doc : Document
network_doc = record one_sound {
  sounds = [];
  ip = codes "10.0.0.7";
  mask = codes "255.255.255.0";
  gateway = codes "10.0.0.1";
  port_text = codes "8080";
}

abbrev network_machine : Machine
network_machine = record machine {
  load_file = λ fs name. some network_doc;
  net = record {
    inet_pton = λ text. some (length text);
    inet_addr = λ text. length text;
    htons = λ p. p;
  };
}

abbrev network_config : ConfigManager
network_config = record {
  configuration = record {
    ip_str = codes "10.0.0.7";
    gateway_str = codes "10.0.0.1";
    mask_str = codes "255.255.255.0";
    port = pos 8080;
    compressed_files = [];
    sound_files = [];
    autoplay = pos 1;
  };
}

network_parsed :
    parse_config_file network_machine.noise network_machine.load_file new_config_manager config_file
      disk
    ≡ done (config_ok, network_config, disk)
unfolding parse_config_file new_config_manager
network_parsed = refl

network_changed-parse_config_file_example :
    (network_changed network_machine network_config (1 ∷ []) ≡ (
      tcp_no_error,
      1 ∷ [],
      siocsifaddr (eth0 2 8)
          ∷ siocsifnetmask (eth0 2 13)
          ∷ siocsifflags (eth0 0x43 13)
          ∷ siocaddrt 2 8 3 100
          ∷ [],
    ))
    × ((connected network_machine network_config (1 ∷ [])).conn_socket_fd ≡ some 3)
    × ((connected network_machine network_config (1 ∷ [])).bound_port ≡ some 8080)
    × ((connected network_machine network_config (1 ∷ [])).open_fds ≡ 3 ∷ 1 ∷ [])
unfolding extract
network_changed-parse_config_file_example =
    network_changed-parse_config_file network_machine network_doc network_config disk config_ok
      (1 ∷ []) 3 3 8 13 refl network_parsed
      (record { socket = refl; ioctls = refl; server = refl; listens = refl }) refl refl

-- One client plays the song, the next asks for the status, the third for too high a volume, an hour
-- later, and the last stops it.
abbrev asked : ClientRequest → Asked
asked r = record { io = io; time = time; request = r }

abbrev one_time : Bytes
one_time = codes "01:45:50_13.06.2011"

abbrev late_asked : Asked
late_asked = record { io = io; time = one_time; request = wants_volume 101 }

abbrev requests : List Asked
requests = asked (wants_play 0 false) ∷ asked wants_status ∷ late_asked ∷ asked wants_stop ∷ []

abbrev late_turn : Turn
late_turn = record (asks_for (message (wants_volume 101)) []) { now = pos 3607 }

abbrev request_turns : List Turn
request_turns =
    asks_for (message (wants_play 0 false)) []
    ∷ asks_for (message wants_status) []
    ∷ late_turn
    ∷ asks_for (message wants_stop) (sigterm ∷ [])
    ∷ status_turn
    ∷ []

abbrev later : ℤ → Bool
later (pos n) = ltb 1000 n
later (negsuc n) = false

-- A clock that goes on.
abbrev going_clock : Clock
going_clock = record clock {
  localtime = λ t. some (if later t then record noon { tm_hour = pos 1 } else noon);
}

-- The machine with a sound that is played at the start, and the four clients.
abbrev talking_machine : Machine
talking_machine = record playing_machine { turns = request_turns; clock = going_clock }

abbrev sound_config : ConfigManager
sound_config = record {
  configuration = record {
    ip_str = [];
    gateway_str = [];
    mask_str = [];
    port = pos 2055;
    compressed_files = codes "a.mp3" ∷ [];
    sound_files = codes "/tmp/a.mp3" ∷ [];
    autoplay = pos 1;
  };
}

abbrev decoded_disk : Files
decoded_disk = write disk (codes "/tmp/a.mp3") (swap_pairs (codes "old"))

sound_parsed :
    parse_config_file talking_machine.noise talking_machine.load_file new_config_manager config_file
      disk
    ≡ done (config_ok, sound_config, decoded_disk)
unfolding parse_config_file new_config_manager
sound_parsed = refl

abbrev in_tmp : List Bytes
in_tmp = codes "/tmp/a.mp3" ∷ []

abbrev sound_env : Env
sound_env = env_of talking_machine sound_config

early_text : get_time going_clock (pos 7) [] ≡ done (time_get_ok, time)
unfolding get_time
early_text = refl

late_text : get_time going_clock (pos 3607) [] ≡ done (time_get_ok, one_time)
unfolding get_time
late_text = refl

brought :
    (r : ClientRequest)
    → IsAnswerable in_tmp r
    → Brings sound_env false (asked r) (asks_for (message r) [])
brought r h = record {
  fd = 4;
  accepted = refl;
  reads = refl;
  received = refl;
  answerable = h;
  same_io = refl;
  told = early_text;
  signalled = refl;
}

brought_late : Brings sound_env false late_asked late_turn
brought_late = record {
  fd = 4;
  accepted = refl;
  reads = refl;
  received = refl;
  answerable = omega arith;
  same_io = refl;
  told = late_text;
  signalled = refl;
}

brought_last :
    Brings sound_env true (asked wants_stop) (asks_for (message wants_stop) (sigterm ∷ []))
brought_last = record {
  fd = 4;
  accepted = refl;
  reads = refl;
  received = refl;
  answerable = tt;
  same_io = refl;
  told = early_text;
  signalled = refl;
}

talking-Serves : Serves talking_machine sound_config decoded_disk 1 requests time
unfolding parse_args
talking-Serves = record {
  args = record { log_to_file = false; log_verbose = true };
  options = refl;
  config_status = config_ok;
  parsed = sound_parsed;
  is_read = refl;
  autoplay = refl;
  has_sound = omega arith;
  few_sounds = omega arith;
  told = early_text;
  unsignalled = refl;
  requests = goes_on _ _ (brought (wants_play 0 false) (omega arith, (codes "/tmp/a.mp3", refl))) (
      goes_on _ _ (brought wants_status tt)
        (goes_on _ _ brought_late (ends_with _ _ (status_turn ∷ []) brought_last)));
}

main-Converses_example :
    (p : Program) × (dropped : List Bytes) × (w : View) × (main talking_machine (1 ∷ [])
      ≡ done (returned p))
    × (length dropped ≡ 1)
    × Converses sound_env
        (view new_player)
        (asked (wants_play 0 false) ∷ requests)
        (dropped ++ p.replies)
        w
    × IsLeft (1 ∷ []) p
main-Converses_example =
    main-Converses talking_machine sound_config decoded_disk 1 requests time (1 ∷ []) talking-Serves
