-- ===== src/App.antt =====
-- src/app_rpi_tcp_listener/rpi_tcp_listener.cpp: `main` as it puts the other parts together.
--
-- The log, the texts on the screen and the call of `reboot` at the end are left out.
pub mod Signals
pub mod Session
pub mod Loop
pub mod Ending
pub mod Whole
pub mod Startup
pub mod Service
pub mod Requests
pub mod Conversation
pub mod Network
pub mod Refine
mod Tests
use rpi_tcp_listener.Base.{
  ℕ, zero, suc, ◌-◌, Bool, true, false, ◌&&◌, not, Option, none, some, List, [], ◌∷◌, ◌++◌, length,
  take, drop, replicate, ltb, leb, ◌==◌, if◌then◌else◌,
}
use rpi_tcp_listener.Base.Int.{ℤ, ltb_ℕ, to_size}
use rpi_tcp_listener.Base.Text.{Bytes, codes}
use rpi_tcp_listener.Base.Decimal.{print_int}
use rpi_tcp_listener.Base.Outcome.{Outcome, done, ◌>>=◌}
use rpi_tcp_listener.Files.{Files}
use rpi_tcp_listener.Time.{Clock}
use rpi_tcp_listener.Parser.{new, tcp_set_time}
use rpi_tcp_listener.Mp3.Types.{Io}
use rpi_tcp_listener.Mp3.Calls.{new_player}
use rpi_tcp_listener.Mp3.Thread.{Tick, ticks, delete_player}
use rpi_tcp_listener.Config.{
  ConfigStatus, config_ok, missing_fields_in_config, file_not_found, config_num, ConfigManager,
  Document, c_str, config_file, new_config_manager, parse_config_file,
}
use rpi_tcp_listener.Communication.{Env, Communication, handle_command, handle_command_in}
use rpi_tcp_listener.App.Signals.{Process, Signal, interrupted, request_reboot, parse_args, started}
use rpi_tcp_listener.Tcp.Network.{Ioctl, Ioctls, change_ip}
use rpi_tcp_listener.Tcp.{
  buffer_size, ConStatus, tcp_no_error, Sockets, Listening, Round, Net, server_connect,
  server_receive, server_send, server_disconnect,
}

-- `autoplay_cmd`.
unfoldable pub autoplay_cmd : ℤ → Bytes
unfolding print_int
autoplay_cmd autoplay = codes "TCP_PLAY\n" ++ (print_int autoplay ++ codes "\nONCE\nEND\n")

-- The block under "autoplay file if set".
unfoldable pub autoplay_file : Env → ℤ → Communication → Outcome Communication
unfolding autoplay_cmd
autoplay_file env autoplay c =
    if not (ltb_ℕ autoplay 1) && leb (to_size autoplay) (length env.sound_files)
    then (handle_command env c (autoplay_cmd autoplay) >>= λ r. done r.0)
    else done c

-- A round of the loop: what the player's threads do while `accept` waits, the files and devices that
-- they and the handler find, the time at which the handler runs, what the system calls answer, the
-- bytes that the client has sent, those that stand in memory behind `cmdMsg`, and the signals that
-- come before the next test of the loop.
pub record Turn : Type 0 where
  pub before : List Tick
  pub io : Io
  pub now : ℤ
  pub round : Round
  pub received : Bytes
  pub behind : Bytes
  pub signals : List Signal

-- Memory from `cmdMsg` on: what `read` has put into the array, the zeros of `bzero` behind it, and
-- what stands behind the array.
abbrev pub cmd_memory : Turn → Bytes
cmd_memory t =
    take buffer_size t.received ++ (replicate (buffer_size - length t.received) 0 ++ t.behind)

-- The text in `cmdMsg`, and memory behind its terminator.
unfoldable pub cmd_msg : Turn → Bytes
cmd_msg t = c_str (cmd_memory t)

abbrev pub cmd_behind : Turn → Bytes
cmd_behind t = drop (suc (length (cmd_msg t))) (cmd_memory t)

-- `server`, `communication`, the globals, and the replies given to `Send`.
pub record Program : Type 0 where
  pub sockets : Sockets
  pub communication : Communication
  pub process : Process
  pub replies : List Bytes

-- The flags behind a handler that may have called `RebootSystem`.
abbrev pub called_back : Communication → Communication → Process → Process
called_back c d g = if ltb c.reboots d.reboots then request_reboot g else g

abbrev pub answered : Program → Turn → Sockets → Communication × Bytes → Program
answered p t s (d, text) = record {
  sockets = (server_send t.round.writes s).0;
  communication = d;
  process = interrupted t.signals (called_back p.communication d p.process);
  replies = p.replies ++ (text ∷ []);
}

abbrev pub unanswered : Program → Turn → Sockets → Program
unanswered p t s = record p { sockets = s; process = interrupted t.signals p.process }

-- The program behind the steps of the player's threads, at the time of the message.
abbrev pub ticked : Turn → Program → Program
ticked t p = record p {
  communication = record p.communication {
    now = t.now;
    mp3_player = ticks t.io t.before p.communication.mp3_player;
  };
}

module _ (env : Env) where
  abbrev pub env_at : Turn → Env
  env_at t = record env { io = t.io }

  abbrev pub turn_on : Program → Turn → Sockets × ConStatus → Outcome Program
  turn_on p t (s, tcp_no_error) =
      handle_command_in (env_at t) (cmd_behind t) p.communication (cmd_msg t) >>= λ r.
      done (answered p t s r)
  turn_on p t (s, _) = done (unanswered p t s)

  -- The body of the loop.
  unfoldable pub turn : Program → Turn → Outcome Program
  unfolding server_receive server_send cmd_msg interrupted request_reboot
  turn p t = turn_on (ticked t p) t (server_receive t.round.accepted t.round.reads p.sockets)

  -- The loop, as far as these rounds lead: up to the test that finds the flag set, or to the test
  -- behind the last of them.
  unfoldable pub run : Program → List Turn → Outcome Program
  unfolding turn
  run p [] = done p
  run p (t ∷ ts) = elim p.process.stop_process [
    | true ↦ done p
    | false ↦ turn p t >>= λ q. run q ts
  ]

-- What `main` finds: the options, the libraries, what the system calls answer, the signals that
-- come before the loop, and the clients.
pub record Machine : Type 0 where
  pub options : List ℕ
  pub files : Files
  pub load_file : Files → Bytes → Option Document
  pub noise : ℕ → Bytes × ℕ
  pub io : Io
  pub clock : Clock
  pub now : ℤ
  pub net : Net
  pub ip_fd : Option ℕ
  pub ioctls : Ioctls
  pub conn_fd : Option ℕ
  pub listening : Listening
  pub early_signals : List Signal
  pub turns : List Turn

-- `MISSING_FIELDS_IN_CONFIG >= status`.
abbrev pub is_configured : ConfigStatus → Bool
is_configured config_ok = true
is_configured missing_fields_in_config = true
is_configured file_not_found = false
is_configured config_num = false

-- The constructor of `Communication`.
unfoldable pub new_communication : Files → ℤ → Communication
unfolding new_player
new_communication files now = record {
  msg_parser = new;
  mp3_player = new_player;
  command = tcp_set_time;
  time_str = [];
  files = files;
  now = now;
  reboots = 0;
}

-- Where `main` stands behind the rounds that it finds: it has called `exit`, it has returned without
-- a configuration, it is still in its loop and waits for the next client, or it has returned.
pub data MainState : Type 0 where
  exited not_configured : MainState
  in_loop returned : (program : Program) → MainState

-- `network_interface_g`.
abbrev pub network_interface : Bytes
network_interface = codes "eth0"

module _ (m : Machine) where
  abbrev pub env_of : ConfigManager → Env
  env_of config = record {
    io = m.io;
    clock = m.clock;
    sound_files = config.configuration.sound_files;
    reboot_callback = true;
  }

  -- `ChangeIp`, on the descriptors `fds`, and `Connect`; their statuses are dropped.
  abbrev pub network_changed : ConfigManager → List ℕ → ConStatus × List ℕ × List Ioctl
  network_changed config fds =
      change_ip m.net m.ip_fd m.ioctls network_interface config.configuration.ip_str
        config.configuration.mask_str config.configuration.gateway_str fds

  abbrev pub unconnected : ConfigManager → List ℕ → Sockets
  unconnected config fds = record {
    conn_socket_fd = none;
    client_socket_fd = none;
    sin_port = 0;
    bound_port = none;
    open_fds = (network_changed config fds).1;
  }

  abbrev pub connected : ConfigManager → List ℕ → Sockets
  connected config fds =
      (server_connect m.net config.configuration.port m.conn_fd m.listening
        (unconnected config fds)).0

  -- Behind the loop: `Disconnect`, and the destructor of `Communication`.
  unfoldable pub leave : Program → Program
  unfolding server_disconnect delete_player
  leave p = record p {
    sockets = server_disconnect p.sockets;
    communication = record p.communication {
      mp3_player = delete_player m.io p.communication.mp3_player;
    };
  }

  -- The loop goes on for as long as the flag is not set.
  abbrev pub left_loop : Program → MainState
  left_loop p = if p.process.stop_process then returned (leave p) else in_loop p

  -- The block of `main` behind a configuration that was read.
  unfoldable pub serve_clients : ConfigManager → Files → List ℕ → Outcome MainState
  unfolding autoplay_file run leave server_connect change_ip interrupted new_communication
  serve_clients config files fds =
      autoplay_file (env_of config) config.configuration.autoplay (new_communication files m.now)
      >>= λ c.
          run (env_of config)
            (record {
              sockets = connected config fds;
              communication = c;
              process = interrupted m.early_signals started;
              replies = [];
            })
            m.turns
          >>= λ p. done (left_loop p)

  abbrev configured : List ℕ → ConfigStatus × ConfigManager × Files → Outcome MainState
  configured fds (status, config, files) =
      if is_configured status then serve_clients config files fds else done not_configured

  -- `main`, in a process with the open descriptors `fds`.
  unfoldable pub main : List ℕ → Outcome MainState
  unfolding parse_args parse_config_file serve_clients
  main fds = elim (parse_args m.options (record { log_to_file = false; log_verbose = false })) [
    | none ↦ done exited
    | some args ↦
        parse_config_file m.noise m.load_file new_config_manager config_file m.files
        >>= configured fds
  ]
