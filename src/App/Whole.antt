-- ===== src/App/Whole.antt =====
-- src/app_rpi_tcp_listener/rpi_tcp_listener.cpp: `main` from its start to its end.
use rpi_tcp_listener.Base.{
  ℕ, ◌≡◌, refl, ◌∙◌, ap, subst, inl, inr, Bool, true, false, Option, none, some, List, [], arith,
  All, length, ◌<◌, ◌&&◌, not, leb, if-both, if◌then◌else◌,
}
use rpi_tcp_listener.Base.Int.{ℤ, ltb_ℕ, to_size, to_u16}
use rpi_tcp_listener.Base.Text.{Bytes}
use rpi_tcp_listener.Base.Outcome.{
  Outcome, done, fault, ◌>>=◌, Returns, Returns-done, >>=-eq-done, done-injective,
}
use rpi_tcp_listener.Files.{Files}
use rpi_tcp_listener.Mp3.Types.{Io, Player}
use rpi_tcp_listener.Mp3.Calls.{stop}
use rpi_tcp_listener.Mp3.Thread.{Reach, start, delete_player, auto_stop}
use rpi_tcp_listener.Mp3.Wellformed.{IsWellformed, Reach-IsWellformed}
use rpi_tcp_listener.Config.{ConfigManager, new_config_manager, config_file, parse_config_file}
use rpi_tcp_listener.Communication.{Env, Communication, handle_command}
use rpi_tcp_listener.Communication.Dispatch.{handle_command-Reach}
use rpi_tcp_listener.Communication.ReplySize.{HasShortTime, Fits, handle_command-Fits}
use rpi_tcp_listener.Tcp.{
  buffer_size, Net, Sockets, Listening, ConStatus, close_socket, server_connect, server_disconnect,
}
use rpi_tcp_listener.Tcp.Descriptors.{
  close_fd_head, ConnectFits, server_connect-Fits, change_ip_closes,
}
use rpi_tcp_listener.App.Signals.{Args, interrupted, started, parse_args}
use rpi_tcp_listener.App.{
  Program, Machine, autoplay_cmd, autoplay_file, run, new_communication, network_interface, env_of,
  unconnected, connected, leave, serve_clients, configured, is_configured, main, MainState, exited,
  not_configured, in_loop, returned, left_loop,
}
use rpi_tcp_listener.App.Loop.{Orderly, interrupted-Orderly, IsServing, run-IsServing}

-- The states in which `main` can stand are different ones.
in_returned : (p q : Program) → returned p ≡ returned q → p ≡ q
in_returned p q h = cc

in_loop_not : (p q : Program) → in_loop p ≡ returned q → ⊥
in_loop_not p q h = cc

if-returned :
    (b : Bool) (x p q : Program) → (if b then returned x else in_loop p) ≡ returned q → x ≡ q
if-returned true x p q h = in_returned x q h
if-returned false x p q h = absurd (in_loop_not p q h)

exited_not : (q : Program) → exited ≡ returned q → ⊥
exited_not q h = cc

not_configured_not : (q : Program) → not_configured ≡ returned q → ⊥
not_configured_not q h = cc

served :
    (b : Bool) (x : Outcome MainState) (q : Program)
    → (if b then x else done not_configured) ≡ done (returned q)
    → x ≡ done (returned q)
served true x q h = h
served false x q h = absurd (not_configured_not q (done-injective h))

abbrev IsFresh : Communication → Type 0
IsFresh c = Reach c.mp3_player × HasShortTime c

played-IsFresh :
    (env : Env) (msg : Bytes) (c : Communication) (m : Outcome (Communication × Bytes))
    → IsFresh c
    → handle_command env c msg ≡ m
    → Returns IsFresh (m >>= λ r. done r.0)
played-IsFresh env msg c (done (d, text)) (r, t) e = (
  handle_command-Reach env [] c d msg text r e,
  (Returns-done Fits (handle_command env c msg) (d, text) e (handle_command-Fits env [] c msg t)).1,
)
played-IsFresh env msg c (fault f) (r, t) e = tt

autoplay_file-IsFresh :
    (env : Env) (autoplay : ℤ) (c : Communication)
    → IsFresh c
    → Returns IsFresh (autoplay_file env autoplay c)
unfolding autoplay_file
autoplay_file-IsFresh env autoplay c f =
    if-both (Returns IsFresh)
      (not (ltb_ℕ autoplay 1) && leb (to_size autoplay) (length env.sound_files))
      (handle_command env c (autoplay_cmd autoplay) >>= λ r. done r.0) (done c)
      (played-IsFresh env (autoplay_cmd autoplay) c (handle_command env c (autoplay_cmd autoplay)) f
        refl)
      f

pub connect-client :
    (net : Net) (port : ℤ) (fd : Option ℕ) (calls : Listening) (s : Sockets)
    → (server_connect net port fd calls s).0.client_socket_fd ≡ s.client_socket_fd
unfolding server_connect
connect-client net port none calls s = refl
connect-client net port (some fd) calls s = ground arith

disconnect-closes :
    (port : ℕ) (s t : Sockets) (status : ConStatus)
    → t.client_socket_fd ≡ none
    → ConnectFits port s (t, status)
    → (server_disconnect t).open_fds ≡ s.open_fds
unfolding server_disconnect close_socket
disconnect-closes port s t status n (inl (fd, e, c, b, o)) =
    rw (n, c, o) (close_fd_head fd s.open_fds)
disconnect-closes port s t status n (inr (c, b, o)) = rw (n, c) o

delete_player-joins :
    (io : Io) (p : Player) → IsWellformed p → (delete_player io p).play_thread ≡ none
unfolding delete_player stop auto_stop
delete_player-joins io p w = ground arith

-- How `main` ends, when `fds` were open at its start.
pub record IsLeft (fds : List ℕ) (q : Program) : Type 0 where
  pub closed : q.sockets.open_fds ≡ fds
  pub no_socket : (q.sockets.conn_socket_fd ≡ none) × (q.sockets.client_socket_fd ≡ none)
  pub no_thread : q.communication.mp3_player.play_thread ≡ none
  pub fitting : All (λ text. length text < buffer_size) q.replies
  pub orderly : Orderly q.process

module _ (m : Machine) (fds : List ℕ) where
  left-closed :
      (config : ConfigManager) (t : Sockets)
      → t ≡ connected m config fds
      → (server_disconnect t).open_fds ≡ fds
  left-closed config t e =
      let c = config.configuration in
      let s = unconnected m config fds in
      let r = server_connect m.net c.port m.conn_fd m.listening s in
      ap (λ u. (server_disconnect u).open_fds) e
      ∙ disconnect-closes (m.net.htons (to_u16 c.port)) s r.0 r.1
          (connect-client m.net c.port m.conn_fd m.listening s)
          (server_connect-Fits m.net c.port m.conn_fd m.listening s)
      ∙ change_ip_closes m.net m.ip_fd m.ioctls network_interface c.ip_str c.mask_str c.gateway_str
          fds

  leave-IsLeft :
      (config : ConfigManager) (p : Program)
      → IsServing (connected m config fds) p
      → IsLeft fds (leave m p)
  unfolding leave server_disconnect close_socket
  leave-IsLeft config p v = record {
    closed = left-closed config p.sockets v.same_sockets;
    no_socket = (refl, refl);
    no_thread = delete_player-joins m.io p.communication.mp3_player (Reach-IsWellformed v.player);
    fitting = v.fitting;
    orderly = v.orderly;
  }

  serve_clients-IsLeft :
      (config : ConfigManager) (files : Files) (q : Program)
      → serve_clients m config files fds ≡ done (returned q)
      → IsLeft fds q
  unfolding serve_clients new_communication
  serve_clients-IsLeft config files q e =
      let env = env_of m config in
      let none_connected =
        connect-client m.net config.configuration.port m.conn_fd m.listening
          (unconnected m config fds) in
      let (c, played, rest) =
        >>=-eq-done
          (autoplay_file env config.configuration.autoplay (new_communication files m.now)) _ e in
      let begun : Program = record {
        sockets = connected m config fds;
        communication = c;
        process = interrupted m.early_signals started;
        replies = [];
      } in
      let (p, ran, left) = >>=-eq-done (run env begun m.turns) (λ p. done (left_loop m p)) rest in
      let fresh : IsFresh c = Returns-done IsFresh _ c played (
        autoplay_file-IsFresh env config.configuration.autoplay (new_communication files m.now)
          (start, omega arith)) in
      subst (IsLeft fds) (if-returned p.process.stop_process (leave m p) p q (done-injective left))
        (leave-IsLeft config p (
          run-IsServing env (connected m config fds) begun p m.turns none_connected
            (record {
              same_sockets = refl;
              player = fresh.0;
              time = fresh.1;
              fitting = tt;
              orderly = interrupted-Orderly m.early_signals started (λ r. absurd cc);
            })
            ran))

  ended-IsLeft :
      (a : Option Args) (q : Program)
      → (elim a [
        | none ↦ done exited
        | some args ↦
            parse_config_file m.noise m.load_file new_config_manager config_file m.files
            >>= configured m fds
      ])
        ≡ done (returned q)
      → IsLeft fds q
  ended-IsLeft none q h = absurd (exited_not q (done-injective h))
  ended-IsLeft (some args) q h =
      let (r, parsed, conf) =
        >>=-eq-done (parse_config_file m.noise m.load_file new_config_manager config_file m.files)
          (configured m fds) h in
      serve_clients-IsLeft r.1 r.2 q
        (served (is_configured r.0) (serve_clients m r.1 r.2 fds) q conf)

  -- However `main` was started, whatever its clients sent and when, the player's threads did
  -- between two messages, the files then were and the system calls answered: if it leaves its loop
  -- and returns, the descriptors open at its end are those open at its start, both socket variables
  -- hold -1, no play thread is left to be joined, every reply sent is shorter than the 1024 bytes of
  -- `replyMsg`, and a reboot is asked for only if the loop was stopped.
  pub main-IsLeft : (q : Program) → main m fds ≡ done (returned q) → IsLeft fds q
  unfolding main
  main-IsLeft q e =
      ended-IsLeft (parse_args m.options (record { log_to_file = false; log_verbose = false })) q e
