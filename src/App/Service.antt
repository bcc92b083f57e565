-- ===== src/App/Service.antt =====
-- src/app_rpi_tcp_listener/rpi_tcp_listener.cpp: `main` from its start to its end, for clients that
-- ask for sounds, up to the signal that ends it.
use rpi_tcp_listener.Base.{
  ℕ, zero, suc, ◌<◌, ◌≤◌, ◌≡◌, refl, ◌∙◌, ap, sym, subst, true, false, some, none, List, [], ◌∷◌,
  ◌++◌, arith, length, get_elem?, if◌then◌else◌,
}
use rpi_tcp_listener.Base.Int.{pos, int_max}
use rpi_tcp_listener.Base.Text.{Bytes}
use rpi_tcp_listener.Base.Outcome.{done, ◌>>=◌}
use rpi_tcp_listener.Files.{Files}
use rpi_tcp_listener.Time.{time_get_ok, get_time}
use rpi_tcp_listener.Mp3.Types.{Io}
use rpi_tcp_listener.Mp3.Calls.{new_player}
use rpi_tcp_listener.Mp3.Thread.{Reach, start}
use rpi_tcp_listener.Mp3.Abstract.{View, view}
use rpi_tcp_listener.Config.{
  ConfigStatus, ConfigManager, config_file, new_config_manager, parse_config_file,
}
use rpi_tcp_listener.Communication.{Env, Communication, handle_command}
use rpi_tcp_listener.Communication.Dispatch.{handle_command-Reach}
use rpi_tcp_listener.Communication.Protocol.{wants_play, message}
use rpi_tcp_listener.Communication.Answering.{handle_command-Answers}
use rpi_tcp_listener.App.Signals.{Args, parse_args, interrupted, started}
use rpi_tcp_listener.App.{
  Machine, Program, autoplay_file, run, env_of, new_communication, unconnected, connected,
  is_configured, leave, serve_clients, configured, main, exited, not_configured, in_loop, returned,
  left_loop,
}
use rpi_tcp_listener.App.Session.{runs, guard, cmd_written}
use rpi_tcp_listener.App.Refine.{asks_to_stop, interrupted-asks}
use rpi_tcp_listener.App.Requests.{Asked, Converses, replies, Brought}
use rpi_tcp_listener.App.Conversation.{get_time_over, run-Converses}
use rpi_tcp_listener.App.Whole.{connect-client, IsLeft, main-IsLeft}

-- The request that an autoplay number stands for, at the start.
abbrev pub autoplayed : Io → Bytes → ℕ → List Asked
autoplayed io time zero = []
autoplayed io time (suc i) = record { io = io; time = time; request = wants_play i false } ∷ []

get_elem?-lt {ℓ} :
    {A : Type ℓ} (xs : List A) (i : ℕ) → i < length xs → (x : A) × (get_elem? xs i ≡ some x)
get_elem?-lt [] i h = absurd (omega arith)
get_elem?-lt (x ∷ xs) zero h = (x, refl)
get_elem?-lt (x ∷ xs) (suc i) h = get_elem?-lt xs i (omega arith)

-- What the autoplay block leaves; `dropped` is its reply, which no client gets.
record Autoplays (env : Env) (time : Bytes) (c : Communication) (a : ℕ) (d : Communication)
    (dropped : List Bytes) : Type 0 where
  played : autoplay_file env (pos a) c ≡ done d
  one_reply : length dropped ≡ length (autoplayed env.io time a)
  reach : Reach d.mp3_player
  talk :
      (rs : List Asked) (texts : List Bytes) (w : View)
      → Converses env (view d.mp3_player) rs texts w
      → Converses env (view c.mp3_player) (autoplayed env.io time a ++ rs) (dropped ++ texts) w

autoplay_file-Autoplays :
    (env : Env) (time : Bytes) (c : Communication) (a : ℕ)
    → a ≤ length env.sound_files
    → length env.sound_files ≤ int_max
    → Reach c.mp3_player
    → get_time env.clock c.now [] ≡ done (time_get_ok, time)
    → (d : Communication) × (dropped : List Bytes) × Autoplays env time c a d dropped
unfolding autoplay_file
autoplay_file-Autoplays env time c zero le fits r t =
    (c, [], record { played = refl; one_reply = refl; reach = r; talk = λ rs texts w h. h })
autoplay_file-Autoplays env time c (suc i) le fits r t =
    let (file, found) = get_elem?-lt env.sound_files i (omega (arith, le)) in
    let (q, text, a) =
      handle_command-Answers env c time_get_ok time
        (get_time_over env.clock c.now c.time_str time t) (wants_play i false)
        (omega (arith, le, fits), (file, found)) in
    (
      q,
      text ∷ [],
      record {
        played =
            runs env (pos (suc i)) c q text
              (guard i (length env.sound_files) (omega (arith, le)) fits)
              (ap (handle_command env c) (cmd_written (suc i)) ∙ a.handled);
        one_reply = refl;
        reach = handle_command-Reach env [] c q (message (wants_play i false)) text r a.handled;
        talk = λ rs texts w h.
            replies (record { io = env.io; time = time; request = wants_play i false }) text
              (sym a.agrees) h;
      },
    )

-- What `main` finds: it has a configuration, whose autoplay number is that of a sound or 0, the
-- time can be told at its start, no signal comes before the loop, and the clients come with requests
-- that can be answered, until SIGINT or SIGTERM comes in the round of the last of them.
pub record Serves (m : Machine) (n : ConfigManager) (fs : Files) (a : ℕ) (rs : List Asked)
    (time : Bytes) : Type 0 where
  pub args : Args
  pub options :
      parse_args m.options (record { log_to_file = false; log_verbose = false }) ≡ some args
  pub config_status : ConfigStatus
  pub parsed :
      parse_config_file m.noise m.load_file new_config_manager config_file m.files
      ≡ done (config_status, n, fs)
  pub is_read : is_configured config_status ≡ true
  pub autoplay : n.configuration.autoplay ≡ pos a
  pub has_sound : a ≤ length n.configuration.sound_files
  pub few_sounds : length n.configuration.sound_files ≤ int_max
  pub told : get_time m.clock m.now [] ≡ done (time_get_ok, time)
  pub unsignalled : asks_to_stop m.early_signals ≡ false
  pub requests : Brought (env_of m n) rs m.turns

module _ (m : Machine) (n : ConfigManager) (fs : Files) (a : ℕ) (rs : List Asked) (time : Bytes)
    (fds : List ℕ) where
  Conversation : Program → Type 0
  Conversation p =
      (dropped : List Bytes) × (w : View) × (length dropped ≡ length (autoplayed m.io time a))
      × Converses (env_of m n) (view new_player) (autoplayed m.io time a ++ rs)
          (dropped ++ p.replies) w

  served :
      Serves m n fs a rs time
      → (p : Program) × (serve_clients m n fs fds ≡ done (returned p)) × Conversation p
  unfolding serve_clients new_communication leave Conversation
  served s =
      let env = env_of m n in
      let c = new_communication fs m.now in
      let (d, dropped, au) =
        autoplay_file-Autoplays env time c a s.has_sound s.few_sounds start s.told in
      let begun : Communication → Program = λ c. record {
        sockets = connected m n fds;
        communication = c;
        process = interrupted m.early_signals started;
        replies = [];
      } in
      let free =
        connect-client m.net n.configuration.port m.conn_fd m.listening (unconnected m n fds) in
      let flag = interrupted-asks m.early_signals started ∙ s.unsignalled in
      let (q, texts, ran, stopped, shown, talk) =
        run-Converses env (begun d) rs m.turns free flag au.reach s.requests in
      (
        leave m q,
        ap
              (λ x. autoplay_file env x c >>= λ c.
                run env (begun c) m.turns >>= λ p. done (left_loop m p))
              s.autoplay
            ∙ ap (λ o. o >>= λ c. run env (begun c) m.turns >>= λ p. done (left_loop m p)) au.played
            ∙ ap (λ o. o >>= λ p. done (left_loop m p)) ran
            ∙ ap (λ b. done (if b then returned (leave m q) else in_loop q)) stopped,
        (
          dropped,
          view q.communication.mp3_player,
          au.one_reply,
          subst
              (λ t.
                Converses env (view new_player) (autoplayed m.io time a ++ rs) (dropped ++ t)
                  (view q.communication.mp3_player))
              (sym shown) (au.talk rs texts (view q.communication.mp3_player) talk),
        ),
      )

  -- A start with a configuration, and clients that ask, one after the other, for what can be
  -- answered, each at its time and with the files there are then, until SIGINT or SIGTERM comes in
  -- the round of the last of them: `main` leaves its loop behind this round and returns, whoever
  -- waits behind; the replies sent are those that the protocol of the abstract player allows for the
  -- autoplay request, whose reply nobody gets, and the requests of the clients behind it, and it
  -- leaves no descriptor, socket or thread behind.
  pub main-Converses :
      Serves m n fs a rs time
      → (p : Program) × (dropped : List Bytes) × (w : View) × (main m fds ≡ done (returned p))
        × (length dropped ≡ length (autoplayed m.io time a))
        × Converses
            (env_of m n)
            (view new_player)
            (autoplayed m.io time a ++ rs)
            (dropped ++ p.replies)
            w
        × IsLeft fds p
  unfolding main Conversation
  main-Converses s =
      let (p, ran, talk) = served s in
      let ends : main m fds ≡ done (returned p) =
        ap
          (λ o. elim o [
            | none ↦ done exited
            | some args ↦
                parse_config_file m.noise m.load_file new_config_manager config_file m.files
                >>= configured m fds
          ])
          s.options
        ∙ ap (λ o. o >>= configured m fds) s.parsed
        ∙ ap (λ b. if b then serve_clients m n fs fds else done not_configured) s.is_read
        ∙ ran in
      (p, talk.0, talk.1, ends, talk.2, talk.3, main-IsLeft m fds p ends)
