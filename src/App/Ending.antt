-- ===== src/App/Ending.antt =====
-- src/app_rpi_tcp_listener/rpi_tcp_listener.cpp: what reaches the parser, and what ends the loop.
use rpi_tcp_listener.Base.{
  ℕ, suc, ◌-◌, ◌<◌, ◌≡◌, refl, ◌≢◌, ◌∙◌, ap, sym, subst, ◌⊎◌, inl, inr, true, false, none, some,
  List, [], ◌∷◌, ◌++◌, arith, All, length, replicate, ltb, take_of_le, Bool-cases, Option-cases,
}
use rpi_tcp_listener.Base.Text.{Bytes, codes}
use rpi_tcp_listener.Base.Outcome.{Outcome, done, fault, ◌>>=◌, Returns, any-Returns, >>=-Returns}
use rpi_tcp_listener.Time.{TimeStatus, get_time}
use rpi_tcp_listener.Parser.{tcp_reset}
use rpi_tcp_listener.Parser.Framing.{write_nodes}
use rpi_tcp_listener.Parser.Commands.{lines_of}
use rpi_tcp_listener.Config.{c_str}
use rpi_tcp_listener.Mp3.Calls.{stop}
use rpi_tcp_listener.Communication.{
  Env, Communication, handle_command, handle_command_in, dispatch, handle_reset, reply,
  error_code_ok,
}
use rpi_tcp_listener.Communication.Dispatch.{
  handle_command-behind, prepared, handle_command-lines_of,
}
use rpi_tcp_listener.Tcp.{buffer_size}
use rpi_tcp_listener.App.Signals.{
  Process, Signal, sigint, sigterm, other_signal, signal_interrupt_handler, interrupted,
  request_reboot,
}
use rpi_tcp_listener.App.{env_at, cmd_behind, Turn, cmd_msg, Program, called_back, turn, run}
use rpi_tcp_listener.Mp3.Thread.{ticks}
use rpi_tcp_listener.App.Loop.{
  ready, heard, turn-heard, turn-unread, turn-refused, run-stopped, run-goes,
}

c_str-zero : (xs ys : Bytes) → All (λ c. c ≢ 0) xs → c_str (xs ++ (0 ∷ ys)) ≡ xs
c_str-zero [] ys h = refl
c_str-zero (x ∷ xs) ys (h, hs) = ground (arith, c_str-zero xs ys hs)

replicate-suc : (n k : ℕ) → n ≡ suc k → replicate {A = ℕ} n 0 ≡ 0 ∷ replicate k 0
replicate-suc n k h = ap (λ m. replicate {A = ℕ} m 0) h

-- What a client sends reaches the parser unchanged, when it has less than 1024 bytes and no zero:
-- nothing that stands in memory behind `cmdMsg` is read.
pub cmd_msg-received :
    (t : Turn)
    → All (λ c. c ≢ 0) t.received
    → length t.received < buffer_size
    → cmd_msg t ≡ t.received
unfolding cmd_msg
cmd_msg-received t h n =
    let whole = take_of_le buffer_size t.received (omega (arith, n)) in
    let ended =
      replicate-suc (buffer_size - length t.received) (buffer_size - length t.received - 1)
        (omega (arith, n)) in
    rw (whole, ended) (c_str-zero t.received _ h)

reset-plain : All (λ c. c ≢ 0) (codes "TCP_RESET\nEND\n")
reset-plain = ground arith

-- A flag that is raised stays so.
handler-stopped :
    (s : Signal) (g : Process)
    → g.stop_process ≡ true
    → (signal_interrupt_handler s g).stop_process ≡ true
unfolding signal_interrupt_handler
handler-stopped sigint g h = refl
handler-stopped sigterm g h = refl
handler-stopped other_signal g h = h

interrupted-stopped :
    (signals : List Signal) (g : Process)
    → g.stop_process ≡ true
    → (interrupted signals g).stop_process ≡ true
unfolding interrupted
interrupted-stopped [] g h = h
interrupted-stopped (s ∷ signals) g h =
    interrupted-stopped signals (signal_interrupt_handler s g) (handler-stopped s g h)

-- A signal that asks the program to stop.
abbrev pub Ends : Signal → Type 0
Ends s = (s ≡ sigint) ⊎ (s ≡ sigterm)

handler-Ends :
    (s : Signal) (g : Process) → Ends s → (signal_interrupt_handler s g).stop_process ≡ true
unfolding signal_interrupt_handler
handler-Ends s g (inl e) = rw e refl
handler-Ends s g (inr e) = rw e refl

interrupted-Ends :
    (before after : List Signal) (s : Signal) (g : Process)
    → Ends s
    → (interrupted (before ++ (s ∷ after)) g).stop_process ≡ true
unfolding interrupted
interrupted-Ends [] after s g e =
    interrupted-stopped after (signal_interrupt_handler s g) (handler-Ends s g e)
interrupted-Ends (b ∷ before) after s g e =
    interrupted-Ends before after s (signal_interrupt_handler b g) e

-- Behind a reboot nothing changes the flags any more.
interrupted-rebooting :
    (signals : List Signal)
    → interrupted signals (record { stop_process = true; reboot_system = true })
      ≡ record { stop_process = true; reboot_system = true }
unfolding interrupted signal_interrupt_handler
interrupted-rebooting [] = refl
interrupted-rebooting (sigint ∷ signals) = interrupted-rebooting signals
interrupted-rebooting (sigterm ∷ signals) = interrupted-rebooting signals
interrupted-rebooting (other_signal ∷ signals) = interrupted-rebooting signals

reset-process :
    (signals : List Signal) (c d : Communication) (g : Process)
    → d.reboots ≡ suc c.reboots
    → interrupted signals (called_back c d g) ≡ record { stop_process = true; reboot_system = true }
unfolding request_reboot
reset-process signals c d g h =
    let more : ltb c.reboots d.reboots ≡ true = ground (arith, h) in
    rw more (interrupted-rebooting signals)

cmd_msg-reset :
    (t : Turn)
    → t.received ≡ codes "TCP_RESET\nEND\n"
    → cmd_msg t ≡ write_nodes (lines_of tcp_reset [])
cmd_msg-reset t m =
    let plain : All (λ c. c ≢ 0) t.received = subst (All (λ c. c ≢ 0)) (sym m) reset-plain in
    cmd_msg-received t plain (rw m (omega arith)) ∙ m

reset-dispatched :
    (env : Env) (c : Communication)
    → env.reboot_callback ≡ true
    → let c' : Communication = record c { mp3_player = (stop env.io c.mp3_player).0 } in
      dispatch env tcp_reset c
      ≡ done (record c' { reboots = suc c.reboots }, reply c' [] error_code_ok)
unfolding dispatch handle_reset
reset-dispatched env c h = rw h refl

module _ (env : Env) where
  pub run-ended :
      (p : Program) (ts : List Turn) → p.process.stop_process ≡ true → run env p ts ≡ done p
  unfolding run
  run-ended p [] h = refl
  run-ended p (t ∷ ts) h = run-stopped env p t ts h

  bind-ended :
      (m : Outcome Program) (ts : List Turn)
      → Returns (λ q. q.process.stop_process ≡ true) m
      → (m >>= λ q. run env q ts) ≡ m
  bind-ended (done q) ts h = run-ended q ts h
  bind-ended (fault e) ts h = refl

  turn-Ends :
      (p : Program) (t : Turn) (before after : List Signal) (s : Signal)
      → p.sockets.client_socket_fd ≡ none
      → t.signals ≡ before ++ (s ∷ after)
      → Ends s
      → Returns (λ q. q.process.stop_process ≡ true) (turn env p t)
  turn-Ends p t before after s n e h =
      let Stopped : Outcome Program → Type 0 = Returns (λ q. q.process.stop_process ≡ true) in
      let w = ready env p t in
      let ended : (g : Process) → (interrupted t.signals g).stop_process ≡ true =
        λ g. rw e (interrupted-Ends before after s g h) in
      elim (Option-cases t.round.accepted) [
        | inl a ↦ subst Stopped (sym (turn-refused env p t n a)) (ended p.process)
        | inr (fd, a) ↦ elim (Bool-cases t.round.reads) [
          | inl r ↦ subst Stopped (sym (turn-heard env p t fd n a r)) (
              >>=-Returns (λ _. Unit {0}) (λ q. q.process.stop_process ≡ true)
                (handle_command_in (env_at env t) (cmd_behind t) w.communication (cmd_msg t))
                (λ x. done (heard w t x))
                (any-Returns
                  (handle_command_in (env_at env t) (cmd_behind t) w.communication (cmd_msg t)))
                λ x u. ended (called_back w.communication x.0 p.process))
          | inr r ↦ subst Stopped (sym (turn-unread env p t fd n a r)) (ended p.process)
        ]
      ]

  -- SIGINT or SIGTERM in a round ends the loop with this round, which is still finished, however
  -- many clients wait behind it.
  pub run_interrupted :
      (p : Program) (t : Turn) (ts : List Turn) (before after : List Signal) (s : Signal)
      → p.sockets.client_socket_fd ≡ none
      → p.process.stop_process ≡ false
      → t.signals ≡ before ++ (s ∷ after)
      → Ends s
      → run env p (t ∷ ts) ≡ turn env p t
  run_interrupted p t ts before after s n g e h =
      run-goes env p t ts g ∙ bind-ended (turn env p t) ts (turn-Ends p t before after s n e h)

  -- TCP_RESET from a client ends the loop and asks for a reboot, when the time is one that
  -- `GetTime` can print or leave alone: the player is stopped as by `Stop` in the state to which
  -- its threads have brought it, the client gets one reply, the sockets are as before the round,
  -- and the clients behind it are not served.
  pub run_reset :
      (p : Program) (t : Turn) (ts : List Turn) (fd : ℕ) (status : TimeStatus) (time : Bytes)
      → env.reboot_callback ≡ true
      → p.sockets.client_socket_fd ≡ none
      → p.process.stop_process ≡ false
      → t.round.accepted ≡ some fd
      → t.round.reads ≡ true
      → t.received ≡ codes "TCP_RESET\nEND\n"
      → get_time env.clock t.now p.communication.time_str ≡ done (status, time)
      → (q : Program) × (text : Bytes) × (run env p (t ∷ ts) ≡ done q)
        × (q.process ≡ record { stop_process = true; reboot_system = true })
        × (q.communication.mp3_player
            ≡ (stop t.io (ticks t.io t.before p.communication.mp3_player)).0)
        × (q.replies ≡ p.replies ++ (text ∷ []))
        × (q.sockets ≡ p.sockets)
  run_reset p t ts fd status time b n g a r m k =
      let w = ready env p t in
      let d =
        prepared w.communication
          (record { parsed_masage = lines_of tcp_reset []; command = tcp_reset }) time in
      let d' : Communication = record d {
        mp3_player = (stop t.io d.mp3_player).0;
        reboots = suc d.reboots;
      } in
      let text = reply (record d { mp3_player = (stop t.io d.mp3_player).0 }) [] error_code_ok in
      let handled : handle_command_in (env_at env t) (cmd_behind t) w.communication (cmd_msg t)
          ≡ done (d', text) =
        handle_command-behind (env_at env t) (cmd_behind t) w.communication (cmd_msg t) (d', text)
          (ap (handle_command (env_at env t) w.communication) (cmd_msg-reset t m)
            ∙ handle_command-lines_of (env_at env t) w.communication tcp_reset [] status time
                (λ e. ground arith) (λ e. ground arith) refl tt (omega arith) k
            ∙ reset-dispatched (env_at env t) d b) in
      let q = heard w t (d', text) in
      let ran : turn env p t ≡ done q =
        turn-heard env p t fd n a r ∙ ap (λ o. o >>= λ x. done (heard w t x)) handled in
      (
        q,
        text,
        run-goes env p t ts g
            ∙ ap (λ o. o >>= λ q. run env q ts) ran
            ∙ run-ended q ts (
                ap (λ x. x.stop_process)
                  (reset-process t.signals w.communication d' p.process refl)),
        reset-process t.signals w.communication d' p.process refl,
        refl,
        refl,
        refl,
      )
