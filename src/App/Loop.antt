-- ===== src/App/Loop.antt =====
-- src/app_rpi_tcp_listener/rpi_tcp_listener.cpp: the server's loop, what it keeps and what ends it.
use rpi_tcp_listener.Base.{
  ℕ, ◌≡◌, refl, ◌∙◌, ap, sym, subst, inl, inr, Bool, true, false, none, some, List, [], ◌∷◌, ◌++◌,
  All, All-append, length, ltb, ◌<◌, Bool-cases, Option-cases,
}
use rpi_tcp_listener.Base.Text.{Bytes}
use rpi_tcp_listener.Base.Outcome.{done, ◌>>=◌, Returns-done, >>=-eq-done, done-injective}
use rpi_tcp_listener.Mp3.Thread.{Reach, ticks-Reach}
use rpi_tcp_listener.Communication.{Env, Communication, handle_command_in}
use rpi_tcp_listener.Communication.Dispatch.{handle_command-Reach}
use rpi_tcp_listener.Communication.ReplySize.{HasShortTime, Fits, handle_command-Fits}
use rpi_tcp_listener.Tcp.{buffer_size, Sockets, close_socket}
use rpi_tcp_listener.Tcp.Descriptors.{close_fd_head}
use rpi_tcp_listener.App.Signals.{
  Process, Signal, sigint, sigterm, other_signal, signal_interrupt_handler, interrupted,
  request_reboot,
}
use rpi_tcp_listener.App.{
  ticked, env_at, Turn, cmd_msg, cmd_behind, Program, called_back, turn, run,
}

-- A round with an answer, and one without, of a server that had no client connected.
abbrev pub heard : Program → Turn → Communication × Bytes → Program
heard p t (d, text) = record {
  sockets = p.sockets;
  communication = d;
  process = interrupted t.signals (called_back p.communication d p.process);
  replies = p.replies ++ (text ∷ []);
}

abbrev pub unheard : Program → Turn → Program
unheard p t = record p { process = interrupted t.signals p.process }

-- The program when a client has come: behind the steps of the player's threads.
abbrev pub ready : Env → Program → Turn → Program
ready env p t = ticked t p

module _ (env : Env) where
  pub turn-heard :
      (p : Program) (t : Turn) (fd : ℕ)
      → p.sockets.client_socket_fd ≡ none
      → t.round.accepted ≡ some fd
      → t.round.reads ≡ true
      → turn env p t ≡ (
          handle_command_in (env_at env t) (cmd_behind t) (ready env p t).communication (cmd_msg t)
          >>= λ r. done (heard (ready env p t) t r))
  unfolding turn close_socket
  turn-heard p t fd h a r = rw (a, r, close_fd_head fd p.sockets.open_fds, h) refl

  pub turn-unread :
      (p : Program) (t : Turn) (fd : ℕ)
      → p.sockets.client_socket_fd ≡ none
      → t.round.accepted ≡ some fd
      → t.round.reads ≡ false
      → turn env p t ≡ done (unheard (ready env p t) t)
  unfolding turn close_socket
  turn-unread p t fd h a r = rw (a, r, close_fd_head fd p.sockets.open_fds, h) refl

  pub turn-refused :
      (p : Program) (t : Turn)
      → p.sockets.client_socket_fd ≡ none
      → t.round.accepted ≡ none
      → turn env p t ≡ done (unheard (ready env p t) t)
  unfolding turn
  turn-refused p t h a = rw (a, h) refl

-- The program reboots only when it stops.
abbrev pub Orderly : Process → Type 0
Orderly g = g.reboot_system ≡ true → g.stop_process ≡ true

handler-Orderly : (s : Signal) (g : Process) → Orderly g → Orderly (signal_interrupt_handler s g)
unfolding signal_interrupt_handler
handler-Orderly sigint g o r = refl
handler-Orderly sigterm g o r = refl
handler-Orderly other_signal g o r = o r

pub interrupted-Orderly :
    (signals : List Signal) (g : Process) → Orderly g → Orderly (interrupted signals g)
unfolding interrupted
interrupted-Orderly [] g o = o
interrupted-Orderly (s ∷ signals) g o =
    interrupted-Orderly signals (signal_interrupt_handler s g) (handler-Orderly s g o)

called_back-Orderly : (c d : Communication) (g : Process) → Orderly g → Orderly (called_back c d g)
unfolding request_reboot
called_back-Orderly c d g o = elim (Bool-cases (ltb c.reboots d.reboots)) [
  | inl e ↦ rw e λ r. refl
  | inr e ↦ rw e o
]

-- What the loop keeps, from the sockets `s` on: the same descriptors are open, no client is
-- connected, the player is in a state that its calls and threads can reach, every reply fits in
-- `replyMsg`, and a reboot is asked for only when the loop is to stop.
pub record IsServing (s : Sockets) (p : Program) : Type 0 where
  pub same_sockets : p.sockets ≡ s
  pub player : Reach p.communication.mp3_player
  pub time : HasShortTime p.communication
  pub fitting : All (λ text. length text < buffer_size) p.replies
  pub orderly : Orderly p.process

elim_true {ℓ} : {A : Type ℓ} (b : Bool) (x y : A) → b ≡ true → elim b [ true ↦ x | false ↦ y ] ≡ x
elim_true true x y h = refl
elim_true false x y h = cc

elim_false {ℓ} : {A : Type ℓ} (b : Bool) (x y : A) → b ≡ false → elim b [ true ↦ x | false ↦ y ] ≡ y
elim_false true x y h = cc
elim_false false x y h = refl

module _ (env : Env) where
  pub run-stopped :
      (p : Program) (t : Turn) (ts : List Turn)
      → p.process.stop_process ≡ true
      → run env p (t ∷ ts) ≡ done p
  unfolding run
  run-stopped p t ts h = elim_true p.process.stop_process _ _ h

  pub run-goes :
      (p : Program) (t : Turn) (ts : List Turn)
      → p.process.stop_process ≡ false
      → run env p (t ∷ ts) ≡ (turn env p t >>= λ q. run env q ts)
  unfolding run
  run-goes p t ts h = elim_false p.process.stop_process _ _ h

module _ (env : Env) (s : Sockets) where
  heard-IsServing :
      (p : Program) (t : Turn) (d : Communication) (text : Bytes)
      → IsServing s p
      → handle_command_in (env_at env t) (cmd_behind t) p.communication (cmd_msg t) ≡ done (d, text)
      → IsServing s (heard p t (d, text))
  heard-IsServing p t d text v e =
      let fits : Fits (d, text) =
        Returns-done Fits
          (handle_command_in (env_at env t) (cmd_behind t) p.communication (cmd_msg t)) (d, text) e
          (handle_command-Fits (env_at env t) (cmd_behind t) p.communication (cmd_msg t) v.time) in
      record {
        same_sockets = v.same_sockets;
        player =
            handle_command-Reach (env_at env t) (cmd_behind t) p.communication d (cmd_msg t) text
              v.player e;
        time = fits.1;
        fitting =
            All-append (λ text. length text < buffer_size) p.replies (text ∷ []) v.fitting
              (fits.0, tt);
        orderly =
            interrupted-Orderly t.signals (called_back p.communication d p.process)
              (called_back-Orderly p.communication d p.process v.orderly);
      }

  unheard-IsServing : (p : Program) (t : Turn) → IsServing s p → IsServing s (unheard p t)
  unheard-IsServing p t v = record {
    same_sockets = v.same_sockets;
    player = v.player;
    time = v.time;
    fitting = v.fitting;
    orderly = interrupted-Orderly t.signals p.process v.orderly;
  }

  ready-IsServing : (p : Program) (t : Turn) → IsServing s p → IsServing s (ready env p t)
  ready-IsServing p t v = record {
    same_sockets = v.same_sockets;
    player = ticks-Reach t.io t.before p.communication.mp3_player v.player;
    time = v.time;
    fitting = v.fitting;
    orderly = v.orderly;
  }

  turn-IsServing :
      (p q : Program) (t : Turn)
      → s.client_socket_fd ≡ none
      → IsServing s p
      → turn env p t ≡ done q
      → IsServing s q
  turn-IsServing p q t n v e =
      let free : p.sockets.client_socket_fd ≡ none =
        ap (λ x. x.client_socket_fd) v.same_sockets ∙ n in
      let w = ready env p t in
      let u = ready-IsServing p t v in
      elim (Option-cases t.round.accepted) [
        | inl a ↦
            subst (IsServing s) (done-injective (sym (turn-refused env p t free a) ∙ e))
              (unheard-IsServing w t u)
        | inr (fd, a) ↦ elim (Bool-cases t.round.reads) [
          | inl r ↦
              let (x, first, later) =
                >>=-eq-done
                  (handle_command_in (env_at env t) (cmd_behind t) w.communication (cmd_msg t))
                  (λ r. done (heard w t r)) (sym (turn-heard env p t fd free a r) ∙ e) in
              subst (IsServing s) (done-injective later) (heard-IsServing w t x.0 x.1 u first)
          | inr r ↦
              subst (IsServing s) (done-injective (sym (turn-unread env p t fd free a r) ∙ e))
                (unheard-IsServing w t u)
        ]
      ]

  -- If the loop returns, whatever the clients sent, the player's threads did between two messages
  -- and the system calls answered, the descriptors open behind it are those open before, no client
  -- is connected, the player is in a state that its calls and threads can reach, every reply sent
  -- is shorter than the 1024 bytes of `replyMsg`, and a reboot is asked for only together with the
  -- end of the loop, when all this was so before.
  pub run-IsServing :
      (p q : Program) (ts : List Turn)
      → s.client_socket_fd ≡ none
      → IsServing s p
      → run env p ts ≡ done q
      → IsServing s q
  unfolding run
  run-IsServing p q [] n v e = subst (IsServing s) (done-injective e) v
  run-IsServing p q (t ∷ ts) n v e = elim (Bool-cases p.process.stop_process) [
    | inl k ↦ subst (IsServing s) (done-injective (sym (run-stopped env p t ts k) ∙ e)) v
    | inr k ↦
        let (x, first, later) =
          >>=-eq-done (turn env p t) (λ q. run env q ts) (sym (run-goes env p t ts k) ∙ e) in
        run-IsServing x q ts n (turn-IsServing p x t n v first) later
  ]
