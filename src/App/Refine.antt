-- ===== src/App/Refine.antt =====
-- src/app_rpi_tcp_listener/rpi_tcp_listener.cpp: the server's loop against a server that has no
-- sockets and no flags, and takes one message after the other.
use rpi_tcp_listener.Base.{
  ◌≡◌, refl, ◌∙◌, ap, arith, sym, inl, inr, Bool, true, false, none, some, List, [], ◌∷◌, ◌++◌,
  append_assoc, append-nil, ltb, Bool-cases, Option-cases, if◌then◌else◌,
}
use rpi_tcp_listener.Base.Text.{Bytes}
use rpi_tcp_listener.Base.Outcome.{Outcome, done, fault, ◌>>=◌}
use rpi_tcp_listener.Mp3.Thread.{ticks}
use rpi_tcp_listener.Communication.{Env, Communication, handle_command_in}
use rpi_tcp_listener.App.Signals.{
  Process, Signal, sigint, sigterm, other_signal, signal_interrupt_handler, interrupted,
  request_reboot,
}
use rpi_tcp_listener.App.{env_at, cmd_behind, Turn, cmd_msg, Program, called_back, turn, run}
use rpi_tcp_listener.App.Loop.{
  ready, heard, unheard, turn-heard, turn-unread, turn-refused, run-goes,
}
use rpi_tcp_listener.App.Ending.{run-ended}

-- Whether one of the signals asks the program to stop.
abbrev pub asks_to_stop : List Signal → Bool
asks_to_stop [] = false
asks_to_stop (sigint ∷ signals) = true
asks_to_stop (sigterm ∷ signals) = true
asks_to_stop (other_signal ∷ signals) = asks_to_stop signals

-- A client's message has come.
abbrev pub is_received : Turn → Bool
is_received t = elim t.round.accepted [ none ↦ false | some fd ↦ t.round.reads ]

-- The state behind the steps of the player's threads.
abbrev pub played_on : Env → Communication → Turn → Communication
played_on env c t = record c { now = t.now; mp3_player = ticks t.io t.before c.mp3_player }

-- The round is the last one if the handler has asked for a reboot, or a signal for the end.
abbrev pub is_last : Communication → Communication → Turn → Bool
is_last c d t = if ltb c.reboots d.reboots then true else asks_to_stop t.signals

abbrev pub answer_if :
    Bool → Env → Communication → Turn → Outcome (Communication × List Bytes × Bool)
answer_if false env c t = done (c, [], asks_to_stop t.signals)
answer_if true env c t = handle_command_in (env_at env t) (cmd_behind t) c (cmd_msg t) >>= λ r.
    done (r.0, r.1 ∷ [], is_last c r.0 t)

-- The state behind a round, the reply in it, and whether it is the last one.
abbrev pub answer : Env → Communication → Turn → Outcome (Communication × List Bytes × Bool)
answer env c t = answer_if (is_received t) env (played_on env c t) t

-- The rounds up to the last one.
unfoldable pub serve_in_turn :
    Env → Communication → List Turn → Outcome (Communication × List Bytes)
serve_in_turn env c [] = done (c, [])
serve_in_turn env c (t ∷ ts) = answer env c t >>= λ (d, texts, ended). elim ended [
  | true ↦ done (d, texts)
  | false ↦ serve_in_turn env d ts >>= λ (e, later). done (e, texts ++ later)
]

-- What the loop shows of a program.
abbrev pub shown : Outcome Program → Outcome (Communication × List Bytes)
shown o = o >>= λ q. done (q.communication, q.replies)

-- Replies put behind those that were given before.
abbrev pub behind_replies :
    List Bytes → Outcome (Communication × List Bytes) → Outcome (Communication × List Bytes)
behind_replies texts o = o >>= λ (c, later). done (c, texts ++ later)

pub interrupted-asks :
    (signals : List Signal) (g : Process)
    → (interrupted signals g).stop_process ≡ (if g.stop_process then true else asks_to_stop signals)
unfolding interrupted signal_interrupt_handler
interrupted-asks [] g = ground arith
interrupted-asks (sigint ∷ signals) g =
    ground (arith, interrupted-asks signals (record g { stop_process = true }))
interrupted-asks (sigterm ∷ signals) g =
    ground (arith, interrupted-asks signals (record g { stop_process = true }))
interrupted-asks (other_signal ∷ signals) g = interrupted-asks signals g

called_back-stop :
    (c d : Communication) (g : Process)
    → g.stop_process ≡ false
    → (called_back c d g).stop_process ≡ ltb c.reboots d.reboots
unfolding request_reboot
called_back-stop c d g h = ground arith

behind-nil :
    (o : Outcome (Communication × List Bytes)) (texts : List Bytes)
    → behind_replies (texts ++ []) o ≡ behind_replies texts o
behind-nil o texts = ap (λ t. behind_replies t o) (append-nil texts)

behind-behind :
    (o : Outcome (Communication × List Bytes)) (xs ys : List Bytes)
    → behind_replies (xs ++ ys) o ≡ behind_replies xs (behind_replies ys o)
behind-behind (done (c, later)) xs ys = ap (λ t. done (c, t)) (append_assoc xs ys later)
behind-behind (fault e) xs ys = refl

module _ (env : Env) where
  -- Whether the loop goes on behind a round is what the flag says.
  after :
      (q : Program) (ts : List Turn) (b : Bool)
      → q.process.stop_process ≡ b
      → (b ≡ false
          → shown (run env q ts) ≡ behind_replies q.replies (serve_in_turn env q.communication ts))
      → shown (run env q ts) ≡ elim b [
        | true ↦ done (q.communication, q.replies)
        | false ↦ behind_replies q.replies (serve_in_turn env q.communication ts)
      ]
  after q ts true h go = ap shown (run-ended env q ts h)
  after q ts false h go = go refl

  -- Both sides behind an answer.
  abbrev pub rest_of :
      List Turn → Communication × List Bytes × Bool → Outcome (Communication × List Bytes)
  rest_of ts (d, texts, ended) = elim ended [
    | true ↦ done (d, texts)
    | false ↦ behind_replies texts (serve_in_turn env d ts)
  ]

  pub serve-step :
      (c : Communication) (t : Turn) (ts : List Turn)
      → serve_in_turn env c (t ∷ ts) ≡ (answer env c t >>= rest_of ts)
  unfolding serve_in_turn
  serve-step c t ts = refl

  put-back :
      (q : Communication) (before texts : List Bytes) (ended : Bool) (ts : List Turn)
      → elim ended [
        | true ↦ done (q, before ++ texts)
        | false ↦ behind_replies (before ++ texts) (serve_in_turn env q ts)
      ]
        ≡ behind_replies before (rest_of ts (q, texts, ended))
  put-back q before texts true ts = refl
  put-back q before texts false ts = behind-behind (serve_in_turn env q ts) before texts

  put-none :
      (q : Communication) (before : List Bytes) (ended : Bool) (ts : List Turn)
      → elim ended [
        | true ↦ done (q, before)
        | false ↦ behind_replies before (serve_in_turn env q ts)
      ]
        ≡ behind_replies before (rest_of ts (q, [], ended))
  put-none q before true ts = ap (λ x. done (q, x)) (sym (append-nil before))
  put-none q before false ts =
      sym (behind-nil (serve_in_turn env q ts) before)
      ∙ behind-behind (serve_in_turn env q ts) before []

  -- A round and what follows it, from what follows it alone.
  abbrev Follows : List Turn → Type 0
  Follows ts =
      (q : Program)
      → q.sockets.client_socket_fd ≡ none
      → q.process.stop_process ≡ false
      → shown (run env q ts) ≡ behind_replies q.replies (serve_in_turn env q.communication ts)

  silent-Follows :
      (p : Program) (t : Turn) (ts : List Turn)
      → p.sockets.client_socket_fd ≡ none
      → p.process.stop_process ≡ false
      → Follows ts
      → is_received t ≡ false
      → turn env p t ≡ done (unheard (ready env p t) t)
      → shown (turn env p t >>= λ q. run env q ts)
        ≡ behind_replies p.replies (answer env p.communication t >>= rest_of ts)
  silent-Follows p t ts n g follows h e =
      let q = unheard (ready env p t) t in
      let flag : q.process.stop_process ≡ asks_to_stop t.signals =
        interrupted-asks t.signals p.process
        ∙ ap (λ b. if b then true else asks_to_stop t.signals) g in
      ap (λ o. shown (o >>= λ q. run env q ts)) e
      ∙ after q ts (asks_to_stop t.signals) flag (λ b. follows q n (flag ∙ b))
      ∙ put-none q.communication p.replies (asks_to_stop t.signals) ts
      ∙ ap (λ o. behind_replies p.replies (o >>= rest_of ts))
          (sym (ap (λ b. answer_if b env (played_on env p.communication t) t) h))

  heard-step :
      (p : Program) (t : Turn) (ts : List Turn) (o : Outcome (Communication × Bytes))
      → p.sockets.client_socket_fd ≡ none
      → p.process.stop_process ≡ false
      → Follows ts
      → let w = ready env p t in
        shown ((o >>= λ r. done (heard w t r)) >>= λ q. run env q ts)
        ≡ behind_replies p.replies
            ((o >>= λ r. done (r.0, r.1 ∷ [], is_last w.communication r.0 t)) >>= rest_of ts)
  heard-step p t ts (fault f) n g follows = refl
  heard-step p t ts (done (d, text)) n g follows =
      let w = ready env p t in
      let q = heard w t (d, text) in
      let ended = is_last w.communication d t in
      let flag : q.process.stop_process ≡ ended =
        interrupted-asks t.signals (called_back w.communication d p.process)
        ∙ ap (λ b. if b then true else asks_to_stop t.signals)
            (called_back-stop w.communication d p.process g) in
      after q ts ended flag (λ b. follows q n (flag ∙ b))
      ∙ put-back d p.replies (text ∷ []) ended ts

  heard-Follows :
      (p : Program) (t : Turn) (ts : List Turn)
      → p.sockets.client_socket_fd ≡ none
      → p.process.stop_process ≡ false
      → Follows ts
      → is_received t ≡ true
      → turn env p t ≡ (
          handle_command_in (env_at env t) (cmd_behind t) (ready env p t).communication (cmd_msg t)
          >>= λ r. done (heard (ready env p t) t r))
      → shown (turn env p t >>= λ q. run env q ts)
        ≡ behind_replies p.replies (answer env p.communication t >>= rest_of ts)
  heard-Follows p t ts n g follows h e =
      ap (λ o. shown (o >>= λ q. run env q ts)) e
      ∙ heard-step p t ts
          (handle_command_in (env_at env t) (cmd_behind t) (ready env p t).communication
            (cmd_msg t))
          n g follows
      ∙ ap (λ o. behind_replies p.replies (o >>= rest_of ts))
          (sym (ap (λ b. answer_if b env (played_on env p.communication t) t) h))

  turn-Follows :
      (p : Program) (t : Turn) (ts : List Turn)
      → p.sockets.client_socket_fd ≡ none
      → p.process.stop_process ≡ false
      → Follows ts
      → shown (turn env p t >>= λ q. run env q ts)
        ≡ behind_replies p.replies (answer env p.communication t >>= rest_of ts)
  turn-Follows p t ts n g follows = elim (Option-cases t.round.accepted) [
    | inl a ↦ silent-Follows p t ts n g follows (rw a refl) (turn-refused env p t n a)
    | inr (fd, a) ↦ elim (Bool-cases t.round.reads) [
      | inl r ↦ heard-Follows p t ts n g follows (rw (a, r) refl) (turn-heard env p t fd n a r)
      | inr r ↦ silent-Follows p t ts n g follows (rw (a, r) refl) (turn-unread env p t fd n a r)
    ]
  ]

  -- From a server that has no client connected and is not to stop, the loop is a server that takes
  -- the messages received one by one, in the order of the rounds, up to and with the round in which
  -- a handler asks for a reboot or SIGINT or SIGTERM comes: behind these
  -- rounds it is in the same state with the same replies, one for each message, or has ended by the
  -- same fault, whatever the system calls answer, at the time of each round and with the files and
  -- devices there are in it.
  pub run-refines :
      (p : Program) (ts : List Turn)
      → p.sockets.client_socket_fd ≡ none
      → p.process.stop_process ≡ false
      → shown (run env p ts) ≡ behind_replies p.replies (serve_in_turn env p.communication ts)
  unfolding run serve_in_turn
  run-refines p [] n g = ap (λ r. done (p.communication, r)) (sym (append-nil p.replies))
  run-refines p (t ∷ ts) n g =
      ap shown (run-goes env p t ts g)
      ∙ turn-Follows p t ts n g (λ q m h. run-refines q ts m h)
      ∙ ap (behind_replies p.replies) (sym (serve-step p.communication t ts))
