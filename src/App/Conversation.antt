-- ===== src/App/Conversation.antt =====
-- src/app_rpi_tcp_listener/rpi_tcp_listener.cpp: the loop of the server, with clients that ask it
-- for sounds and a signal behind the last of them.
use rpi_tcp_listener.Base.{
  ℕ, ◌≡◌, ◌∙◌, ap, sym, subst, inl, inr, Bool, true, false, none, List, [], ◌∷◌, ◌++◌, arith, ltb,
  if◌then◌else◌, Bool-cases, Option-cases,
}
use rpi_tcp_listener.Base.Int.{ℤ}
use rpi_tcp_listener.Base.Text.{Bytes}
use rpi_tcp_listener.Base.Outcome.{done, ◌>>=◌, >>=-eq-done, done-injective}
use rpi_tcp_listener.Time.{Clock, time_nok, time_get_ok, get_time}
use rpi_tcp_listener.Mp3.Types.{Player}
use rpi_tcp_listener.Mp3.Thread.{Reach, Tick, tick, ticks, tick-Reach, ticks-Reach}
use rpi_tcp_listener.Mp3.Types.{Io}
use rpi_tcp_listener.Mp3.Wellformed.{Reach-IsWellformed}
use rpi_tcp_listener.Mp3.Abstract.{View, view, tick-Unseen}
use rpi_tcp_listener.Communication.{Env, Communication, handle_command, handle_command_in}
use rpi_tcp_listener.Communication.Dispatch.{handle_command-Reach, handle_command-behind}
use rpi_tcp_listener.Communication.Protocol.{protocol}
use rpi_tcp_listener.Communication.Answering.{handle_command-Answers}
use rpi_tcp_listener.App.Signals.{Process, interrupted}
use rpi_tcp_listener.App.{env_at, cmd_behind, cmd_msg, called_back, Turn, Program, turn, run}
use rpi_tcp_listener.App.Loop.{
  ready, heard, turn-heard, turn-unread, turn-refused, run-stopped, run-goes,
}
use rpi_tcp_listener.App.Ending.{run-ended}
use rpi_tcp_listener.App.Requests.{
  Asked, asked_in, Converses, silence, replies, ends, Brings, Brought, ends_with, goes_on,
  message_arrives, is_received-Brings,
}
use rpi_tcp_listener.App.Refine.{
  asks_to_stop, interrupted-asks, is_last, played_on, answer, answer_if, serve_in_turn,
  behind_replies, rest_of, serve-step, run-refines,
}

-- Whether a round is the last one does not depend on the request.
unrisen :
    (a b : ℕ) (asked stops : Bool)
    → b ≡ a
    → asked ≡ stops
    → (if ltb a b then true else asked) ≡ stops
unrisen a b asked stops h k = ground arith

not_ok : time_nok ≡ time_get_ok → ⊥
not_ok h = cc

-- A time that can be told is told whatever stands in the string.
pub get_time_over :
    (clock : Clock) (now : ℤ) (s time : Bytes)
    → get_time clock now [] ≡ done (time_get_ok, time)
    → get_time clock now s ≡ done (time_get_ok, time)
unfolding get_time
get_time_over clock now s time h = elim (Option-cases (clock.localtime now)) [
  | inl e ↦
      let kept : done (time_nok, []) ≡ done (time_get_ok, time) = rw (e, get_time) at h in
      absurd (not_ok (ap (λ x. x.0) (done-injective kept)))
  | inr (tm, e) ↦ rw (e, get_time) (rw (e, get_time) at h)
]

-- The steps of the player's threads are not seen, or end what is played.
tick-Converses :
    (env : Env) (io : Io) (k : Tick) (p : Player) (rs : List Asked) (texts : List Bytes) (w : View)
    → Reach p
    → Converses env (view (tick io k p)) rs texts w
    → Converses env (view p) rs texts w
tick-Converses env io k p rs texts w r h = elim (tick-Unseen io k p (Reach-IsWellformed r)) [
  | inl same ↦ subst (λ v. Converses env v rs texts w) same h
  | inr (file, mode, e, over) ↦ ends file mode e (subst (λ v. Converses env v rs texts w) over h)
]

ticks-Converses :
    (env : Env) (io : Io) (ks : List Tick) (p : Player) (rs : List Asked) (texts : List Bytes)
    (w : View)
    → Reach p
    → Converses env (view (ticks io ks p)) rs texts w
    → Converses env (view p) rs texts w
unfolding ticks
ticks-Converses env io [] p rs texts w r h = h
ticks-Converses env io (k ∷ ks) p rs texts w r h =
    tick-Converses env io k p rs texts w r
      (ticks-Converses env io ks (tick io k p) rs texts w (tick-Reach io k p r) h)

-- What the rounds give.
abbrev Served : Env → Communication → List Asked → List Turn → Type 0
Served env c rs ts =
    (d : Communication) × (texts : List Bytes) × (serve_in_turn env c ts ≡ done (d, texts))
    × Converses env (view c.mp3_player) rs texts (view d.mp3_player)

module _ (env : Env) where
  -- One message is answered by the protocol, in a round that is the last one or not.
  pub record Replied (stops : Bool) (a : Asked) (t : Turn) (c : Communication) (q : Communication)
      (text : Bytes) : Type 0 where
    pub answered : answer env c t ≡ done (q, text ∷ [], stops)
    pub agrees :
        protocol (asked_in env a) a.time (view (played_on env c t).mp3_player) a.request
        ≡ (view q.mp3_player, text)
    pub reach : Reach q.mp3_player

  answer-Replied :
      (stops : Bool) (a : Asked) (t : Turn) (c : Communication)
      → Brings env stops a t
      → Reach c.mp3_player
      → (q : Communication) × (text : Bytes) × Replied stops a t c q text
  answer-Replied stops a t c b reach =
      let k = played_on env c t in
      let here = ticks-Reach t.io t.before c.mp3_player reach in
      let (q, text, r) =
        handle_command-Answers (env_at env t) k time_get_ok a.time
          (get_time_over env.clock t.now c.time_str a.time b.told) a.request b.answerable in
      let flag : is_last k q t ≡ stops =
        unrisen c.reboots q.reboots (asks_to_stop t.signals) stops r.same_reboots b.signalled in
      let arrived : handle_command_in (env_at env t) (cmd_behind t) k (cmd_msg t) ≡ done (q, text) =
        handle_command-behind (env_at env t) (cmd_behind t) k (cmd_msg t) (q, text)
          (ap (handle_command (env_at env t) k) (message_arrives env stops a t b) ∙ r.handled) in
      (
        q,
        text,
        record {
          answered =
              ap (λ x. answer_if x env k t) (is_received-Brings env stops a t b)
              ∙ ap (λ o. o >>= λ x. done (x.0, x.1 ∷ [], is_last k x.0 t)) arrived
              ∙ ap (λ x. done (q, text ∷ [], x)) flag;
          agrees =
              ap (λ i. protocol (record env { io = i }) a.time (view k.mp3_player) a.request)
                (sym b.same_io)
              ∙ sym r.agrees;
          reach =
              handle_command-Reach (env_at env t) (cmd_behind t) k q (cmd_msg t) text here arrived;
        },
      )

  serve-Served :
      (c : Communication) (rs : List Asked) (ts : List Turn)
      → Brought env rs ts
      → Reach c.mp3_player
      → Served env c rs ts
  serve-Served c _ _ (ends_with a t ts b) reach =
      let (q, text, r) = answer-Replied true a t c b reach in
      (
        q,
        text ∷ [],
        serve-step env c t ts ∙ ap (λ o. o >>= rest_of env ts) r.answered,
        ticks-Converses env t.io t.before c.mp3_player (a ∷ []) (text ∷ []) (view q.mp3_player)
            reach (replies a text r.agrees (silence (view q.mp3_player))),
      )
  serve-Served c _ _ (goes_on a t {rs} {ts} b bs) reach =
      let (q, text, r) = answer-Replied false a t c b reach in
      let (d, texts, served, talk) = serve-Served q rs ts bs r.reach in
      (
        d,
        text ∷ texts,
        serve-step env c t ts
            ∙ ap (λ o. o >>= rest_of env ts) r.answered
            ∙ ap (behind_replies (text ∷ [])) served,
        ticks-Converses env t.io t.before c.mp3_player (a ∷ rs) (text ∷ texts) (view d.mp3_player)
            reach (replies a text r.agrees talk),
      )

  -- A round with SIGINT or SIGTERM leaves the flag set, and every round leaves no client connected.
  turn-flag :
      (p q : Program) (t : Turn)
      → p.sockets.client_socket_fd ≡ none
      → turn env p t ≡ done q
      → (asks_to_stop t.signals ≡ true → q.process.stop_process ≡ true)
        × (q.sockets.client_socket_fd ≡ none)
  turn-flag p q t n e =
      let w = ready env p t in
      let Flagged : Program → Type 0 = λ q.
        (asks_to_stop t.signals ≡ true → q.process.stop_process ≡ true)
        × (q.sockets.client_socket_fd ≡ none) in
      let raised : (g : Process)
          → asks_to_stop t.signals ≡ true
          → (interrupted t.signals g).stop_process ≡ true =
        λ g h. ground (arith, interrupted-asks t.signals g) in
      elim (Option-cases t.round.accepted) [
        | inl a ↦
            subst Flagged (done-injective (sym (turn-refused env p t n a) ∙ e))
              (raised p.process, n)
        | inr (fd, a) ↦ elim (Bool-cases t.round.reads) [
          | inl r ↦
              let (x, first, later) =
                >>=-eq-done
                  (handle_command_in (env_at env t) (cmd_behind t) w.communication (cmd_msg t))
                  (λ r. done (heard w t r)) (sym (turn-heard env p t fd n a r) ∙ e) in
              subst Flagged (done-injective later)
                (raised (called_back w.communication x.0 p.process), n)
          | inr r ↦
              subst Flagged (done-injective (sym (turn-unread env p t fd n a r) ∙ e))
                (raised p.process, n)
        ]
      ]

  run-flag :
      (p q : Program) (rs : List Asked) (ts : List Turn)
      → Brought env rs ts
      → p.sockets.client_socket_fd ≡ none
      → run env p ts ≡ done q
      → q.process.stop_process ≡ true
  run-flag p q _ _ (ends_with a t ts b) n e = elim (Bool-cases p.process.stop_process) [
    | inl k ↦
        ap (λ x. x.process.stop_process) (done-injective (sym e ∙ run-stopped env p t ts k)) ∙ k
    | inr k ↦
        let (x, first, later) =
          >>=-eq-done (turn env p t) (λ q. run env q ts) (sym (run-goes env p t ts k) ∙ e) in
        let flag = (turn-flag p x t n first).0 b.signalled in
        ap (λ x. x.process.stop_process) (done-injective (sym later ∙ run-ended env x ts flag))
        ∙ flag
  ]
  run-flag p q _ _ (goes_on a t {rs} {ts} b bs) n e = elim (Bool-cases p.process.stop_process) [
    | inl k ↦
        ap (λ x. x.process.stop_process) (done-injective (sym e ∙ run-stopped env p t ts k)) ∙ k
    | inr k ↦
        let (x, first, later) =
          >>=-eq-done (turn env p t) (λ q. run env q ts) (sym (run-goes env p t ts k) ∙ e) in
        run-flag x q rs ts bs (turn-flag p x t n first).1 later
  ]

  -- Clients that come one after the other, each with the message of a request that can be answered
  -- and at a time that can be told, the last of them in the first round in which SIGINT or SIGTERM
  -- comes, are all served, whatever the player's threads do between them: the loop ends with its
  -- flag set, each request has one reply, in their order, and the replies and what the player then
  -- does are those that the protocol of the abstract player allows.
  pub run-Converses :
      (p : Program) (rs : List Asked) (ts : List Turn)
      → p.sockets.client_socket_fd ≡ none
      → p.process.stop_process ≡ false
      → Reach p.communication.mp3_player
      → Brought env rs ts
      → (q : Program) × (texts : List Bytes) × (run env p ts ≡ done q)
        × (q.process.stop_process ≡ true)
        × (q.replies ≡ p.replies ++ texts)
        × Converses env (view p.communication.mp3_player) rs texts (view q.communication.mp3_player)
  run-Converses p rs ts n g reach b =
      let (d, texts, served, talk) = serve-Served p.communication rs ts b reach in
      let same = run-refines env p ts n g ∙ ap (behind_replies p.replies) served in
      let (q, ran, seen) =
        >>=-eq-done (run env p ts) (λ q. done (q.communication, q.replies)) same in
      (
        q,
        texts,
        ran,
        run-flag p q rs ts b n ran,
        ap (λ x. x.1) (done-injective seen),
        subst (λ x. Converses env (view p.communication.mp3_player) rs texts (view x.mp3_player))
            (sym (ap (λ x. x.0) (done-injective seen))) talk,
      )
