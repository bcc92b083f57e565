-- ===== src/Communication/Answering.antt =====
-- src/communication/communication/communication.cpp: `handleCommand` answers the requests of
-- clients as the protocol says.
use rpi_tcp_listener.Base.{
  ℕ, suc, ◌<◌, ◌≡◌, refl, ◌∙◌, ap, sym, Bool, true, false, Option, none, some, List, [], ◌∷◌, ◌++◌,
  arith, All, length, length-append, get_elem?, if◌then◌else◌,
}
use rpi_tcp_listener.Base.Int.{to_u16}
use rpi_tcp_listener.Base.Text.{Bytes, codes, atoi}
use rpi_tcp_listener.Base.Decimal.{print_nat, print_nat-IsDigit, atoi-print_nat, length-print_nat}
use rpi_tcp_listener.Base.Outcome.{done}
use rpi_tcp_listener.Time.{TimeStatus, get_time}
use rpi_tcp_listener.Parser.{tcp_play, tcp_stop, tcp_set_volume, tcp_status, get_msg_str_at}
use rpi_tcp_listener.Parser.Framing.{IsLine}
use rpi_tcp_listener.Parser.Commands.{lines_of}
use rpi_tcp_listener.Parser.Config.{digits-IsLine}
use rpi_tcp_listener.Mp3.Types.{
  once, in_loop, Status, success, file_not_found, wrong_play_mode, failed, Player, state_str,
}
use rpi_tcp_listener.Mp3.States.{state_of}
use rpi_tcp_listener.Mp3.Calls.{play, stop, set_volume, get_state_str}
use rpi_tcp_listener.Mp3.Abstract.{
  View, view, Request, asks_play, asks_stop, asks_volume, ask, ask-spec,
}
use rpi_tcp_listener.Communication.{
  Env, Communication, error_number, command_number, reply_with, handle_command, dispatch, answer,
  reply, state_reply, play_mode_of, mp3_player_status_to_error, handle_stop, handle_volume,
  handle_status,
}
use rpi_tcp_listener.Communication.Dispatch.{prepared, handle_command-lines_of}
use rpi_tcp_listener.Communication.Play.{handle_command-play}
use rpi_tcp_listener.Communication.Protocol.{
  ClientRequest, wants_play, wants_stop, wants_status, wants_volume, command_of, mode_text,
  arguments_of, message, IsAnswerable, play_of, request_of, first_line_of, error_of, reply_text,
  exchange, shown_as, protocol,
}

first_line-written :
    (r : ClientRequest)
    → codes "COMMAND_" ++ (print_nat (command_number (command_of r)) ++ codes "_RECEIVED")
      ≡ first_line_of r
unfolding print_nat
first_line-written (wants_play i loops) = refl
first_line-written wants_stop = refl
first_line-written wants_status = refl
first_line-written (wants_volume volume) = refl

error_of-written :
    (s : Status) → print_nat (error_number (mp3_player_status_to_error s)) ≡ error_of s
unfolding print_nat
error_of-written success = refl
error_of-written file_not_found = refl
error_of-written wrong_play_mode = refl
error_of-written failed = refl

state_reply-text :
    (r : ClientRequest) (q : Communication) (status : Status)
    → q.command ≡ command_of r
    → state_reply q (mp3_player_status_to_error status)
      ≡ reply_text
          (first_line_of r)
          q.time_str
          (state_str (state_of q.mp3_player.state))
          (error_of status)
unfolding reply reply_with get_state_str
state_reply-text r q status h =
    let state = state_str (state_of q.mp3_player.state) in
    let number = print_nat (error_number (mp3_player_status_to_error status)) in
    ap
      (λ c.
        reply_text (codes "COMMAND_" ++ (print_nat (command_number c) ++ codes "_RECEIVED"))
          q.time_str state number)
      h
    ∙ ap (λ f. reply_text f q.time_str state number) (first_line-written r)
    ∙ ap (reply_text (first_line_of r) q.time_str state) (error_of-written status)

-- The message is short, and its arguments are lines.
arguments-IsLine : (r : ClientRequest) → All IsLine (arguments_of r)
arguments-IsLine (wants_play i true) =
    (digits-IsLine (print_nat (suc i)) (print_nat-IsDigit (suc i)), (omega arith, tt))
arguments-IsLine (wants_play i false) =
    (digits-IsLine (print_nat (suc i)) (print_nat-IsDigit (suc i)), (omega arith, tt))
arguments-IsLine wants_stop = tt
arguments-IsLine wants_status = tt
arguments-IsLine (wants_volume volume) =
    (digits-IsLine (print_nat volume) (print_nat-IsDigit volume), tt)

pub message_short :
    (files : List Bytes) (r : ClientRequest) → IsAnswerable files r → length (message r) < 1024
message_short files (wants_play i true) (h, found) = omega (
  arith,
  length-print_nat 9 (suc i) (omega arith),
  length-append (print_nat (suc i)) (codes "\nIN_LOOP\nEND\n"),
)
message_short files (wants_play i false) (h, found) = omega (
  arith,
  length-print_nat 9 (suc i) (omega arith),
  length-append (print_nat (suc i)) (codes "\nONCE\nEND\n"),
)
message_short files wants_stop h = omega arith
message_short files wants_status h = omega arith
message_short files (wants_volume volume) h = omega (
  arith,
  length-print_nat 9 volume (omega arith),
  length-append (print_nat volume) (codes "\nEND\n"),
)

-- What a handler gives, in terms of the protocol.
pub record Answers (env : Env) (c : Communication) (r : ClientRequest) (time : Bytes)
    (q : Communication) (text : Bytes) : Type 0 where
  pub handled : handle_command env c (message r) ≡ done (q, text)
  pub agrees : (view q.mp3_player, text) ≡ protocol env time (view c.mp3_player) r
  pub same_time : q.time_str ≡ time
  pub same_now : q.now ≡ c.now
  pub same_reboots : q.reboots ≡ c.reboots

agrees_with :
    (env : Env) (v : View) (r : ClientRequest) (time : Bytes) (q : Communication)
    (o : Option Request) (status : Status)
    → request_of env.sound_files r ≡ o
    → (view q.mp3_player, status) ≡ exchange env.io v o
    → q.command ≡ command_of r
    → q.time_str ≡ time
    → (view q.mp3_player, state_reply q (mp3_player_status_to_error status)) ≡ protocol env time v r
agrees_with env v r time q o status e h k t =
    let state = state_str (state_of q.mp3_player.state) in
    ap (λ x. (view q.mp3_player, x))
      (state_reply-text r q status k
        ∙ ap (λ x. reply_text (first_line_of r) x state (error_of status)) t)
    ∙ ap (shown_as time r) h
    ∙ ap (λ x. shown_as time r (exchange env.io v x)) (sym e)

mode_of_text : (loops : Bool) → play_mode_of (mode_text loops) ≡ (if loops then in_loop else once)
mode_of_text true = refl
mode_of_text false = refl

play-Answers :
    (env : Env) (c : Communication) (i : ℕ) (loops : Bool) (file : Bytes) (status : TimeStatus)
    (time : Bytes)
    → IsAnswerable env.sound_files (wants_play i loops)
    → get_elem? env.sound_files i ≡ some file
    → get_time env.clock c.now c.time_str ≡ done (status, time)
    → (q : Communication) × (text : Bytes) × Answers env c (wants_play i loops) time q text
unfolding ask
play-Answers env c i loops file status time h found t =
    let mode = mode_text loops in
    let d =
      prepared c
        (record {
          parsed_masage = lines_of tcp_play (print_nat (suc i) ∷ mode ∷ []);
          command = tcp_play;
        })
        time in
    let a = play env.io c.mp3_player file (play_mode_of mode) in
    let q : Communication = record d { mp3_player = a.0 } in
    let r = wants_play i loops in
    (
      q,
      state_reply q (mp3_player_status_to_error a.1),
      record {
        handled =
            handle_command-play env c i mode file status time found h.0 (arguments-IsLine r).1.0
              (omega (arith, message_short env.sound_files r h)) t;
        agrees =
            agrees_with env (view c.mp3_player) r time q (some (asks_play file (play_mode_of mode)))
              a.1
              (ap (play_of loops) found
                ∙ ap (λ m. some (asks_play file m)) (sym (mode_of_text loops)))
              (ask-spec env.io c.mp3_player (asks_play file (play_mode_of mode))) refl refl;
        same_time = refl;
        same_now = refl;
        same_reboots = refl;
      },
    )

-- The other requests, whose handlers do not fail.
request-Answers :
    (env : Env) (c : Communication) (r : ClientRequest) (status : TimeStatus) (time : Bytes)
    (o : Option Request) (b : Player × Status)
    → let d =
        prepared c
          (record {
            parsed_masage = lines_of (command_of r) (arguments_of r);
            command = command_of r;
          })
          time in
      handle_command env c (message r) ≡ dispatch env (command_of r) d
      → dispatch env (command_of r) d ≡ done (answer env d b)
      → request_of env.sound_files r ≡ o
      → (view b.0, b.1) ≡ exchange env.io (view c.mp3_player) o
      → (q : Communication) × (text : Bytes) × Answers env c r time q text
request-Answers env c r status time o b parsed ran asked e =
    let d =
      prepared c
        (record {
          parsed_masage = lines_of (command_of r) (arguments_of r);
          command = command_of r;
        })
        time in
    let q : Communication = record d { mp3_player = b.0 } in
    (
      q,
      state_reply q (mp3_player_status_to_error b.1),
      record {
        handled = parsed ∙ ran;
        agrees = agrees_with env (view c.mp3_player) r time q o b.1 asked e refl refl;
        same_time = refl;
        same_now = refl;
        same_reboots = refl;
      },
    )

module _ (env : Env) (c : Communication) (status : TimeStatus) (time : Bytes)
    (t : get_time env.clock c.now c.time_str ≡ done (status, time)) where
  pub handle_command-Answers :
      (r : ClientRequest)
      → IsAnswerable env.sound_files r
      → (q : Communication) × (text : Bytes) × Answers env c r time q text
  unfolding dispatch handle_stop handle_status handle_volume ask get_msg_str_at
  handle_command-Answers (wants_play i loops) h =
      play-Answers env c i loops h.1.0 status time h h.1.1 t
  handle_command-Answers wants_stop h =
      request-Answers env c wants_stop status time (some asks_stop) (stop env.io c.mp3_player)
        (handle_command-lines_of env c tcp_stop [] status time (λ e. cc) (λ e. cc) refl tt
          (omega arith) t)
        refl refl (ask-spec env.io c.mp3_player asks_stop)
  handle_command-Answers wants_status h =
      request-Answers env c wants_status status time none (c.mp3_player, success)
        (handle_command-lines_of env c tcp_status [] status time (λ e. cc) (λ e. cc) refl tt
          (omega arith) t)
        refl refl refl
  handle_command-Answers (wants_volume volume) h =
      let r = wants_volume volume in
      let small : to_u16 (atoi (print_nat volume)) ≡ volume =
        ap to_u16 (atoi-print_nat volume (omega arith)) ∙ omega arith in
      request-Answers env c r status time (some (asks_volume volume))
        (set_volume env.io c.mp3_player volume)
        (handle_command-lines_of env c tcp_set_volume (print_nat volume ∷ []) status time (λ e. cc)
          (λ e. cc) refl (arguments-IsLine r) (omega (arith, message_short env.sound_files r h)) t)
        (rw small refl) refl (ask-spec env.io c.mp3_player (asks_volume volume))
